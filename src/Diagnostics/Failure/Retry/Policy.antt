-- ===== src/Diagnostics/Failure/Retry/Policy.antt =====
-- What a batch never tries again, whatever the environment says.
use new_backup_center.Base.{
  ◌≡◌, subst, true, false, ◌⊎◌, inl, inr, Option, some, String, [], ◌∷◌, normalize, contains, is_in,
  arith,
}
use new_backup_center.Settings.{Env}
use new_backup_center.Diagnostics.Failure.{
  classify_failure, category_of, banner_marker, is_transient_failure,
}
use new_backup_center.Diagnostics.Failure.Range.{is_category-normalize, classify_failure_known}
use new_backup_center.Diagnostics.Failure.Retry.{should_retry_transient_failure}

normalize-category :
    (message : Option String)
    → normalize (some (classify_failure message)) ≡ classify_failure message
normalize-category message =
    is_category-normalize (classify_failure message) (classify_failure_known message)

normalize-twice :
    (message : Option String)
    → normalize (some (normalize (some (classify_failure message)))) ≡ classify_failure message
normalize-twice message = rw (normalize-category message, normalize-category message)

retry-is_transient :
    (env : Env) (category message name id : Option String)
    → should_retry_transient_failure env category message name id ≡ true
    → is_transient_failure (some (normalize category)) ≡ true
unfolding should_retry_transient_failure
retry-is_transient env category message name id h = ground arith

-- A classified failure that is tried again is of one of the four transient categories.
retry_transient :
    (env : Env) (message other name id : Option String)
    → should_retry_transient_failure env (some (classify_failure message)) other name id ≡ true
    → is_in
        (classify_failure message)
        ("timeout" ∷ "connection" ∷ "vpn" ∷ "jump_session_closed" ∷ [])
      ≡ true
unfolding is_transient_failure
retry_transient env message other name id h =
    subst (λ c. is_in c ("timeout" ∷ "connection" ∷ "vpn" ∷ "jump_session_closed" ∷ []) ≡ true)
      (normalize-twice message)
      (retry-is_transient env (some (classify_failure message)) other name id h)

banner_category :
    (text : String)
    → contains text banner_marker ≡ true
    → (category_of text ≡ "circuit_breaker")
      ⊎ ((category_of text ≡ "banner_timeout") ⊎ (category_of text ≡ "unknown"))
unfolding category_of
banner_category text h = ground arith

banner_permanent :
    (c : String)
    → (c ≡ "circuit_breaker") ⊎ ((c ≡ "banner_timeout") ⊎ (c ≡ "unknown"))
    → is_transient_failure (some (normalize (some c))) ≡ false
unfolding is_transient_failure normalize is_in
banner_permanent c (inl p) = rw p
banner_permanent c (inr (inl p)) = rw p
banner_permanent c (inr (inr p)) = rw p

permanent-not_retried :
    (env : Env) (category message name id : Option String)
    → is_transient_failure (some (normalize category)) ≡ false
    → should_retry_transient_failure env category message name id ≡ false
unfolding should_retry_transient_failure
permanent-not_retried env category message name id h = ground arith

-- A message that tells of a banner timeout is never tried again, whatever the device: neither as
-- what it is, nor where it speaks of a circuit breaker as well.
banner_not_retried :
    (env : Env) (message other name id : Option String)
    → contains (normalize message) banner_marker ≡ true
    → should_retry_transient_failure env (some (classify_failure message)) other name id ≡ false
unfolding classify_failure category_of
banner_not_retried env message other name id h =
    permanent-not_retried env (some (classify_failure message)) other name id
      (banner_permanent (classify_failure message) (banner_category (normalize message) h))
