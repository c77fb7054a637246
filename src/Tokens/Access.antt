-- ===== src/Tokens/Access.antt =====
-- Which tokens let in, and that a revoked one does not.
use Prim.Native.String.{slice}
use new_backup_center.Base.{ℕ, ◌≡◌, Bool, true, false, some, String, List, [], ◌∷◌, arith}
use new_backup_center.Tokens.{
  ApiToken, is_expired, is_token_of, revoke_token, with_use, verify_candidates, verify_token,
}

module _ (verify : String → String → Bool) (now : ℕ) where
  candidates_sound :
      (raw prefix : String) (tokens : List ApiToken) (t : ApiToken)
      → (verify_candidates verify now raw prefix tokens).0 ≡ some t
      → (t.is_active ≡ true)
        × (verify raw t.token_hash ≡ true)
        × (is_expired now t ≡ false)
        × (t.last_used_at ≡ some now)
  unfolding verify_candidates is_expired with_use
  candidates_sound raw prefix [] t h = ground (arith, h)
  candidates_sound raw prefix (token ∷ tokens) t h =
      ground (arith, h, candidates_sound raw prefix tokens t)

  -- A token that is accepted is active, not expired, fits the raw one, and is stamped with the time of use.
  verify_sound :
      (raw : String) (tokens : List ApiToken) (t : ApiToken)
      → (verify_token verify now raw tokens).0 ≡ some t
      → (t.is_active ≡ true)
        × (verify raw t.token_hash ≡ true)
        × (is_expired now t ≡ false)
        × (t.last_used_at ≡ some now)
  unfolding verify_token
  verify_sound raw tokens t h = ground (arith, h, candidates_sound raw (slice raw 0 12) tokens t)

  candidates_revoked :
      (raw prefix id tenant : String) (tokens : List ApiToken) (t : ApiToken)
      → (verify_candidates verify now raw prefix (revoke_token id tenant tokens).1).0 ≡ some t
      → is_token_of id tenant t ≡ false
  unfolding verify_candidates revoke_token is_token_of with_use
  candidates_revoked raw prefix id tenant [] t h = ground (arith, h)
  candidates_revoked raw prefix id tenant (token ∷ tokens) t h =
      ground (arith, h, candidates_revoked raw prefix id tenant tokens t)

  -- In the table that a revocation leaves, the token that its tenant has revoked is not accepted, whatever
  -- is presented.
  pub revoke_final :
      (raw id tenant : String) (tokens : List ApiToken) (t : ApiToken)
      → (verify_token verify now raw (revoke_token id tenant tokens).1).0 ≡ some t
      → is_token_of id tenant t ≡ false
  unfolding verify_token
  revoke_final raw id tenant tokens t h =
      ground (arith, h, candidates_revoked raw (slice raw 0 12) id tenant tokens t)
