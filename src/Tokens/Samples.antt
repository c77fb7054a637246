-- ===== src/Tokens/Samples.antt =====
-- A few tokens, and the theorems on tokens at them.
use Prim.Native.String.{◌++◌}
use new_backup_center.Base.{
  ◌≡◌, refl, Bool, true, false, none, some, String, List, [], ◌∷◌, str_eq, first,
}
use new_backup_center.Tokens.{
  ApiToken, create_token, revoke_token, verify_token, is_token_of, get_current_api_tenant,
}
use new_backup_center.Tokens.Access.{revoke_final}
use new_backup_center.Billing.Policy.Samples.{due_on}

-- A hash that hides nothing.
abbrev matches : String → String → Bool
matches raw hash = str_eq hash ("hash of " ++ raw)

abbrev keys : List ApiToken
keys =
    create_token "k1" "t1" "old" "bc_0123456789" "hash of bc_0123456789" (some 50)
      (create_token "k2" "t1" "erp" "bc_9876543210" "hash of bc_9876543210" none [])

abbrev erp : ApiToken
erp = record {
  id = "k2";
  tenant_id = "t1";
  name = "erp";
  token_prefix = "bc_987654321";
  token_hash = "hash of bc_9876543210";
  is_active = true;
  last_used_at = some 100;
  expires_at = none;
}

-- An expired token, and one that nobody has.
refused_run :
    ((verify_token matches 100 "bc_0123456789" keys).0 ≡ none)
    × ((get_current_api_tenant matches 100 (some "bc_5") keys (due_on 1 ∷ [])).0 ≡ none)
unfolding verify_token create_token get_current_api_tenant
refused_run = (refl, refl)

tenant_runs :
    (get_current_api_tenant matches 100 (some "bc_9876543210") keys (due_on 1 ∷ [])).0
    ≡ some (due_on 1)
unfolding get_current_api_tenant create_token first
tenant_runs = refl

revoke_final_example : is_token_of "k1" "t1" erp ≡ false
unfolding verify_token revoke_token create_token
revoke_final_example = revoke_final matches 100 "bc_9876543210" "k1" "t1" keys erp refl
