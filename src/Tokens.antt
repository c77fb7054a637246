-- ===== src/Tokens.antt =====
-- services/api_token_service.py, models/api_token.py and api/v1/external/auth.py: the tokens that let
-- other programs in.
pub mod Access
pub mod Samples
use Prim.Native.String.{slice}
use new_backup_center.Base.{
  ℕ, ◌+◌, Bool, true, false, not, ◌&&◌, Option, none, some, String, List, [], ◌∷◌, ◌++◌, map, any,
  first, is_some, str_eq, ltb, if◌then◌else◌,
}
use new_backup_center.Models.{Tenant}

pub record ApiToken : Type 0 where
  pub id : String
  pub tenant_id : String
  pub name : String
  pub token_prefix : String
  pub token_hash : String
  pub is_active : Bool
  pub last_used_at : Option ℕ
  pub expires_at : Option ℕ

unfoldable pub is_expired : (now : ℕ) → ApiToken → Bool
is_expired now token = elim token.expires_at [ none ↦ false | some at ↦ ltb at now ]

-- `raw_token` is what `generate_raw_token` has drawn and `token_hash` its hash.
unfoldable pub create_token :
    (id tenant_id name raw_token token_hash : String)
    → (expires_at : Option ℕ) → List ApiToken
    → List ApiToken
create_token id tenant_id name raw_token token_hash expires_at tokens =
    tokens
    ++ (record {
      id = id;
      tenant_id = tenant_id;
      name = name;
      token_prefix = slice raw_token 0 12;
      token_hash = token_hash;
      is_active = true;
      last_used_at = none;
      expires_at = expires_at;
    }
        ∷ [])

unfoldable pub is_token_of : (token_id tenant_id : String) → ApiToken → Bool
is_token_of token_id tenant_id token = str_eq token.id token_id && str_eq token.tenant_id tenant_id

-- An id is the key of its table, so the query finds one row at most.
unfoldable pub revoke_token : (token_id tenant_id : String) → List ApiToken → Bool × List ApiToken
unfolding is_token_of
revoke_token token_id tenant_id tokens = (
  any (is_token_of token_id tenant_id) tokens,
  map (λ t. if is_token_of token_id tenant_id t then record t { is_active = false } else t) tokens,
)

unfoldable pub with_use : (now : ℕ) → ApiToken → ApiToken
with_use now token = record token { last_used_at = some now }

-- `verify raw hash` is `pwd_context.verify`, of passlib.
module _ (verify : String → String → Bool) (now : ℕ) where
  -- The loop over the candidates, which are the active tokens with the prefix of the raw one.
  unfoldable pub verify_candidates :
      (raw_token prefix : String) → List ApiToken → Option ApiToken × List ApiToken
  unfolding is_expired with_use
  verify_candidates raw_token prefix [] = (none, [])
  verify_candidates raw_token prefix (token ∷ tokens) =
      let (found, tokens') = verify_candidates raw_token prefix tokens in
      if str_eq token.token_prefix prefix && token.is_active && verify raw_token token.token_hash
      then (if is_expired now token
          then (none, token ∷ tokens)
          else (some (with_use now token), with_use now token ∷ tokens))
      else (found, token ∷ tokens')

  unfoldable pub verify_token :
      (raw_token : String) → List ApiToken → Option ApiToken × List ApiToken
  unfolding verify_candidates
  verify_token raw_token tokens =
      if str_eq (slice raw_token 0 3) "bc_"
      then verify_candidates raw_token (slice raw_token 0 12) tokens
      else (none, tokens)

  -- The two refusals of `get_current_api_tenant`, 401 and 403, are `none`.
  unfoldable pub get_current_api_tenant :
      (credentials : Option String) → List ApiToken → List Tenant → Option Tenant × List ApiToken
  unfolding verify_token
  get_current_api_tenant none tokens tenants = (none, tokens)
  get_current_api_tenant (some raw_token) tokens tenants =
      let (found, tokens') = verify_token raw_token tokens in
      (
        elim found [
          | none ↦ none
          | some token ↦ first (λ t. str_eq t.id token.tenant_id && t.is_active) tenants
        ],
        tokens',
      )
