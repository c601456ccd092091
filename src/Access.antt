-- ===== src/Access.antt =====
-- internal/api/handlers.go, the access decisions that REST and WebSocket share, with the claims of
-- internal/auth/jwt_validator.go and the principal of internal/websocket/hub.go that they read.
pub mod Policy
use nebari_landing.Base.{
  ℕ, String, Bool, true, false, ◌&&◌, Option, none, some, List, [], ◌∷◌, if◌then◌else◌, str_eq,
  trim_prefix, any,
}
use nebari_landing.Cache.{ServiceInfo}

-- `Claims`: the fields of the token that the program reads. A time is a number of nanoseconds.
pub record Claims : Type 0 where
  pub subject : String
  pub issuer : String
  pub expires_at : Option ℕ
  pub email : String
  pub name : String
  pub preferred_username : String
  pub groups : List String

-- `Principal`
pub record Principal : Type 0 where
  pub subject : String
  pub groups : List String
  pub authenticated : Bool

-- `groupMatches`
unfoldable pub group_matches : String → String → Bool
group_matches claim_group want = str_eq (trim_prefix claim_group "/") (trim_prefix want "/")

-- `hasRequiredGroups`
unfoldable pub has_required_groups : List String → List String → Bool
has_required_groups user_groups [] = true
has_required_groups user_groups (r ∷ rest) =
    any (λ required. any (λ user_group. group_matches user_group required) user_groups) (r ∷ rest)

-- `canAccessPolicy`
unfoldable pub can_access_policy : String → Bool → List String → List String → Bool
can_access_policy visibility authenticated required_groups user_groups =
    if str_eq visibility "public"
    then true
    else if str_eq visibility "private"
    then (if authenticated then has_required_groups user_groups required_groups else false)
    else authenticated && has_required_groups user_groups required_groups

abbrev pub groups_of : Option Claims → List String
groups_of none = []
groups_of (some claims) = claims.groups

-- `Handler.canAccessService`
unfoldable pub can_access_service : ServiceInfo → Bool → Option Claims → Bool
can_access_service service authenticated claims =
    can_access_policy service.visibility authenticated service.required_groups (groups_of claims)

-- `Handler.CanAccessService`
unfoldable pub principal_can_access : ServiceInfo → Principal → Bool
principal_can_access service p =
    can_access_policy service.visibility p.authenticated service.required_groups p.groups

-- `principalFromClaims`
unfoldable pub principal_from_claims : Option Claims → Principal
principal_from_claims none = record { subject = ""; groups = []; authenticated = false }
principal_from_claims (some claims) = record {
  subject = claims.subject;
  groups = claims.groups;
  authenticated = true;
}

-- `expFromClaims`; `none` is the zero time.
unfoldable pub exp_from_claims : Option Claims → Option ℕ
exp_from_claims none = none
exp_from_claims (some claims) = claims.expires_at

-- `Handler.isAdmin`, for the configured admin group.
unfoldable pub is_admin : String → Claims → Bool
is_admin admin_group claims = any (λ g. group_matches g admin_group) claims.groups
