-- ===== src/Access/Policy.antt =====
-- Who may see a service.
use nebari_landing.Base.{
  String, ◌≡◌, refl, ◌↔◌, ◌⊎◌, inl, inr, Bool, true, Option, none, some, List, [], ◌∷◌, Memᴰ, arith,
  eq_iff, Bool-cases, is_some, str_eq, ◌+++◌, drop_prefix, drop_prefix-append, trim_prefix, any,
  any→Exists, Exists→any,
}
use nebari_landing.Cache.{ServiceInfo}
use nebari_landing.Access.{
  Claims, group_matches, has_required_groups, can_access_policy, can_access_service,
  principal_can_access, principal_from_claims, is_admin,
}

-- Two spellings of a group are one if they agree behind at most one leading slash.
abbrev pub SameGroup : String → String → Type 0
SameGroup g h = trim_prefix g "/" ≡ trim_prefix h "/"

-- Some group of the caller is one of the required ones.
abbrev pub Shares : List String → List String → Type 0
Shares user_groups required =
    (r : String) × (u : String) × Memᴰ r required × Memᴰ u user_groups × SameGroup u r

group_matches_iff : (g h : String) → (group_matches g h ≡ true) ↔ SameGroup g h
unfolding group_matches
group_matches_iff g h = eq_iff (trim_prefix g "/") (trim_prefix h "/")

has_required_groups_iff :
    (user_groups required : List String)
    → (has_required_groups user_groups required ≡ true)
      ↔ ((required ≡ []) ⊎ Shares user_groups required)
unfolding has_required_groups
has_required_groups_iff user_groups [] = ((λ h. inl refl), (λ h. refl))
has_required_groups_iff user_groups (q ∷ rest) = (
  (λ h.
      let (r, m, hr) = any→Exists (λ r. any (λ u. group_matches u r) user_groups) (q ∷ rest) h in
      let (u, n, hu) = any→Exists (λ u. group_matches u r) user_groups hr in
      inr (r, u, m, n, (group_matches_iff u r).0 hu)),
  (λ h. elim h [
    | inl e ↦ cc
    | inr (r, u, m, n, e) ↦
        Exists→any (λ r. any (λ u. group_matches u r) user_groups) (q ∷ rest) r m
          (Exists→any (λ u. group_matches u r) user_groups u n ((group_matches_iff u r).1 e))
  ]),
)

pub can_access_policy_iff :
    (visibility : String) (authenticated : Bool) (required user_groups : List String)
    → (can_access_policy visibility authenticated required user_groups ≡ true) ↔ (
        (visibility ≡ "public")
        ⊎ ((authenticated ≡ true) × ((required ≡ []) ⊎ Shares user_groups required)))
unfolding can_access_policy
can_access_policy_iff visibility authenticated required user_groups = (
  (λ h. elim (Bool-cases (str_eq visibility "public")) [
    | inl e ↦ inl ((eq_iff visibility "public").0 e)
    | inr e ↦ inr (ground arith, (has_required_groups_iff user_groups required).0 (ground arith))
  ]),
  (λ h. elim h [
    | inl e ↦ ground (arith, eq_iff visibility "public")
    | inr (a, g) ↦ ground (arith, (has_required_groups_iff user_groups required).1 g)
  ]),
)

-- REST and WebSocket decide alike: what a request with these claims, or with none, may read is
-- what a connection opened with them is sent.
pub principal_can_access-can_access_service :
    (service : ServiceInfo) (claims : Option Claims)
    → principal_can_access service (principal_from_claims claims)
      ≡ can_access_service service (is_some claims) claims
unfolding principal_can_access principal_from_claims can_access_service
principal_can_access-can_access_service service none = refl
principal_can_access-can_access_service service (some claims) = refl

-- A caller is an admin exactly if one of the caller's groups is the admin group, up to one leading
-- slash on each side.
pub is_admin_iff :
    (admin_group : String) (claims : Claims)
    → (is_admin admin_group claims ≡ true)
      ↔ ((g : String) × Memᴰ g claims.groups × SameGroup g admin_group)
unfolding is_admin
is_admin_iff admin_group claims = (
  (λ h.
      let (g, m, e) = any→Exists (λ g. group_matches g admin_group) claims.groups h in
      (g, m, (group_matches_iff g admin_group).0 e)),
  (λ (g, m, e).
      Exists→any (λ g. group_matches g admin_group) claims.groups g m
        ((group_matches_iff g admin_group).1 e)),
)

-- A Keycloak path "/g" and the short name "g" are the same group, where "g" has no slash of its own.
pub SameGroup-path : (g : String) → drop_prefix "/" g ≡ none → SameGroup ("/" +++ g) g
unfolding trim_prefix
SameGroup-path g h = rw (drop_prefix-append "/" g, h) refl
