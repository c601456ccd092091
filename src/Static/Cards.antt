-- ===== src/Static/Cards.antt =====
-- A static entry in the cache: what its card says, and who sees it.
use nebari_landing.Base.{
  ◌≡◌, refl, sym, ap, subst, ◌⊎◌, ◌↔◌, inl, inr, true, false, Option, some, [], if◌then◌else◌,
  Bool-cases, is_blank, is_some, ◌+++◌, eq_nil_of_is_blank,
}
use nebari_landing.Probe.{TargetRules, HealthCheckConfig}
use nebari_landing.Probe.Trust.{build_config-IsFrom}
use nebari_landing.Cache.{ServiceInfo, ServiceCache, add, get, listed, build_url, service_of}
use nebari_landing.Cache.Updates.{add_result, get-add_self}
use nebari_landing.Access.{Claims, can_access_policy, can_access_service, groups_of}
use nebari_landing.Access.Policy.{Shares, can_access_policy_iff}
use nebari_landing.Static.{Service, http_url, app_of, page_of}
use nebari_landing.Static.Entries.{IsEntry}

-- The card of the entry `s`: its link is the configured one, a probe of it is trusted, and the
-- callers who see it are those that its visibility and its groups name.
pub record IsCard (s : Service) (card : ServiceInfo) : Type 0 where
  pub name : card.name ≡ s.id
  pub link : card.url ≡ s.url
  pub static : card.static ≡ true
  pub trusted : (cfg : HealthCheckConfig) → card.health_check_config ≡ some cfg → cfg.trusted ≡ true
  pub seen_by :
      (claims : Option Claims)
      → (can_access_service card (is_some claims) claims ≡ true) ↔ (
          (s.visibility ≡ "public")
          ⊎ ((is_some claims ≡ true)
              × ((s.required_groups ≡ []) ⊎ Shares (groups_of claims) s.required_groups)))

link_of : (s : Service) → is_blank s.url ≡ false → build_url (app_of s) ≡ s.url
unfolding build_url app_of page_of
link_of s e = rw e refl

visible :
    (s : Service)
    → (s.visibility ≡ "private") ⊎ (s.visibility ≡ "public")
    → (if is_blank s.visibility then "private" else s.visibility) ≡ s.visibility
visible s (inl e) = rw e refl
visible s (inr e) = rw e refl

has_link :
    (rules : TargetRules) (s : Service)
    → http_url rules "" ≡ false
    → IsEntry rules s
    → is_blank s.url ≡ false
has_link rules s h e = elim (Bool-cases (is_blank s.url)) [
  | inl b ↦ cc (h, e.link_ok, ap (http_url rules) (eq_nil_of_is_blank s.url b))
  | inr b ↦ b
]

add_result-IsCard :
    (rules : TargetRules) (s : Service) (c : ServiceCache)
    → http_url rules "" ≡ false
    → IsEntry rules s
    → IsCard s (add_result rules (app_of s) (page_of s) c)
unfolding service_of app_of page_of can_access_service
add_result-IsCard rules s c h e = record {
  name = refl;
  link = link_of s (has_link rules s h e);
  static = refl;
  trusted = λ cfg q. (build_config-IsFrom rules (app_of s) cfg q).trust;
  seen_by = λ claims.
      subst
        (λ v. (can_access_policy v (is_some claims) s.required_groups (groups_of claims) ≡ true) ↔ (
          (s.visibility ≡ "public")
          ⊎ ((is_some claims ≡ true)
              × ((s.required_groups ≡ []) ⊎ Shares (groups_of claims) s.required_groups))))
        (sym (visible s e.visibility_ok))
        (can_access_policy_iff s.visibility (is_some claims) s.required_groups (groups_of claims));
}

-- Where the empty text is no HTTP URL, adding an accepted entry to any cache puts its card under
-- the entry's id with the prefix "static-": the card links to the configured URL, a probe of it is
-- trusted, and a caller sees it exactly if the entry is public, or the caller is authenticated and
-- the entry lists no groups or one of the caller's.
pub get-add_static :
    (rules : TargetRules) (s : Service) (c : ServiceCache)
    → http_url rules "" ≡ false
    → IsEntry rules s
    → (card : ServiceInfo) × (get ("static-" +++ s.id) (add rules (some (app_of s)) c) ≡ some card)
      × IsCard s card
unfolding app_of page_of listed
get-add_static rules s c h e = (
  add_result rules (app_of s) (page_of s) c,
  get-add_self rules (app_of s) (page_of s) c refl,
  add_result-IsCard rules s c h e,
)
