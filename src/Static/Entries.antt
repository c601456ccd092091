-- ===== src/Static/Entries.antt =====
-- `validate`: which entries it accepts, and what it fills in.
use nebari_landing.Base.{
  String, ◌≡◌, ◌∙◌, refl, sym, ap, ◌⊎◌, inl, inr, Bool, true, false, List, [], ◌∷◌, eq_iff,
  if◌then◌else◌, Bool-cases, str_eq, is_blank, differ,
}
use nebari_landing.Probe.{TargetRules}
use nebari_landing.Static.{
  Service, Invalid, ParseError, matches_id, http_url, no_groups, settle_visibility, check_url,
  then_check, validate,
}

-- An entry that may be shown: a label as its id, an HTTP link, a known visibility, no groups where
-- it is public, and an HTTP probe where it has one.
pub record IsEntry (rules : TargetRules) (s : Service) : Type 0 where
  pub id_ok : matches_id s.id ≡ true
  pub link_ok : http_url rules s.url ≡ true
  pub visibility_ok : (s.visibility ≡ "private") ⊎ (s.visibility ≡ "public")
  pub groups_ok : s.visibility ≡ "public" → s.required_groups ≡ []
  pub check_ok : check_url rules s.health_check ≡ true

-- An entry with the default visibility.
abbrev pub with_default : Service → Service
with_default s = if is_blank s.visibility then record s { visibility = "private" } else s

entry_inj : {s t : Service} → ◌≡◌ {A = Invalid ⊎ Service} (inr s) (inr t) → s ≡ t
entry_inj e = cc

pub list_inj : {l m : List Service} → ◌≡◌ {A = ParseError ⊎ List Service} (inr l) (inr m) → l ≡ m
list_inj e = cc

-- What the switch on the visibility accepts.
record IsSettled (s t : Service) : Type 0 where
  defaulted : t ≡ with_default s
  known : (t.visibility ≡ "private") ⊎ (t.visibility ≡ "public")
  no_gate : t.visibility ≡ "public" → t.required_groups ≡ []

empty_groups : (l : List String) → no_groups l ≡ true → l ≡ []
empty_groups [] h = refl
empty_groups (g ∷ l) h = cc

kept : (s t : Service) → is_blank s.visibility ≡ false → s ≡ t → t ≡ with_default s
kept s t b e = sym e ∙ sym (ap (λ x. if x then record s { visibility = "private" } else s) b)

settled : (s t : Service) → settle_visibility s ≡ inr t → IsSettled s t
unfolding settle_visibility
settled s t h = elim (Bool-cases (is_blank s.visibility)) [
  | inl b ↦
      let e = entry_inj (rw b at h) in
      record {
        defaulted = sym e ∙ sym (ap (λ x. if x then record s { visibility = "private" } else s) b);
        known = inl (sym (ap (λ x. x.visibility) e));
        no_gate = λ p. absurd (differ "private" "public" refl (ap (λ x. x.visibility) e ∙ p));
      }
  | inr b ↦ elim (Bool-cases (str_eq s.visibility "private")) [
    | inl p ↦
        let e = entry_inj (rw (b, p) at h) in
        let v = sym (ap (λ x. x.visibility) e) ∙ (eq_iff s.visibility "private").0 p in
        record {
          defaulted = kept s t b e;
          known = inl v;
          no_gate = λ q. absurd (differ "private" "public" refl (sym v ∙ q));
        }
    | inr p ↦ elim (Bool-cases (str_eq s.visibility "public")) [
      | inl q ↦ elim (Bool-cases (no_groups s.required_groups)) [
        | inl g ↦
            let e = entry_inj (rw (b, p, q, g) at h) in
            record {
              defaulted = kept s t b e;
              known = inr (sym (ap (λ x. x.visibility) e) ∙ (eq_iff s.visibility "public").0 q);
              no_gate = λ r. sym (ap (λ x. x.required_groups) e) ∙ empty_groups s.required_groups g;
            }
        | inr g ↦ cc (rw (b, p, q, g) at h)
      ]
      | inr q ↦ cc (rw (b, p, q) at h)
    ]
  ]
]

pub same_fields :
    (b : Bool) (s : Service)
    → let t = if b then record s { visibility = "private" } else s in
      (t.id ≡ s.id) × (t.url ≡ s.url) × (t.health_check ≡ s.health_check)
same_fields true s = (refl, refl, refl)
same_fields false s = (refl, refl, refl)

checked :
    (rules : TargetRules) (r : Invalid ⊎ Service) (t : Service)
    → then_check rules r ≡ inr t
    → (r ≡ inr t) × (check_url rules t.health_check ≡ true)
checked rules (inl e) t h = cc
checked rules (inr s) t h = elim (Bool-cases (check_url rules s.health_check)) [
  | inl b ↦
      let e : s ≡ t = entry_inj (rw b at h) in
      (ap inr e, ap (λ x. check_url rules x.health_check) (sym e) ∙ b)
  | inr b ↦ cc (rw b at h)
]

pub validate_sound :
    (rules : TargetRules) (s t : Service)
    → validate rules s ≡ inr t
    → (t ≡ with_default s) × IsEntry rules t
unfolding validate
validate_sound rules s t h = elim (Bool-cases (matches_id s.id)) [
  | inl a ↦ elim (Bool-cases (http_url rules s.url)) [
    | inl b ↦
        let (r, c) = checked rules (settle_visibility s) t (rw (a, b) at h) in
        let v = settled s t r in
        let (same_id, same_url, _) = same_fields (is_blank s.visibility) s in
        (
          v.defaulted,
          record {
            id_ok = ap matches_id (ap (λ x. x.id) v.defaulted ∙ same_id) ∙ a;
            link_ok = ap (http_url rules) (ap (λ x. x.url) v.defaulted ∙ same_url) ∙ b;
            visibility_ok = v.known;
            groups_ok = v.no_gate;
            check_ok = c;
          },
        )
    | inr b ↦ cc (rw (a, b) at h)
  ]
  | inr a ↦ cc (rw a at h)
]
