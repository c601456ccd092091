-- ===== src/Static/Parsing.antt =====
-- `Parse`: what holds of the entries that it accepts.
use nebari_landing.Base.{
  ℕ, String, ◌+◌, ◌≡◌, ◌∙◌, refl, sym, ap, ◌⊎◌, inl, inr, Bool, true, false, Option, none, some,
  List, [], ◌∷◌, map, Memᴰ, arith, Bool-cases, is_blank, has, any, subst, Memᴰ→has, Memᴰ-map,
  NoRepeat,
}
use nebari_landing.Probe.{TargetRules}
use nebari_landing.Static.{
  Service, Invalid, ParseError, validate, cons_result, take_entry, check_all, parse, parse_decoded,
  all_space,
}
use nebari_landing.Static.Entries.{IsEntry, with_default, list_inj, same_fields, validate_sound}

-- The entries that are accepted behind the ids that were `seen`.
pub record IsParsed (rules : TargetRules) (seen : List String) (services out : List Service)
    : Type 0 where
  pub defaults : out ≡ map with_default services
  pub entries : (s : Service) → Memᴰ s out → IsEntry rules s
  pub fresh : (s : Service) → Memᴰ s out → has s.id seen ≡ false
  pub distinct : NoRepeat (map (λ (s : Service). s.id) out)

take_entry_sound :
    (i : ℕ) (id : String) (seen : List String) (v : Invalid ⊎ Service)
    (rest : ParseError ⊎ List Service) (out : List Service)
    → take_entry i id seen v rest ≡ inr out
    → (t : Service) × (l : List Service) × (v ≡ inr t)
      × (rest ≡ inr l)
      × (has id seen ≡ false)
      × (out ≡ t ∷ l)
take_entry_sound i id seen (inl e) rest out h = cc
take_entry_sound i id seen (inr t) rest out h = elim (Bool-cases (has id seen)) [
  | inl b ↦ cc (rw b at h)
  | inr b ↦ by_rest rest (rw b at h) b
]
  where
    by_rest :
        (rest : ParseError ⊎ List Service)
        → cons_result t rest ≡ inr out
        → has id seen ≡ false
        → (u : Service) × (l : List Service) × (◌≡◌ {A = Invalid ⊎ Service} (inr t) (inr u))
          × (rest ≡ inr l)
          × (has id seen ≡ false)
          × (out ≡ u ∷ l)
    by_rest (inl e) h b = cc
    by_rest (inr l) h b = (t, l, refl, refl, b, sym (list_inj h))

has_tail : (x y : String) (l : List String) → has x (y ∷ l) ≡ false → has x l ≡ false
unfolding has any
has_tail x y l h = ground arith

cons-entries :
    (rules : TargetRules) (t : Service) (l : List Service)
    → IsEntry rules t
    → ((s : Service) → Memᴰ s l → IsEntry rules s)
    → (s : Service) → Memᴰ s (t ∷ l)
    → IsEntry rules s
cons-entries rules t l e f s (Memᴰ.head q) = subst (IsEntry rules) (sym q) e
cons-entries rules t l e f s (Memᴰ.tail m) = f s m

cons-fresh :
    (seen : List String) (id : String) (t : Service) (l : List Service)
    → t.id ≡ id
    → has id seen ≡ false
    → ((s : Service) → Memᴰ s l → has s.id (id ∷ seen) ≡ false)
    → (s : Service) → Memᴰ s (t ∷ l)
    → has s.id seen ≡ false
cons-fresh seen id t l e h f s (Memᴰ.head q) = ap (λ x. has x seen) (ap (λ x. x.id) q ∙ e) ∙ h
cons-fresh seen id t l e h f s (Memᴰ.tail m) = has_tail s.id id seen (f s m)

cons-IsParsed :
    (rules : TargetRules) (seen : List String) (s t : Service) (rest l : List Service)
    → t ≡ with_default s
    → IsEntry rules t
    → has s.id seen ≡ false
    → IsParsed rules (s.id ∷ seen) rest l
    → IsParsed rules seen (s ∷ rest) (t ∷ l)
cons-IsParsed rules seen s t rest l d e f p =
    let same_id : t.id ≡ s.id = ap (λ x. x.id) d ∙ (same_fields (is_blank s.visibility) s).0 in
    record {
      defaults = ap (λ x. x ∷ l) d ∙ ap (λ m. with_default s ∷ m) p.defaults;
      entries = cons-entries rules t l e p.entries;
      fresh = cons-fresh seen s.id t l same_id f p.fresh;
      distinct = (
        (λ m.
            let (u, n, q) = Memᴰ-map (λ (s : Service). s.id) l t.id m in
            cc (p.fresh u n, Memᴰ→has u.id (s.id ∷ seen) (Memᴰ.head (sym q ∙ same_id)))),
        p.distinct,
      );
    }

check_all-IsParsed :
    (rules : TargetRules) (i : ℕ) (seen : List String) (l out : List Service)
    → check_all rules i seen l ≡ inr out
    → IsParsed rules seen l out
unfolding check_all
check_all-IsParsed rules i seen [] out h = subst (IsParsed rules seen []) (list_inj h) (record {
  defaults = refl;
  entries = λ s m. elim m [ ];
  fresh = λ s m. elim m [ ];
  distinct = tt;
})
check_all-IsParsed rules i seen (s ∷ rest) out h =
    let (t, l, v, r, f, o) =
      take_entry_sound i s.id seen (validate rules s) (check_all rules (i + 1) (s.id ∷ seen) rest)
        out h in
    let (d, e) = validate_sound rules s t v in
    subst (IsParsed rules seen (s ∷ rest)) (sym o) (
      cons-IsParsed rules seen s t rest l d e f
        (check_all-IsParsed rules (i + 1) (s.id ∷ seen) rest l r))

-- If `Parse` accepts a text with something in it, then the text holds one array and nothing else,
-- and the entries are those of the array with the visibility "private" where it was left out. Each
-- has a label as its id, an HTTP link, a known visibility, no groups where it is public, and an HTTP
-- probe where it has one; and no two have the same id.
pub parse-IsParsed :
    (rules : TargetRules) (decode : String → Option (List Service × Bool)) (text : String)
    (out : List Service)
    → parse rules decode text ≡ inr out
    → all_space text ≡ false
    → (services : List Service) × (decode text ≡ some (services, true))
      × IsParsed rules [] services out
unfolding parse
parse-IsParsed rules decode text out h b = by_decoded (decode text) refl (rw b at h)
  where
    by_decoded :
        (o : Option (List Service × Bool))
        → decode text ≡ o
        → parse_decoded rules o ≡ inr out
        → (services : List Service) × (decode text ≡ some (services, true))
          × IsParsed rules [] services out
    by_decoded none e h = cc
    by_decoded (some (services, true)) e h =
        (services, e, check_all-IsParsed rules 0 [] services out h)
    by_decoded (some (services, false)) e h = cc
