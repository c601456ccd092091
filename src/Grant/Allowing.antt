-- ===== src/Grant/Allowing.antt =====
-- `referenceGrantAllows`: what a grant must hold.
use nebari_landing.Base.{
  String, ◌≡◌, ◌∙◌, refl, ap, ◌⊎◌, ◌↔◌, inl, inr, Bool, true, false, not, ◌&&◌, ◌||◌, Option, none,
  some, List, Memᴰ, arith, eq_iff, if◌then◌else◌, is_blank, any→Exists, Exists→any,
  eq_nil_of_is_blank, &&-split, ||-split,
}
use nebari_landing.Grant.{Fields, from_allows, to_allows, slices_allow, grant_allows}

all_four :
    {a b c d : Bool} → a ≡ true → b ≡ true → c ≡ true → d ≡ true → (a && (b && (c && d))) ≡ true
all_four p q r t = rw (p, q, r, t) refl

either : {a b : Bool} → (a ≡ true) ⊎ (b ≡ true) → (a || b) ≡ true
either (inl p) = rw p refl
either {a} (inr p) = ground (arith, p)

guarded : (a b : Bool) → (if not a then false else b) ≡ true → (a ≡ true) × (b ≡ true)
guarded true b h = (refl, h)
guarded false b h = cc

unguarded : (a b : Bool) → a ≡ true → b ≡ true → (if not a then false else b) ≡ true
unguarded true b h k = k
unguarded false b h k = cc

module _ {V : Type 0} (fields : Fields V) where
  -- An entry of "from" that names the NebariApps of a namespace.
  pub record IsSource (namespace : String) (e : V) : Type 0 where
    pub map : fields.is_map e ≡ true
    pub group : fields.text "group" e ≡ "reconcilers.nebari.dev"
    pub kind : fields.text "kind" e ≡ "NebariApp"
    pub named : fields.text "namespace" e ≡ namespace

  -- An entry of "to" that names a Service, or every Service.
  pub record IsGoal (service : String) (e : V) : Type 0 where
    pub map : fields.is_map e ≡ true
    pub group : fields.text "group" e ≡ ""
    pub kind : fields.text "kind" e ≡ "Service"
    pub named : (fields.text "name" e ≡ "") ⊎ (fields.text "name" e ≡ service)

  -- A grant with such an entry on each side.
  pub record IsGrant (namespace service : String) (grant : V) : Type 0 where
    pub source :
        (from : List V) × (e : V) × (fields.spec_slice "from" grant ≡ some from)
        × Memᴰ e from
        × IsSource namespace e
    pub goal :
        (to : List V) × (e : V) × (fields.spec_slice "to" grant ≡ some to)
        × Memᴰ e to
        × IsGoal service e

  from_allows_iff :
      (namespace : String) (e : V) → (from_allows fields namespace e ≡ true) ↔ IsSource namespace e
  unfolding from_allows
  from_allows_iff namespace e =
      let m = eq_iff (fields.text "group" e) "reconcilers.nebari.dev" in
      let k = eq_iff (fields.text "kind" e) "NebariApp" in
      let n = eq_iff (fields.text "namespace" e) namespace in
      (
        (λ h.
            let (a, h1) = &&-split _ _ h in
            let (b, h2) = &&-split _ _ h1 in
            let (c, d) = &&-split _ _ h2 in
            record { map = a; group = m.0 b; kind = k.0 c; named = n.0 d }),
        (λ i. all_four i.map (m.1 i.group) (k.1 i.kind) (n.1 i.named)),
      )

  to_allows_iff :
      (service : String) (e : V) → (to_allows fields service e ≡ true) ↔ IsGoal service e
  unfolding to_allows
  to_allows_iff service e =
      let k = eq_iff (fields.text "kind" e) "Service" in
      let n = eq_iff (fields.text "name" e) service in
      (
        (λ h.
            let (a, h1) = &&-split _ _ h in
            let (b, h2) = &&-split _ _ h1 in
            let (c, d) = &&-split _ _ h2 in
            record {
              map = a;
              group = eq_nil_of_is_blank (fields.text "group" e) b;
              kind = k.0 c;
              named = elim (||-split _ _ d) [
                | inl p ↦ inl (eq_nil_of_is_blank (fields.text "name" e) p)
                | inr p ↦ inr (n.0 p)
              ];
            }),
        (λ i.
            all_four i.map (ap is_blank i.group) (k.1 i.kind) (elim i.named [
              | inl p ↦ either (inl (ap is_blank p))
              | inr p ↦ either (inr (n.1 p))
            ])),
      )

  IsGrant-of_slices :
      (grant : V) (o p : Option (List V)) (namespace service : String)
      → fields.spec_slice "from" grant ≡ o
      → fields.spec_slice "to" grant ≡ p
      → slices_allow fields o p namespace service ≡ true
      → IsGrant namespace service grant
  IsGrant-of_slices grant none p namespace service a b h = cc
  IsGrant-of_slices grant (some from) none namespace service a b h = cc
  IsGrant-of_slices grant (some from) (some to) namespace service a b h =
      let (x, y) = guarded _ _ h in
      let (e, m, i) = any→Exists (from_allows fields namespace) from x in
      let (g, n, j) = any→Exists (to_allows fields service) to y in
      record {
        source = (from, e, a, m, (from_allows_iff namespace e).0 i);
        goal = (to, g, b, n, (to_allows_iff service g).0 j);
      }

  slices_of_grant :
      (grant : V) (namespace service : String)
      → IsGrant namespace service grant
      → grant_allows fields grant namespace service ≡ true
  unfolding grant_allows
  slices_of_grant grant namespace service i =
      let (from, e, a, m, s) = i.source in
      let (to, g, b, n, t) = i.goal in
      ap (λ o. slices_allow fields o (fields.spec_slice "to" grant) namespace service) a
      ∙ ap (λ o. slices_allow fields (some from) o namespace service) b
      ∙ unguarded _ _
          (Exists→any (from_allows fields namespace) from e m ((from_allows_iff namespace e).1 s))
          (Exists→any (to_allows fields service) to g n ((to_allows_iff service g).1 t))

  -- A grant allows a NebariApp's namespace to name a Service exactly if it has an entry on its "from"
  -- side that names the NebariApps of that namespace, and one on its "to" side that names the
  -- Service, or Services without a name.
  pub grant_allows_iff :
      (grant : V) (namespace service : String)
      → (grant_allows fields grant namespace service ≡ true) ↔ IsGrant namespace service grant
  unfolding grant_allows
  grant_allows_iff grant namespace service = (
    IsGrant-of_slices grant (fields.spec_slice "from" grant) (fields.spec_slice "to" grant)
        namespace service refl refl,
    slices_of_grant grant namespace service,
  )
