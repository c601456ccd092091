-- ===== src/Cache/Listing.antt =====
-- What `GetAll` and `GetCategories` list.
use nebari_landing.Base.{
  String, ◌≡◌, ◌∙◌, refl, sym, ap, ◌↔◌, ◌⊎◌, inl, inr, true, false, List, [], ◌∷◌, Memᴰ, arith,
  Bool-cases, some, str_ltb, str_ltb_asymm, str_ltb_neg_trans, str_ltb_total, is_blank, has,
  has→Memᴰ, Memᴰ→has, lookup, values, lookup_of_Memᴰ, Memᴰ_of_lookup, Perm, insertion_sort,
  IsOrdered, NoRepeat, IsAscending, insertion_sort-IsOrdered, insertion_sort-perm,
  Memᴰ-insertion_sort, insertion_sort-NoRepeat, IsAscending-of,
}
use nebari_landing.Cache.{
  ServiceInfo, ServiceCache, get, listed_before, get_all, category_set, get_categories,
}
use nebari_landing.Cache.Invariant.{IsKeyed}

listed_before_asymm : (s t : ServiceInfo) → listed_before s t ≡ true → listed_before t s ≡ false
unfolding listed_before
listed_before_asymm s t h = ground (arith, str_ltb_asymm s.name t.name)

listed_before_neg_trans :
    (s t u : ServiceInfo)
    → listed_before t s ≡ false
    → listed_before u t ≡ false
    → listed_before u s ≡ false
unfolding listed_before
listed_before_neg_trans s t u h k = ground (arith, str_ltb_neg_trans s.name t.name u.name)

-- `GetAll` lists exactly the services that `Get` finds under their own UIDs, and no service comes
-- before one of smaller priority, or of the same priority and a smaller name.
pub get_all-lists :
    (c : ServiceCache)
    → IsKeyed c
    → IsOrdered listed_before (get_all c)
      × ((s : ServiceInfo) → Memᴰ s (get_all c) ↔ (get s.uid c ≡ some s))
unfolding get_all get
get_all-lists c v = (
  insertion_sort-IsOrdered listed_before listed_before_asymm listed_before_neg_trans
      (values c.services),
  (λ s. (
    (λ m.
        let (k, e) =
          lookup_of_Memᴰ c.services s v.distinct
            ((Memᴰ-insertion_sort listed_before s (values c.services)).0 m) in
        ap (λ u. lookup u c.services) (v.own_uid k s e) ∙ e),
    (λ e.
        (Memᴰ-insertion_sort listed_before s (values c.services)).1
          (Memᴰ_of_lookup c.services s.uid s e)),
  )),
)

-- `GetAll` repeats no entry of the map and drops none.
pub get_all-perm : (c : ServiceCache) → Perm (get_all c) (values c.services)
unfolding get_all
get_all-perm c = insertion_sort-perm listed_before (values c.services)

abbrev HasCategory : String → List ServiceInfo → Type 0
HasCategory k l = (s : ServiceInfo) × Memᴰ s l × (s.category ≡ k)

category_set-NoRepeat : (l : List ServiceInfo) → NoRepeat (category_set l)
unfolding category_set
category_set-NoRepeat [] = tt
category_set-NoRepeat (s ∷ l) = elim (Bool-cases (is_blank s.category)) [
  | inl e ↦ rw e (category_set-NoRepeat l)
  | inr e ↦ rw e (elim (Bool-cases (has s.category (category_set l))) [
    | inl q ↦ rw q (category_set-NoRepeat l)
    | inr q ↦ rw q ((λ m. cc (Memᴰ→has s.category (category_set l) m, q)), category_set-NoRepeat l)
  ])
]

later :
    {k : String} {s : ServiceInfo} {l : List ServiceInfo} → HasCategory k l → HasCategory k (s ∷ l)
later (t, m, e) = (t, Memᴰ.tail m, e)

category_set_sound :
    (k : String) (l : List ServiceInfo)
    → Memᴰ k (category_set l)
    → HasCategory k l × (is_blank k ≡ false)
unfolding category_set
category_set_sound k [] m = elim m [ ]
category_set_sound k (s ∷ l) m = elim (Bool-cases (is_blank s.category)) [
  | inl e ↦ let (h, n) = category_set_sound k l (rw e at m) in (later h, n)
  | inr e ↦ elim (Bool-cases (has s.category (category_set l))) [
    | inl q ↦ let (h, n) = category_set_sound k l (rw (e, q) at m) in (later h, n)
    | inr q ↦ first (category_set_sound k l) e (rw (e, q) at m)
  ]
]
  where
    first :
        (Memᴰ k (category_set l) → HasCategory k l × (is_blank k ≡ false))
        → is_blank s.category ≡ false
        → Memᴰ k (s.category ∷ category_set l)
        → HasCategory k (s ∷ l) × (is_blank k ≡ false)
    first rest e (Memᴰ.head q) = ((s, Memᴰ.head refl, sym q), ap is_blank q ∙ e)
    first rest e (Memᴰ.tail n) = let (h, b) = rest n in (later h, b)

category_set-complete :
    (k : String) (l : List ServiceInfo)
    → HasCategory k l
    → is_blank k ≡ false
    → Memᴰ k (category_set l)
unfolding category_set
category_set-complete k [] (t, m, e) b = elim m [ ]
category_set-complete k (s ∷ l) (t, m, e) b = elim (Bool-cases (is_blank s.category)) [
  | inl q ↦ rw q (elim (here_or_later m) [
    | inl h ↦ absurd (blank_clash h q)
    | inr n ↦ category_set-complete k l (t, n, e) b
  ])
  | inr q ↦ rw q (elim (Bool-cases (has s.category (category_set l))) [
    | inl p ↦ rw p (elim (here_or_later m) [
      | inl h ↦ rw (sym (ap (λ u. u.category) h) ∙ e) at (has→Memᴰ s.category (category_set l) p)
      | inr n ↦ category_set-complete k l (t, n, e) b
    ])
    | inr p ↦ rw p (elim (here_or_later m) [
      | inl h ↦ Memᴰ.head (sym e ∙ ap (λ u. u.category) h)
      | inr n ↦ Memᴰ.tail (category_set-complete k l (t, n, e) b)
    ])
  ])
]
  where
    here_or_later : Memᴰ t (s ∷ l) → (t ≡ s) ⊎ Memᴰ t l
    here_or_later (Memᴰ.head h) = inl h
    here_or_later (Memᴰ.tail n) = inr n

    blank_clash : t ≡ s → is_blank s.category ≡ true → ⊥
    blank_clash h q = cc (ap is_blank e, ap (λ u. is_blank u.category) h, q, b)

-- `GetCategories` lists exactly the categories of the cached services that are not empty, in
-- strictly ascending order, so each once.
pub get_categories-lists :
    (c : ServiceCache)
    → IsAscending str_ltb (get_categories c)
      × ((k : String)
          → Memᴰ k (get_categories c) ↔ (
              ((s : ServiceInfo) × Memᴰ s (values c.services) × (s.category ≡ k))
              × (is_blank k ≡ false)))
unfolding get_categories
get_categories-lists c =
    let found = category_set (values c.services) in
    (
      IsAscending-of str_ltb (insertion_sort str_ltb found) (λ a b m n. str_ltb_total a b)
          (insertion_sort-NoRepeat str_ltb found (category_set-NoRepeat (values c.services)))
          (insertion_sort-IsOrdered str_ltb str_ltb_asymm str_ltb_neg_trans found),
      (λ k. (
        (λ m. category_set_sound k (values c.services) ((Memᴰ-insertion_sort str_ltb k found).0 m)),
        (λ (h, b).
            (Memᴰ-insertion_sort str_ltb k found).1
              (category_set-complete k (values c.services) h b)),
      )),
    )
