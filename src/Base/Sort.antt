-- ===== src/Base/Sort.antt =====
-- `sort.Slice` by a comparison: some permutation in which nothing stands above what follows it.
-- Where the comparison leaves two elements unordered, Go promises no order between them.
use mathlib.Core.Path.{◌≡◌, ◌∙◌, refl, sym, ap}
use mathlib.Core.Logic.{◌⊎◌, ◌↔◌, inl, inr}
use mathlib.Core.Bool.{Bool, true, false}
use mathlib.Core.List.{List, [], ◌∷◌, Perm, Memᴰ}
use mathlib.Core.List.Perm
use nebari_landing.Base.Tests.{if◌then◌else◌, Bool-cases}

-- No element stands twice.
abbrev pub NoRepeat {ℓ} : {A : Type ℓ} → List A → Type ℓ
NoRepeat [] = Unit
NoRepeat (x ∷ l) = (¬ Memᴰ x l) × NoRepeat l

module _ {ℓ} {A : Type ℓ} (less : A → A → Bool) where
  unfoldable pub insert_sorted : A → List A → List A
  insert_sorted x [] = x ∷ []
  insert_sorted x (y ∷ l) = if less x y then x ∷ y ∷ l else y ∷ insert_sorted x l

  unfoldable pub insertion_sort : List A → List A
  unfolding insert_sorted
  insertion_sort [] = []
  insertion_sort (x ∷ l) = insert_sorted x (insertion_sort l)

  -- Nothing in `l` is less than `x`.
  abbrev pub NoneLess : A → List A → Type 0
  NoneLess x [] = Unit
  NoneLess x (y ∷ l) = (less y x ≡ false) × NoneLess x l

  abbrev pub IsOrdered : List A → Type 0
  IsOrdered [] = Unit
  IsOrdered (x ∷ l) = NoneLess x l × IsOrdered l

  insert_sorted-perm : (x : A) (l : List A) → Perm (insert_sorted x l) (x ∷ l)
  unfolding insert_sorted
  insert_sorted-perm x [] = Perm.refl _
  insert_sorted-perm x (y ∷ l) = elim (Bool-cases (less x y)) [
    | inl e ↦ rw e (Perm.refl _)
    | inr e ↦ rw e (Perm.trans (Perm.cons y (insert_sorted-perm x l)) (Perm.swap x y l))
  ]

  pub insertion_sort-perm : (l : List A) → Perm (insertion_sort l) l
  unfolding insertion_sort
  insertion_sort-perm [] = Perm.refl _
  insertion_sort-perm (x ∷ l) =
      Perm.trans (insert_sorted-perm x (insertion_sort l)) (Perm.cons x (insertion_sort-perm l))

module _ {ℓ} {A : Type ℓ} (less : A → A → Bool)
    (asymm : (a b : A) → less a b ≡ true → less b a ≡ false)
    (neg_trans : (a b c : A) → less b a ≡ false → less c b ≡ false → less c a ≡ false) where
  NoneLess-trans : (x y : A) (l : List A) → less y x ≡ false → NoneLess less y l → NoneLess less x l
  NoneLess-trans x y [] h k = tt
  NoneLess-trans x y (z ∷ l) h k = (neg_trans x y z h k.0, NoneLess-trans x y l h k.1)

  NoneLess-insert_sorted :
      (x y : A) (l : List A)
      → less x y ≡ false
      → NoneLess less y l
      → NoneLess less y (insert_sorted less x l)
  unfolding insert_sorted
  NoneLess-insert_sorted x y [] h k = (h, tt)
  NoneLess-insert_sorted x y (z ∷ l) h k = elim (Bool-cases (less x z)) [
    | inl e ↦ rw e (h, k)
    | inr e ↦ rw e (k.0, NoneLess-insert_sorted x y l h k.1)
  ]

  insert_sorted-IsOrdered :
      (x : A) (l : List A) → IsOrdered less l → IsOrdered less (insert_sorted less x l)
  unfolding insert_sorted
  insert_sorted-IsOrdered x [] d = (tt, tt)
  insert_sorted-IsOrdered x (y ∷ l) d = elim (Bool-cases (less x y)) [
    | inl e ↦ rw e ((asymm x y e, NoneLess-trans x y l (asymm x y e) d.0), d)
    | inr e ↦ rw e (NoneLess-insert_sorted x y l e d.0, insert_sorted-IsOrdered x l d.1)
  ]

  pub insertion_sort-IsOrdered : (l : List A) → IsOrdered less (insertion_sort less l)
  unfolding insertion_sort
  insertion_sort-IsOrdered [] = tt
  insertion_sort-IsOrdered (x ∷ l) =
      insert_sorted-IsOrdered x (insertion_sort less l) (insertion_sort-IsOrdered l)

module _ {ℓ} {A : Type ℓ} (less : A → A → Bool) where
  Memᴰ_of_insert_sorted :
      (x a : A) (l : List A) → Memᴰ a (insert_sorted less x l) → (a ≡ x) ⊎ Memᴰ a l
  unfolding insert_sorted
  Memᴰ_of_insert_sorted x a [] (Memᴰ.head e) = inl e
  Memᴰ_of_insert_sorted x a [] (Memᴰ.tail m) = elim m [ ]
  Memᴰ_of_insert_sorted x a (y ∷ l) m = elim (Bool-cases (less x y)) [
    | inl e ↦ found_first (rw e at m)
    | inr e ↦ found_later (Memᴰ_of_insert_sorted x a l) (rw e at m)
  ]
    where
      found_first : Memᴰ a (x ∷ y ∷ l) → (a ≡ x) ⊎ Memᴰ a (y ∷ l)
      found_first (Memᴰ.head e) = inl e
      found_first (Memᴰ.tail n) = inr n

      found_later :
          (Memᴰ a (insert_sorted less x l) → (a ≡ x) ⊎ Memᴰ a l)
          → Memᴰ a (y ∷ insert_sorted less x l)
          → (a ≡ x) ⊎ Memᴰ a (y ∷ l)
      found_later rest (Memᴰ.head e) = inr (Memᴰ.head e)
      found_later rest (Memᴰ.tail n) = elim (rest n) [ inl e ↦ inl e | inr k ↦ inr (Memᴰ.tail k) ]

  Memᴰ-insert_sorted : (x a : A) (l : List A) → (a ≡ x) ⊎ Memᴰ a l → Memᴰ a (insert_sorted less x l)
  unfolding insert_sorted
  Memᴰ-insert_sorted x a [] (inl e) = Memᴰ.head e
  Memᴰ-insert_sorted x a [] (inr m) = elim m [ ]
  Memᴰ-insert_sorted x a (y ∷ l) (inl e) = elim (Bool-cases (less x y)) [
    | inl q ↦ rw q (Memᴰ.head e)
    | inr q ↦ rw q (Memᴰ.tail (Memᴰ-insert_sorted x a l (inl e)))
  ]
  Memᴰ-insert_sorted x a (y ∷ l) (inr (Memᴰ.head e)) = elim (Bool-cases (less x y)) [
    | inl q ↦ rw q (Memᴰ.tail (Memᴰ.head e))
    | inr q ↦ rw q (Memᴰ.head e)
  ]
  Memᴰ-insert_sorted x a (y ∷ l) (inr (Memᴰ.tail m)) = elim (Bool-cases (less x y)) [
    | inl q ↦ rw q (Memᴰ.tail (Memᴰ.tail m))
    | inr q ↦ rw q (Memᴰ.tail (Memᴰ-insert_sorted x a l (inr m)))
  ]

  -- Sorting keeps the elements.
  pub Memᴰ-insertion_sort : (a : A) (l : List A) → Memᴰ a (insertion_sort less l) ↔ Memᴰ a l
  unfolding insertion_sort
  Memᴰ-insertion_sort a [] = ((λ m. m), (λ m. m))
  Memᴰ-insertion_sort a (x ∷ l) = (
    (λ m. elim (Memᴰ_of_insert_sorted x a (insertion_sort less l) m) [
      | inl e ↦ Memᴰ.head e
      | inr n ↦ Memᴰ.tail ((Memᴰ-insertion_sort a l).0 n)
    ]),
    (λ m. Memᴰ-insert_sorted x a (insertion_sort less l) (split m (Memᴰ-insertion_sort a l).1)),
  )
    where
      split :
          Memᴰ a (x ∷ l)
          → (Memᴰ a l → Memᴰ a (insertion_sort less l))
          → (a ≡ x) ⊎ Memᴰ a (insertion_sort less l)
      split (Memᴰ.head e) rest = inl e
      split (Memᴰ.tail n) rest = inr (rest n)

  insert_sorted-NoRepeat :
      (x : A) (l : List A) → ¬ Memᴰ x l → NoRepeat l → NoRepeat (insert_sorted less x l)
  unfolding insert_sorted
  insert_sorted-NoRepeat x [] h d = (h, tt)
  insert_sorted-NoRepeat x (y ∷ l) h d = elim (Bool-cases (less x y)) [
    | inl e ↦ rw e (h, d)
    | inr e ↦ rw e (
      (λ m. elim (Memᴰ_of_insert_sorted x y l m) [ inl q ↦ h (Memᴰ.head (sym q)) | inr n ↦ d.0 n ]),
      insert_sorted-NoRepeat x l (λ m. h (Memᴰ.tail m)) d.1,
    )
  ]

  pub insertion_sort-NoRepeat : (l : List A) → NoRepeat l → NoRepeat (insertion_sort less l)
  unfolding insertion_sort
  insertion_sort-NoRepeat [] d = tt
  insertion_sort-NoRepeat (x ∷ l) d =
      insert_sorted-NoRepeat x (insertion_sort less l) (λ m. d.0 ((Memᴰ-insertion_sort x l).0 m))
        (insertion_sort-NoRepeat l d.1)

  -- Each element is less than all that follow it.
  abbrev pub BelowAll : A → List A → Type 0
  BelowAll x [] = Unit
  BelowAll x (y ∷ l) = (less x y ≡ true) × BelowAll x l

  abbrev pub IsAscending : List A → Type 0
  IsAscending [] = Unit
  IsAscending (x ∷ l) = BelowAll x l × IsAscending l

  BelowAll-of :
      (x : A) (l : List A)
      → ((b : A) → Memᴰ b l → less x b ≡ false → less b x ≡ false → x ≡ b)
      → ¬ Memᴰ x l
      → NoneLess less x l
      → BelowAll x l
  BelowAll-of x [] total h k = tt
  BelowAll-of x (y ∷ l) total h k = elim (Bool-cases (less x y)) [
    | inl e ↦ (e, BelowAll-of x l (λ b m. total b (Memᴰ.tail m)) (λ m. h (Memᴰ.tail m)) k.1)
    | inr e ↦ absurd (h (Memᴰ.head (total y (Memᴰ.head refl) e k.0)))
  ]

  -- An ordered list of distinct elements is ascending, where the comparison tells them all apart.
  pub IsAscending-of :
      (l : List A)
      → ((a b : A) → Memᴰ a l → Memᴰ b l → less a b ≡ false → less b a ≡ false → a ≡ b)
      → NoRepeat l
      → IsOrdered less l
      → IsAscending l
  IsAscending-of [] total d o = tt
  IsAscending-of (x ∷ l) total d o = (
    BelowAll-of x l (λ b m. total x b (Memᴰ.head refl) (Memᴰ.tail m)) d.0 o.0,
    IsAscending-of l (λ a b m n. total a b (Memᴰ.tail m) (Memᴰ.tail n)) d.1 o.1,
  )

  below_of_Memᴰ : (x a : A) (l : List A) → BelowAll x l → Memᴰ a l → less x a ≡ true
  below_of_Memᴰ x a [] b m = elim m [ ]
  below_of_Memᴰ x a (y ∷ l) b (Memᴰ.head e) = ap (less x) e ∙ b.0
  below_of_Memᴰ x a (y ∷ l) b (Memᴰ.tail m) = below_of_Memᴰ x a l b.1 m

  module _ (asymm : (a b : A) → less a b ≡ true → less b a ≡ false) where
    never_self : (a : A) → less a a ≡ true → ⊥
    never_self a h = cc (h, asymm a a h)

    same_first :
        (x y : A) (l m : List A)
        → BelowAll x l
        → BelowAll y m
        → Memᴰ x (y ∷ m)
        → Memᴰ y (x ∷ l)
        → x ≡ y
    same_first x y l m b c (Memᴰ.head e) n = e
    same_first x y l m b c (Memᴰ.tail k) (Memᴰ.head e) = sym e
    same_first x y l m b c (Memᴰ.tail k) (Memᴰ.tail n) =
        cc (asymm x y (below_of_Memᴰ x y l b n), below_of_Memᴰ y x m c k)

    same_rest :
        (x y a : A) (l m : List A) → x ≡ y → BelowAll x l → Memᴰ a l → Memᴰ a (y ∷ m) → Memᴰ a m
    same_rest x y a l m e b n (Memᴰ.head q) =
        absurd (never_self x (ap (less x) (e ∙ sym q) ∙ below_of_Memᴰ x a l b n))
    same_rest x y a l m e b n (Memᴰ.tail k) = k

    -- Two ascending lists of the same elements are one.
    pub ascending_unique :
        (l m : List A)
        → IsAscending l
        → IsAscending m
        → ((a : A) → Memᴰ a l → Memᴰ a m)
        → ((a : A) → Memᴰ a m → Memᴰ a l)
        → l ≡ m
    ascending_unique [] [] c d f g = refl
    ascending_unique [] (y ∷ m) c d f g = elim (g y (Memᴰ.head refl)) [ ]
    ascending_unique (x ∷ l) [] c d f g = elim (f x (Memᴰ.head refl)) [ ]
    ascending_unique (x ∷ l) (y ∷ m) c d f g =
        let e = same_first x y l m c.0 d.0 (f x (Memᴰ.head refl)) (g y (Memᴰ.head refl)) in
        let rest : l ≡ m =
          ascending_unique l m c.1 d.1 (λ a n. same_rest x y a l m e c.0 n (f a (Memᴰ.tail n)))
            (λ a n. same_rest y x a m l (sym e) d.0 n (g a (Memᴰ.tail n))) in
        cc (e, rest)
