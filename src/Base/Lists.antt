-- ===== src/Base/Lists.antt =====
-- Lists as the program walks them: search loops, filters, sets of texts, predicates.
use Prim.Native.Nat.{ℕ, suc}
use Prim.Native.String.{String}
use mathlib.Core.Path.{◌≡◌, refl, ap}
use mathlib.Core.Logic.{inl, inr}
use mathlib.Core.Bool.{Bool, true, false, ◌||◌, ◌&&◌}
use mathlib.Core.List.{List, [], ◌∷◌, map, Memᴰ}
use native.Mathlib.Omega.{arith}
use text.Mathlib.TextEquality.{eq_iff}
use nebari_landing.Base.Tests.{if◌then◌else◌, Bool-cases}
use nebari_landing.Base.Text.{str_eq}

module _ {ℓ} {A : Type ℓ} where
  abbrev pub length : List A → ℕ
  length [] = 0
  length (x ∷ xs) = suc (length xs)

  -- A loop that stops with `true` at the first element that passes.
  unfoldable pub any : (A → Bool) → List A → Bool
  any p [] = false
  any p (x ∷ xs) = p x || any p xs

  -- A loop that keeps the elements that pass.
  unfoldable pub keep : (A → Bool) → List A → List A
  keep p [] = []
  keep p (x ∷ xs) = let rest = keep p xs in if p x then x ∷ rest else rest

  -- "some element satisfies P", with the element.
  abbrev pub Exists {κ} : (A → Type κ) → List A → Type (ℓ ⊔ κ)
  Exists P l = (a : A) × Memᴰ a l × P a

  abbrev pub All {κ} : (A → Type κ) → List A → Type κ
  All P [] = Unit
  All P (x ∷ xs) = P x × All P xs

module _ {ℓ} {A : Type ℓ} (p : A → Bool) where
  pub any→Exists : (l : List A) → any p l ≡ true → Exists (λ a. p a ≡ true) l
  unfolding any
  any→Exists [] h = cc
  any→Exists (x ∷ l) h = elim (Bool-cases (p x)) [
    | inl e ↦ (x, Memᴰ.head refl, e)
    | inr e ↦ let (a, m, q) = any→Exists l (ground arith) in (a, Memᴰ.tail m, q)
  ]

  pub Exists→any : (l : List A) (a : A) → Memᴰ a l → p a ≡ true → any p l ≡ true
  unfolding any
  Exists→any [] a m h = elim m [ ]
  Exists→any (x ∷ l) a (Memᴰ.head e) h = ground arith
  Exists→any (x ∷ l) a (Memᴰ.tail m) h = ground (arith, Exists→any l a m h)

  pub Memᴰ-keep : (l : List A) (a : A) → Memᴰ a l → p a ≡ true → Memᴰ a (keep p l)
  unfolding keep
  Memᴰ-keep [] a m h = elim m [ ]
  Memᴰ-keep (x ∷ l) a (Memᴰ.head e) h = rw (rw e at h) (Memᴰ.head e)
  Memᴰ-keep (x ∷ l) a (Memᴰ.tail m) h = elim (Bool-cases (p x)) [
    | inl e ↦ rw e (Memᴰ.tail (Memᴰ-keep l a m h))
    | inr e ↦ rw e (Memᴰ-keep l a m h)
  ]

  keep_head :
      (x a : A) (l kept : List A)
      → (Memᴰ a kept → Memᴰ a l × (p a ≡ true))
      → p x ≡ true
      → Memᴰ a (x ∷ kept)
      → Memᴰ a (x ∷ l) × (p a ≡ true)
  keep_head x a l kept rest e (Memᴰ.head q) = (Memᴰ.head q, rw q e)
  keep_head x a l kept rest e (Memᴰ.tail n) = (Memᴰ.tail (rest n).0, (rest n).1)

  pub Memᴰ_of_keep : (l : List A) (a : A) → Memᴰ a (keep p l) → Memᴰ a l × (p a ≡ true)
  unfolding keep
  Memᴰ_of_keep [] a m = elim m [ ]
  Memᴰ_of_keep (x ∷ l) a m = elim (Bool-cases (p x)) [
    | inl e ↦ keep_head x a l (keep p l) (Memᴰ_of_keep l a) e (rw e at m)
    | inr e ↦ let (n, q) = Memᴰ_of_keep l a (rw e at m) in (Memᴰ.tail n, q)
  ]

module _ {ℓ} {A : Type ℓ} where
  pub keep_congr :
      (p q : A → Bool) (l : List A) → ((a : A) → Memᴰ a l → p a ≡ q a) → keep p l ≡ keep q l
  unfolding keep
  keep_congr p q [] h = refl
  keep_congr p q (x ∷ l) h =
      rw (h x (Memᴰ.head refl), keep_congr p q l (λ a m. h a (Memᴰ.tail m))) refl

  pub keep-keep : (p q : A → Bool) (l : List A) → keep p (keep q l) ≡ keep (λ a. q a && p a) l
  unfolding keep
  keep-keep p q [] = refl
  keep-keep p q (x ∷ l) = elim (Bool-cases (q x)) [
    | inl e ↦ rw e (ap (λ r. if p x then x ∷ r else r) (keep-keep p q l))
    | inr e ↦ rw e (keep-keep p q l)
  ]

  pub keep_all : (p : A → Bool) (l : List A) → ((a : A) → Memᴰ a l → p a ≡ true) → keep p l ≡ l
  unfolding keep
  keep_all p [] h = refl
  keep_all p (x ∷ l) h = rw (h x (Memᴰ.head refl), keep_all p l (λ a m. h a (Memᴰ.tail m))) refl

  pub any-false : (p : A → Bool) (l : List A) (a : A) → any p l ≡ false → Memᴰ a l → p a ≡ false
  any-false p l a h m = elim (Bool-cases (p a)) [ inl e ↦ cc (Exists→any p l a m e, h) | inr e ↦ e ]

  pub Memᴰ-map {κ} :
      {B : Type κ} (f : A → B) (l : List A) (b : B)
      → Memᴰ b (map f l)
      → (a : A) × Memᴰ a l × (b ≡ f a)
  Memᴰ-map f [] b m = elim m [ ]
  Memᴰ-map f (x ∷ l) b (Memᴰ.head e) = (x, Memᴰ.head refl, e)
  Memᴰ-map f (x ∷ l) b (Memᴰ.tail m) = let (a, n, e) = Memᴰ-map f l b m in (a, Memᴰ.tail n, e)

-- `_, ok := set[x]` of a set of texts.
unfoldable pub has : String → List String → Bool
unfolding any
has x l = any (λ y. str_eq x y) l

pub has→Memᴰ : (x : String) (l : List String) → has x l ≡ true → Memᴰ x l
unfolding has any
has→Memᴰ x [] h = cc
has→Memᴰ x (y ∷ l) h = elim (Bool-cases (str_eq x y)) [
  | inl e ↦ Memᴰ.head ((eq_iff x y).0 e)
  | inr e ↦ Memᴰ.tail (has→Memᴰ x l (ground arith))
]

pub Memᴰ→has : (x : String) (l : List String) → Memᴰ x l → has x l ≡ true
unfolding has any
Memᴰ→has x [] m = elim m [ ]
Memᴰ→has x (y ∷ l) (Memᴰ.head e) = ground (arith, eq_iff x y)
Memᴰ→has x (y ∷ l) (Memᴰ.tail m) = ground (arith, Memᴰ→has x l m)
