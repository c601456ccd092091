-- ===== src/Base/Dict.antt =====
-- A Go map with text keys, as an association list. The order of the entries stands for the order in
-- which one `range` over the map happens to visit them.
use Prim.Native.String.{String}
use mathlib.Core.Path.{◌≡◌, refl}
use mathlib.Core.Logic.{inl, inr}
use mathlib.Core.Option.{Option, none, some}
use mathlib.Core.List.{List, [], ◌∷◌, Memᴰ}
use native.Mathlib.Omega.{arith}
use text.Mathlib.TextEquality.{eq_iff}
use nebari_landing.Base.Tests.{if◌then◌else◌, Bool-cases}
use nebari_landing.Base.Text.{str_eq}

abbrev pub GoMap {ℓ} : Type ℓ → Type ℓ
GoMap V = List (String × V)

module _ {ℓ} {V : Type ℓ} where
  -- `v, ok := m[key]`
  unfoldable pub lookup : String → GoMap V → Option V
  lookup key [] = none
  lookup key ((head, value) ∷ rest) = if str_eq head key then some value else lookup key rest

  -- `m[key] = value`
  unfoldable pub insert : String → V → GoMap V → GoMap V
  insert key value [] = (key, value) ∷ []
  insert key value ((head, old) ∷ rest) =
      let deeper = insert key value rest in
      if str_eq head key then (key, value) ∷ rest else (head, old) ∷ deeper

  -- `delete(m, k)`
  unfoldable pub delete : String → GoMap V → GoMap V
  delete k [] = []
  delete k ((j, v) ∷ m) = let rest = delete k m in if str_eq j k then rest else (j, v) ∷ rest

  -- The values that a `range` visits.
  unfoldable pub values : GoMap V → List V
  values [] = []
  values ((k, v) ∷ m) = v ∷ values m

  -- Every other key keeps its value, and the key that was set has the new one.
  pub lookup-insert :
      (set read : String) (value : V) (entries : GoMap V)
      → lookup read (insert set value entries)
        ≡ (if str_eq set read then some value else lookup read entries)
  unfolding lookup insert
  lookup-insert set read value [] = refl
  lookup-insert set read value ((head, old) ∷ rest) =
      ground (
        lookup-insert set read value rest,
        eq_iff head set,
        eq_iff set read,
        eq_iff head read,
        arith,
      )

  -- Every other key keeps its value, and the key that was deleted has none.
  pub lookup-delete :
      (gone read : String) (entries : GoMap V)
      → lookup read (delete gone entries) ≡ (if str_eq gone read then none else lookup read entries)
  unfolding lookup delete
  lookup-delete gone read [] = ground arith
  lookup-delete gone read ((head, old) ∷ rest) =
      ground
        (lookup-delete gone read rest, eq_iff head gone, eq_iff gone read, eq_iff head read, arith)

  -- No key stands twice.
  abbrev pub Distinct : GoMap V → Type ℓ
  Distinct [] = Unit
  Distinct ((k, v) ∷ m) = (lookup k m ≡ none) × Distinct m

  pub insert-Distinct : (k : String) (v : V) (m : GoMap V) → Distinct m → Distinct (insert k v m)
  unfolding lookup insert
  insert-Distinct k v [] d = (refl, tt)
  insert-Distinct k v ((j, w) ∷ m) d = elim (Bool-cases (str_eq j k)) [
    | inl e ↦ rw (e, ← (eq_iff j k).0 e) d
    | inr e ↦ rw e (
      ground (arith, lookup-insert k j v m, eq_iff j k, eq_iff k j, d.0),
      insert-Distinct k v m d.1,
    )
  ]

  pub delete-Distinct : (k : String) (m : GoMap V) → Distinct m → Distinct (delete k m)
  unfolding lookup delete
  delete-Distinct k [] d = tt
  delete-Distinct k ((j, w) ∷ m) d = elim (Bool-cases (str_eq j k)) [
    | inl e ↦ rw e (delete-Distinct k m d.1)
    | inr e ↦ rw e (ground (arith, lookup-delete k j m, d.0), delete-Distinct k m d.1)
  ]

  pub lookup_of_Memᴰ :
      (m : GoMap V) (v : V) → Distinct m → Memᴰ v (values m) → (k : String) × (lookup k m ≡ some v)
  unfolding lookup values
  lookup_of_Memᴰ [] v d h = elim h [ ]
  lookup_of_Memᴰ ((j, w) ∷ m) v d (Memᴰ.head e) = (j, ground (arith, eq_iff j j))
  lookup_of_Memᴰ ((j, w) ∷ m) v d (Memᴰ.tail h) =
      let (k, p) = lookup_of_Memᴰ m v d.1 h in (k, ground (arith, eq_iff j k, p, d.0))

  pub Memᴰ_of_lookup : (m : GoMap V) (k : String) (v : V) → lookup k m ≡ some v → Memᴰ v (values m)
  unfolding lookup values
  Memᴰ_of_lookup [] k v h = cc
  Memᴰ_of_lookup ((j, w) ∷ m) k v h = elim (Bool-cases (str_eq j k)) [
    | inl e ↦ Memᴰ.head (ground arith)
    | inr e ↦ Memᴰ.tail (Memᴰ_of_lookup m k v (ground arith))
  ]

pub ruleset map_laws = (lookup-insert, lookup-delete)
