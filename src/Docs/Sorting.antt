-- ===== src/Docs/Sorting.antt =====
-- The order of the operations: it does not depend on the order in which Go's maps are walked.
use nebari_landing.Base.{
  ℕ, zero, suc, String, ◌≡◌, ◌∙◌, refl, sym, ap, ◌↔◌, inl, inr, Bool, true, false, List, [], ◌∷◌,
  map, Memᴰ, arith, Bool-cases, is_some, str_eq, eq_iff, or_else, GoMap, lookup, Distinct,
  insertion_sort, insertion_sort-IsOrdered, insertion_sort-NoRepeat, Memᴰ-insertion_sort, NoRepeat,
  IsAscending, IsAscending-of, ascending_unique, str_ltb, str_ltb_asymm, str_ltb_neg_trans,
  str_ltb_total,
}
use nebari_landing.Docs.{
  Operation, Document, method_order, method_less, key_of, sorted_paths, sorted_methods, methods_at,
  operation_at, no_operation, visit_methods, visit_paths, first_or, docs_op, parse_spec_for_viewer,
  endpoint, parse_spec, flat_op, flatten_ops,
}

module _ {ℓ} {V : Type ℓ} where
  -- The keys of a map are those that a lookup finds.
  key-found : (m : GoMap V) (k : String) → Memᴰ k (map key_of m) → is_some (lookup k m) ≡ true
  unfolding lookup
  key-found [] k h = elim h [ ]
  key-found ((j, v) ∷ m) k (Memᴰ.head e) = ground (arith, eq_iff j k)
  key-found ((j, v) ∷ m) k (Memᴰ.tail n) = ground (arith, key-found m k n)

  pub found-key : (m : GoMap V) (k : String) → is_some (lookup k m) ≡ true → Memᴰ k (map key_of m)
  unfolding lookup
  found-key [] k h = cc h
  found-key ((j, v) ∷ m) k h = elim (Bool-cases (str_eq j k)) [
    | inl e ↦ Memᴰ.head (sym ((eq_iff j k).0 e))
    | inr e ↦ Memᴰ.tail (found-key m k (rw e at h))
  ]

  keys-NoRepeat : (m : GoMap V) → Distinct m → NoRepeat (map key_of m)
  keys-NoRepeat [] d = tt
  keys-NoRepeat ((k, v) ∷ m) d = ((λ n. cc (d.0, key-found m k n)), keys-NoRepeat m d.1)

  module _ (less : String → String → Bool)
      (asymm : (a b : String) → less a b ≡ true → less b a ≡ false)
      (neg_trans : (a b c : String) → less b a ≡ false → less c b ≡ false → less c a ≡ false) where
    sorted-found :
        (m : GoMap V) (k : String)
        → Memᴰ k (insertion_sort less (map key_of m)) ↔ (is_some (lookup k m) ≡ true)
    sorted-found m k = (
      (λ h. key-found m k ((Memᴰ-insertion_sort less k (map key_of m)).0 h)),
      (λ h. (Memᴰ-insertion_sort less k (map key_of m)).1 (found-key m k h)),
    )

    -- The comparison tells all keys of the map apart.
    abbrev TellsApart : GoMap V → Type 0
    TellsApart m =
        (a b : String)
        → is_some (lookup a m) ≡ true
        → is_some (lookup b m) ≡ true
        → less a b ≡ false
        → less b a ≡ false
        → a ≡ b

    keys-IsAscending :
        (m : GoMap V)
        → TellsApart m
        → Distinct m
        → IsAscending less (insertion_sort less (map key_of m))
    keys-IsAscending m total d =
        IsAscending-of less (insertion_sort less (map key_of m))
          (λ a b p q. total a b ((sorted-found m a).0 p) ((sorted-found m b).0 q))
          (insertion_sort-NoRepeat less (map key_of m) (keys-NoRepeat m d))
          (insertion_sort-IsOrdered less asymm neg_trans (map key_of m))

    -- Two maps with the same keys have the same sorted keys.
    sorted_keys_unique :
        (m n : GoMap V)
        → TellsApart m
        → Distinct m
        → Distinct n
        → ((k : String) → is_some (lookup k m) ≡ is_some (lookup k n))
        → insertion_sort less (map key_of m) ≡ insertion_sort less (map key_of n)
    sorted_keys_unique m n total d e same =
        let apart : TellsApart n = λ a b p q. total a b (same a ∙ p) (same b ∙ q) in
        ascending_unique less asymm _ _ (keys-IsAscending m total d) (keys-IsAscending n apart e)
          (λ k h. (sorted-found n k).1 (sym (same k) ∙ (sorted-found m k).0 h))
          (λ k h. (sorted-found m k).1 (same k ∙ (sorted-found n k).0 h))

-- The five methods that have a place of their own.
abbrev pub IsKnown : String → Type 0
IsKnown m = Memᴰ m ("get" ∷ "post" ∷ "put" ∷ "patch" ∷ "delete" ∷ [])

abbrev name_at : ℕ → String
name_at zero = "get"
name_at (suc zero) = "post"
name_at (suc (suc zero)) = "put"
name_at (suc (suc (suc zero))) = "patch"
name_at _ = "delete"

name_at-method_order : (m : String) → IsKnown m → name_at (method_order m) ≡ m
unfolding method_order lookup
name_at-method_order m (Memᴰ.head e) = rw e refl
name_at-method_order m (Memᴰ.tail (Memᴰ.head e)) = rw e refl
name_at-method_order m (Memᴰ.tail (Memᴰ.tail (Memᴰ.head e))) = rw e refl
name_at-method_order m (Memᴰ.tail (Memᴰ.tail (Memᴰ.tail (Memᴰ.head e)))) = rw e refl
name_at-method_order m (Memᴰ.tail (Memᴰ.tail (Memᴰ.tail (Memᴰ.tail (Memᴰ.head e))))) = rw e refl
name_at-method_order m (Memᴰ.tail (Memᴰ.tail (Memᴰ.tail (Memᴰ.tail (Memᴰ.tail k))))) = elim k [ ]

method_less_total :
    (a b : String)
    → IsKnown a
    → IsKnown b
    → method_less a b ≡ false
    → method_less b a ≡ false
    → a ≡ b
method_less_total a b p q h k =
    let same : method_order a ≡ method_order b = ground arith in
    sym (name_at-method_order a p) ∙ ap name_at same ∙ name_at-method_order b q

method_less_asymm : (a b : String) → method_less a b ≡ true → method_less b a ≡ false
method_less_asymm a b h = ground arith

method_less_neg_trans :
    (a b c : String) → method_less b a ≡ false → method_less c b ≡ false → method_less c a ≡ false
method_less_neg_trans a b c h k = ground arith

-- A well-formed set of methods: known ones, none of them twice.
pub record IsMethods (methods : GoMap Operation) : Type 0 where
  pub distinct : Distinct methods
  pub known : (m : String) → is_some (lookup m methods) ≡ true → IsKnown m

-- Two maps that answer every lookup alike.
abbrev pub SameMethods : GoMap Operation → GoMap Operation → Type 0
SameMethods a b = (m : String) → lookup m a ≡ lookup m b

sorted_methods_unique :
    (a b : GoMap Operation)
    → IsMethods a
    → IsMethods b
    → SameMethods a b
    → sorted_methods a ≡ sorted_methods b
unfolding sorted_methods
sorted_methods_unique a b v w same =
    sorted_keys_unique method_less method_less_asymm method_less_neg_trans a b
      (λ m n p q. method_less_total m n (v.known m p) (v.known n q)) v.distinct w.distinct
      (λ k. ap is_some (same k))

-- A document as the generator writes it: no path twice, and well-formed methods at each.
pub record IsDocument (d : Document) : Type 0 where
  pub distinct : Distinct d.paths
  pub methods : (p : String) → IsMethods (methods_at p d.paths)

-- Two documents that say the same, whatever the order in which their maps are walked.
pub record IsSame (d e : Document) : Type 0 where
  pub title : d.title ≡ e.title
  pub version : d.version ≡ e.version
  pub description : d.description ≡ e.description
  pub servers : d.servers ≡ e.servers
  pub paths : (p : String) → is_some (lookup p d.paths) ≡ is_some (lookup p e.paths)
  pub methods : (p : String) → SameMethods (methods_at p d.paths) (methods_at p e.paths)

module _ {ℓ} {A : Type ℓ} (make : String → String → Operation → A) where
  visit_methods_congr :
      (p : String) (a b : GoMap Operation) (l : List String)
      → SameMethods a b
      → visit_methods make p a l ≡ visit_methods make p b l
  unfolding visit_methods
  visit_methods_congr p a b [] same = refl
  visit_methods_congr p a b (m ∷ l) same =
      let first : make p m (operation_at m a) ≡ make p m (operation_at m b) =
        ap (λ o. make p m (or_else o no_operation)) (same m) in
      cc (first, visit_methods_congr p a b l same)

  visit_paths_congr :
      (d e : Document) (l : List String)
      → IsDocument d
      → IsDocument e
      → ((p : String) → SameMethods (methods_at p d.paths) (methods_at p e.paths))
      → visit_paths make d.paths l ≡ visit_paths make e.paths l
  unfolding visit_paths
  visit_paths_congr d e [] v w same = refl
  visit_paths_congr d e (p ∷ l) v w same =
      let a = methods_at p d.paths in
      let b = methods_at p e.paths in
      let sorted : sorted_methods a ≡ sorted_methods b =
        sorted_methods_unique a b (v.methods p) (w.methods p) (same p) in
      let here : visit_methods make p a (sorted_methods a)
          ≡ visit_methods make p b (sorted_methods b) =
        ap (visit_methods make p a) sorted
        ∙ visit_methods_congr p a b (sorted_methods b) (same p) in
      cc (here, visit_paths_congr d e l v w same)

  visit_paths_unique :
      (d e : Document)
      → IsDocument d
      → IsDocument e
      → IsSame d e
      → visit_paths make d.paths (sorted_paths d.paths)
        ≡ visit_paths make e.paths (sorted_paths e.paths)
  unfolding sorted_paths
  visit_paths_unique d e v w same =
      ap (visit_paths make d.paths) (
        sorted_keys_unique str_ltb str_ltb_asymm str_ltb_neg_trans d.paths e.paths
          (λ a b p q. str_ltb_total a b) v.distinct w.distinct same.paths)
      ∙ visit_paths_congr d e (sorted_paths e.paths) v w same.methods

-- What the viewer shows of two documents that say the same is the same, and so are the endpoints of
-- the card and the operations of the reference, in the same order: Go's order of a map, which
-- changes from run to run, does not show. The documents are well-formed, and have no methods but
-- GET, POST, PUT, PATCH and DELETE.
pub documents_unique :
    (to_upper : String → String) (d e : Document)
    → IsDocument d
    → IsDocument e
    → IsSame d e
    → (parse_spec_for_viewer to_upper d ≡ parse_spec_for_viewer to_upper e)
      × (parse_spec to_upper d ≡ parse_spec to_upper e)
      × (flatten_ops to_upper d ≡ flatten_ops to_upper e)
unfolding parse_spec_for_viewer parse_spec flatten_ops
documents_unique to_upper d e v w same =
    let shown : visit_paths (docs_op to_upper (first_or "" d.servers)) d.paths
          (sorted_paths d.paths)
        ≡ visit_paths (docs_op to_upper (first_or "" e.servers)) e.paths (sorted_paths e.paths) =
      visit_paths_unique (docs_op to_upper (first_or "" d.servers)) d e v w same
      ∙ ap (λ l. visit_paths (docs_op to_upper (first_or "" l)) e.paths (sorted_paths e.paths))
          same.servers in
    (
      cc (same.title, same.version, same.description, ap (first_or "") same.servers, shown),
      visit_paths_unique (endpoint to_upper) d e v w same,
      visit_paths_unique (flat_op to_upper) d e v w same,
    )
