-- ===== src/Tests/Docs.antt =====
-- Runs of the lists of operations.
use nebari_landing.Base.{
  String, ◌≡◌, ◌∙◌, refl, sym, Bool, true, false, or_else, eq_iff, differ, Option, none, some, List,
  [], ◌∷◌, ◌++◌, map, Memᴰ, inl, inr, Bool-cases, str_eq, is_some, if◌then◌else◌, GoMap, lookup,
  Distinct,
}
use nebari_landing.Docs.{
  Operation, Document, DocsView, Endpoint, parse_spec_for_viewer, parse_spec, flatten_ops,
  reference_server,
}
use nebari_landing.Docs.Sorting.{
  IsDocument, IsMethods, IsSame, IsKnown, found-key, documents_unique,
}

abbrev read_pins : Operation
read_pins = record { summary = "Read"; description = ""; security = ("BearerAuth" ∷ []) ∷ [] }

abbrev drop_pin : Operation
drop_pin = record { summary = "Drop"; description = ""; security = [] }

abbrev methods : GoMap Operation
methods = ("delete", drop_pin) ∷ ("get", read_pins) ∷ []

abbrev methods_again : GoMap Operation
methods_again = ("get", read_pins) ∷ ("delete", drop_pin) ∷ []

abbrev document : Document
document = record {
  title = "API";
  version = "1";
  description = "";
  servers = "/api/v1" ∷ [];
  paths = ("/pins", methods) ∷ [];
}

-- The same document, walked in another order.
abbrev document_again : Document
document_again = record document { paths = ("/pins", methods_again) ∷ [] }

-- No upper case is needed to see the order.
abbrev same_case : String → String
same_case m = m

card_test :
    parse_spec same_case document
    ≡ record { method = "get"; path = "/pins"; summary = "Read" }
      ∷ record { method = "delete"; path = "/pins"; summary = "Drop" }
      ∷ []
unfolding parse_spec nebari_landing.Docs.visit_paths nebari_landing.Docs.visit_methods
    nebari_landing.Docs.sorted_paths nebari_landing.Docs.sorted_methods lookup
    nebari_landing.Base.insertion_sort nebari_landing.Base.insert_sorted nebari_landing.Base.str_ltb
    nebari_landing.Docs.method_order
card_test = refl

known : (m : String) → Memᴰ m ("delete" ∷ "get" ∷ []) → IsKnown m
known m (Memᴰ.head e) = Memᴰ.tail (Memᴰ.tail (Memᴰ.tail (Memᴰ.tail (Memᴰ.head e))))
known m (Memᴰ.tail (Memᴰ.head e)) = Memᴰ.head e
known m (Memᴰ.tail (Memᴰ.tail n)) = elim n [ ]

IsKnown-again : (m : String) → Memᴰ m ("get" ∷ "delete" ∷ []) → IsKnown m
IsKnown-again m (Memᴰ.head e) = Memᴰ.head e
IsKnown-again m (Memᴰ.tail (Memᴰ.head e)) =
    Memᴰ.tail (Memᴰ.tail (Memᴰ.tail (Memᴰ.tail (Memᴰ.head e))))
IsKnown-again m (Memᴰ.tail (Memᴰ.tail n)) = elim n [ ]

methods-IsMethods : IsMethods methods
unfolding lookup
methods-IsMethods = record {
  distinct = (refl, (refl, tt));
  known = λ m h. known m (found-key methods m h);
}

methods_again-IsMethods : IsMethods methods_again
unfolding lookup
methods_again-IsMethods = record {
  distinct = (refl, (refl, tt));
  known = λ m h. IsKnown-again m (found-key methods_again m h);
}

-- The methods of a document with one path.
at_path :
    (b : Bool) (a : GoMap Operation)
    → IsMethods a
    → IsMethods (or_else (if b then some a else none) [])
unfolding lookup
at_path true a v = v
at_path false a v = record { distinct = tt; known = λ m h. cc h }

document-IsDocument : IsDocument document
unfolding lookup
document-IsDocument = record {
  distinct = (refl, tt);
  methods = λ p. at_path (str_eq "/pins" p) methods methods-IsMethods;
}

document_again-IsDocument : IsDocument document_again
unfolding lookup
document_again-IsDocument = record {
  distinct = (refl, tt);
  methods = λ p. at_path (str_eq "/pins" p) methods_again methods_again-IsMethods;
}

swapped : (m : String) → lookup m methods ≡ lookup m methods_again
unfolding lookup
swapped m = elim (Bool-cases (str_eq "delete" m)) [
  | inl e ↦ elim (Bool-cases (str_eq "get" m)) [
    | inl q ↦
        absurd (differ "delete" "get" refl ((eq_iff "delete" m).0 e ∙ sym ((eq_iff "get" m).0 q)))
    | inr q ↦ rw (e, q) refl
  ]
  | inr e ↦ rw e refl
]

swapped_at :
    (b : Bool) (m : String)
    → lookup m (or_else (if b then some methods else none) [])
      ≡ lookup m (or_else (if b then some methods_again else none) [])
swapped_at true m = swapped m
swapped_at false m = refl

both :
    (b : Bool)
    → is_some (if b then some methods else none) ≡ is_some (if b then some methods_again else none)
both true = refl
both false = refl

documents-IsSame : IsSame document document_again
unfolding lookup
documents-IsSame = record {
  title = refl;
  version = refl;
  description = refl;
  servers = refl;
  paths = λ p. both (str_eq "/pins" p);
  methods = λ p m. swapped_at (str_eq "/pins" p) m;
}

documents_unique_example :
    (parse_spec_for_viewer same_case document ≡ parse_spec_for_viewer same_case document_again)
    × (parse_spec same_case document ≡ parse_spec same_case document_again)
    × (flatten_ops same_case document ≡ flatten_ops same_case document_again)
documents_unique_example =
    documents_unique same_case document document_again document-IsDocument document_again-IsDocument
      documents-IsSame
