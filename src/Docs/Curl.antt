-- ===== src/Docs/Curl.antt =====
-- The three lists of operations, and the commands of the viewer and the reference, agree.
use mathlib.Core.Path.{fun_ext}
use nebari_landing.Base.{
  String, ◌≡◌, ◌∙◌, refl, sym, ap, Bool, List, [], ◌∷◌, ◌++◌, map, ◌+++◌, append_assoc, GoMap,
}
use nebari_landing.Docs.{
  Operation, Document, methods_at, visit_methods, visit_paths, sorted_paths, sorted_methods,
  requires_auth, render_curl, curl_example, DocsOp, Endpoint, FlatOp, docs_op, endpoint, flat_op,
  first_or, parse_spec_for_viewer, parse_spec, flatten_ops, reference_server,
}

module _ {ℓ κ} {A : Type ℓ} {B : Type κ} (f : A → B) where
  map-append : (l m : List A) → map f (l ++ m) ≡ map f l ++ map f m
  map-append [] m = refl
  map-append (x ∷ l) m = cc (map-append l m)

  module _ (make : String → String → Operation → A) where
    abbrev through : String → String → Operation → B
    through p m o = f (make p m o)

    map-visit_methods :
        (p : String) (methods : GoMap Operation) (l : List String)
        → map f (visit_methods make p methods l) ≡ visit_methods through p methods l
    unfolding visit_methods
    map-visit_methods p methods [] = refl
    map-visit_methods p methods (m ∷ l) = cc (map-visit_methods p methods l)

    map-visit_paths :
        (paths : GoMap (GoMap Operation)) (l : List String)
        → map f (visit_paths make paths l) ≡ visit_paths through paths l
    unfolding visit_paths
    map-visit_paths paths [] = refl
    map-visit_paths paths (p ∷ l) =
        let here =
          visit_methods make p (methods_at p paths) (sorted_methods (methods_at p paths)) in
        let first : map f here
            ≡ visit_methods through p (methods_at p paths) (sorted_methods (methods_at p paths)) =
          map-visit_methods p (methods_at p paths) (sorted_methods (methods_at p paths)) in
        map-append here (visit_paths make paths l) ∙ cc (first, map-visit_paths paths l)

spaced : (x : String) → " http://localhost:8080" +++ x ≡ " " +++ "http://localhost:8080" +++ x
spaced x = append_assoc " " "http://localhost:8080" x

-- The command of the reference is that of the viewer, between the marks of a block of code.
curl_example-render_curl :
    (method path server : String) (with_auth : Bool)
    → curl_example method path server with_auth
      ≡ "```sh\n" +++ render_curl method (server +++ path) with_auth +++ "\n```\n"
unfolding curl_example render_curl
curl_example-render_curl method path server with_auth = simp (append_assoc, spaced)

-- What the three lists have in common.
abbrev pub Row : Type 0
Row = String × String × String

abbrev pub shown_row : DocsOp → Row
shown_row o = (o.method, o.path, o.summary)

abbrev pub card_row : Endpoint → Row
card_row o = (o.method, o.path, o.summary)

abbrev pub flat_row : FlatOp → Row
flat_row o = (o.method, o.path, o.op.summary)

-- The command of an operation in the reference.
abbrev pub flat_curl : String → FlatOp → String
flat_curl server o = curl_example o.method o.path server (requires_auth o.op)

abbrev pub fenced_curl : DocsOp → String
fenced_curl o = "```sh\n" +++ o.curl +++ "\n```\n"

make_congr {ℓ} :
    {A : Type ℓ} (f g : String → String → Operation → A) (paths : GoMap (GoMap Operation))
    (l : List String)
    → ((p m : String) (o : Operation) → f p m o ≡ g p m o)
    → visit_paths f paths l ≡ visit_paths g paths l
make_congr f g paths l e =
    ap (λ h. visit_paths h paths l) (fun_ext λ p. fun_ext λ m. fun_ext λ o. e p m o)

-- The viewer, the card and the reference list the same operations in the same order, with the same
-- methods, paths and summaries; and where the document names a server, the command that the
-- reference gives for each operation is the one that the viewer gives, as a block of code.
pub documents_agree :
    (to_upper : String → String) (d : Document) (server : String) (servers : List String)
    → d.servers ≡ server ∷ servers
    → (map shown_row (parse_spec_for_viewer to_upper d).operations
        ≡ map card_row (parse_spec to_upper d))
      × (map card_row (parse_spec to_upper d) ≡ map flat_row (flatten_ops to_upper d))
      × (map (flat_curl (reference_server d)) (flatten_ops to_upper d)
          ≡ map fenced_curl (parse_spec_for_viewer to_upper d).operations)
unfolding parse_spec_for_viewer parse_spec flatten_ops
documents_agree to_upper d server servers e =
    let l = sorted_paths d.paths in
    (
      map-visit_paths shown_row (docs_op to_upper (first_or "" d.servers)) d.paths l
          ∙ sym (map-visit_paths card_row (endpoint to_upper) d.paths l),
      map-visit_paths card_row (endpoint to_upper) d.paths l
          ∙ sym (map-visit_paths flat_row (flat_op to_upper) d.paths l),
      map-visit_paths (flat_curl (reference_server d)) (flat_op to_upper) d.paths l
          ∙ (make_congr _ _ d.paths l (λ p m o.
                curl_example-render_curl (to_upper m) p (reference_server d) (requires_auth o)
                ∙ ap
                    (λ s.
                      "```sh\n"
                      +++ render_curl (to_upper m) (s +++ p) (requires_auth o)
                      +++ "\n```\n")
                    (ap (first_or "/api/v1") e ∙ sym (ap (first_or "") e)))
              ∙ sym (
                  map-visit_paths fenced_curl (docs_op to_upper (first_or "" d.servers)) d.paths
                    l)),
    )
