-- ===== src/Docs.antt =====
-- internal/api/openapi.go, cmd/genapicard/main.go and cmd/gendocs/main.go: the operations of the
-- OpenAPI document, as the viewer, the card and the reference list them. encoding/json has read the
-- document; `strings.ToUpper` is an argument, and the layout of the pages is left out.
pub mod Sorting
pub mod Curl
use nebari_landing.Base.{
  ℕ, String, Bool, true, false, ◌||◌, Option, none, some, List, [], ◌∷◌, ◌++◌, map, if◌then◌else◌,
  str_eq, is_blank, ◌+++◌, ltb, str_ltb, or_else, any, GoMap, lookup, insertion_sort,
}
use nebari_landing.Api.{Request, Response, page, refuse, reply}

-- An operation of the document, with the schemes of each of its security requirements.
pub record Operation : Type 0 where
  pub summary : String
  pub description : String
  pub security : List (List String)

-- What the three programs read of the document.
pub record Document : Type 0 where
  pub title : String
  pub version : String
  pub description : String
  pub servers : List String
  pub paths : GoMap (GoMap Operation)

-- The zero value that a missing key gives.
abbrev pub no_operation : Operation
no_operation = record { summary = ""; description = ""; security = [] }

-- `methodOrder`
abbrev pub order_table : GoMap ℕ
order_table = ("get", 0) ∷ ("post", 1) ∷ ("put", 2) ∷ ("patch", 3) ∷ ("delete", 4) ∷ []

unfoldable pub method_order : String → ℕ
method_order m = or_else (lookup m order_table) 0

abbrev pub method_less : String → String → Bool
method_less a b = ltb (method_order a) (method_order b)

abbrev pub key_of {ℓ} : {V : Type ℓ} → String × V → String
key_of (k, v) = k

-- `paths`, sorted, and `mkeys`, sorted.
unfoldable pub sorted_paths : GoMap (GoMap Operation) → List String
sorted_paths paths = insertion_sort str_ltb (map key_of paths)

unfoldable pub sorted_methods : GoMap Operation → List String
sorted_methods methods = insertion_sort method_less (map key_of methods)

abbrev pub methods_at : String → GoMap (GoMap Operation) → GoMap Operation
methods_at p paths = or_else (lookup p paths) []

abbrev pub operation_at : String → GoMap Operation → Operation
operation_at m methods = or_else (lookup m methods) no_operation

-- The loop over the methods of one path, and the loop over the paths.
unfoldable pub visit_methods {ℓ} :
    {A : Type ℓ}
    → (String → String → Operation → A)
    → String
    → GoMap Operation
    → List String
    → List A
visit_methods make p methods [] = []
visit_methods make p methods (m ∷ rest) =
    make p m (operation_at m methods) ∷ visit_methods make p methods rest

unfoldable pub visit_paths {ℓ} :
    {A : Type ℓ}
    → (String → String → Operation → A)
    → GoMap (GoMap Operation)
    → List String
    → List A
visit_paths make paths [] = []
visit_paths make paths (p ∷ rest) =
    visit_methods make p (methods_at p paths) (sorted_methods (methods_at p paths))
    ++ visit_paths make paths rest

abbrev some_scheme : List String → Bool
some_scheme [] = false
some_scheme (s ∷ l) = true

-- `requiresAuth`, and the loop of `parseSpecForViewer` over the requirements.
unfoldable pub requires_auth : Operation → Bool
requires_auth o = any some_scheme o.security

abbrev pub is_write : String → Bool
is_write method = str_eq method "POST" || (str_eq method "PUT" || str_eq method "PATCH")

abbrev pub auth_part : Bool → String
auth_part with_auth = if with_auth then " \\\n  -H 'Authorization: Bearer $TOKEN'" else ""

abbrev pub body_part : String → String
body_part method =
    if is_write method then " \\\n  -H 'Content-Type: application/json' \\\n  -d '{}'" else ""

-- `renderCurl`
unfoldable pub render_curl : String → String → Bool → String
render_curl method full_path with_auth =
    "curl -s -X "
    +++ method
    +++ " http://localhost:8080"
    +++ full_path
    +++ auth_part with_auth
    +++ body_part method

-- `curlExample` of the reference.
unfoldable pub curl_example : String → String → String → Bool → String
curl_example method path server with_auth =
    let base = "http://localhost:8080" +++ server in
    "```sh\n"
    +++ ("curl -s -X " +++ method +++ " " +++ base +++ path)
    +++ auth_part with_auth
    +++ body_part method
    +++ "\n```\n"

-- `docsOp`, `endpoint` of the card, and `flatOp` of the reference.
pub record DocsOp : Type 0 where
  pub method : String
  pub path : String
  pub summary : String
  pub description : String
  pub auth : Bool
  pub curl : String

pub record Endpoint : Type 0 where
  pub method : String
  pub path : String
  pub summary : String

pub record FlatOp : Type 0 where
  pub method : String
  pub path : String
  pub op : Operation

-- `docsView`
pub record DocsView : Type 0 where
  pub title : String
  pub version : String
  pub server : String
  pub description : String
  pub operations : List DocsOp

abbrev pub first_or : String → List String → String
first_or def [] = def
first_or def (s ∷ l) = s

module _ (to_upper : String → String) where
  abbrev pub docs_op : String → String → String → Operation → DocsOp
  docs_op server p m o = record {
    method = to_upper m;
    path = p;
    summary = o.summary;
    description = o.description;
    auth = requires_auth o;
    curl = render_curl (to_upper m) (server +++ p) (requires_auth o);
  }

  -- `parseSpecForViewer`, of a document that is read.
  unfoldable pub parse_spec_for_viewer : Document → DocsView
  parse_spec_for_viewer d = record {
    title = d.title;
    version = d.version;
    server = first_or "" d.servers;
    description = d.description;
    operations = visit_paths (docs_op (first_or "" d.servers)) d.paths (sorted_paths d.paths);
  }

  abbrev pub endpoint : String → String → Operation → Endpoint
  endpoint p m o = record { method = to_upper m; path = p; summary = o.summary }

  -- `parseSpec` of the card.
  unfoldable pub parse_spec : Document → List Endpoint
  parse_spec d = visit_paths endpoint d.paths (sorted_paths d.paths)

  abbrev pub flat_op : String → String → Operation → FlatOp
  flat_op p m o = record { method = to_upper m; path = p; op = o }

  -- `flattenOps` of the reference.
  unfoldable pub flatten_ops : Document → List FlatOp
  flatten_ops d = visit_paths flat_op d.paths (sorted_paths d.paths)

-- The server in front of the paths of the reference, in `renderAPI`.
abbrev pub reference_server : Document → String
reference_server d = first_or "/api/v1" d.servers

-- `handleOpenAPISpec` and `handleDocsViewer`, for the document and the page made of it.
unfoldable pub handle_openapi_spec : String → Request → Response
handle_openapi_spec spec r = if str_eq r.method "GET" then reply (page spec) else refuse 405

unfoldable pub handle_docs_viewer : String → Request → Response
handle_docs_viewer html r = if str_eq r.method "GET" then reply (page html) else refuse 405

-- The two routes of the document, as `Routes` connects them.
abbrev pub docs_routes : String → String → Request → Response
docs_routes spec html r =
    if str_eq r.path "/api/v1/docs/openapi.json"
    then handle_openapi_spec spec r
    else handle_docs_viewer html r
