-- ===== src/Probe/Targets.antt =====
-- internal/cache/service_cache.go: the targets that a probe may not reach, and what a setting of a
-- health check is cut down to. The fields of `TargetRules` are parameters.
use nebari_landing.Base.{
  ℕ, String, code, Bool, false, not, ◌&&◌, ◌||◌, Option, none, some, List, [], ◌∷◌, ltb, ◌==◌,
  if◌then◌else◌, ◌+++◌, is_blank, has_prefix, has_suffix, decimal, byte_length, any, has, ℤ, pos,
  negsuc, ltb_ℤ, eq_ℤ, neg_part,
}

-- What `url.ParseRequestURI` and `url.Parse` return, as far as the program reads it.
pub record Url : Type 0 where
  pub scheme : String
  pub host : String
  pub hostname : String
  pub port : String
  pub path : String

pub record TargetRules : Type 0 where
  pub quote : String → String
  pub is_dns1035_label : String → Bool
  pub is_dns1123_label : String → Bool
  pub parse_request_uri : String → Option Url
  pub parse_url : String → Option Url

-- `HealthCheckConfig`
pub record HealthCheckConfig : Type 0 where
  pub probe_url : String
  pub interval_seconds : ℤ
  pub timeout_seconds : ℤ
  pub trusted : Bool

abbrev pub protected_namespaces : List String
protected_namespaces =
    "argocd" ∷ "cert-manager" ∷ "database" ∷ "databases" ∷ "db" ∷ "envoy-gateway-system"
    ∷ "kube-node-lease" ∷ "kube-public" ∷ "kube-system" ∷ "keycloak" ∷ "mariadb" ∷ "metallb-system"
    ∷ "mongo" ∷ "mongodb" ∷ "mysql" ∷ "postgres" ∷ "postgresql" ∷ "redis" ∷ "vault" ∷ []

abbrev pub protected_services : List String
protected_services = "default/kubernetes" ∷ []

abbrev pub protected_ports : List ℕ
protected_ports =
    2181 ∷ 2379 ∷ 2380 ∷ 3306 ∷ 5432 ∷ 6379 ∷ 6443 ∷ 9200 ∷ 9300 ∷ 10250 ∷ 10255 ∷ 11211 ∷ 27017
    ∷ 27018 ∷ 27019 ∷ []

-- `%d` of an `int`.
unfoldable pub show_int : ℤ → String
show_int (pos n) = decimal n
show_int (negsuc n) = "-" +++ decimal (neg_part (negsuc n))

-- `_, ok := protectedHealthCheckPorts[port]`
unfoldable pub port_protected : ℤ → Bool
port_protected port = any (λ q. eq_ℤ (pos q) port) protected_ports

-- `HealthCheckTargetProtection`: why the target is protected, "" where it is not.
unfoldable pub target_protection : TargetRules → String → String → ℤ → String
target_protection rules namespace service_name port =
    if has namespace protected_namespaces
    then "namespace " +++ rules.quote namespace +++ " is protected"
    else if has_suffix namespace "-system"
    then "namespace " +++ rules.quote namespace +++ " is a system namespace"
    else if has (namespace +++ "/" +++ service_name) protected_services
    then "Service " +++ namespace +++ "/" +++ service_name +++ " is protected"
    else if port_protected port
    then "port " +++ show_int port +++ " is protected"
    else ""

-- `HealthCheckTargetProtected`
unfoldable pub target_protected : TargetRules → String → String → ℤ → Bool
target_protected rules namespace service_name port =
    not (is_blank (target_protection rules namespace service_name port))

-- `clampHealthCheckSeconds`
unfoldable pub clamp_seconds : ℤ → ℤ → ℤ → ℤ → ℤ
clamp_seconds value default_value min_value max_value =
    if not (ltb_ℤ (pos 0) value)
    then default_value
    else if ltb_ℤ value min_value
    then min_value
    else if ltb_ℤ max_value value
    then max_value
    else value

abbrev pub is_control : ℕ → Bool
is_control r = ltb r 0x20 || r == 0x7f

-- The loop over the runes of the path.
unfoldable pub has_control : String → Bool
has_control String.[] = false
has_control (String.◌∷◌ c s) = is_control (code c) || has_control s

-- The checks on the parsed path, and `err != nil`.
parsed_ok : Option Url → Bool
parsed_ok none = false
parsed_ok (some u) = is_blank u.scheme && (is_blank u.host && has_prefix u.path "/")

-- `normalizeHealthCheckPath`: the second result is `is_some`.
unfoldable pub normalize_path : TargetRules → String → Option String
unfolding parsed_ok
normalize_path rules path =
    if is_blank path
    then some "/"
    else if ltb 2048 (byte_length path)
    then none
    else if not (has_prefix path "/") || has_prefix path "//"
    then none
    else if has_control path
    then none
    else if parsed_ok (rules.parse_request_uri path)
    then some path
    else none
