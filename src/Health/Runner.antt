-- ===== src/Health/Runner.antt =====
-- `validateProbeRunnerTarget`: which URLs the probe runner takes.
use nebari_landing.Base.{
  String, ◌≡◌, ◌∙◌, refl, ap, ◌↔◌, Bool, true, false, not, ◌&&◌, Option, none, some, arith, eq_iff,
  str_eq, is_blank, ℤ, atoi, split_on,
}
use nebari_landing.Probe.{TargetRules, Url, Check, passed, ◌>>=◌, require}
use nebari_landing.Probe.Protection.{IsOpen, target_protected_iff}
use nebari_landing.Probe.Steps.{require-eq_passed, require-true}
use nebari_landing.Health.{cluster_name, found, validate_target}

-- What the runner asks of a URL: plain HTTP to a named port of a Service of the cluster, with
-- well-formed labels, outside every protected class.
pub record IsTarget (rules : TargetRules) (raw_url : String) (u : Url) (service namespace : String)
    (port : ℤ) : Type 0 where
  pub parsed : rules.parse_url raw_url ≡ some u
  pub http : u.scheme ≡ "http"
  pub has_host : is_blank u.host ≡ false
  pub has_port : atoi u.port ≡ some port
  pub host_name : cluster_name (split_on b'.' u.hostname) ≡ some (service, namespace)
  pub service_ok : rules.is_dns1035_label service ≡ true
  pub namespace_ok : rules.is_dns1123_label namespace ≡ true
  pub target_open : IsOpen namespace service port

found-eq_passed {ℓ κ} :
    {A : Type ℓ} {B : Type κ} (o : Option A) (r : String) (k : A → Check B) {c : B}
    → (found o r >>= k) ≡ passed c
    → (a : A) × (o ≡ some a) × (k a ≡ passed c)
found-eq_passed none r k h = cc
found-eq_passed (some a) r k h = (a, refl, h)

found-some {ℓ κ} :
    {A : Type ℓ} {B : Type κ} (o : Option A) (r : String) (k : A → Check B) (a : A)
    → o ≡ some a
    → (found o r >>= k) ≡ k a
found-some none r k a h = cc
found-some (some b) r k a h = ap k (some_inj h)
  where
    some_inj : some b ≡ some a → b ≡ a
    some_inj e = cc

both : (a b : Bool) → (a && b) ≡ true → (a ≡ true) × (b ≡ true)
both a b h = (ground arith, ground arith)

unset : (b : Bool) → not b ≡ true → b ≡ false
unset b h = ground arith

require-of_passed : (b : Bool) (r : String) → require b r ≡ passed tt → b ≡ true
require-of_passed true r h = refl
require-of_passed false r h = cc

-- The runner takes a URL exactly if it satisfies every condition of `IsTarget`, for some Service,
-- namespace and port; the conditions on the target are those that the web API itself applies.
pub validate_target_iff :
    (rules : TargetRules) (raw_url : String)
    → (validate_target rules raw_url ≡ passed tt) ↔ (
        (u : Url) × (service : String) × (namespace : String) × (port : ℤ) × IsTarget rules raw_url
          u service namespace port)
unfolding validate_target
validate_target_iff rules raw_url = (
  (λ h0.
      let (u, parsed, h1) = found-eq_passed (rules.parse_url raw_url) _ _ h0 in
      let (shape, h2) =
        require-eq_passed (str_eq u.scheme "http" && not (is_blank u.host)) _ _ h1 in
      let (port, has_port, h3) = found-eq_passed (atoi u.port) _ _ h2 in
      let ((service, namespace), host_name, h4) =
        found-eq_passed (cluster_name (split_on b'.' u.hostname)) _ _ h3 in
      let (labels, h5) =
        require-eq_passed (rules.is_dns1035_label service && rules.is_dns1123_label namespace) _ _
          h4 in
      (
        u,
        service,
        namespace,
        port,
        record {
          parsed = parsed;
          http = (eq_iff u.scheme "http").0 (both _ _ shape).0;
          has_host = unset _ (both _ _ shape).1;
          has_port = has_port;
          host_name = host_name;
          service_ok = (both _ _ labels).0;
          namespace_ok = (both _ _ labels).1;
          target_open =
              (target_protected_iff rules namespace service port).0
                (unset _ (require-of_passed _ _ h5));
        },
      )),
  (λ (u, service, namespace, port, t).
      found-some (rules.parse_url raw_url) _ _ u t.parsed
      ∙ require-true (str_eq u.scheme "http" && not (is_blank u.host)) _ _
          (ground (arith, (eq_iff u.scheme "http").1 t.http, t.has_host))
      ∙ found-some (atoi u.port) _ _ port t.has_port
      ∙ found-some (cluster_name (split_on b'.' u.hostname)) _ _ (service, namespace) t.host_name
      ∙ require-true (rules.is_dns1035_label service && rules.is_dns1123_label namespace) _ _
          (ground (arith, t.service_ok, t.namespace_ok))
      ∙ ap (λ b. require (not b) "probe target is protected")
          ((target_protected_iff rules namespace service port).1 t.target_open)),
)
