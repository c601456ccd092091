-- ===== src/Probe/Protection.antt =====
-- Which targets the protection of service_cache.go lets a probe reach.
use nebari_landing.Base.{
  ℕ, String, ◌≡◌, ◌∙◌, refl, sym, ap, ◌≢◌, ◌↔◌, Bool, true, false, not, ◌||◌, Memᴰ, arith,
  if◌then◌else◌, ◌+++◌, is_blank, is_blank-append, has_suffix, append_of_has_suffix,
  has_suffix-append, any→Exists, Exists→any, has, has→Memᴰ, Memᴰ→has, ℤ, pos, eq_ℤ, eq_ℤ_iff,
}
use nebari_landing.Probe.{
  TargetRules, protected_namespaces, protected_services, protected_ports, target_protection,
  target_protected, show_int, port_protected,
}

-- A target outside every protected class.
pub record IsOpen (namespace service : String) (port : ℤ) : Type 0 where
  pub unlisted : ¬ Memᴰ namespace protected_namespaces
  pub not_system : (r : String) → namespace ≢ r +++ "-system"
  pub not_service : ¬ Memᴰ (namespace +++ "/" +++ service) protected_services
  pub port_unlisted : (q : ℕ) → Memᴰ q protected_ports → port ≢ pos q

-- The four tests of the protection, before they are turned into a text.
protects : String → String → ℤ → Bool
protects namespace service port =
    has namespace protected_namespaces
    || (has_suffix namespace "-system"
        || (has (namespace +++ "/" +++ service) protected_services || port_protected port))

-- The texts of the ladder are not empty, so its result is empty only where no test passes.
ladder :
    (a b c d : Bool) (s t u v : String)
    → is_blank s ≡ false
    → is_blank t ≡ false
    → is_blank u ≡ false
    → is_blank v ≡ false
    → not (is_blank (if a then s else if b then t else if c then u else if d then v else ""))
      ≡ a || (b || (c || d))
ladder true b c d s t u v hs ht hu hv = rw hs
ladder false true c d s t u v hs ht hu hv = rw ht
ladder false false true d s t u v hs ht hu hv = rw hu
ladder false false false true s t u v hs ht hu hv = rw hv
ladder false false false false s t u v hs ht hu hv = refl

target_protected-protects :
    (rules : TargetRules) (namespace service : String) (port : ℤ)
    → target_protected rules namespace service port ≡ protects namespace service port
unfolding target_protected target_protection protects
target_protected-protects rules namespace service port =
    ladder (has namespace protected_namespaces) (has_suffix namespace "-system")
      (has (namespace +++ "/" +++ service) protected_services) (port_protected port) _ _ _ _
      (is_blank-append "namespace " (rules.quote namespace +++ " is protected"))
      (is_blank-append "namespace " (rules.quote namespace +++ " is a system namespace"))
      (is_blank-append "Service " (namespace +++ "/" +++ service +++ " is protected"))
      (is_blank-append "port " (show_int port +++ " is protected"))

none_passes :
    (a b c d : Bool)
    → (a || (b || (c || d))) ≡ false
    → (a ≡ false) × (b ≡ false) × (c ≡ false) × (d ≡ false)
none_passes a b c d h = ground arith

IsOpen-of_protects :
    (namespace service : String) (port : ℤ)
    → protects namespace service port ≡ false
    → IsOpen namespace service port
unfolding protects port_protected
IsOpen-of_protects namespace service port h =
    let (a, b, c, d) =
      none_passes (has namespace protected_namespaces) (has_suffix namespace "-system")
        (has (namespace +++ "/" +++ service) protected_services) (port_protected port) h in
    record {
      unlisted = λ m. cc (Memᴰ→has namespace protected_namespaces m, a);
      not_system = λ r e. cc (has_suffix-append r "-system", ap (λ s. has_suffix s "-system") e, b);
      not_service = λ m. cc (Memᴰ→has (namespace +++ "/" +++ service) protected_services m, c);
      port_unlisted = λ q m e. cc (
        Exists→any (λ q. eq_ℤ (pos q) port) protected_ports q m ((eq_ℤ_iff (pos q) port).1 (sym e)),
        d,
      );
    }

refuted : (b : Bool) → ¬ (b ≡ true) → b ≡ false
refuted true h = absurd (h refl)
refuted false h = refl

protects_of_open :
    (namespace service : String) (port : ℤ)
    → IsOpen namespace service port
    → protects namespace service port ≡ false
unfolding protects port_protected
protects_of_open namespace service port o =
    rw
      (refuted (has namespace protected_namespaces)
        (λ e. o.unlisted (has→Memᴰ namespace protected_namespaces e)))
      (rw
        (refuted (has_suffix namespace "-system")
          (λ e. let (r, p) = append_of_has_suffix namespace "-system" e in o.not_system r p))
        (rw
          (refuted (has (namespace +++ "/" +++ service) protected_services)
            (λ e. o.not_service (has→Memᴰ (namespace +++ "/" +++ service) protected_services e)))
          (refuted (port_protected port) (λ e.
            let (q, m, p) = any→Exists (λ q. eq_ℤ (pos q) port) protected_ports e in
            o.port_unlisted q m (sym ((eq_ℤ_iff (pos q) port).0 p))))))

-- A target is protected exactly when it is not open: it stands in a listed namespace, or in one
-- that ends in "-system", or is a listed Service, or its port is listed.
pub target_protected_iff :
    (rules : TargetRules) (namespace service : String) (port : ℤ)
    → (target_protected rules namespace service port ≡ false) ↔ IsOpen namespace service port
target_protected_iff rules namespace service port = (
  (λ h.
      IsOpen-of_protects namespace service port
        (sym (target_protected-protects rules namespace service port) ∙ h)),
  (λ o.
      target_protected-protects rules namespace service port
      ∙ protects_of_open namespace service port o),
)
