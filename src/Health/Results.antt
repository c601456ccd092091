-- ===== src/Health/Results.antt =====
-- What the status of a probe says about the reply behind it.
use nebari_landing.Base.{
  ◌≢◌, ℕ, ◌≤◌, ◌<◌, String, ◌≡◌, refl, ap, ◌↔◌, ◌⊎◌, inl, inr, Bool, true, false, ◌&&◌, ◌==◌, arith,
  ltb, leb, if◌then◌else◌, Bool-cases, is_blank, ==_iff, sym, subst, differ,
}
use nebari_landing.Probe.{HealthCheckConfig}
use nebari_landing.Health.{
  HttpReply, RemoteReply, RemoteBody, Network, perform_probe, remote_probe, decoded_result,
  run_probe,
}

-- A direct probe finds the target healthy exactly if the target answered with a status code from
-- 200 to 299.
pub perform_probe-healthy_iff :
    (now : ℕ) (reply : HttpReply)
    → ((perform_probe now reply).status ≡ "healthy")
      ↔ ((n : ℕ) × (reply ≡ HttpReply.answered n) × (200 ≤ n) × (n < 300))
unfolding perform_probe
perform_probe-healthy_iff now (HttpReply.unbuilt err) =
    ((λ h. absurd (differ "unknown" "healthy" refl h)), (λ (n, e, l, u). cc e))
perform_probe-healthy_iff now (HttpReply.failed err) =
    ((λ h. absurd (differ "unhealthy" "healthy" refl h)), (λ (n, e, l, u). cc e))
perform_probe-healthy_iff now (HttpReply.answered n) = (
  (λ h. elim (Bool-cases (leb 200 n && ltb n 300)) [
    | inl e ↦ (n, refl, ground arith, ground arith)
    | inr e ↦ absurd (differ "unhealthy" "healthy" refl (rw e at h))
  ]),
  (λ (m, e, l, u). rw (in_range m e l u) refl),
)
  where
    code_of : HttpReply → ℕ
    code_of (HttpReply.answered n) = n
    code_of _ = 0

    in_range :
        (m : ℕ)
        → HttpReply.answered n ≡ HttpReply.answered m
        → 200 ≤ m
        → m < 300
        → (leb 200 n && ltb n 300) ≡ true
    in_range m e l u = ground (arith, ap code_of e)

-- The runner answered with status 200 and this status in its body.
abbrev pub Measured : String → RemoteReply → Type 0
Measured status reply =
    (reason : String) × (body : RemoteBody) × (reply ≡ RemoteReply.replied 200 reason (inr body))
    × (body.status ≡ status)

blank_status :
    (b : Bool) (s : String)
    → is_blank s ≡ b
    → (if b then "unknown" else s) ≡ "unhealthy"
    → s ≡ "unhealthy"
blank_status true s e h = absurd (differ "unknown" "unhealthy" refl h)
blank_status false s e h = h

remote_probe-unhealthy_iff :
    (now : ℕ) (reply : RemoteReply)
    → ((remote_probe now reply).status ≡ "unhealthy") ↔ Measured "unhealthy" reply
unfolding remote_probe
remote_probe-unhealthy_iff now (RemoteReply.unmarshalled err) =
    ((λ h. absurd (differ "unknown" "unhealthy" refl h)), (λ (r, b, e, s). cc e))
remote_probe-unhealthy_iff now (RemoteReply.unbuilt err) =
    ((λ h. absurd (differ "unknown" "unhealthy" refl h)), (λ (r, b, e, s). cc e))
remote_probe-unhealthy_iff now (RemoteReply.unavailable err) =
    ((λ h. absurd (differ "unknown" "unhealthy" refl h)), (λ (r, b, e, s). cc e))
remote_probe-unhealthy_iff now (RemoteReply.replied n reason body) = elim (Bool-cases (n == 200)) [
  | inl e ↦ rw e (decoded_iff n reason body ((==_iff n 200).0 e))
  | inr e ↦ rw e (
    (λ h. absurd (differ "unknown" "unhealthy" refl h)),
    (λ (r, b, q, s). absurd (other_code e (ap code_of q))),
  )
]
  where
    code_of : RemoteReply → ℕ
    code_of (RemoteReply.replied n reason body) = n
    code_of _ = 0

    body_of : RemoteReply → String ⊎ RemoteBody
    body_of (RemoteReply.replied n reason body) = body
    body_of _ = inl ""

    other_code : (n == 200) ≡ false → n ≢ 200
    other_code e q = ground (arith, e, q)

    decoded_iff :
        (n : ℕ) (reason : String) (body : String ⊎ RemoteBody)
        → n ≡ 200
        → ((decoded_result now body).status ≡ "unhealthy")
          ↔ Measured "unhealthy" (RemoteReply.replied n reason body)
    decoded_iff n reason (inl err) e =
        ((λ h. absurd (differ "unknown" "unhealthy" refl h)), (λ (r, b, q, s). cc (ap body_of q)))
    decoded_iff n reason (inr out) e = (
      (λ h. (
        reason,
        out,
        ap (λ k. RemoteReply.replied k reason (inr out)) e,
        blank_status (is_blank out.status) out.status refl h,
      )),
      (λ (r, b, q, s). measured b (ap body_of q) s),
    )
      where
        status_of :
            (b : RemoteBody)
            → ◌≡◌ {A = String ⊎ RemoteBody} (inr out) (inr b)
            → b.status ≡ "unhealthy"
            → out.status ≡ "unhealthy"
        status_of b q s = cc

        measured :
            (b : RemoteBody)
            → ◌≡◌ {A = String ⊎ RemoteBody} (inr out) (inr b)
            → b.status ≡ "unhealthy"
            → (decoded_result now (inr out)).status ≡ "unhealthy"
        measured b q s = rw (status_of b q s) refl

-- A probe through the runner is "unhealthy" exactly if the runner answered with status 200 and
-- measured that: neither an unreachable runner, nor a target that it refuses, nor a reply that
-- cannot be read makes a service unhealthy.
pub run_probe-unhealthy_iff :
    (net : Network) (cfg : HealthCheckConfig)
    → cfg.trusted ≡ false
    → ((run_probe true net cfg).status ≡ "unhealthy") ↔ Measured "unhealthy" (net.remote cfg)
unfolding run_probe
run_probe-unhealthy_iff net cfg t =
    subst (λ r. (r.status ≡ "unhealthy") ↔ Measured "unhealthy" (net.remote cfg))
      (sym (
        ap
          (λ b.
            if b
            then perform_probe net.now (net.direct cfg)
            else remote_probe net.now (net.remote cfg))
          t))
      (remote_probe-unhealthy_iff net.now (net.remote cfg))
