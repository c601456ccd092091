-- ===== src/Health/Serving/Delegating.antt =====
-- A probe through the runner: what it has in common with a direct one.
use nebari_landing.Base.{
  ℕ, String, ◌≡◌, ◌∙◌, refl, sym, ap, subst, ◌⊎◌, inl, inr, true, false, ◌&&◌, some, List, [], ◌∷◌,
  if_either, if_passed, is_blank, ◌+++◌, leb, ltb,
}
use nebari_landing.Probe.{HealthCheckConfig, TargetRules, Check, passed, refused}
use nebari_landing.Health.{
  ProbeResult, HttpReply, perform_probe, RemoteBody, replied, remote_probe, run_probe,
  validate_target,
}
use nebari_landing.Health.Serving.{
  Answer, turned_away, measured, served, ProbeRequest, Outside, measure, for_request,
  handle_probe_runner_request, Link, request_for, delegated,
}

-- The body of a result.
abbrev pub body_of : ProbeResult → RemoteBody
body_of r = record { status = r.status; message = r.message; checked_at = some r.checked_at }

-- What HTTP and encoding/json do on a link that works: a request arrives as it was sent, a result
-- with the status 200, and an error with its status and text.
pub record IsFaithful (link : Link) : Type 0 where
  pub sent : (req : ProbeRequest) → link.send req ≡ some req
  pub result :
      (r : ProbeResult)
      → (reason : String) × (link.receive (measured r) ≡ replied 200 reason (inr (body_of r)))
  pub error :
      (status : ℕ) (reason : String)
      → (body : String ⊎ RemoteBody) × (link.receive (turned_away status reason)
          ≡ replied status reason body)

perform_probe-named :
    (now : ℕ) (reply : HttpReply) → is_blank (perform_probe now reply).status ≡ false
unfolding perform_probe
perform_probe-named now (HttpReply.unbuilt err) = refl
perform_probe-named now (HttpReply.failed err) = refl
perform_probe-named now (HttpReply.answered code) =
    if_either (λ (s : String). is_blank s ≡ false) (leb 200 code && ltb code 300) _ _ refl refl

remote_probe-result :
    (now : ℕ) (reason : String) (r : ProbeResult)
    → is_blank r.status ≡ false
    → remote_probe now (replied 200 reason (inr (body_of r))) ≡ r
unfolding remote_probe
remote_probe-result now reason r h =
    ap (λ s. record r { status = s }) (if_passed (is_blank r.status) "unknown" r.status h)

-- What the runner's check of the target makes of a probe: its result, and whom the runner asks.
abbrev pub ByTarget :
    Outside → ℕ → HealthCheckConfig → Check (Unit {0}) → ProbeResult → List ProbeRequest → Type 0
ByTarget net now cfg c r asked =
    ((c ≡ passed tt)
      × (r ≡ perform_probe net.now (net.ask (request_for cfg)))
      × (asked ≡ request_for cfg ∷ []))
    ⊎ ((reason : String) × (c ≡ refused reason)
        × (r ≡ record {
          status = "unknown";
          message = "probe runner rejected target: " +++ reason;
          checked_at = now;
        })
        × (asked ≡ []))

-- The same, of what the runner answers over the link.
abbrev AnswersTo :
    Outside → Link → ℕ → HealthCheckConfig → Check (Unit {0}) → Answer × List ProbeRequest → Type 0
AnswersTo net link now cfg c (a, asked) =
    ByTarget net now cfg c (remote_probe now (link.receive a)) asked

measure-ByTarget :
    (net : Outside) (link : Link) (now : ℕ) (cfg : HealthCheckConfig) (c : Check (Unit {0}))
    → IsFaithful link
    → AnswersTo net link now cfg c (measure net (request_for cfg) c)
unfolding remote_probe
measure-ByTarget net link now cfg (passed u) f =
    let r = perform_probe net.now (net.ask (request_for cfg)) in
    let (reason, e) = f.result r in
    inl (
      refl,
      ap (remote_probe now) e
          ∙ remote_probe-result now reason r
              (perform_probe-named net.now (net.ask (request_for cfg))),
      refl,
    )
measure-ByTarget net link now cfg (refused reason) f =
    let (body, e) = f.error 403 reason in inr (reason, refl, ap (remote_probe now) e, refl)

served-ByTarget :
    (rules : TargetRules) (net : Outside) (link : Link) (now : ℕ) (cfg : HealthCheckConfig)
    → IsFaithful link
    → AnswersTo net link now cfg (validate_target rules cfg.probe_url) (served rules net link cfg)
unfolding handle_probe_runner_request
served-ByTarget rules net link now cfg f =
    subst
      (λ b.
        AnswersTo net link now cfg (validate_target rules cfg.probe_url) (for_request rules net b))
      (sym (f.sent (request_for cfg)))
      (measure-ByTarget net link now cfg (validate_target rules cfg.probe_url) f)

-- Over a link that works, the probe of a NebariApp through the runner gives exactly the result that
-- a direct probe of the target from the runner gives, where the runner's check passes the target,
-- which the runner then asks once and for that URL; where it does not, the result is "unknown", with
-- the reason, and the runner makes no request.
pub run_probe-delegated :
    (rules : TargetRules) (net : Outside) (link : Link) (now : ℕ)
    (direct : HealthCheckConfig → HttpReply) (cfg : HealthCheckConfig)
    → IsFaithful link
    → cfg.trusted ≡ false
    → ByTarget net now cfg
        (validate_target rules cfg.probe_url)
        (run_probe true (delegated rules net link now direct) cfg)
        (served rules net link cfg).1
unfolding run_probe
run_probe-delegated rules net link now direct cfg f untrusted =
    subst
      (λ r.
        ByTarget net now cfg (validate_target rules cfg.probe_url) r (served rules net link cfg).1)
      (sym (if_passed cfg.trusted _ _ untrusted)) (served-ByTarget rules net link now cfg f)
