-- ===== src/Health/Serving.antt =====
-- internal/health/probe_runner.go: the handler of the probe runner, and the way of a probe from the
-- checker through the runner to its target and back.
pub mod Delegating
use nebari_landing.Base.{
  ℕ, String, Bool, true, false, not, Option, none, some, List, [], ◌∷◌, if◌then◌else◌, str_eq, ℤ,
}
use nebari_landing.Probe.{HealthCheckConfig, TargetRules, Check, passed, refused}
use nebari_landing.Health.{
  ProbeResult, HttpReply, perform_probe, RemoteBody, RemoteReply, Network, validate_target,
}

-- What the runner answers: an error with its status and text, or a result.
pub data Answer : Type 0 where
  turned_away : ℕ → String → Answer
  measured : ProbeResult → Answer

-- `remoteProbeRequest`
pub record ProbeRequest : Type 0 where
  pub probe_url : String
  pub timeout_seconds : ℤ

-- The network at the runner: the time, and what a request gives.
pub record Outside : Type 0 where
  pub now : ℕ
  pub ask : ProbeRequest → HttpReply

-- The answer, and the requests that the runner has made to targets.
abbrev pub measure : Outside → ProbeRequest → Check (Unit {0}) → Answer × List ProbeRequest
measure net req (passed u) = (measured (perform_probe net.now (net.ask req)), req ∷ [])
measure net req (refused reason) = (turned_away 403 reason, [])

abbrev pub for_request : TargetRules → Outside → Option ProbeRequest → Answer × List ProbeRequest
for_request rules net none = (turned_away 400 "invalid probe request", [])
for_request rules net (some req) = measure net req (validate_target rules req.probe_url)

-- `handleProbeRunnerRequest`, on a body that encoding/json has read, within its limit, or not.
unfoldable pub handle_probe_runner_request :
    TargetRules → Outside → String → Option ProbeRequest → Answer × List ProbeRequest
handle_probe_runner_request rules net method body =
    if not (str_eq method "POST")
    then (turned_away 405 "method not allowed", [])
    else for_request rules net body

-- The way between the checker and the runner: how a request arrives, and an answer comes back.
pub record Link : Type 0 where
  pub send : ProbeRequest → Option ProbeRequest
  pub receive : Answer → RemoteReply

abbrev pub request_for : HealthCheckConfig → ProbeRequest
request_for cfg = record { probe_url = cfg.probe_url; timeout_seconds = cfg.timeout_seconds }

-- What the runner makes of the request for a probe, when it stands behind the link.
abbrev pub served : TargetRules → Outside → Link → HealthCheckConfig → Answer × List ProbeRequest
served rules net link cfg =
    handle_probe_runner_request rules net "POST" (link.send (request_for cfg))

-- The network that the checker then sees.
abbrev pub delegated : TargetRules → Outside → Link → ℕ → (HealthCheckConfig → HttpReply) → Network
delegated rules net link now direct = record {
  now = now;
  direct = direct;
  remote = λ cfg. link.receive (served rules net link cfg).0;
}
