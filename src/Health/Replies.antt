-- ===== src/Health/Replies.antt =====
-- internal/health/checker.go: what a probe's reply says, directly and through the probe runner.
use nebari_landing.Base.{
  ℕ, String, Bool, not, ◌&&◌, Option, none, some, ◌==◌, if◌then◌else◌, ◌+++◌, is_blank, ltb, leb,
  decimal, ◌⊎◌, inl, inr,
}
use nebari_landing.Probe.{HealthCheckConfig}
use nebari_landing.Cache.{HealthStatus}

-- `probeResult`
pub record ProbeResult : Type 0 where
  pub status : String
  pub message : String
  pub checked_at : ℕ

-- `healthStatus`
unfoldable pub health_status : ProbeResult → HealthStatus
health_status r = record { status = r.status; last_check = some r.checked_at; message = r.message }

-- What `http.NewRequestWithContext` and `client.Do` give; an error is its text.
pub data HttpReply : Type 0 where
  unbuilt : String → HttpReply
  failed : String → HttpReply
  answered : ℕ → HttpReply

-- `performProbeRequest`
unfoldable pub perform_probe : ℕ → HttpReply → ProbeResult
perform_probe now (unbuilt err) = record {
  status = "unknown";
  message = "failed to build request: " +++ err;
  checked_at = now;
}
perform_probe now (failed err) = record {
  status = "unhealthy";
  message = "probe error: " +++ err;
  checked_at = now;
}
perform_probe now (answered status_code) = record {
  status = if leb 200 status_code && ltb status_code 300 then "healthy" else "unhealthy";
  message = "HTTP " +++ decimal status_code;
  checked_at = now;
}

-- `remoteProbeResponse`; `none` is the zero time.
pub record RemoteBody : Type 0 where
  pub status : String
  pub message : String
  pub checked_at : Option ℕ

-- What comes of a call of the probe runner. A reply has its status code, the trimmed text of its
-- first 512 bytes, and what encoding/json reads from it, or the text of that error.
pub data RemoteReply : Type 0 where
  unmarshalled : String → RemoteReply
  unbuilt : String → RemoteReply
  unavailable : String → RemoteReply
  replied : ℕ → String → String ⊎ RemoteBody → RemoteReply

abbrev pub unknown_result : ℕ → String → ProbeResult
unknown_result now message = record { status = "unknown"; message = message; checked_at = now }

abbrev pub or_now : Option ℕ → ℕ → ℕ
or_now none now = now
or_now (some t) now = t

abbrev pub decoded_result : ℕ → String ⊎ RemoteBody → ProbeResult
decoded_result now (inl err) =
    unknown_result now ("failed to decode probe runner response: " +++ err)
decoded_result now (inr out) = record {
  status = if is_blank out.status then "unknown" else out.status;
  message = out.message;
  checked_at = or_now out.checked_at now;
}

-- `remoteProbeRequester.Probe`
unfoldable pub remote_probe : ℕ → RemoteReply → ProbeResult
remote_probe now (unmarshalled err) = unknown_result now ("failed to build probe request: " +++ err)
remote_probe now (unbuilt err) =
    unknown_result now ("failed to build probe runner request: " +++ err)
remote_probe now (unavailable err) = unknown_result now ("probe runner unavailable: " +++ err)
remote_probe now (replied status_code reason body) =
    if not (status_code == 200)
    then unknown_result now (
        if status_code == 403
        then "probe runner rejected target: " +++ reason
        else "probe runner HTTP " +++ decimal status_code +++ ": " +++ reason)
    else decoded_result now body

-- What the network would answer to a probe at a time, asked directly and through the runner.
pub record Network : Type 0 where
  pub now : ℕ
  pub direct : HealthCheckConfig → HttpReply
  pub remote : HealthCheckConfig → RemoteReply

-- `requesterFor`, and the probe with it: `runner` says whether a probe runner is configured.
unfoldable pub run_probe : Bool → Network → HealthCheckConfig → ProbeResult
run_probe runner net cfg =
    if cfg.trusted
    then perform_probe net.now (net.direct cfg)
    else if runner
    then remote_probe net.now (net.remote cfg)
    else perform_probe net.now (net.direct cfg)
