-- ===== src/Auth/Stats.antt =====
-- internal/auth/jwt_validator.go: Stats, the snapshot of the validator that the debug answer shows.
use nebari_landing.Base.{ℕ, Bool, Option, length}
use nebari_landing.Auth.{Validator, prune_unknown}

-- `ValidatorStats`
pub record Stats : Type 0 where
  pub ready : Bool
  pub key_count : ℕ
  pub last_fetch : Option ℕ
  pub last_refresh_attempt : Option ℕ
  pub refresh_attempts : ℕ
  pub refresh_successes : ℕ
  pub refresh_failures : ℕ
  pub refresh_skipped : ℕ
  pub refresh_coalesced : ℕ
  pub unknown_kid_total : ℕ
  pub unknown_kid_hits : ℕ
  pub unknown_kid_entries : ℕ

-- `Stats`, which drops the unknown key ids that have expired.
unfoldable pub stats : ℕ → Validator → Validator × Stats
stats now v =
    let kids = prune_unknown now v.unknown_kids in
    (
      record v { unknown_kids = kids },
      record {
        ready = v.ready;
        key_count = length v.public_keys;
        last_fetch = v.last_fetch;
        last_refresh_attempt = v.last_refresh_attempt;
        refresh_attempts = v.refresh_attempts;
        refresh_successes = v.refresh_successes;
        refresh_failures = v.refresh_failures;
        refresh_skipped = v.refresh_skipped;
        refresh_coalesced = v.refresh_coalesced;
        unknown_kid_total = v.unknown_kid_total;
        unknown_kid_hits = v.unknown_kid_hits;
        unknown_kid_entries = length kids;
      },
    )
