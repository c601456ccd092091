-- ===== src/Auth/Starting.antt =====
-- internal/auth/jwt_validator.go: initLoop, the first fetch of the keys with its retries. The network,
-- the clock and the channel of `Stop` are the rounds that the loop meets.
pub mod Ending
use nebari_landing.Base.{
  ℕ, zero, suc, ◌*◌, String, Bool, true, false, Option, none, some, List, [], ◌∷◌, if◌then◌else◌,
}
use nebari_landing.Auth.{Validator, Jwk, fetch_keys}

-- What one attempt meets: whether `Stop` was called before it, and else its time and the reply.
pub record Round : Type 0 where
  pub halts : Bool
  pub now : ℕ
  pub reply : Option (List Jwk)

-- How the loop ends; `polling` is a loop that has used up its fuel.
pub data Ended : Type 0 where
  online : Ended
  halted : Ended
  polling : Ended

-- The validator when the loop is done, with the waits in front of the attempts behind the first.
pub record Loop : Type 0 where
  pub validator : Validator
  pub waits : List ℕ
  pub ended : Ended

abbrev pub max_attempts : ℕ
max_attempts = 5

abbrev pub initial_backoff : ℕ
initial_backoff = 2000000000

abbrev pub slow_interval : ℕ
slow_interval = 30000000000

abbrev pub wait : ℕ → Loop → Loop
wait d loop = record loop { waits = d ∷ loop.waits }

abbrev pub continue_with : Validator × Option Ended → (Validator → Loop) → Loop
continue_with (v, some e) rest = record { validator = v; waits = []; ended = e }
continue_with (v, none) rest = rest v

abbrev pub later : (ℕ → Round) → ℕ → Round
later rounds i = rounds (suc i)

abbrev pub tried : Validator × Bool → Validator × Option Ended
tried (v, true) = (record v { ready = true }, some online)
tried (v, false) = (v, none)

module _ (decode : String → Option (List ℕ)) where
  -- The test of `stopped` or of the channel, and the attempt.
  unfoldable pub attempt : Round → Validator → Validator × Option Ended
  attempt r v = if r.halts then (v, some halted) else tried (fetch_keys decode r.now r.reply v)

  -- The loop of the slow poll, from the end of a wait on.
  unfoldable pub poll : ℕ → (ℕ → Round) → Validator → Loop
  poll zero rounds v = record { validator = v; waits = []; ended = polling }
  poll (suc fuel) rounds v =
      continue_with (attempt (rounds 0) v) (λ u. wait slow_interval (poll fuel (later rounds) u))

  -- What follows a failed attempt, where so many active ones are left.
  unfoldable pub retry : ℕ → ℕ → ℕ → (ℕ → Round) → Validator → Loop
  retry fuel zero backoff rounds v = wait slow_interval (poll fuel rounds v)
  retry fuel (suc left) backoff rounds v =
      wait backoff
        (continue_with (attempt (rounds 0) v) (λ u. retry fuel left (backoff * 2) (later rounds) u))

  -- `initLoop`; the fuel bounds the attempts of the slow poll, which goes on without end.
  unfoldable pub init_loop : ℕ → (ℕ → Round) → Validator → Loop
  init_loop fuel rounds v =
      continue_with (attempt (rounds 0) v) (λ u. retry fuel 4 initial_backoff (later rounds) u)
