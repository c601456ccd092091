-- ===== src/Health/Loops/Following.antt =====
-- `Start`: the probes that run follow the cache, up to the end of the process.
use nebari_landing.Base.{
  String, ◌≡◌, refl, ◌⊎◌, inl, inr, Bool, true, false, none, some, List, [], ◌∷◌, arith, Bool-cases,
  lookup, duration_of_seconds, duration_of_seconds-positive, ℤ, pos, ltb_ℤ, ◌≤ℤ◌, ◌<ℤ◌,
}
use nebari_landing.Cache.{get}
use nebari_landing.Cache.Invariant.{IsKeyed}
use nebari_landing.Health.{Site, stop_all}
use nebari_landing.Health.Reconcile.{config_in, reconcile-running}
use nebari_landing.Health.Loops.{Pulse, elapsed, stopped, reconcile_site, on_pulses, start_checker}

-- What the rest of the program did before the pulse keeps the entries under their own UIDs.
abbrev pub KeepsKeys : Pulse → Type 0
KeepsKeys (elapsed between) = (w : Site) → IsKeyed w.cache → IsKeyed (between w).cache
KeepsKeys (stopped between) = Unit

abbrev pub AllKeepKeys : List Pulse → Type 0
AllKeepKeys [] = Unit
AllKeepKeys (p ∷ rest) = KeepsKeys p × AllKeepKeys rest

-- The loop waits and the probes are those of the cache, or it has returned and no probe runs.
abbrev pub Follows : Site × Bool → Type 0
Follows (w, on) =
    ((on ≡ true) × ((k : String) → lookup k w.checker.running ≡ config_in (get k w.cache)))
    ⊎ ((on ≡ false) × (w.checker.running ≡ []))

on_pulses-Follows :
    (pulses : List Pulse) (w : Site)
    → AllKeepKeys pulses
    → IsKeyed w.cache
    → ((k : String) → lookup k w.checker.running ≡ config_in (get k w.cache))
    → Follows (on_pulses pulses w)
unfolding on_pulses stop_all
on_pulses-Follows [] w h v f = inl (refl, f)
on_pulses-Follows (elapsed between ∷ rest) w h v f =
    let kept = h.0 w v in
    on_pulses-Follows rest (reconcile_site (between w)) h.1 kept
      (reconcile-running (between w).cache (between w).checker kept)
on_pulses-Follows (stopped between ∷ rest) w h v f = inr (refl, refl)

-- Only seconds outside of the range give a duration that is not positive.
outside :
    (seconds : ℤ)
    → duration_of_seconds seconds ≤ℤ pos 0
    → (seconds ≤ℤ pos 0) ⊎ (pos 9223372036 <ℤ seconds)
outside seconds h = ground (arith, duration_of_seconds-positive seconds, h)

-- The checker as `main` makes it, with an interval given in seconds, has that many seconds as a
-- duration of 64 bits, which wraps around. Where that duration is not positive, the checker panics.
-- Where it is, as it is for each positive number of seconds up to 9223372036, the checker follows
-- the cache: each time that it waits for its ticker, whatever happened before, the running probes
-- are exactly those of the configs in the cache; and when it has returned, none runs.
pub start_checker-Follows :
    (seconds : ℤ) (pulses : List Pulse) (w : Site)
    → IsKeyed w.cache
    → AllKeepKeys pulses
    → ((duration_of_seconds seconds ≤ℤ pos 0)
        × ((seconds ≤ℤ pos 0) ⊎ (pos 9223372036 <ℤ seconds))
        × (start_checker (duration_of_seconds seconds) pulses w ≡ none))
      ⊎ ((pos 0 <ℤ duration_of_seconds seconds)
          × ((r : Site × Bool) × (start_checker (duration_of_seconds seconds) pulses w ≡ some r)
              × Follows r))
unfolding start_checker
start_checker-Follows seconds pulses w v h =
    elim (Bool-cases (ltb_ℤ (pos 0) (duration_of_seconds seconds))) [
      | inl e ↦ inr (
        ground arith,
        (
          on_pulses pulses (reconcile_site w),
          rw e refl,
          on_pulses-Follows pulses (reconcile_site w) h v (reconcile-running w.cache w.checker v),
        ),
      )
      | inr e ↦ inl (ground arith, outside seconds (ground arith), rw e refl)
    ]
