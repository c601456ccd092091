-- ===== src/Auth/Starting/Ending.antt =====
-- The first fetch of the keys: that it ends, when, and how.
use nebari_landing.Base.{
  ℕ, zero, suc, ◌+◌, ◌*◌, ◌≤◌, ◌<◌, String, ◌≡◌, ◌∙◌, refl, sym, ap, subst, ◌⊎◌, inl, inr, Bool,
  true, false, Option, none, some, List, [], ◌∷◌, arith, if◌then◌else◌, GoMap,
}
use nebari_landing.Auth.{Validator, RsaKey, Jwk, fetch_keys, install_keys, load_keys, bump}
use nebari_landing.Auth.Starting.{
  Round, Ended, online, halted, Loop, initial_backoff, slow_interval, max_attempts, wait,
  continue_with, later, tried, attempt, poll, retry, init_loop,
}

-- The plan of the waits: the fast ones, and the slow one from then on.
abbrev pub schedule : List ℕ → ℕ → List ℕ
schedule fast zero = []
schedule [] (suc n) = slow_interval ∷ schedule [] n
schedule (d ∷ fast) (suc n) = d ∷ schedule fast n

abbrev pub filled : GoMap RsaKey → Bool
filled [] = false
filled (e ∷ m) = true

module _ (decode : String → Option (List ℕ)) where
  -- Whether a reply brings a key that can be used.
  abbrev pub loads : Option (List Jwk) → Bool
  loads none = false
  loads (some keys) = filled (load_keys decode keys [])

  -- A round that ends the loop: `Stop`, or keys.
  abbrev pub Ends : Round → Type 0
  Ends r = (r.halts ≡ true) ⊎ (loads r.reply ≡ true)

  -- The loop has ended at a round up to the `n`th, by `Stop` or with the keys of that round, after the
  -- waits of the plan.
  pub record IsSettled (rounds : ℕ → Round) (plan : ℕ → List ℕ) (v : Validator) (n : ℕ) (out : Loop)
      : Type 0 where
    pub at : ℕ
    pub bound : at ≤ n
    pub waits : out.waits ≡ plan at
    pub why :
        ((out.ended ≡ online) × (out.validator.ready ≡ true) × (loads (rounds at).reply ≡ true))
        ⊎ ((out.ended ≡ halted) × (out.validator.ready ≡ v.ready) × ((rounds at).halts ≡ true))

  fetch-install_keys :
      (now : ℕ) (m : GoMap RsaKey) (v : Validator)
      → ((install_keys now m v).1 ≡ filled m) × ((install_keys now m v).0.ready ≡ v.ready)
  fetch-install_keys now [] v = (refl, refl)
  fetch-install_keys now (e ∷ m) v = (refl, refl)

  fetch_keys-loads :
      (now : ℕ) (reply : Option (List Jwk)) (v : Validator)
      → ((fetch_keys decode now reply v).1 ≡ loads reply)
        × ((fetch_keys decode now reply v).0.ready ≡ v.ready)
  unfolding fetch_keys
  fetch_keys-loads now none v = (refl, refl)
  fetch_keys-loads now (some keys) v =
      fetch-install_keys now (load_keys decode keys [])
        (record v { refresh_attempts = bump v.refresh_attempts })

  -- What an attempt comes to.
  data Outcome (r : Round) (v : Validator) : Validator × Option Ended → Type 0 where
    stops : r.halts ≡ true → Outcome r v (v, some halted)
    succeeds :
        (u : Validator) → loads r.reply ≡ true → u.ready ≡ true → Outcome r v (u, some online)
    fails :
        (u : Validator)
        → r.halts ≡ false
        → loads r.reply ≡ false
        → u.ready ≡ v.ready
        → Outcome r v (u, none)

  tried-Outcome :
      (r : Round) (v : Validator) (f : Validator × Bool)
      → r.halts ≡ false
      → (f.1 ≡ loads r.reply) × (f.0.ready ≡ v.ready)
      → Outcome r v (tried f)
  tried-Outcome r v (u, true) off h = succeeds (record u { ready = true }) (sym h.0) refl
  tried-Outcome r v (u, false) off h = fails u off (sym h.0) h.1

  halting-Outcome :
      (r : Round) (v : Validator) (b : Bool) (f : Validator × Bool)
      → r.halts ≡ b
      → (f.1 ≡ loads r.reply) × (f.0.ready ≡ v.ready)
      → Outcome r v (if b then (v, some halted) else tried f)
  halting-Outcome r v true f e h = stops e
  halting-Outcome r v false f e h = tried-Outcome r v f e h

  attempt-Outcome : (r : Round) (v : Validator) → Outcome r v (attempt decode r v)
  unfolding attempt
  attempt-Outcome r v =
      halting-Outcome r v r.halts (fetch_keys decode r.now r.reply v) refl
        (fetch_keys-loads r.now r.reply v)

  -- The loop ends at the first round, or as what follows it.
  settle :
      (rounds : ℕ → Round) (plan : ℕ → List ℕ) (v : Validator) (n : ℕ)
      (a : Validator × Option Ended) (rest : Validator → Loop)
      → plan 0 ≡ []
      → Ends (rounds n)
      → Outcome (rounds 0) v a
      → ((u : Validator) (j : ℕ)
          → n ≡ suc j
          → IsSettled (later rounds) (λ k. plan (suc k)) u j (rest u))
      → IsSettled rounds plan v n (continue_with a rest)
  settle rounds plan v n a rest p ends (stops e) f = record {
    at = 0;
    bound = omega arith;
    waits = sym p;
    why = inr (refl, refl, e);
  }
  settle rounds plan v n a rest p ends (succeeds u l r) f = record {
    at = 0;
    bound = omega arith;
    waits = sym p;
    why = inl (refl, r, l);
  }
  settle rounds plan v zero a rest p (inl e) (fails u off empty r) f = cc (e, off)
  settle rounds plan v zero a rest p (inr e) (fails u off empty r) f = cc (e, empty)
  settle rounds plan v (suc j) a rest p ends (fails u off empty r) f =
      let s = f u j refl in
      record {
        at = suc s.at;
        bound = let b : s.at ≤ j = s.bound in omega arith;
        waits = s.waits;
        why = carried (rest u) s.at s.why;
      }
    where
      carried :
          (out : Loop) (k : ℕ)
          → ((out.ended ≡ online)
              × (out.validator.ready ≡ true)
              × (loads (rounds (suc k)).reply ≡ true))
            ⊎ ((out.ended ≡ halted)
                × (out.validator.ready ≡ u.ready)
                × ((rounds (suc k)).halts ≡ true))
          → ((out.ended ≡ online)
              × (out.validator.ready ≡ true)
              × (loads (rounds (suc k)).reply ≡ true))
            ⊎ ((out.ended ≡ halted)
                × (out.validator.ready ≡ v.ready)
                × ((rounds (suc k)).halts ≡ true))
      carried out k (inl w) = inl w
      carried out k (inr (e, q, h)) = inr (e, q ∙ r, h)

  -- A wait in front.
  wait-IsSettled :
      (rounds : ℕ → Round) (plan : ℕ → List ℕ) (d : ℕ) (v : Validator) (n : ℕ) (out : Loop)
      → IsSettled rounds plan v n out
      → IsSettled rounds (λ k. d ∷ plan k) v n (wait d out)
  wait-IsSettled rounds plan d v n out s = record {
    at = s.at;
    bound = s.bound;
    waits = ap (λ l. d ∷ l) s.waits;
    why = s.why;
  }

  poll-IsSettled :
      (fuel : ℕ) (rounds : ℕ → Round) (v : Validator) (n : ℕ)
      → n < fuel
      → Ends (rounds n)
      → IsSettled rounds (schedule []) v n (poll decode fuel rounds v)
  unfolding poll
  poll-IsSettled zero rounds v n h e = absurd (omega arith)
  poll-IsSettled (suc fuel) rounds v n h e =
      settle rounds (schedule []) v n _ _ refl e (attempt-Outcome (rounds 0) v) (λ u j q.
        wait-IsSettled (later rounds) (schedule []) slow_interval u j _
          (poll-IsSettled fuel (later rounds) u j (omega arith) (subst (λ m. Ends (rounds m)) q e)))

  -- The waits of the active attempts that are left.
  abbrev doubled : ℕ → ℕ → List ℕ
  doubled zero backoff = []
  doubled (suc left) backoff = backoff ∷ doubled left (backoff * 2)

  retry-IsSettled :
      (fuel left backoff : ℕ) (rounds : ℕ → Round) (v : Validator) (n : ℕ)
      → n < left + fuel
      → Ends (rounds n)
      → IsSettled rounds
          (λ k. schedule (doubled left backoff) (suc k))
          v
          n
          (retry decode fuel left backoff rounds v)
  unfolding retry
  retry-IsSettled fuel zero backoff rounds v n h e =
      wait-IsSettled rounds (schedule []) slow_interval v n _
        (poll-IsSettled fuel rounds v n (omega arith) e)
  retry-IsSettled fuel (suc left) backoff rounds v n h e =
      wait-IsSettled rounds (schedule (doubled left (backoff * 2))) backoff v n _ (
        settle rounds (schedule (doubled left (backoff * 2))) v n _ _ refl e
          (attempt-Outcome (rounds 0) v)
          (λ u j q.
            retry-IsSettled fuel left (backoff * 2) (later rounds) u j (omega arith)
              (subst (λ m. Ends (rounds m)) q e)))

  -- The loop ends. If `Stop` is called before some attempt, or that attempt brings a usable key, then
  -- with as many rounds of fuel the loop is over by that attempt: either with the keys of an attempt
  -- and the validator ready, or by `Stop` and with the readiness unchanged. The waits between the
  -- attempts were 2, 4, 8 and 16 seconds, and 30 seconds from then on.
  pub init_loop-IsSettled :
      (fuel : ℕ) (rounds : ℕ → Round) (v : Validator) (n : ℕ)
      → n < max_attempts + fuel
      → Ends (rounds n)
      → IsSettled rounds
          (schedule (2000000000 ∷ 4000000000 ∷ 8000000000 ∷ 16000000000 ∷ []))
          v
          n
          (init_loop decode fuel rounds v)
  unfolding init_loop
  init_loop-IsSettled fuel rounds v n h e =
      settle rounds (schedule (doubled 4 initial_backoff)) v n _ _ refl e
        (attempt-Outcome (rounds 0) v)
        (λ u j q.
          retry-IsSettled fuel 4 initial_backoff (later rounds) u j (omega arith)
            (subst (λ m. Ends (rounds m)) q e))
