-- ===== src/Hub/Delivery.antt =====
-- The fan-out loop: who is sent a frame, and who is dropped.
use mathlib.Core.List.{append_assoc, append-nil}
use nebari_landing.Base.{
  ℕ, String, ◌≡◌, ◌∙◌, refl, sym, ap, inl, inr, Bool, true, false, not, ◌&&◌, ◌||◌, List, [], ◌∷◌,
  ◌++◌, map, Memᴰ, arith, if◌then◌else◌, Bool-cases, ◌==◌, any, any→Exists, Exists→any, any-false,
  keep, keep_congr, keep-keep, keep_all,
}
use nebari_landing.Hub.{Client, Hub, drop, write_or_drop, deliver}

-- Each connection is registered once.
abbrev pub DistinctConns : List Client → Type 0
DistinctConns [] = Unit
DistinctConns (c ∷ l) = (any (λ d. d.conn == c.conn) l ≡ false) × DistinctConns l

pub eq_of_conn :
    (l : List Client) (c d : Client)
    → DistinctConns l
    → Memᴰ c l
    → Memᴰ d l
    → c.conn ≡ d.conn
    → c ≡ d
eq_of_conn [] c d u m n e = elim m [ ]
eq_of_conn (x ∷ l) c d u (Memᴰ.head p) (Memᴰ.head q) e = p ∙ sym q
eq_of_conn (x ∷ l) c d u (Memᴰ.head p) (Memᴰ.tail n) e =
    absurd (clash x d c (any-false (λ d. d.conn == x.conn) l d u.0 n) p e)
  where
    clash : (x d c : Client) → (d.conn == x.conn) ≡ false → c ≡ x → c.conn ≡ d.conn → ⊥
    clash x d c f p e = ground (arith, ap (λ c. c.conn) p)
eq_of_conn (x ∷ l) c d u (Memᴰ.tail m) (Memᴰ.head q) e =
    absurd (clash x c d (any-false (λ d. d.conn == x.conn) l c u.0 m) q e)
  where
    clash : (x c d : Client) → (c.conn == x.conn) ≡ false → d ≡ x → c.conn ≡ d.conn → ⊥
    clash x c d f p e = ground (arith, ap (λ c. c.conn) p)
eq_of_conn (x ∷ l) c d u (Memᴰ.tail m) (Memᴰ.tail n) e = eq_of_conn l c d u.1 m n e

pub sent-drop : (c : Client) (h : Hub) → (drop c h).sent ≡ h.sent
unfolding drop
sent-drop c h = ground arith

pub policy-drop : (c : Client) (h : Hub) → (drop c h).policy ≡ h.policy
unfolding drop
policy-drop c h = ground arith

clients-drop :
    (c : Client) (h : Hub) → (drop c h).clients ≡ keep (λ d. not (d.conn == c.conn)) h.clients
unfolding drop
clients-drop c h = elim (Bool-cases (any (λ d. d.conn == c.conn) h.clients)) [
  | inl e ↦ rw e refl
  | inr e ↦ rw e (
      sym (
        keep_all (λ d. not (d.conn == c.conn)) h.clients
          λ a m. ap not (any-false (λ d. d.conn == c.conn) h.clients a e m)))
]

de_morgan : (a b : Bool) → (not a && not b) ≡ not (a || b)
de_morgan a b = ground arith

module _ (writes : Client → Bool) (raw : String) (allowed : Client → Bool) where
  abbrev pub reached : Client → Bool
  reached c = allowed c && writes c

  -- A write to the client was tried, and failed.
  abbrev pub failing : Client → Bool
  failing c = allowed c && not (writes c)

  abbrev pub frames : List Client → List (ℕ × String)
  frames l = map (λ c. (c.conn, raw)) (keep reached l)

  abbrev tried : Client → Hub → Hub
  tried c h = if allowed c then write_or_drop writes raw c h else h

  sent-tried : (c : Client) (h : Hub) → (tried c h).sent ≡ h.sent ++ frames (c ∷ [])
  unfolding write_or_drop keep
  sent-tried c h = ground (arith, sent-drop c h, append-nil h.sent)

  frames-cons : (c : Client) (l : List Client) → frames (c ∷ []) ++ frames l ≡ frames (c ∷ l)
  unfolding keep
  frames-cons c l = ground arith

  pub sent-deliver :
      (l : List Client) (h : Hub) → (deliver writes raw allowed l h).sent ≡ h.sent ++ frames l
  unfolding deliver
  sent-deliver [] h = unfold keep in sym (append-nil h.sent)
  sent-deliver (c ∷ l) h =
      sent-deliver l (tried c h)
      ∙ ap (λ s. s ++ frames l) (sent-tried c h)
      ∙ append_assoc h.sent (frames (c ∷ [])) (frames l)
      ∙ ap (λ f. h.sent ++ f) (frames-cons c l)

  clients-tried :
      (c : Client) (h : Hub)
      → (tried c h).clients ≡ keep (λ d. not (failing c && d.conn == c.conn)) h.clients
  unfolding write_or_drop
  clients-tried c h = elim (Bool-cases (allowed c)) [
    | inl a ↦ elim (Bool-cases (writes c)) [
      | inl w ↦ rw (a, w) (sym (keep_all (λ d. true) h.clients (λ d m. refl)))
      | inr w ↦ rw (a, w) (clients-drop c h)
    ]
    | inr a ↦ rw a (sym (keep_all (λ d. true) h.clients (λ d m. refl)))
  ]

  abbrev pub loses : List Client → Client → Bool
  loses l d = any (λ c. failing c && d.conn == c.conn) l

  pub clients-deliver_from :
      (l : List Client) (h : Hub)
      → (deliver writes raw allowed l h).clients ≡ keep (λ d. not (loses l d)) h.clients
  unfolding deliver any
  clients-deliver_from [] h = sym (keep_all (λ d. true) h.clients (λ d m. refl))
  clients-deliver_from (c ∷ l) h =
      clients-deliver_from l (tried c h)
      ∙ ap (keep (λ d. not (loses l d))) (clients-tried c h)
      ∙ keep-keep (λ d. not (loses l d)) (λ d. not (failing c && d.conn == c.conn)) h.clients
      ∙ keep_congr _ _ h.clients (λ d m. de_morgan (failing c && d.conn == c.conn) (loses l d))

  loses-failing :
      (l : List Client) (d : Client) → DistinctConns l → Memᴰ d l → loses l d ≡ failing d
  loses-failing l d u m = elim (Bool-cases (failing d)) [
    | inl e ↦ Exists→any (λ c. failing c && d.conn == c.conn) l d m (ground arith) ∙ sym e
    | inr e ↦ elim (Bool-cases (loses l d)) [
      | inl q ↦
          let (c, n, p) = any→Exists (λ c. failing c && d.conn == c.conn) l q in
          absurd (refute c e p (eq_of_conn l c d u n m (same_conn c d p)))
      | inr q ↦ q ∙ sym e
    ]
  ]
    where
      same_conn : (c d : Client) → (failing c && d.conn == c.conn) ≡ true → c.conn ≡ d.conn
      same_conn c d p = ground arith

      refute : (c : Client) → failing d ≡ false → (failing c && d.conn == c.conn) ≡ true → c ≡ d → ⊥
      refute c e p q = ground (arith, ap failing q)

  -- The loop over all registered clients keeps exactly those to whom no write failed.
  pub clients-deliver :
      (h : Hub)
      → DistinctConns h.clients
      → (deliver writes raw allowed h.clients h).clients ≡ keep (λ c. not (failing c)) h.clients
  clients-deliver h u =
      clients-deliver_from h.clients h
      ∙ keep_congr _ _ h.clients (λ d m. ap not (loses-failing h.clients d u m))

  policy-tried : (c : Client) (h : Hub) → (tried c h).policy ≡ h.policy
  unfolding write_or_drop
  policy-tried c h = ground (arith, policy-drop c h)

  pub policy-deliver :
      (l : List Client) (h : Hub) → (deliver writes raw allowed l h).policy ≡ h.policy
  unfolding deliver
  policy-deliver [] h = refl
  policy-deliver (c ∷ l) h = policy-deliver l (tried c h) ∙ policy-tried c h
