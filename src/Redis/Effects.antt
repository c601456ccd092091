-- ===== src/Redis/Effects.antt =====
-- The documented effect of one command on a set, a hash and a sorted set.
use nebari_landing.Base.{
  String, true, false, not, Option, none, some, List, [], ◌∷◌, ◌≡◌, refl, ap, ◌∙◌, All, str_eq,
  eq_iff, inl, inr, Bool-cases, arith, any, has, keep, if◌then◌else◌,
}
use nebari_landing.Redis.{
  Stored, text, hash, members, ranked, Command, sadd, srem, some_members, write, effect, effects,
  target, members_at,
}

-- A set, or no key at all.
abbrev pub IsMembers : Option Stored → Type 0
IsMembers none = Unit
IsMembers (some (members l)) = Unit
IsMembers _ = ⊥

has-add :
    (uid s : String) (l : List String)
    → has s (if has uid l then l else uid ∷ l) ≡ (if str_eq uid s then true else has s l)
unfolding has any
has-add uid s l = elim (Bool-cases (has uid l)) [
  | inl e ↦ elim (Bool-cases (str_eq uid s)) [
    | inl q ↦ rw (e, q, ← (eq_iff uid s).0 q) e
    | inr q ↦ rw (e, q) refl
  ]
  | inr e ↦ rw e (ground (arith, eq_iff s uid, eq_iff uid s))
]

has-drop :
    (uid s : String) (l : List String)
    → has s (keep (λ m. not (str_eq uid m)) l) ≡ (if str_eq uid s then false else has s l)
unfolding has any keep
has-drop uid s [] = ground arith
has-drop uid s (x ∷ l) = ground (arith, has-drop uid s l, eq_iff uid x, eq_iff s x, eq_iff uid s)

members_at-some_members : (l : List String) → members_at (some_members l) ≡ l
members_at-some_members [] = refl
members_at-some_members (x ∷ l) = refl

some_members-IsMembers : (l : List String) → IsMembers (some_members l)
some_members-IsMembers [] = tt
some_members-IsMembers (x ∷ l) = tt

-- SADD puts its member into the set and no other.
pub write-sadd :
    (key uid : String) (old : Option Stored)
    → IsMembers old
    → IsMembers (write (sadd key uid) old)
      × ((s : String)
          → has s (members_at (write (sadd key uid) old))
            ≡ (if str_eq uid s then true else has s (members_at old)))
unfolding write has
write-sadd key uid none i = (tt, λ s. has-add uid s [])
write-sadd key uid (some (members l)) i = (tt, λ s. has-add uid s l)
write-sadd key uid (some (text l)) i = elim i [ ]
write-sadd key uid (some (hash l)) i = elim i [ ]
write-sadd key uid (some (ranked l)) i = elim i [ ]

-- SREM takes its member out of the set and no other.
pub write-srem :
    (key uid : String) (old : Option Stored)
    → IsMembers old
    → IsMembers (write (srem key uid) old)
      × ((s : String)
          → has s (members_at (write (srem key uid) old))
            ≡ (if str_eq uid s then false else has s (members_at old)))
unfolding write keep
write-srem key uid none i = (tt, λ s. has-drop uid s [])
write-srem key uid (some (members l)) i = (
  some_members-IsMembers (keep (λ m. not (str_eq uid m)) l),
  λ s. rw (members_at-some_members (keep (λ m. not (str_eq uid m)) l)) (has-drop uid s l),
)
write-srem key uid (some (text l)) i = elim i [ ]
write-srem key uid (some (hash l)) i = elim i [ ]
write-srem key uid (some (ranked l)) i = elim i [ ]

-- What a pipeline leaves under a key depends on that key alone.
effects_congr :
    (cs : List Command) (v w : String → Option Stored) (k : String)
    → v k ≡ w k
    → effects cs v k ≡ effects cs w k
unfolding effects effect
effects_congr [] v w k h = h
effects_congr (c ∷ cs) v w k h =
    effects_congr cs (effect c v) (effect c w) k
      (ap (λ o. if str_eq (target c) k then write c o else o) h)

-- A command on another key may be left out.
pub effects-skip :
    (c : Command) (cs : List Command) (v : String → Option Stored) (k : String)
    → str_eq (target c) k ≡ false
    → effects (c ∷ cs) v k ≡ effects cs v k
unfolding effects effect
effects-skip c cs v k h = effects_congr cs (effect c v) v k (rw h refl)

-- A command on the key itself is done first.
pub effects-first :
    (c : Command) (cs : List Command) (v : String → Option Stored) (k : String)
    → str_eq (target c) k ≡ true
    → effects (c ∷ cs) v k ≡ effects cs (λ j. write c (v k)) k
unfolding effects effect
effects-first c cs v k h = effects_congr cs (effect c v) (λ j. write c (v k)) k (rw h refl)

-- A pipeline that names the key nowhere leaves it as it was.
pub effects-untouched :
    (cs : List Command) (v : String → Option Stored) (k : String)
    → All (λ c. str_eq (target c) k ≡ false) cs
    → effects cs v k ≡ v k
unfolding effects
effects-untouched [] v k h = refl
effects-untouched (c ∷ cs) v k h = effects-skip c cs v k h.0 ∙ effects-untouched cs v k h.1
