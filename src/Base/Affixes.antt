-- ===== src/Base/Affixes.antt =====
-- What the text operations of Go satisfy: prefixes, suffixes and the order of texts.
use Prim.Native.Char.{code}
use Prim.Native.String.append
use Prim.Native.String.{String}
use mathlib.Core.Path.{◌≡◌, refl, ap}
use mathlib.Core.Logic.{◌≢◌, inl, inr}
use mathlib.Core.Bool.{true, false, ◌&&◌}
use mathlib.Core.Option.{none, some}
use native.Mathlib.Omega.{arith}
use text.Mathlib.TextEquality.{eq_iff, Char-path}
use text.Mathlib.TextPositions.{eq_refl}
use nebari_landing.Base.Tests.{◌==◌, is_some, Bool-cases}
use nebari_landing.Base.Text.{str_eq, ◌+++◌, is_blank, drop_prefix, has_prefix, has_suffix, str_ltb}

pub drop_prefix-append : (p s : String) → drop_prefix p (p +++ s) ≡ some s
unfolding drop_prefix
drop_prefix-append String.[] s = ap some (append.nil s)
drop_prefix-append (String.◌∷◌ c p) s = rw append.cons (ground (arith, drop_prefix-append p s))

pub append_cancel : (p s t : String) → p +++ s ≡ p +++ t → s ≡ t
append_cancel p s t h =
    cc (drop_prefix-append p s, drop_prefix-append p t, ap (λ u. drop_prefix p u) h)

pub str_eq-append : (p s t : String) → str_eq (p +++ s) (p +++ t) ≡ str_eq s t
str_eq-append p s t =
    ground (arith, eq_iff (p +++ s) (p +++ t), eq_iff s t, append_cancel p s t, ap (λ u. p +++ u))

pub append_of_drop_prefix : (p s r : String) → drop_prefix p s ≡ some r → s ≡ p +++ r
unfolding drop_prefix
append_of_drop_prefix String.[] s r h = cc (append.nil r)
append_of_drop_prefix (String.◌∷◌ c p) String.[] r h = cc
append_of_drop_prefix (String.◌∷◌ c p) (String.◌∷◌ d s) r h = elim (Bool-cases (code c == code d)) [
  | inl e ↦
      let same : c ≡ d = Char-path c d (ground arith) in
      let tail : s ≡ p +++ r = append_of_drop_prefix p s r (rw e at h) in
      cc (append.cons c p r, same, tail)
  | inr e ↦ ground arith
]

pub str_ltb_asymm : (s t : String) → str_ltb s t ≡ true → str_ltb t s ≡ false
unfolding str_ltb
str_ltb_asymm String.[] String.[] h = refl
str_ltb_asymm String.[] (String.◌∷◌ d t) h = refl
str_ltb_asymm (String.◌∷◌ c s) String.[] h = cc
str_ltb_asymm (String.◌∷◌ c s) (String.◌∷◌ d t) h = ground (arith, str_ltb_asymm s t)

-- "not above" is transitive.
pub str_ltb_neg_trans :
    (s t u : String) → str_ltb t s ≡ false → str_ltb u t ≡ false → str_ltb u s ≡ false
unfolding str_ltb
str_ltb_neg_trans String.[] t u h k = str_ltb_nil u
  where
    str_ltb_nil : (u : String) → str_ltb u String.[] ≡ false
    str_ltb_nil String.[] = refl
    str_ltb_nil (String.◌∷◌ e u) = refl
str_ltb_neg_trans (String.◌∷◌ c s) String.[] u h k = cc
str_ltb_neg_trans (String.◌∷◌ c s) (String.◌∷◌ d t) String.[] h k = cc
str_ltb_neg_trans (String.◌∷◌ c s) (String.◌∷◌ d t) (String.◌∷◌ e u) h k =
    ground (arith, str_ltb_neg_trans s t u)

pub str_ltb_total : (s t : String) → str_ltb s t ≡ false → str_ltb t s ≡ false → s ≡ t
unfolding str_ltb
str_ltb_total String.[] String.[] h k = refl
str_ltb_total String.[] (String.◌∷◌ d t) h k = cc
str_ltb_total (String.◌∷◌ c s) String.[] h k = cc
str_ltb_total (String.◌∷◌ c s) (String.◌∷◌ d t) h k =
    let same : c ≡ d = Char-path c d (ground arith) in
    let tails : s ≡ t = str_ltb_total s t (ground arith) (ground arith) in cc (same, tails)

pub is_blank-append : (s t : String) → is_blank (s +++ t) ≡ is_blank s && is_blank t
is_blank-append String.[] t = ap is_blank (append.nil t)
is_blank-append (String.◌∷◌ c s) t = ap is_blank (append.cons c s t)

pub eq_nil_of_is_blank : (s : String) → is_blank s ≡ true → s ≡ ""
eq_nil_of_is_blank String.[] h = refl
eq_nil_of_is_blank (String.◌∷◌ c s) h = cc

-- `has_suffix` finds exactly the texts that end in `t`.
pub append_of_has_suffix : (s t : String) → has_suffix s t ≡ true → (r : String) × (s ≡ r +++ t)
unfolding has_suffix
append_of_has_suffix String.[] t h = ("", cc (append.nil t, (eq_iff String.[] t).0 h))
append_of_has_suffix (String.◌∷◌ c s) t h = elim (Bool-cases (str_eq (String.◌∷◌ c s) t)) [
  | inl e ↦ ("", cc (append.nil t, (eq_iff (String.◌∷◌ c s) t).0 e))
  | inr e ↦
      let (r, q) = append_of_has_suffix s t (ground arith) in
      (String.◌∷◌ c r, cc (append.cons c r t, q))
]

pub has_suffix-append : (r t : String) → has_suffix (r +++ t) t ≡ true
unfolding has_suffix
has_suffix-append String.[] t = rw append.nil (has_suffix_refl t)
  where
    has_suffix_refl : (t : String) → has_suffix t t ≡ true
    has_suffix_refl String.[] = eq_refl String.[]
    has_suffix_refl (String.◌∷◌ c t) = ground (arith, eq_refl (String.◌∷◌ c t))
has_suffix-append (String.◌∷◌ c r) t = rw append.cons (ground (arith, has_suffix-append r t))

-- Two texts that the test keeps apart are not one.
pub differ : (s t : String) → str_eq s t ≡ false → s ≢ t
differ s t e h = cc (e, (eq_iff s t).1 h)

-- A text with a prefix is not a text without it.
pub str_eq-append_false : (p s t : String) → has_prefix t p ≡ false → str_eq (p +++ s) t ≡ false
unfolding has_prefix
str_eq-append_false p s t h = elim (Bool-cases (str_eq (p +++ s) t)) [
  | inl e ↦ cc (
    ap (λ u. is_some (drop_prefix p u)) ((eq_iff (p +++ s) t).0 e),
    ap is_some (drop_prefix-append p s),
    h,
  )
  | inr e ↦ e
]

pub str_eq-append_false_right :
    (p s t : String) → has_prefix t p ≡ false → str_eq t (p +++ s) ≡ false
str_eq-append_false_right p s t h =
    ground (arith, eq_iff t (p +++ s), eq_iff (p +++ s) t, str_eq-append_false p s t h)

drop_prefix-clash :
    (p q t : String)
    → drop_prefix p q ≡ none
    → drop_prefix q p ≡ none
    → drop_prefix p (q +++ t) ≡ none
unfolding drop_prefix
drop_prefix-clash String.[] q t h k = cc h
drop_prefix-clash (String.◌∷◌ c p) String.[] t h k = cc k
drop_prefix-clash (String.◌∷◌ c p) (String.◌∷◌ d q) t h k =
    rw append.cons (ground (arith, drop_prefix-clash p q t))

-- Texts with prefixes that exclude each other differ.
pub str_eq-clash :
    (p q s t : String)
    → drop_prefix p q ≡ none
    → drop_prefix q p ≡ none
    → str_eq (p +++ s) (q +++ t) ≡ false
str_eq-clash p q s t h k = elim (Bool-cases (str_eq (p +++ s) (q +++ t))) [
  | inl e ↦ cc (
    drop_prefix-append p s,
    drop_prefix-clash p q t h k,
    ap (λ u. drop_prefix p u) ((eq_iff (p +++ s) (q +++ t)).0 e),
  )
  | inr e ↦ e
]
