-- ===== src/Base/Text.antt =====
-- The text operations of Go's `strings`, `strconv` and `<` that the program calls, over the native
-- `String`.
use Prim.Native.Nat.{ℕ, zero, suc, ◌+◌, ◌*◌, ◌-◌, ◌<◌, ◌/◌, ◌%◌}
use Prim.Native.Char.{code}
use Prim.Native.String.append
use Prim.Native.String.{String}
use Prim.Native.String
use mathlib.Core.Path.{◌≡◌, refl}
use mathlib.Core.Logic.{inl, inr}
use mathlib.Core.Bool.{Bool, true, false, ◌||◌}
use mathlib.Core.Option.{Option, none, some}
use mathlib.Core.List.{List, [], ◌∷◌}
use nebari_landing.Base.Int.{ℤ, pos, negsuc}
use native.Mathlib.Omega.{arith}
use text.Mathlib.Text.{◌==◌ as text_eq}
use nebari_landing.Base.Tests.{ltb, ◌==◌, if◌then◌else◌, is_some, Bool-cases}

abbrev pub str_eq : String → String → Bool
str_eq = text_eq

infixr 65 ◌+++◌
abbrev pub ◌+++◌ : String → String → String
s +++ t = String.◌++◌ s t

-- `s == ""`
abbrev pub is_blank : String → Bool
is_blank String.[] = true
is_blank (String.◌∷◌ c s) = false

-- What is left of a text behind a prefix of it.
unfoldable pub drop_prefix : String → String → Option String
drop_prefix String.[] s = some s
drop_prefix (String.◌∷◌ c p) String.[] = none
drop_prefix (String.◌∷◌ c p) (String.◌∷◌ d s) = if code c == code d then drop_prefix p s else none

abbrev pub or_else {ℓ} : {A : Type ℓ} → Option A → A → A
or_else none d = d
or_else (some a) d = a

-- `strings.HasPrefix(s, p)`
unfoldable pub has_prefix : String → String → Bool
unfolding drop_prefix
has_prefix s p = is_some (drop_prefix p s)

-- `strings.TrimPrefix(s, p)`
unfoldable pub trim_prefix : String → String → String
unfolding drop_prefix
trim_prefix s p = or_else (drop_prefix p s) s

-- `strings.HasSuffix(s, t)`
unfoldable pub has_suffix : String → String → Bool
has_suffix String.[] t = str_eq String.[] t
has_suffix (String.◌∷◌ c s) t = str_eq (String.◌∷◌ c s) t || has_suffix s t

-- `strings.TrimSuffix(s, t)`
unfoldable pub trim_suffix : String → String → String
trim_suffix String.[] t = ""
trim_suffix (String.◌∷◌ c s) t =
    let rest = trim_suffix s t in if str_eq (String.◌∷◌ c s) t then "" else String.◌∷◌ c rest

trim_suffix_test : trim_suffix "http://kc/" "/" ≡ "http://kc"
unfolding trim_suffix
trim_suffix_test = refl

-- `strings.SplitN(s, "/", 2)`: what stands before the first slash, and behind it where there is one.
unfoldable pub split_slash : String → String × Option String
split_slash String.[] = ("", none)
split_slash (String.◌∷◌ c s) =
    let (before, behind) = split_slash s in
    if code c == b'/' then ("", some s) else (String.◌∷◌ c before, behind)

-- `strings.Split(s, sep)` for a separator of one character, given by its number.
unfoldable pub split_on : ℕ → String → List String
split_on sep String.[] = "" ∷ []
split_on sep (String.◌∷◌ c s) =
    let rest = split_on sep s in
    if code c == sep
    then "" ∷ rest
    else elim rest [ [] ↦ [] | part ∷ parts ↦ String.◌∷◌ c part ∷ parts ]

-- The value of a row of decimal digits behind those of `acc`.
unfoldable pub read_digits : ℕ → String → Option ℕ
read_digits acc String.[] = some acc
read_digits acc (String.◌∷◌ c s) =
    let rest = read_digits (acc * 10 + (code c - 48)) s in
    if ltb (code c) 48 then none else if ltb 57 (code c) then none else rest

abbrev within : (ℕ → ℤ) → ℕ → Option ℕ → Option ℤ
within sign bound none = none
within sign bound (some n) = if ltb bound n then none else some (sign n)

abbrev negated : ℕ → ℤ
negated zero = pos 0
negated (suc n) = negsuc n

abbrev unsigned : String → Option ℕ
unsigned String.[] = none
unsigned (String.◌∷◌ c s) = read_digits 0 (String.◌∷◌ c s)

-- `strconv.Atoi`, for an `int` of 64 bits; `none` is the error.
unfoldable pub atoi : String → Option ℤ
atoi String.[] = none
atoi (String.◌∷◌ c s) =
    if code c == b'-'
    then within negated 9223372036854775808 (unsigned s)
    else if code c == b'+'
    then within pos 9223372036854775807 (unsigned s)
    else within pos 9223372036854775807 (unsigned (String.◌∷◌ c s))

atoi_negative_test : atoi "-12" ≡ some (negsuc 11)
unfolding atoi read_digits
atoi_negative_test = refl

atoi_port_test : atoi "8080" ≡ some (pos 8080)
unfolding atoi read_digits
atoi_port_test = refl

atoi_error_test : atoi "80x" ≡ none
unfolding atoi read_digits
atoi_error_test = refl

-- `s < t`: bytes in order, which for UTF-8 is the order of the characters' numbers.
unfoldable pub str_ltb : String → String → Bool
str_ltb s String.[] = false
str_ltb String.[] (String.◌∷◌ d t) = true
str_ltb (String.◌∷◌ c s) (String.◌∷◌ d t) =
    let rest = str_ltb s t in
    if ltb (code c) (code d) then true else if ltb (code d) (code c) then false else rest

abbrev digit : ℕ → String
digit d =
    if d == 0
    then "0"
    else if d == 1
    then "1"
    else if d == 2
    then "2"
    else if d == 3
    then "3"
    else if d == 4
    then "4"
    else if d == 5
    then "5"
    else if d == 6
    then "6"
    else if d == 7
    then "7"
    else if d == 8
    then "8"
    else "9"

-- `len` of a string in UTF-8: the bytes of one code point.
abbrev utf8_size : ℕ → ℕ
utf8_size c = if ltb c 0x80 then 1 else if ltb c 0x800 then 2 else if ltb c 0x10000 then 3 else 4

-- `len`
unfoldable pub byte_length : String → ℕ
byte_length String.[] = 0
byte_length (String.◌∷◌ c s) = utf8_size (code c) + byte_length s

-- The digits of `n` in front of `acc`; the fuel bounds their number.
unfoldable pub decimal_go : ℕ → ℕ → String → String
decimal_go zero n acc = acc
decimal_go (suc fuel) n acc =
    let more = decimal_go fuel (n / 10) (digit (n % 10) +++ acc) in
    if ltb n 10 then digit n +++ acc else more

-- `%d` of a number that is not negative: a number has at most as many digits as its value plus one.
unfoldable pub decimal : ℕ → String
unfolding decimal_go
decimal n = decimal_go (suc n) n ""

-- Any fuel above the number gives the same digits.
decimal_go-fuel :
    (f g n : ℕ) (acc : String) → n < f → n < g → decimal_go f n acc ≡ decimal_go g n acc
unfolding decimal_go
decimal_go-fuel zero g n acc h k = absurd (omega arith)
decimal_go-fuel (suc f) zero n acc h k = absurd (omega arith)
decimal_go-fuel (suc f) (suc g) n acc h k = elim (Bool-cases (ltb n 10)) [
  | inl e ↦ rw e refl
  | inr e ↦
      rw e (decimal_go-fuel f g (n / 10) (digit (n % 10) +++ acc) (ground arith) (ground arith))
]

decimal_test : decimal 65535 ≡ "65535"
unfolding decimal
decimal_test = refl
