-- ===== src/Startup/Switches.antt =====
-- cmd/main.go, envBool: which values of a variable switch something on.
use nebari_landing.Base.{
  String, ◌≡◌, refl, ap, ◌⊎◌, ◌↔◌, inl, inr, Bool, true, false, List, Memᴰ, Bool-cases, is_blank,
  eq_nil_of_is_blank, has, has→Memᴰ, Memᴰ→has, any,
}
use nebari_landing.Startup.Configuration.{true_words, false_words, parse_bool, env_bool}

-- Neither list has the empty text.
no_word :
    (v : String) (words : List String) → is_blank v ≡ true → has "" words ≡ false → ¬ Memᴰ v words
no_word v words b h m = cc (Memᴰ→has v words m, ap (λ u. has u words) (eq_nil_of_is_blank v b), h)

not_in : (v : String) (words : List String) → has v words ≡ false → ¬ Memᴰ v words
not_in v words h m = cc (Memᴰ→has v words m, h)

-- A switch is on exactly if its variable holds one of the six spellings of "true", or if it is on by
-- default and the variable holds none of the six spellings of "false". Every other text, such as
-- "yes", leaves the default.
pub env_bool_iff :
    (env : String → String) (name : String) (def : Bool)
    → (env_bool env name def ≡ true)
      ↔ (Memᴰ (env name) true_words ⊎ ((def ≡ true) × (¬ Memᴰ (env name) false_words)))
unfolding env_bool parse_bool has any
env_bool_iff env name def = elim (Bool-cases (is_blank (env name))) [
  | inl b ↦ rw b (
    (λ h. inr (h, no_word (env name) false_words b refl)),
    (λ h. elim h [ inl m ↦ absurd (no_word (env name) true_words b refl m) | inr k ↦ k.0 ]),
  )
  | inr b ↦ elim (Bool-cases (has (env name) true_words)) [
    | inl t ↦ rw (b, t) ((λ h. inl (has→Memᴰ (env name) true_words t)), (λ h. refl))
    | inr t ↦ elim (Bool-cases (has (env name) false_words)) [
      | inl f ↦
          rw (b, t, f)
            (
              (λ h. cc h),
              (λ h. elim h [
                | inl m ↦ absurd (not_in (env name) true_words t m)
                | inr k ↦ absurd (k.1 (has→Memᴰ (env name) false_words f))
              ]),
            )
      | inr f ↦
          rw (b, t, f)
            (
              (λ h. inr (h, not_in (env name) false_words f)),
              (λ h. elim h [ inl m ↦ absurd (not_in (env name) true_words t m) | inr k ↦ k.0 ]),
            )
    ]
  ]
]
