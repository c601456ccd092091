-- ===== src/Api/Routing/Origins.antt =====
-- internal/api/handlers.go: which origins may read an answer.
use nebari_landing.Base.{
  String, ◌≡◌, refl, ◌⊎◌, inl, inr, true, not, ◌&&◌, some, List, [], ◌∷◌, Memᴰ, Bool-cases,
  &&-split, has, has→Memᴰ, eq_iff, is_blank,
}
use nebari_landing.Api.Routing.{allow_all, cors_headers}

allow_all-list : (allowed : List String) → allow_all allowed ≡ true → allowed ≡ "*" ∷ []
unfolding allow_all
allow_all-list [] h = cc h
allow_all-list (o ∷ []) h = cc ((eq_iff o "*").0 h)
allow_all-list (o ∷ p ∷ l) h = cc h

-- An answer may be read from some origin only if the list of allowed origins is exactly ["*"], and
-- then from every one, or if it is the origin of the request, that origin stands in the list, and
-- the answer says that it varies with the origin.
pub cors_headers-allowed :
    (allowed : List String) (origin o : String)
    → (cors_headers allowed origin).allow_origin ≡ some o
    → ((allowed ≡ "*" ∷ []) × (o ≡ "*"))
      ⊎ ((o ≡ origin) × Memᴰ origin allowed × ((cors_headers allowed origin).vary ≡ true))
unfolding cors_headers
cors_headers-allowed allowed origin o h = elim (Bool-cases (allow_all allowed)) [
  | inl e ↦ inl (allow_all-list allowed e, cc (rw e at h))
  | inr e ↦ elim (Bool-cases (not (is_blank origin) && has origin allowed)) [
    | inl b ↦ inr (cc (rw (e, b) at h), has→Memᴰ origin allowed (&&-split _ _ b).1, rw (e, b) refl)
    | inr b ↦ cc (rw (e, b) at h)
  ]
]
