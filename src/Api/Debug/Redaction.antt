-- ===== src/Api/Debug/Redaction.antt =====
-- The header that the debug answer shows: nothing of the credentials but their length.
use Prim.Native.String.append
use nebari_landing.Base.{
  String, code, ◌≡◌, ◌∙◌, refl, sym, ap, ◌⊎◌, inl, inr, Bool, true, false, some, List, [], ◌∷◌,
  ◌==◌, if_taken, ◌+++◌, byte_length, decimal,
}
use nebari_landing.Api.Debug.{
  join_values, split_step, split_space, redact, shown_value, shown_header, shown_headers,
}

-- A scheme: a text without a space.
abbrev pub IsScheme : String → Type 0
IsScheme String.[] = Unit
IsScheme (String.◌∷◌ c s) = ((code c == 32) ≡ false) × IsScheme s

split_space-blank : (rest : String) → split_space (" " +++ rest) ≡ some ("", rest)
unfolding split_space
split_space-blank rest =
    ap split_space (append.cons _ "" rest) ∙ ap (λ t. some ("", t)) (append.nil rest)

split_step-later :
    (c s before behind : String)
    → split_step false c s (some (before, behind)) ≡ some (c +++ before, behind)
split_step-later c s before behind = refl

split_space-scheme :
    (scheme rest : String)
    → IsScheme scheme
    → split_space (scheme +++ " " +++ rest) ≡ some (scheme, rest)
unfolding split_space
split_space-scheme String.[] rest h =
    ap split_space (append.nil (" " +++ rest)) ∙ split_space-blank rest
split_space-scheme (String.◌∷◌ c s) rest h =
    ap split_space (append.cons c s (" " +++ rest))
    ∙ (ap
          (λ b.
            split_step b (String.◌∷◌ c "") (s +++ " " +++ rest) (split_space (s +++ " " +++ rest)))
          h.0
        ∙ (ap (split_step false (String.◌∷◌ c "") (s +++ " " +++ rest))
              (split_space-scheme s rest h.1)
            ∙ ap (λ t. some (t, rest)) (append.cons c "" s ∙ ap (String.◌∷◌ c) (append.nil s))))

-- Two values of one header that are equal, or that are both credentials of the same length behind
-- the same scheme.
abbrev pub Alike : (String → String → Bool) → String → String → String → Type 0
Alike equal_fold k v w =
    (v ≡ w)
    ⊎ ((equal_fold k "Authorization" ≡ true)
        × ((scheme : String) × (x : String) × (y : String) × IsScheme scheme
            × (v ≡ scheme +++ " " +++ x)
            × (w ≡ scheme +++ " " +++ y)
            × (byte_length x ≡ byte_length y)))

-- Two headers with the same keys, alike at each.
abbrev pub AllAlike :
    (String → String → Bool) → List (String × List String) → List (String × List String) → Type 0
AllAlike equal_fold [] [] = Unit
AllAlike equal_fold ((k, vals) ∷ l) ((j, others) ∷ m) =
    (k ≡ j) × Alike equal_fold k (join_values vals) (join_values others) × AllAlike equal_fold l m
AllAlike equal_fold _ _ = ⊥

redact-hides :
    (scheme x y : String)
    → IsScheme scheme
    → byte_length x ≡ byte_length y
    → redact (scheme +++ " " +++ x) (split_space (scheme +++ " " +++ x))
      ≡ redact (scheme +++ " " +++ y) (split_space (scheme +++ " " +++ y))
redact-hides scheme x y h e =
    ap (redact (scheme +++ " " +++ x)) (split_space-scheme scheme x h)
    ∙ (ap (λ n. scheme +++ " [REDACTED, " +++ decimal n +++ " bytes]") e
        ∙ sym (ap (redact (scheme +++ " " +++ y)) (split_space-scheme scheme y h)))

shown_value-hides :
    (equal_fold : String → String → Bool) (k v w : String)
    → Alike equal_fold k v w
    → shown_value equal_fold k v ≡ shown_value equal_fold k w
shown_value-hides equal_fold k v w (inl e) = ap (shown_value equal_fold k) e
shown_value-hides equal_fold k v w (inr (key, (scheme, x, y, h, p, q, e))) =
    if_taken (equal_fold k "Authorization") (redact v (split_space v)) v key
    ∙ (ap (λ t. redact t (split_space t)) p
        ∙ (redact-hides scheme x y h e
            ∙ (ap (λ t. redact t (split_space t)) (sym q)
                ∙ sym (if_taken (equal_fold k "Authorization") (redact w (split_space w)) w key))))

-- The header that the debug answer shows does not depend on the credentials in it: two headers that
-- differ only in what follows the scheme of an Authorization value, and not in its length, are shown
-- as the same.
pub shown_headers-hides :
    (equal_fold : String → String → Bool) (l m : List (String × List String))
    → AllAlike equal_fold l m
    → shown_headers equal_fold l ≡ shown_headers equal_fold m
unfolding shown_headers
shown_headers-hides equal_fold [] [] h = refl
shown_headers-hides equal_fold ((k, vals) ∷ l) ((j, others) ∷ m) (same, alike, rest) =
    let here : shown_header equal_fold (k, vals) ≡ shown_header equal_fold (j, others) =
      ap (λ v. (k, v))
        (shown_value-hides equal_fold k (join_values vals) (join_values others) alike)
      ∙ ap (λ i. (i, shown_value equal_fold i (join_values others))) same in
    cc (here, shown_headers-hides equal_fold l m rest)
shown_headers-hides equal_fold [] (e ∷ m) h = elim h [ ]
shown_headers-hides equal_fold (e ∷ l) [] h = elim h [ ]
