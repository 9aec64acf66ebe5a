-- ===== src/Judge/Tokens.antt =====
-- Theorems on the comparator of numbers of judge/comparator.go: its tokens.
use codera.Base.{
  ℕ, zero, suc, true, false, Option, none, some, List, [], ◌∷◌, ◌≡◌, ◌↔◌, ◌⊎◌, inl, inr, refl, ap,
  arith, Bytes, bytes_eq_iff, ◌==◌, length, All, Bool-cases, is_some,
}
use codera.Judge.Comparator.{Floats, fields, token_matches, tokens_match, compare_float}

-- Two lists of one length that agree member by member.
abbrev pub All₂ : (Bytes → Bytes → Type 0) → List Bytes → List Bytes → Type 0
All₂ R [] [] = Unit
All₂ R (x ∷ xs) (y ∷ ys) = R x y × All₂ R xs ys
All₂ R _ _ = ⊥

abbrev pub replicate : ℕ → Bytes → List Bytes
replicate zero x = []
replicate (suc n) x = x ∷ replicate n x

module _ (f : Floats) where
  open f use {Float, parse_float, is_farther}

  -- Two numbers within `epsilon`, or two texts that are the same, at least one not a number.
  abbrev pub Agree : Float → Bytes → Bytes → Type 0
  Agree epsilon e a =
      ((u : Float) × (v : Float) × (parse_float e ≡ some u)
        × (parse_float a ≡ some v)
        × (is_farther u v epsilon ≡ false))
      ⊎ (((parse_float e ≡ none) ⊎ (parse_float a ≡ none)) × (e ≡ a))

  token_matches-Agree :
      (epsilon : Float) (e a : Bytes) → token_matches f epsilon e a ≡ true → Agree epsilon e a
  unfolding token_matches
  token_matches-Agree epsilon e a h = ground (arith, bytes_eq_iff e a)

  Agree-token_matches :
      (epsilon : Float) (e a : Bytes) → Agree epsilon e a → token_matches f epsilon e a ≡ true
  unfolding token_matches
  Agree-token_matches epsilon e a h = ground (arith, bytes_eq_iff e a)

  tokens_match_to :
      (epsilon : Float) (es as' : List Bytes)
      → length es ≡ length as'
      → tokens_match f epsilon es as' ≡ true
      → All₂ (Agree epsilon) es as'
  unfolding tokens_match
  tokens_match_to epsilon [] [] n h = tt
  tokens_match_to epsilon [] (a ∷ as') n h = absurd (omega arith)
  tokens_match_to epsilon (e ∷ es) [] n h = absurd (omega arith)
  tokens_match_to epsilon (e ∷ es) (a ∷ as') n h = (
    token_matches-Agree epsilon e a (ground arith),
    tokens_match_to epsilon es as' (omega arith) (ground arith),
  )

  tokens_match_from :
      (epsilon : Float) (es as' : List Bytes)
      → All₂ (Agree epsilon) es as'
      → (length es ≡ length as') × (tokens_match f epsilon es as' ≡ true)
  unfolding tokens_match
  tokens_match_from epsilon [] [] h = (refl, refl)
  tokens_match_from epsilon [] (a ∷ as') h = absurd h
  tokens_match_from epsilon (e ∷ es) [] h = absurd h
  tokens_match_from epsilon (e ∷ es) (a ∷ as') (h, hs) =
      let (n, t) = tokens_match_from epsilon es as' hs in
      (ap suc n, rw (Agree-token_matches epsilon e a h) t)

  -- Two outputs agree for the comparator of numbers exactly if they have as many tokens, and each
  -- pair of tokens is two numbers not farther apart than `epsilon`, or, where one of them is not
  -- a number, the same text.
  pub compare_float_iff :
      (epsilon : Float) (expected actual : Bytes)
      → (compare_float f epsilon expected actual ≡ true)
        ↔ All₂ (Agree epsilon) (fields expected) (fields actual)
  unfolding compare_float
  compare_float_iff epsilon expected actual = (
    λ h. elim (Bool-cases (length (fields expected) == length (fields actual))) [
      | inl n ↦
          tokens_match_to epsilon (fields expected) (fields actual) (ground arith) (ground arith)
      | inr n ↦ cc
    ],
    λ h. let (n, t) = tokens_match_from epsilon (fields expected) (fields actual) h in ground arith,
  )

  -- A token that parses to a value at no distance above `epsilon` from any number, as NaN is, is
  -- accepted in place of every number: an output of as many such tokens as numbers are expected
  -- passes.
  module _ (epsilon : Float) (nan : Bytes) (q : Float) (parses : parse_float nan ≡ some q)
      (incomparable : (x : Float) → is_farther x q epsilon ≡ false) where
    nan_agrees :
        (es : List Bytes)
        → All (λ e. is_some (parse_float e) ≡ true) es
        → All₂ (Agree epsilon) es (replicate (length es) nan)
    nan_agrees [] h = tt
    nan_agrees (e ∷ es) (h, hs) = (one (parse_float e) refl h, nan_agrees es hs)
      where
        one : (o : Option Float) → parse_float e ≡ o → is_some o ≡ true → Agree epsilon e nan
        one none p s = cc
        one (some u) p s = inl (u, q, p, parses, incomparable u)

    nan_passes :
        (expected actual : Bytes)
        → All (λ e. is_some (parse_float e) ≡ true) (fields expected)
        → fields actual ≡ replicate (length (fields expected)) nan
        → compare_float f epsilon expected actual ≡ true
    nan_passes expected actual h e =
        (compare_float_iff epsilon expected actual).1 (rw e (nan_agrees (fields expected) h))
