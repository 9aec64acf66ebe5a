-- ===== src/Judge/Same.antt =====
-- Theorem on the whitespace comparator of judge/comparator.go: what it accepts, said of the lines of
-- the two outputs and of their bytes.
use codera.Base.{
  is_empty, Bool, true, false, ◌&&◌, List, [], ◌∷◌, ◌≡◌, ◌↔◌, ◌⊎◌, inl, inr, refl, sym, ◌∙◌, Bytes,
  ◌==◌, map, All, Bool-cases, arith, if◌then◌else◌,
}
use codera.Judge.Comparator.{
  split_lines, cons_head, trim_right, is_blank, drop_empty, normalized_lines, compare_whitespace,
  replace_crlf,
}
use codera.Judge.Lines.{compare_whitespace-normalized}

-- Nothing but blanks and tabs.
abbrev pub Blank : Bytes → Type 0
Blank = All (λ c. (c ≡ 32) ⊎ (c ≡ 9))

-- Two lines with the same bytes, up to blanks and tabs at their ends.
abbrev pub SameLine : Bytes → Bytes → Type 0
SameLine [] m = Blank m
SameLine (c ∷ l) [] = Blank (c ∷ l)
SameLine (c ∷ l) (d ∷ m) = ((c ≡ d) × SameLine l m) ⊎ (Blank (c ∷ l) × Blank (d ∷ m))

-- The same lines in their order, up to lines of blanks and tabs at the end.
abbrev pub SameLines : List Bytes → List Bytes → Type 0
SameLines [] ms = All Blank ms
SameLines (l ∷ ls) [] = All Blank (l ∷ ls)
SameLines (l ∷ ls) (m ∷ ms) = SameLine l m × SameLines ls ms

abbrev first_is_lf : Bytes → Bool
first_is_lf [] = false
first_is_lf (c ∷ s) = c == 10

-- The lines of a text: 10 ends a line, and so does 13 followed by 10.
abbrev pub lines_of : Bytes → List Bytes
lines_of [] = [] ∷ []
lines_of (c ∷ s) =
    if c == 10
    then [] ∷ lines_of s
    else if c == 13 && first_is_lf s
    then lines_of s
    else cons_head c (lines_of s)

trim-Blank : (l : Bytes) → trim_right l ≡ [] → Blank l
unfolding trim_right
trim-Blank [] h = tt
trim-Blank (c ∷ l) h = ground (arith, h, trim-Blank l)

Blank-trim : (l : Bytes) → Blank l → trim_right l ≡ []
unfolding trim_right
Blank-trim [] h = refl
Blank-trim (c ∷ l) (b, h) = rw (Blank-trim l h) ground (arith, b)

trim-SameLine : (l m : Bytes) → trim_right l ≡ trim_right m → SameLine l m
unfolding trim_right
trim-SameLine [] m h = trim-Blank m (sym h)
trim-SameLine (c ∷ l) [] h = trim-Blank (c ∷ l) h
trim-SameLine (c ∷ l) (d ∷ m) h = elim (Bool-cases (is_blank c && is_empty (trim_right l))) [
  | inl e ↦ inr (trim-Blank (c ∷ l) (rw e refl), trim-Blank (d ∷ m) (sym (rw e at h)))
  | inr e ↦ ground (arith, h, e, trim-SameLine l m)
]

SameLine-trim : (l m : Bytes) → SameLine l m → trim_right l ≡ trim_right m
unfolding trim_right
SameLine-trim [] m h = sym (Blank-trim m h)
SameLine-trim (c ∷ l) [] h = Blank-trim (c ∷ l) h
SameLine-trim (c ∷ l) (d ∷ m) (inl (e, h)) = rw (e, SameLine-trim l m h) refl
SameLine-trim (c ∷ l) (d ∷ m) (inr (h, k)) = Blank-trim (c ∷ l) h ∙ sym (Blank-trim (d ∷ m) k)

-- What the comparator keeps of the lines.
abbrev kept : List Bytes → List Bytes
kept ls = drop_empty (map trim_right ls)

is_empty-nil : (l : Bytes) → is_empty l ≡ true → l ≡ []
is_empty-nil l h = ground (arith, h)

kept-Blank : (ls : List Bytes) → kept ls ≡ [] → All Blank ls
unfolding drop_empty
kept-Blank [] h = tt
kept-Blank (l ∷ ls) h = elim (Bool-cases (is_empty (trim_right l) && is_empty (kept ls))) [
  | inl e ↦ (trim-Blank l (ground (arith, e)), kept-Blank ls (ground (arith, e)))
  | inr e ↦ absurd (ground (arith, e, h))
]

Blank-kept : (ls : List Bytes) → All Blank ls → kept ls ≡ []
unfolding drop_empty
Blank-kept [] h = refl
Blank-kept (l ∷ ls) (b, h) = rw (Blank-trim l b, Blank-kept ls h) refl

Blank-SameLine : (l m : Bytes) → Blank l → Blank m → SameLine l m
Blank-SameLine l m b d = trim-SameLine l m (Blank-trim l b ∙ sym (Blank-trim m d))

Blank-SameLines : (ls ms : List Bytes) → All Blank ls → All Blank ms → SameLines ls ms
Blank-SameLines [] ms h k = k
Blank-SameLines (l ∷ ls) [] h k = h
Blank-SameLines (l ∷ ls) (m ∷ ms) (b, h) (d, k) =
    (Blank-SameLine l m b d, Blank-SameLines ls ms h k)

kept-SameLines : (ls ms : List Bytes) → kept ls ≡ kept ms → SameLines ls ms
unfolding drop_empty
kept-SameLines [] ms h = kept-Blank ms (sym h)
kept-SameLines (l ∷ ls) [] h = kept-Blank (l ∷ ls) h
kept-SameLines (l ∷ ls) (m ∷ ms) h =
    elim (Bool-cases (is_empty (trim_right l) && is_empty (kept ls))) [
      | inl e ↦
          Blank-SameLines (l ∷ ls) (m ∷ ms) (kept-Blank (l ∷ ls) (rw e refl))
            (kept-Blank (m ∷ ms) (sym (rw e at h)))
      | inr e ↦ elim (Bool-cases (is_empty (trim_right m) && is_empty (kept ms))) [
        | inl d ↦ absurd (ground (arith, h, e, d))
        | inr d ↦
            let q : trim_right l ∷ kept ls ≡ trim_right m ∷ kept ms = rw (e, d) at h in
            (trim-SameLine l m cc, kept-SameLines ls ms cc)
      ]
    ]

SameLines-kept : (ls ms : List Bytes) → SameLines ls ms → kept ls ≡ kept ms
unfolding drop_empty
SameLines-kept [] ms h = sym (Blank-kept ms h)
SameLines-kept (l ∷ ls) [] h = Blank-kept (l ∷ ls) h
SameLines-kept (l ∷ ls) (m ∷ ms) (a, h) = rw (SameLine-trim l m a, SameLines-kept ls ms h) refl

lines_of-split : (s : Bytes) → split_lines (replace_crlf s) ≡ lines_of s
unfolding split_lines replace_crlf
lines_of-split [] = refl
lines_of-split (c ∷ []) = ground arith
lines_of-split (c ∷ d ∷ s) = ground (arith, lines_of-split (d ∷ s))

normalized-kept : (s : Bytes) → normalized_lines s ≡ kept (lines_of s)
unfolding normalized_lines
normalized-kept s = rw (lines_of-split s) refl

-- Two outputs agree for the whitespace comparator exactly if their lines are the same one by one,
-- where "\r\n" ends a line as "\n" does, blanks and tabs at the end of a line do not count, and
-- neither do lines of blanks and tabs at the end.
pub compare_whitespace_iff :
    (expected actual : Bytes)
    → (compare_whitespace expected actual ≡ true) ↔ SameLines (lines_of expected) (lines_of actual)
compare_whitespace_iff expected actual =
    let (to, from) = compare_whitespace-normalized expected actual in
    (
      λ h.
          kept-SameLines (lines_of expected) (lines_of actual)
            (sym (normalized-kept expected) ∙ to h ∙ normalized-kept actual),
      λ h. from (
          normalized-kept expected
          ∙ SameLines-kept (lines_of expected) (lines_of actual) h
          ∙ sym (normalized-kept actual)),
    )
