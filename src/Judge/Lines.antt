-- ===== src/Judge/Lines.antt =====
-- Theorems on the whitespace comparator of judge/comparator.go: lines and normal forms.
use codera.Base.{
  is_empty, ℕ, true, false, ◌&&◌, List, [], ◌∷◌, ◌++◌, ◌≡◌, ◌↔◌, refl, sym, ap, ◌∙◌, Bytes,
  bytes_eq_iff, ◌==◌, map, All, Bool-cases, inl, inr,
}
use codera.Judge.Comparator.{
  newline, split_lines, cons_head, trim_right, is_blank, drop_empty, join_lines, normalized_lines,
  normalize, compare_whitespace, replace_crlf,
}

abbrev IsLine : Bytes → Type 0
IsLine = All (λ c. (c == newline) ≡ false)

cons_head-IsLine :
    (c : ℕ) (ls : List Bytes) → (c == newline) ≡ false → All IsLine ls → All IsLine (cons_head c ls)
cons_head-IsLine c [] n h = ((n, tt), tt)
cons_head-IsLine c (l ∷ ls) n (hl, h) = ((n, hl), h)

split_lines-IsLine : (s : Bytes) → All IsLine (split_lines s)
unfolding split_lines
split_lines-IsLine [] = (tt, tt)
split_lines-IsLine (c ∷ s) = elim (Bool-cases (c == newline)) [
  | inl e ↦ rw e (tt, split_lines-IsLine s)
  | inr e ↦ rw e (cons_head-IsLine c (split_lines s) e (split_lines-IsLine s))
]

trim_right-IsLine : (l : Bytes) → IsLine l → IsLine (trim_right l)
unfolding trim_right
trim_right-IsLine [] h = tt
trim_right-IsLine (c ∷ l) (n, h) = elim (Bool-cases (is_blank c && is_empty (trim_right l))) [
  | inl e ↦ rw e tt
  | inr e ↦ rw e (n, trim_right-IsLine l h)
]

map-trim-IsLine : (ls : List Bytes) → All IsLine ls → All IsLine (map trim_right ls)
map-trim-IsLine [] h = tt
map-trim-IsLine (l ∷ ls) (hl, h) = (trim_right-IsLine l hl, map-trim-IsLine ls h)

drop_empty-All : (P : Bytes → Type 0) (ls : List Bytes) → All P ls → All P (drop_empty ls)
unfolding drop_empty
drop_empty-All P [] h = tt
drop_empty-All P (l ∷ ls) (hl, h) = elim (Bool-cases (is_empty l && is_empty (drop_empty ls))) [
  | inl e ↦ rw e tt
  | inr e ↦ rw e (hl, drop_empty-All P ls h)
]

drop_empty_idem : (ls : List Bytes) → drop_empty (drop_empty ls) ≡ drop_empty ls
unfolding drop_empty
drop_empty_idem [] = refl
drop_empty_idem (l ∷ ls) = elim (Bool-cases (is_empty l && is_empty (drop_empty ls))) [
  | inl e ↦ rw e
  | inr e ↦ rw e (rw (drop_empty_idem ls) (rw e))
]

split-line : (l : Bytes) → IsLine l → split_lines l ≡ l ∷ []
unfolding split_lines
split-line [] h = refl
split-line (c ∷ l) (n, h) = rw (n, split-line l h)

split-append : (l s : Bytes) → IsLine l → split_lines (l ++ newline ∷ s) ≡ l ∷ split_lines s
unfolding split_lines
split-append [] s h = refl
split-append (c ∷ l) s (n, h) = rw (n, split-append l s h)

split-join :
    (l : Bytes) (ls : List Bytes) → All IsLine (l ∷ ls) → split_lines (join_lines (l ∷ ls)) ≡ l ∷ ls
unfolding join_lines
split-join l [] (h, _) = split-line l h
split-join l (m ∷ ls) (h, hs) = rw (split-append l _ h) (ap (λ k. l ∷ k) (split-join m ls hs))

-- Joined lines are taken apart again, where none has a newline and the last is not empty.
unjoin :
    (ls : List Bytes)
    → All IsLine ls
    → drop_empty ls ≡ ls
    → drop_empty (split_lines (join_lines ls)) ≡ ls
unjoin [] h d = unfold drop_empty split_lines join_lines in refl
unjoin (l ∷ ls) h d = rw (split-join l ls h) d

-- The normal form determines the lines.
pub split-normalize : (s : Bytes) → drop_empty (split_lines (normalize s)) ≡ normalized_lines s
unfolding normalize
split-normalize s =
    unjoin (drop_empty (map trim_right (split_lines (replace_crlf s))))
      (drop_empty-All IsLine _ (map-trim-IsLine _ (split_lines-IsLine (replace_crlf s))))
      (drop_empty_idem _)

normalize-cong : (s t : Bytes) → normalized_lines s ≡ normalized_lines t → normalize s ≡ normalize t
unfolding normalize
normalize-cong s t e = ap join_lines e

-- The comparator compares the lines that normalize joins.
pub compare_whitespace-normalized :
    (expected actual : Bytes)
    → (compare_whitespace expected actual ≡ true)
      ↔ (normalized_lines expected ≡ normalized_lines actual)
unfolding compare_whitespace
compare_whitespace-normalized expected actual = (
  λ h.
      sym (split-normalize expected)
      ∙ ap (λ s. drop_empty (split_lines s)) ((bytes_eq_iff _ _).0 h)
      ∙ split-normalize actual,
  λ e. (bytes_eq_iff _ _).1 (normalize-cong expected actual e),
)
