-- ===== src/Judge/Comparator.antt =====
-- backend/internal/judge/comparator.go. Texts are bytes. Floating-point numbers are not modelled:
-- strconv.ParseFloat and the arithmetic on float64 are an argument.
use codera.Base.{
  is_empty, ℕ, zero, suc, Bool, true, false, not, ◌&&◌, ◌||◌, Option, some, List, [], ◌∷◌, ◌++◌,
  Bytes, bytes_eq, if◌then◌else◌, ◌==◌, leb, length, map, str_eq,
}
use codera.Domain.{ComparisonMode, exact, normalized_whitespace, float_epsilon, other}

unfoldable pub compare_exact : Bytes → Bytes → Bool
compare_exact expected actual = bytes_eq expected actual

abbrev pub newline : ℕ
newline = 10

abbrev pub carriage_return : ℕ
carriage_return = 13

abbrev starts_with_newline : Bytes → Bool
starts_with_newline [] = false
starts_with_newline (c ∷ s) = c == newline

-- strings.ReplaceAll(s, "\r\n", "\n")
unfoldable pub replace_crlf : Bytes → Bytes
replace_crlf [] = []
replace_crlf (c ∷ s) =
    let rest = replace_crlf s in
    if c == carriage_return && starts_with_newline s then rest else c ∷ rest

abbrev pub cons_head : ℕ → List Bytes → List Bytes
cons_head c [] = (c ∷ []) ∷ []
cons_head c (l ∷ ls) = (c ∷ l) ∷ ls

-- strings.Split(s, "\n")
unfoldable pub split_lines : Bytes → List Bytes
split_lines [] = [] ∷ []
split_lines (c ∷ s) =
    let rest = split_lines s in if c == newline then [] ∷ rest else cons_head c rest

abbrev pub is_blank : ℕ → Bool
is_blank c = c == 32 || c == 9

-- strings.TrimRight(line, " \t")
unfoldable pub trim_right : Bytes → Bytes
trim_right [] = []
trim_right (c ∷ s) = let rest = trim_right s in if is_blank c && is_empty rest then [] else c ∷ rest

-- The loop that removes trailing empty lines.
unfoldable pub drop_empty : List Bytes → List Bytes
drop_empty [] = []
drop_empty (l ∷ ls) =
    let rest = drop_empty ls in if is_empty l && is_empty rest then [] else l ∷ rest

-- strings.Join(lines, "\n")
unfoldable pub join_lines : List Bytes → Bytes
join_lines [] = []
join_lines (l ∷ []) = l
join_lines (l ∷ m ∷ ls) = l ++ (newline ∷ join_lines (m ∷ ls))

unfoldable pub normalized_lines : Bytes → List Bytes
normalized_lines s = drop_empty (map trim_right (split_lines (replace_crlf s)))

unfoldable pub normalize : Bytes → Bytes
unfolding normalized_lines
normalize s = join_lines (normalized_lines s)

unfoldable pub compare_whitespace : Bytes → Bytes → Bool
compare_whitespace expected actual = bytes_eq (normalize expected) (normalize actual)

abbrev is_ascii_space : ℕ → Bool
is_ascii_space c = (leb 9 c && leb c 13) || c == 32

-- U+0085 and U+00A0
abbrev is_space2 : ℕ → ℕ → Bool
is_space2 c d = c == 0xc2 && (d == 0x85 || d == 0xa0)

-- U+1680, U+2000 to U+200A, U+2028, U+2029, U+202F, U+205F and U+3000
abbrev is_space3 : ℕ → ℕ → ℕ → Bool
is_space3 c d e =
    (c == 0xe1 && (d == 0x9a && e == 0x80))
    || ((c == 0xe2
          && ((d == 0x80 && ((leb 0x80 e && leb e 0x8a) || (e == 0xa8 || (e == 0xa9 || e == 0xaf))))
              || (d == 0x81 && e == 0x9f)))
        || (c == 0xe3 && (d == 0x80 && e == 0x80)))

-- How many bytes the white-space character at the head takes, 0 if there is none.
unfoldable pub space_width : Bytes → ℕ
space_width [] = 0
space_width (c ∷ []) = if is_ascii_space c then 1 else 0
space_width (c ∷ d ∷ []) = if is_ascii_space c then 1 else if is_space2 c d then 2 else 0
space_width (c ∷ d ∷ e ∷ s) =
    if is_ascii_space c then 1 else if is_space2 c d then 2 else if is_space3 c d e then 3 else 0

abbrev flush : Bytes → List Bytes → List Bytes
flush word words = if is_empty word then words else word ∷ words

-- strings.Fields: `skip` bytes of a space are still to be passed over, and `word` is the word
-- read so far.
unfoldable pub fields_from : ℕ → Bytes → Bytes → List Bytes
fields_from skip word [] = flush word []
fields_from (suc skip) word (c ∷ s) = fields_from skip word s
fields_from zero word (c ∷ s) = elim (space_width (c ∷ s)) [
  | zero ↦ fields_from zero (word ++ c ∷ []) s
  | suc width ↦ flush word (fields_from width [] s)
]

unfoldable pub fields : Bytes → List Bytes
unfolding fields_from space_width
fields s = fields_from 0 [] s

-- strconv.ParseFloat (none for an error), and math.Abs(a - b) > e.
pub record Floats : Type 1 where
  pub Float : Type 0
  pub parse_float : Bytes → Option Float
  pub is_farther : Float → Float → Float → Bool

module _ (f : Floats) where
  open f use {Float, parse_float, is_farther}

  parsed_match : Float → Bytes → Bytes → Option Float → Option Float → Bool
  parsed_match epsilon expected actual (some e) (some a) = not (is_farther e a epsilon)
  parsed_match epsilon expected actual _ _ = bytes_eq expected actual

  -- The body of the loop on one pair of tokens.
  unfoldable pub token_matches : Float → Bytes → Bytes → Bool
  unfolding parsed_match
  token_matches epsilon expected actual =
      parsed_match epsilon expected actual (parse_float expected) (parse_float actual)

  -- The loop, over lists of one length.
  unfoldable pub tokens_match : Float → List Bytes → List Bytes → Bool
  tokens_match epsilon [] actual = true
  tokens_match epsilon (e ∷ expected) [] = true
  tokens_match epsilon (e ∷ expected) (a ∷ actual) =
      token_matches epsilon e a && tokens_match epsilon expected actual

  unfoldable pub compare_float : Float → Bytes → Bytes → Bool
  compare_float epsilon expected actual =
      if length (fields expected) == length (fields actual)
      then tokens_match epsilon (fields expected) (fields actual)
      else false

-- The comparators of one registry; that of floats is made by its factory for each problem.
pub data OutputComparator : Type 0 where
  exact_comparator whitespace_comparator : OutputComparator

unfoldable pub compare_by : OutputComparator → Bytes → Bytes → Bool
compare_by exact_comparator = compare_exact
compare_by whitespace_comparator = compare_whitespace

abbrev pub mode_eq : ComparisonMode → ComparisonMode → Bool
mode_eq exact exact = true
mode_eq normalized_whitespace normalized_whitespace = true
mode_eq float_epsilon float_epsilon = true
mode_eq (other a) (other b) = str_eq a b
mode_eq _ _ = false

abbrev pub ComparatorRegistry : Type 0
ComparatorRegistry = List (ComparisonMode × OutputComparator)

unfoldable pub register :
    ComparisonMode → OutputComparator → ComparatorRegistry → ComparatorRegistry
register mode c [] = (mode, c) ∷ []
register mode c ((m, d) ∷ r) = if mode_eq m mode then (m, c) ∷ r else (m, d) ∷ register mode c r

-- A mode that is not registered has the exact comparator.
unfoldable pub get_comparator : ComparisonMode → ComparatorRegistry → OutputComparator
get_comparator mode [] = exact_comparator
get_comparator mode ((m, c) ∷ r) = if mode_eq m mode then c else get_comparator mode r
