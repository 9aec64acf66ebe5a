-- ===== src/Config/Numbers.antt =====
-- The numbers of backend/internal/config/config.go: int64, int32 and time.Duration, and
-- strconv.ParseInt for base 10 and 64 bits.
use codera.Base.{
  ℕ, zero, suc, ◌+◌, ◌-◌, ◌*◌, ◌%◌, ◌^◌, Bool, true, false, ◌&&◌, Option, none, some, [], ◌∷◌,
  Bytes, ltb, leb, ◌==◌, if◌then◌else◌,
}

-- `negsuc n` is the number below zero by n + 1.
pub data ℤ : Type 0 where
  pos : ℕ → ℤ
  negsuc : ℕ → ℤ

-- The order of the numbers.
abbrev pub is_at_most : ℤ → ℤ → Bool
is_at_most (pos a) (pos b) = leb a b
is_at_most (pos a) (negsuc b) = false
is_at_most (negsuc a) (pos b) = true
is_at_most (negsuc a) (negsuc b) = leb b a

abbrev pub times : ℤ → ℕ → ℤ
times (pos n) k = pos (n * k)
times (negsuc n) zero = pos 0
times (negsuc n) (suc k) = negsuc ((n + 1) * (k + 1) - 1)

abbrev pub is_positive : ℤ → Bool
is_positive (pos zero) = false
is_positive (pos (suc n)) = true
is_positive (negsuc n) = false

abbrev pub is_zero : ℤ → Bool
is_zero (pos zero) = true
is_zero _ = false

-- The bits of an int32 as a number of two's complement.
abbrev pub signed32 : ℕ → ℤ
signed32 r = if ltb r (2 ^ 31) then pos r else negsuc (2 ^ 32 - r - 1)

-- int32(z): the low 32 bits.
unfoldable pub to_int32 : ℤ → ℤ
to_int32 (pos n) = signed32 (n % 2 ^ 32)
to_int32 (negsuc n) = signed32 (2 ^ 32 - 1 - n % 2 ^ 32)

unfoldable pub parse_digits : ℕ → Bytes → Option ℕ
parse_digits n [] = some n
parse_digits n (c ∷ s) =
    let rest = parse_digits (n * 10 + (c - 48)) s in if leb 48 c && leb c 57 then rest else none

abbrev pub negated : ℕ → ℤ
negated zero = pos zero
negated (suc n) = negsuc n

-- The number without its sign, as an int64 if it is in range.
abbrev pub in_range : Bool → Option ℕ → Option ℤ
in_range is_negative none = none
in_range true (some n) = if leb n (2 ^ 63) then some (negated n) else none
in_range false (some n) = if ltb n (2 ^ 63) then some (pos n) else none

abbrev pub unsigned : Bytes → Option ℕ
unsigned [] = none
unsigned (c ∷ s) = parse_digits 0 (c ∷ s)

-- 43 is a plus and 45 a minus.
unfoldable pub parse_int64 : Bytes → Option ℤ
unfolding parse_digits
parse_int64 [] = none
parse_int64 (c ∷ s) =
    if c == 45
    then in_range true (unsigned s)
    else if c == 43
    then in_range false (unsigned s)
    else in_range false (unsigned (c ∷ s))
