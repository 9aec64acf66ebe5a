-- ===== src/Config/Range.antt =====
-- Theorems on the numbers of config/config.go: the ranges of int64 and int32.
use codera.Base.{
  ℕ, zero, suc, ◌-◌, ◌%◌, ◌^◌, ◌<◌, Bool, true, false, Option, none, some, [], ◌∷◌, ◌≡◌, arith,
  Bytes, ltb, ◌==◌, Bool-cases, inl, inr,
}
use codera.Config.Numbers.{ℤ, pos, negsuc, signed32, to_int32, unsigned, in_range, parse_int64}

-- The numbers from - 2 ^ k to 2 ^ k - 1.
abbrev pub IsWithin : ℕ → ℤ → Type 0
IsWithin k (pos n) = n < 2 ^ k
IsWithin k (negsuc n) = n < 2 ^ k

signed32-IsWithin : (r : ℕ) → r < 2 ^ 32 → IsWithin 31 (signed32 r)
signed32-IsWithin r h = elim (Bool-cases (ltb r (2 ^ 31))) [
  | inl e ↦ rw e (ground (arith, e))
  | inr e ↦ rw e (ground (arith, e, h))
]

-- The conversion to int32 is in its range.
pub to_int32-IsWithin : (z : ℤ) → IsWithin 31 (to_int32 z)
unfolding to_int32
to_int32-IsWithin (pos n) = signed32-IsWithin (n % 2 ^ 32) (omega arith)
to_int32-IsWithin (negsuc n) = signed32-IsWithin (2 ^ 32 - 1 - n % 2 ^ 32) (omega arith)

in_range-IsWithin : (neg : Bool) (o : Option ℕ) (z : ℤ) → in_range neg o ≡ some z → IsWithin 63 z
in_range-IsWithin neg none z h = ground (arith, h)
in_range-IsWithin true (some zero) z h = ground (arith, h)
in_range-IsWithin true (some (suc n)) z h = ground (arith, h)
in_range-IsWithin false (some n) z h = ground (arith, h)

pub parse_int64-IsWithin : (s : Bytes) (z : ℤ) → parse_int64 s ≡ some z → IsWithin 63 z
unfolding parse_int64
parse_int64-IsWithin [] z h = ground (arith, h)
parse_int64-IsWithin (c ∷ s) z h = elim (Bool-cases (c == 45)) [
  | inl e ↦ in_range-IsWithin true (unsigned s) z (rw e at h)
  | inr e ↦ elim (Bool-cases (c == 43)) [
    | inl e' ↦ in_range-IsWithin false (unsigned s) z (rw (e, e') at h)
    | inr e' ↦ in_range-IsWithin false (unsigned (c ∷ s)) z (rw (e, e') at h)
  ]
]
