-- ===== src/Jobs/Json.antt =====
-- encoding/json as jobs/postgres_store.go uses it: inputs and results go through json.Marshal to a
-- column of type JSONB, and through json.Unmarshal back. A text comes back as it was, but for each
-- byte that is not part of valid UTF-8, which comes back as U+FFFD. A
-- text with a NUL byte is refused by the database.
use codera.Base.{ℕ, zero, suc, ◌-◌, Bool, ◌&&◌, ◌||◌, [], ◌∷◌, ◌==◌, leb, if◌then◌else◌, Bytes}
use codera.Domain.{ExecutionResult}

abbrev between : ℕ → ℕ → ℕ → Bool
between low high b = leb low b && leb b high

abbrev pub is_continuation : ℕ → Bool
is_continuation b = between 0x80 0xbf b

-- The second byte of a rune of three, by the first: neither overlong nor a surrogate.
abbrev pub second_of_three : ℕ → ℕ → Bool
second_of_three a b =
    (a == 0xe0 && between 0xa0 0xbf b)
    || (a == 0xed && between 0x80 0x9f b)
    || ((between 0xe1 0xec a || between 0xee 0xef a) && is_continuation b)

-- The second byte of a rune of four, by the first: neither overlong nor above U+10FFFF.
abbrev pub second_of_four : ℕ → ℕ → Bool
second_of_four a b =
    (a == 0xf0 && between 0x90 0xbf b)
    || (a == 0xf4 && between 0x80 0x8f b)
    || (between 0xf1 0xf3 a && is_continuation b)

-- The length of the rune that the bytes begin with; 0 if they begin with none.
abbrev pub rune_size : Bytes → ℕ
rune_size [] = 0
rune_size (a ∷ []) = if leb a 0x7f then 1 else 0
rune_size (a ∷ b ∷ []) =
    if leb a 0x7f then 1 else if between 0xc2 0xdf a && is_continuation b then 2 else 0
rune_size (a ∷ b ∷ c ∷ []) =
    if leb a 0x7f
    then 1
    else if between 0xc2 0xdf a && is_continuation b
    then 2
    else if second_of_three a b && is_continuation c
    then 3
    else 0
rune_size (a ∷ b ∷ c ∷ d ∷ s) =
    if leb a 0x7f
    then 1
    else if between 0xc2 0xdf a && is_continuation b
    then 2
    else if second_of_three a b && is_continuation c
    then 3
    else if second_of_four a b && (is_continuation c && is_continuation d)
    then 4
    else 0

abbrev pub with_rune : ℕ → ℕ → Bytes → Bytes
with_rune zero a rest = 0xef ∷ 0xbf ∷ 0xbd ∷ rest
with_rune (suc n) a rest = a ∷ rest

-- The bytes after so many that belong to a rune already.
unfoldable pub valid_after : ℕ → Bytes → Bytes
valid_after n [] = []
valid_after zero (a ∷ s) = with_rune (rune_size (a ∷ s)) a (valid_after (rune_size (a ∷ s) - 1) s)
valid_after (suc n) (a ∷ s) = a ∷ valid_after n s

unfoldable pub to_valid_utf8 : Bytes → Bytes
unfolding valid_after
to_valid_utf8 s = valid_after 0 s

-- A result as it comes back; the exit code is a number.
unfoldable pub as_stored : ExecutionResult → ExecutionResult
unfolding to_valid_utf8
as_stored r = record r { stdout = to_valid_utf8 r.stdout; stderr = to_valid_utf8 r.stderr }
