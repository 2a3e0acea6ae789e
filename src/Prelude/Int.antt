-- ===== src/Prelude/Int.antt =====
-- Go's `int`, 64 bits with a sign: `negsuc n` is -(n + 1).
use Prim.Native.Nat.{ℕ, zero, suc, ◌+◌, ◌-◌, ◌*◌, ◌%◌, ◌^◌}
use mathlib.Core.Bool.{Bool, true, false}
use go_tahu_okf_semantic_mcp.Prelude.Tests.{ltb, leb, if◌then◌else◌}

pub data ℤ : Type 0 where
  pos : ℕ → ℤ
  negsuc : ℕ → ℤ

-- `z < n`
abbrev pub int_lt : ℤ → ℕ → Bool
int_lt (pos m) n = ltb m n
int_lt (negsuc m) n = true

-- `z > n`
abbrev pub int_gt : ℤ → ℕ → Bool
int_gt (pos m) n = ltb n m
int_gt (negsuc m) n = false

-- A word of 64 bits, read with its sign.
abbrev pub int_of_word : ℕ → ℤ
int_of_word w = if ltb w (2 ^ 63) then pos w else negsuc (2 ^ 64 - w - 1)

-- `z * n` for a positive `z`, with wrap-around.
abbrev pub int_mul : ℕ → ℕ → ℤ
int_mul m n = int_of_word ((m * n) % 2 ^ 64)

-- `z + 1`, `z - 1`, `z + n` and `z - n`, of numbers far from the ends of the range.
abbrev pub int_inc : ℤ → ℤ
int_inc (pos n) = pos (suc n)
int_inc (negsuc zero) = pos 0
int_inc (negsuc (suc n)) = negsuc n

abbrev pub int_dec : ℤ → ℤ
int_dec (pos zero) = negsuc 0
int_dec (pos (suc n)) = pos n
int_dec (negsuc n) = negsuc (suc n)

abbrev pub int_add : ℤ → ℕ → ℤ
int_add (pos m) n = pos (m + n)
int_add (negsuc m) n = if ltb m n then pos (n - suc m) else negsuc (m - n)

abbrev pub int_sub : ℤ → ℕ → ℤ
int_sub (pos m) n = if leb n m then pos (m - n) else negsuc (n - suc m)
int_sub (negsuc m) n = negsuc (m + n)

abbrev pub int_minus : ℤ → ℤ → ℤ
int_minus z (pos n) = int_sub z n
int_minus z (negsuc n) = int_add z (suc n)

-- A number that is not negative.
abbrev pub natural : ℤ → ℕ
natural (pos n) = n
natural (negsuc n) = 0
