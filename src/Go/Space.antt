-- ===== src/Go/Space.antt =====
-- strings.TrimSpace, over UTF-8: the runes with the Unicode property White_Space.
use mathlib.Core.List.{reverse}
use go_tahu_okf_semantic_mcp.Prelude.{
  ℕ, zero, suc, ◌≡◌, refl, Bool, ◌&&◌, ◌||◌, [], ◌∷◌, leb, ◌==◌, if◌then◌else◌, Bytes, codes,
}

ascii_space : ℕ → Bool
ascii_space a = (leb 9 a && leb a 13) || a == 32

-- U+0085 and U+00A0
two_byte_space : ℕ → ℕ → Bool
two_byte_space a b = a == 0xC2 && (b == 0x85 || b == 0xA0)

-- U+1680, U+2000 to U+200A, U+2028, U+2029, U+202F, U+205F, U+3000
three_byte_space : ℕ → ℕ → ℕ → Bool
three_byte_space a b c =
    (a == 0xE1 && b == 0x9A && c == 0x80)
    || (a == 0xE2
        && b == 0x80
        && ((leb 0x80 c && leb c 0x8A) || c == 0xA8 || c == 0xA9 || c == 0xAF))
    || (a == 0xE2 && b == 0x81 && c == 0x9F)
    || (a == 0xE3 && b == 0x80 && c == 0x80)

-- The length of the white-space rune at the start, 0 if there is none.
leading_space : Bytes → ℕ
unfolding ascii_space two_byte_space three_byte_space
leading_space [] = 0
leading_space (a ∷ []) = if ascii_space a then 1 else 0
leading_space (a ∷ b ∷ []) = if ascii_space a then 1 else if two_byte_space a b then 2 else 0
leading_space (a ∷ b ∷ c ∷ s) =
    if ascii_space a
    then 1
    else if two_byte_space a b
    then 2
    else if three_byte_space a b c
    then 3
    else 0

-- The same of the rune at the end, on the reversed text.
trailing_space : Bytes → ℕ
unfolding ascii_space two_byte_space three_byte_space
trailing_space [] = 0
trailing_space (a ∷ []) = if ascii_space a then 1 else 0
trailing_space (b ∷ a ∷ []) = if ascii_space b then 1 else if two_byte_space a b then 2 else 0
trailing_space (c ∷ b ∷ a ∷ s) =
    if ascii_space c
    then 1
    else if two_byte_space b c
    then 2
    else if three_byte_space a b c
    then 3
    else 0

-- Drops runes as long as `size` finds one; the number is of bytes that are still to be dropped.
drop_runes : (Bytes → ℕ) → ℕ → Bytes → Bytes
drop_runes size k [] = []
drop_runes size (suc k) (a ∷ s) = drop_runes size k s
drop_runes size zero (a ∷ s) = elim (size (a ∷ s)) [ zero ↦ a ∷ s | suc m ↦ drop_runes size m s ]

unfoldable pub trim_space : Bytes → Bytes
unfolding leading_space trailing_space drop_runes
trim_space s = reverse (drop_runes trailing_space 0 (reverse (drop_runes leading_space 0 s)))

trim_space_tests :
    (trim_space (codes " \n a b\t") ≡ codes "a b")
    × (trim_space (codes "  ") ≡ [])
    × (trim_space (0xE2 ∷ 0x80 ∷ 0x89 ∷ b'x' ∷ 0xC2 ∷ 0xA0 ∷ []) ≡ codes "x")
unfolding trim_space
trim_space_tests = (refl, refl, refl)
