-- ===== src/Embedding/Tokens.antt =====
-- tokenize of internal/adapter/embedder/bm25.go.
use go_tahu_okf_semantic_mcp.Prelude.{
  ◌≡◌, ◌≢◌, Bool, true, ◌&&◌, ◌||◌, ℕ, zero, suc, ◌+◌, [], ◌∷◌, List, Bytes, if◌then◌else◌, leb,
  ◌==◌, All, Bool-cases, inl, inr,
}
use go_tahu_okf_semantic_mcp.Go.Strings.{is_empty, push}

-- strings.ToLower, as far as the split sees it: of the runes outside ASCII only U+0130 and U+212A
-- have a lower case in ASCII, `i` and `k`. The count is of the further bytes of such a rune.
abbrev lower_byte : ℕ → ℕ
lower_byte c = if leb b'A' c && leb c b'Z' then c + 32 else c

abbrev special_rune : ℕ → Bytes → ℕ
special_rune a [] = 0
special_rune a (b ∷ []) = if a == 0xC4 && b == 0xB0 then 1 else 0
special_rune a (b ∷ c ∷ s) =
    if a == 0xC4 && b == 0xB0 then 1 else if a == 0xE2 && b == 0x84 && c == 0xAA then 2 else 0

lower_from : ℕ → Bytes → Bytes
lower_from k [] = []
lower_from (suc k) (a ∷ s) = lower_from k s
lower_from zero (a ∷ s) = elim (special_rune a s) [
  | zero ↦ lower_byte a ∷ lower_from 0 s
  | suc zero ↦ b'i' ∷ lower_from 1 s
  | suc (suc n) ↦ b'k' ∷ lower_from 2 s
]

-- A byte that the pattern `[^a-z0-9]+` does not match.
abbrev pub is_token_byte : ℕ → Bool
is_token_byte c = (leb b'a' c && leb c b'z') || (leb b'0' c && leb c b'9')

-- The text cut at every byte that the pattern matches.
unfoldable pub pieces : Bytes → List Bytes
unfolding push
pieces [] = [] ∷ []
pieces (c ∷ s) = let rest = pieces s in if is_token_byte c then push c rest else [] ∷ rest

unfoldable pub nonempty : List Bytes → List Bytes
nonempty [] = []
nonempty (p ∷ ps) = let rest = nonempty ps in if is_empty p then rest else p ∷ rest

unfoldable pub tokenize : Bytes → List Bytes
unfolding lower_from pieces nonempty
tokenize text = nonempty (pieces (lower_from 0 text))

-- A token: not empty, and of lower-case letters and digits.
abbrev pub IsToken : Bytes → Type 0
IsToken t = (t ≢ []) × All (λ c. is_token_byte c ≡ true) t

push-All :
    (c : ℕ) (ps : List Bytes)
    → is_token_byte c ≡ true
    → All (λ t. All (λ d. is_token_byte d ≡ true) t) ps
    → All (λ t. All (λ d. is_token_byte d ≡ true) t) (push c ps)
unfolding push
push-All c [] h hs = ((h, tt), tt)
push-All c (p ∷ ps) h (k, hs) = ((h, k), hs)

pieces-All : (s : Bytes) → All (λ t. All (λ d. is_token_byte d ≡ true) t) (pieces s)
unfolding pieces
pieces-All [] = (tt, tt)
pieces-All (c ∷ s) = elim (Bool-cases (is_token_byte c)) [
  | inl e ↦ rw e (push-All c (pieces s) e (pieces-All s))
  | inr n ↦ rw n (tt, pieces-All s)
]

nonempty-IsToken :
    (ps : List Bytes)
    → All (λ t. All (λ d. is_token_byte d ≡ true) t) ps
    → All IsToken (nonempty ps)
unfolding nonempty
nonempty-IsToken [] h = tt
nonempty-IsToken ([] ∷ ps) (p, h) = nonempty-IsToken ps h
nonempty-IsToken ((c ∷ t) ∷ ps) (p, h) = (((λ e. cc e), p), nonempty-IsToken ps h)

pub tokenize-IsToken : (text : Bytes) → All IsToken (tokenize text)
unfolding tokenize
tokenize-IsToken text = nonempty-IsToken _ (pieces-All (lower_from 0 text))
