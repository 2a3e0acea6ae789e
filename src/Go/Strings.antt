-- ===== src/Go/Strings.antt =====
-- Package `strings`, over bytes.
use mathlib.Core.List.{reverse, reverse-append, reverse-reverse}
use go_tahu_okf_semantic_mcp.Prelude.{
  ℕ, ◌≡◌, ◌≢◌, refl, sym, ap, ◌∙◌, Bool, true, false, ◌&&◌, ◌||◌, Option, none, some, List, [], ◌∷◌,
  ◌++◌, append_assoc, arith, ◌==◌, if◌then◌else◌, Bytes, All, drop, length, str_eq, Bool-cases, inl,
  inr,
}

-- `s == ""`
abbrev pub is_empty : Bytes → Bool
is_empty [] = true
is_empty (c ∷ s) = false

-- strings.HasPrefix
unfoldable pub has_prefix : Bytes → Bytes → Bool
has_prefix s [] = true
has_prefix [] (p ∷ ps) = false
has_prefix (c ∷ s) (p ∷ ps) = c == p && has_prefix s ps

pub has_prefix-append : (p s : Bytes) → has_prefix (p ++ s) p ≡ true
unfolding has_prefix
has_prefix-append [] s = refl
has_prefix-append (c ∷ p) s = ground (arith, has_prefix-append p s)

pub has_prefix_sound : (s p : Bytes) → has_prefix s p ≡ true → s ≡ p ++ drop (length p) s
unfolding has_prefix
has_prefix_sound s [] h = refl
has_prefix_sound [] (p ∷ ps) h = cc
has_prefix_sound (c ∷ s) (p ∷ ps) h = ground (arith, has_prefix_sound s ps)

-- strings.TrimPrefix
unfoldable pub trim_prefix : Bytes → Bytes → Bytes
trim_prefix s p = if has_prefix s p then drop (length p) s else s

-- What `trim_prefix` leaves behind a prefix that is there.
pub trim_prefix_found : (s p : Bytes) → has_prefix s p ≡ true → s ≡ p ++ trim_prefix s p
unfolding trim_prefix
trim_prefix_found s p h = rw h (has_prefix_sound s p h)

-- strings.Contains of one byte
unfoldable pub contains_byte : Bytes → ℕ → Bool
contains_byte [] b = false
contains_byte (c ∷ s) b = c == b || contains_byte s b

abbrev pub Lacks : ℕ → Bytes → Type 0
Lacks b = All (λ c. c ≢ b)

pub Lacks-contains_byte : (s : Bytes) (b : ℕ) → contains_byte s b ≡ false → Lacks b s
unfolding contains_byte
Lacks-contains_byte [] b h = tt
Lacks-contains_byte (c ∷ s) b h = ground (arith, Lacks-contains_byte s b)

-- strings.Index of one byte, as the text before it and the text behind it; `none` is -1.
abbrev consed : ℕ → Option (Bytes × Bytes) → Option (Bytes × Bytes)
consed c none = none
consed c (some (u, v)) = some (c ∷ u, v)

unfoldable pub cut_byte : Bytes → ℕ → Option (Bytes × Bytes)
cut_byte [] b = none
cut_byte (c ∷ s) b = if c == b then some ([], s) else consed c (cut_byte s b)

pub cut_byte-append : (u v : Bytes) (b : ℕ) → Lacks b u → cut_byte (u ++ b ∷ v) b ≡ some (u, v)
unfolding cut_byte
cut_byte-append [] v b h = ground arith
cut_byte-append (c ∷ u) v b (h, hs) = ground (arith, cut_byte-append u v b hs)

pub cut_byte_sound :
    (s u v : Bytes) (b : ℕ) → cut_byte s b ≡ some (u, v) → (s ≡ u ++ b ∷ v) × Lacks b u
unfolding cut_byte
cut_byte_sound [] u v b h = cc
cut_byte_sound (c ∷ s) [] v b h = ground (arith)
cut_byte_sound (c ∷ s) (d ∷ u) v b h = ground (arith, cut_byte_sound s u v b)

-- strings.HasSuffix
unfoldable pub has_suffix : Bytes → Bytes → Bool
has_suffix s p = has_prefix (reverse s) (reverse p)

-- strings.TrimRight of one byte
unfoldable pub trim_right : Bytes → ℕ → Bytes
trim_right [] b = []
trim_right (c ∷ s) b = let rest = trim_right s b in if c == b && is_empty rest then [] else c ∷ rest

-- strings.Split at one byte: always at least one part.
unfoldable pub push : ℕ → List Bytes → List Bytes
push c [] = (c ∷ []) ∷ []
push c (p ∷ ps) = (c ∷ p) ∷ ps

unfoldable pub split : Bytes → ℕ → List Bytes
unfolding push
split [] b = [] ∷ []
split (c ∷ s) b = let rest = split s b in if c == b then [] ∷ rest else push c rest

-- strings.Join with one byte between the parts.
unfoldable pub join : List Bytes → ℕ → Bytes
join [] b = []
join (p ∷ []) b = p
join (p ∷ q ∷ ps) b = p ++ b ∷ join (q ∷ ps) b

-- Is one of the parts equal to `p`?
unfoldable pub has_part : List Bytes → Bytes → Bool
has_part [] p = false
has_part (q ∷ qs) p = str_eq q p || has_part qs p

push-join : (c b : ℕ) (ps : List Bytes) → ps ≢ [] → join (push c ps) b ≡ c ∷ join ps b
unfolding push join
push-join c b [] h = absurd (h refl)
push-join c b (p ∷ []) h = refl
push-join c b (p ∷ q ∷ ps) h = refl

join-cons : (p : Bytes) (b : ℕ) (ps : List Bytes) → ps ≢ [] → join (p ∷ ps) b ≡ p ++ b ∷ join ps b
unfolding join
join-cons p b [] h = absurd (h refl)
join-cons p b (q ∷ ps) h = refl

push-ne-nil : (c : ℕ) (ps : List Bytes) → push c ps ≢ []
unfolding push
push-ne-nil c [] h = cc
push-ne-nil c (p ∷ ps) h = cc

push-append : (c : ℕ) (ps qs : List Bytes) → ps ≢ [] → push c (ps ++ qs) ≡ push c ps ++ qs
unfolding push
push-append c [] qs h = absurd (h refl)
push-append c (p ∷ ps) qs h = refl

pub split-ne-nil : (s : Bytes) (b : ℕ) → split s b ≢ []
unfolding split
split-ne-nil [] b h = cc
split-ne-nil (c ∷ s) b h = ground (arith, push-ne-nil c (split s b))

-- Joining the parts of a split gives the text back.
pub join-split : (s : Bytes) (b : ℕ) → join (split s b) b ≡ s
unfolding split
join-split [] b = unfold join in refl
join-split (c ∷ s) b =
    ground (
      arith,
      split-ne-nil s b,
      push-join c b (split s b),
      join-cons [] b (split s b),
      join-split s b,
    )

push-Lacks : (c b : ℕ) (ps : List Bytes) → c ≢ b → All (Lacks b) ps → All (Lacks b) (push c ps)
unfolding push
push-Lacks c b [] h hs = ((h, tt), tt)
push-Lacks c b (p ∷ ps) h (hp, hs) = ((h, hp), hs)

-- No part of a split holds the separator.
pub split-Lacks : (s : Bytes) (b : ℕ) → All (Lacks b) (split s b)
unfolding split
split-Lacks [] b = (tt, tt)
split-Lacks (c ∷ s) b = elim (Bool-cases (c == b)) [
  | inl e ↦ rw e (tt, split-Lacks s b)
  | inr n ↦ rw n (push-Lacks c b (split s b) (ground arith) (split-Lacks s b))
]

-- A text with no separator is one part, and what follows a separator is split by itself.
pub split_single : (p : Bytes) (b : ℕ) → Lacks b p → split p b ≡ p ∷ []
unfolding split push
split_single [] b h = refl
split_single (c ∷ p) b (h, hs) = ground (arith, split_single p b hs)

pub split-append : (p s : Bytes) (b : ℕ) → Lacks b p → split (p ++ b ∷ s) b ≡ p ∷ split s b
unfolding split push
split-append [] s b h = ground arith
split-append (c ∷ p) s b (h, hs) = ground (arith, split-append p s b hs)

-- Splitting a join gives the parts back, if there is a part and none holds the separator.
pub split-join : (ps : List Bytes) (b : ℕ) → ps ≢ [] → All (Lacks b) ps → split (join ps b) b ≡ ps
unfolding join
split-join [] b h hs = absurd (h refl)
split-join (p ∷ []) b h (hp, hs) = split_single p b hp
split-join (p ∷ q ∷ ps) b h (hp, hs) =
    rw (split-append p (join (q ∷ ps) b) b hp) (rw (split-join (q ∷ ps) b (λ e. cc e) hs))

-- A separator between two texts separates their parts.
pub split-append_any : (x y : Bytes) (b : ℕ) → split (x ++ b ∷ y) b ≡ split x b ++ split y b
unfolding split push
split-append_any [] y b = ground arith
split-append_any (c ∷ x) y b =
    ground (arith, split-append_any x y b, push-append c (split x b) (split y b) (split-ne-nil x b))

pub join-append :
    (ps qs : List Bytes) (b : ℕ)
    → ps ≢ []
    → qs ≢ []
    → join (ps ++ qs) b ≡ join ps b ++ b ∷ join qs b
unfolding join
join-append [] qs b h k = absurd (h refl)
join-append (p ∷ []) [] b h k = absurd (k refl)
join-append (p ∷ []) (q ∷ qs) b h k = refl
join-append (p ∷ r ∷ ps) qs b h k = rw (join-append (r ∷ ps) qs b (λ e. cc e) k) (rw append_assoc)

-- A last byte that is found as a suffix ends the text.
pub has_suffix_byte :
    (s : Bytes) (b : ℕ) → has_suffix s (b ∷ []) ≡ true → (u : Bytes) × (s ≡ u ++ b ∷ [])
unfolding has_suffix
has_suffix_byte s b h =
    let found = has_prefix_sound (reverse s) (b ∷ []) h in
    let u = reverse (drop 1 (reverse s)) in
    (u, sym (reverse-reverse s) ∙ ap reverse found ∙ reverse-append (b ∷ []) (drop 1 (reverse s)))
