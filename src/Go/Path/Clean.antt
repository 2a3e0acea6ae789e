-- ===== src/Go/Path/Clean.antt =====
-- Lexical cleaning of rooted paths: what `clean` and `join_path` leave of `..`, `.` and `//`.
use mathlib.Core.List.{reverse, reverse-append, reverse-reverse}
use go_tahu_okf_semantic_mcp.Prelude.{
  ◌≡◌, ◌≢◌, refl, Bool, true, false, ◌||◌, inl, inr, Bool-cases, List, [], ◌∷◌, ◌++◌, append_assoc,
  append-nil, arith, Bytes, str_eq, str_eq_iff, All, All-append, All-map,
}
use go_tahu_okf_semantic_mcp.Go.Strings.{
  has_prefix, split, join, is_empty, Lacks, split-append_any, split-join,
}
use go_tahu_okf_semantic_mcp.Go.Path.{
  slash, dot, dot_dot, is_abs, ascend, enter, walk, print, clean, join_path,
}

-- A name of a file or directory: not empty, not `.` or `..`, with no slash.
pub record IsPlain (p : Bytes) : Type 0 where
  pub nonempty : p ≢ []
  pub not_dot : p ≢ dot
  pub not_dot_dot : p ≢ dot_dot
  pub one_part : Lacks slash p

-- The absolute path of the given parts.
abbrev pub root_path : List Bytes → Bytes
root_path rs = slash ∷ join rs slash

pub walk-append :
    (r : Bool) (ps qs ts : List Bytes) → walk r (ps ++ qs) ts ≡ walk r qs (walk r ps ts)
unfolding walk
walk-append r [] qs ts = refl
walk-append r (p ∷ ps) qs ts = walk-append r ps qs (enter r p ts)

pub enter-plain : (r : Bool) (p : Bytes) (ts : List Bytes) → IsPlain p → enter r p ts ≡ p ∷ ts
unfolding enter
enter-plain r [] ts h = absurd (h.nonempty refl)
enter-plain r (c ∷ p) ts h =
    ground (arith, str_eq_iff (c ∷ p) dot, str_eq_iff (c ∷ p) dot_dot, h.not_dot, h.not_dot_dot)

-- Plain parts are kept.
pub walk-plain : (r : Bool) (ps ts : List Bytes) → All IsPlain ps → walk r ps ts ≡ reverse ps ++ ts
unfolding walk
walk-plain r [] ts h = refl
walk-plain r (p ∷ ps) ts (hp, h) =
    rw (enter-plain r p ts hp)
      (rw (walk-plain r ps (p ∷ ts) h) (rw (reverse-append (p ∷ []) ps, append_assoc)))

ascend-IsPlain : (ts : List Bytes) → All IsPlain ts → All IsPlain (ascend true ts)
unfolding ascend
ascend-IsPlain [] h = tt
ascend-IsPlain (t ∷ ts) (ht, h) =
    let e : str_eq t dot_dot ≡ false = ground (arith, str_eq_iff t dot_dot, ht.not_dot_dot) in
    rw e h

IsPlain-of_tests :
    (p : Bytes)
    → (is_empty p || str_eq p dot) ≡ false
    → str_eq p dot_dot ≡ false
    → Lacks slash p
    → IsPlain p
IsPlain-of_tests [] h k l = cc
IsPlain-of_tests (c ∷ p) h k l = record {
  nonempty = λ e. cc e;
  not_dot = λ e. ground (arith, str_eq_iff (c ∷ p) dot);
  not_dot_dot = λ e. ground (arith, str_eq_iff (c ∷ p) dot_dot);
  one_part = l;
}

enter-IsPlain :
    (p : Bytes) (ts : List Bytes) → Lacks slash p → All IsPlain ts → All IsPlain (enter true p ts)
unfolding enter
enter-IsPlain p ts hp h = elim (Bool-cases (is_empty p || str_eq p dot)) [
  | inl e ↦ rw e h
  | inr n ↦ elim (Bool-cases (str_eq p dot_dot)) [
    | inl d ↦ rw (n, d) (ascend-IsPlain ts h)
    | inr m ↦ rw (n, m) (IsPlain-of_tests p n m hp, h)
  ]
]

-- What a rooted path leaves is plain: no `..` survives.
pub walk-IsPlain :
    (ps ts : List Bytes) → All (Lacks slash) ps → All IsPlain ts → All IsPlain (walk true ps ts)
unfolding walk
walk-IsPlain [] ts hp h = h
walk-IsPlain (p ∷ ps) ts (hp, hps) h =
    walk-IsPlain ps (enter true p ts) hps (enter-IsPlain p ts hp h)

pub All-Lacks : (ps : List Bytes) → All IsPlain ps → All (Lacks slash) ps
All-Lacks ps h = All-map IsPlain (Lacks slash) (λ p k. k.one_part) ps h

-- The parts of the canonical root, read as a path again, are the parts.
pub walk-root :
    (rs : List Bytes) → All IsPlain rs → walk true (split (join rs slash) slash) [] ≡ reverse rs
walk-root [] h = unfold walk split join enter in refl
walk-root (r ∷ rs) h =
    rw (split-join (r ∷ rs) slash (λ e. cc e) (All-Lacks (r ∷ rs) h))
      (rw (walk-plain true (r ∷ rs) [] h, append-nil))

clean-slash : (x : Bytes) → clean (slash ∷ x) ≡ print true (walk true (split x slash) [])
unfolding clean is_abs has_prefix split walk enter
clean-slash x = refl

-- Below a canonical root, a joined path is resolved part by part, starting from the root's parts.
pub join_path-root :
    (rs : List Bytes) (rel : Bytes)
    → All IsPlain rs
    → join_path (root_path rs) rel ≡ print true (walk true (split rel slash) (reverse rs))
unfolding join_path
join_path-root rs rel h = rw (
  clean-slash,
  split-append_any (join rs slash) rel slash,
  walk-append true (split (join rs slash) slash) (split rel slash) [],
  walk-root rs h,
)

pub reverse-IsPlain : (ts : List Bytes) → All IsPlain ts → All IsPlain (reverse ts)
reverse-IsPlain [] h = h
reverse-IsPlain (t ∷ ts) (ht, h) =
    rw (reverse-append (t ∷ []) ts)
      (All-append IsPlain (reverse ts) (t ∷ []) (reverse-IsPlain ts h) (ht, tt))

-- Cleaning is idempotent on what a rooted path cleans to.
pub clean-print : (ts : List Bytes) → All IsPlain ts → clean (print true ts) ≡ print true ts
unfolding print
clean-print ts h = rw (clean-slash, walk-root (reverse ts) (reverse-IsPlain ts h), reverse-reverse)
