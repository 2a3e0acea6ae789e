-- ===== src/Embedding/Bm25.antt =====
-- BM25Embedder of internal/adapter/embedder/bm25.go. The order of a range over a map is one of the
-- possible orders; the results do not depend on it.
pub mod Counts
pub mod Vocabulary
pub mod Scores
pub mod Vectors
use go_tahu_okf_semantic_mcp.Prelude.{
  Bool, true, false, ◌&&◌, ◌||◌, not, ℕ, zero, suc, ◌+◌, ◌<◌, Option, none, some, [], ◌∷◌, List,
  map, Bytes, str_eq, if◌then◌else◌, length, take, ltb, leb, ◌==◌, ℤ, pos, negsuc, int_inc, int_dec,
  int_add, int_sub, int_gt, int_minus, natural,
}
use go_tahu_okf_semantic_mcp.Exec.{Result, ok, err, panic, Exec}
use go_tahu_okf_semantic_mcp.Exec.Try.{◌>>=◌, ◌>>◌}
use go_tahu_okf_semantic_mcp.Go.Strings.{has_part}
use go_tahu_okf_semantic_mcp.Go.Float.{Floats, Arithmetic}
use go_tahu_okf_semantic_mcp.Go.Map.{Map, lookup, insert, remove}
use go_tahu_okf_semantic_mcp.Embedding.Tokens.{tokenize}

pub record Parameters (D : Type 0) : Type 0 where
  pub k1 : D
  pub b : D

pub record Bm25 (D : Type 0) : Type 0 where
  pub params : Parameters D
  pub max_dims : ℕ
  pub docs : Map (List Bytes)
  pub df : Map ℤ
  pub total_len : ℤ
  pub vocab : List Bytes
  pub vocab_idx : Map ℕ
  pub dirty : Bool

-- The value of a missing key of a map to int.
abbrev pub value : Option ℤ → ℤ
value none = pos 0
value (some z) = z

abbrev is_zero : ℤ → Bool
is_zero (pos zero) = true
is_zero (pos (suc n)) = false
is_zero (negsuc n) = false

-- `e.df[t]--`, and the entry deleted where it comes to 0.
unfoldable pub decrement : Bytes → Map ℤ → Map ℤ
decrement t df =
    let z = int_dec (value (lookup t df)) in
    if is_zero z then remove t (insert t z df) else insert t z df

-- `e.df[t]++`
unfoldable pub increment : Bytes → Map ℤ → Map ℤ
increment t df = insert t (int_inc (value (lookup t df))) df

-- The loops over the tokens of the old and of the new document, each token once.
unfoldable pub remove_terms : List Bytes → List Bytes → Map ℤ → Map ℤ
unfolding decrement
remove_terms [] seen df = df
remove_terms (t ∷ ts) seen df =
    let again = remove_terms ts seen df in
    let rest = remove_terms ts (t ∷ seen) (decrement t df) in
    if has_part seen t then again else rest

unfoldable pub add_terms : List Bytes → List Bytes → Map ℤ → Map ℤ
unfolding increment
add_terms [] seen df = df
add_terms (t ∷ ts) seen df =
    let again = add_terms ts seen df in
    let rest = add_terms ts (t ∷ seen) (increment t df) in if has_part seen t then again else rest

module _ {D : Type 0} where
  -- What Index takes away of an old document.
  abbrev pub without_old : Option (List Bytes) → Bm25 D → Bm25 D
  without_old none e = e
  without_old (some old) e = record e {
    df = remove_terms old [] e.df;
    total_len = int_sub e.total_len (length old);
  }

  abbrev pub with_new : Bytes → List Bytes → Bm25 D → Bm25 D
  with_new id tokens e = record e {
    docs = insert id tokens e.docs;
    total_len = int_add e.total_len (length tokens);
    df = add_terms tokens [] e.df;
    dirty = true;
  }

  unfoldable pub index : Bytes → Bytes → Bm25 D → Bm25 D
  index id text e = with_new id (tokenize text) (without_old (lookup id e.docs) e)

-- `a < b` on strings, by bytes.
unfoldable pub str_lt : Bytes → Bytes → Bool
str_lt a [] = false
str_lt [] (y ∷ ys) = true
str_lt (x ∷ xs) (y ∷ ys) = if x == y then str_lt xs ys else ltb x y

abbrev int_less : ℤ → ℤ → Bool
int_less (pos m) (pos n) = ltb m n
int_less (pos m) (negsuc n) = false
int_less (negsuc m) (pos n) = true
int_less (negsuc m) (negsuc n) = ltb n m

abbrev int_same : ℤ → ℤ → Bool
int_same (pos m) (pos n) = m == n
int_same (negsuc m) (negsuc n) = m == n
int_same _ _ = false

-- The order of the terms: ascending frequency, then by the term.
abbrev pub before : Bytes × ℤ → Bytes × ℤ → Bool
before (s, m) (t, n) = if int_same m n then str_lt s t else int_less m n

unfoldable pub positive : Map ℤ → Map ℤ
positive [] = []
positive ((t, f) ∷ df) = let rest = positive df in if int_gt f 0 then (t, f) ∷ rest else rest

-- sort.Slice by `before`, which no two different terms leave undecided.
unfoldable pub place_term : Bytes × ℤ → Map ℤ → Map ℤ
place_term t [] = t ∷ []
place_term t (u ∷ us) = let rest = place_term t us in if before u t then u ∷ rest else t ∷ u ∷ us

unfoldable pub sort_terms : Map ℤ → Map ℤ
unfolding place_term
sort_terms [] = []
sort_terms (t ∷ ts) = place_term t (sort_terms ts)

abbrev pub terms_of : Map ℤ → List Bytes
terms_of = map (λ (t : Bytes × ℤ). t.0)

-- `e.vocabIdx[tv.term] = i`, from the place `i` on.
unfoldable pub numbered : ℕ → List Bytes → Map ℕ → Map ℕ
numbered i [] m = m
numbered i (t ∷ ts) m = numbered (suc i) ts (insert t i m)

-- tf[t]
unfoldable pub count_term : List Bytes → Bytes → ℕ
count_term [] t = 0
count_term (u ∷ us) t = let rest = count_term us t in if str_eq u t then suc rest else rest

-- `vec[i] = x`, which panics out of range.
module _ {F : Type 0} where
  abbrev pub consed : F → Result (List F) → Result (List F)
  consed y (ok ys) = ok (y ∷ ys)
  consed y (err e) = err e

  abbrev pub set_elem : ℕ → F → List F → Result (List F)
  set_elem i x [] = err panic
  set_elem zero x (y ∷ ys) = ok (x ∷ ys)
  set_elem (suc i) x (y ∷ ys) = consed y (set_elem i x ys)

  -- A new slice of the given length, of the zero `x`.
  abbrev pub zeros : F → ℕ → List F
  zeros x zero = []
  zeros x (suc n) = x ∷ zeros x n

module _ {F D : Type 0} (fl : Floats F D) (ar : Arithmetic F D) where
  open ar use {of_int, add, sub, mul, div, log, greater, half, one}

  abbrev pub default_parameters : Parameters D
  default_parameters = record { k1 = ar.three_halves; b = ar.three_quarters }

  -- NewBM25Embedder
  abbrev pub new_bm25 : Parameters D → ℤ → Bm25 D
  new_bm25 params max_dims = record {
    params = params;
    max_dims = natural (if int_gt max_dims 0 then max_dims else pos 4096);
    docs = [];
    df = [];
    total_len = pos 0;
    vocab = [];
    vocab_idx = [];
    dirty = true;
  }

  -- New
  abbrev pub new_default : Bm25 D
  new_default = new_bm25 default_parameters (pos 4096)

  unfoldable pub build_vocab : Bm25 D → Bm25 D
  unfolding positive sort_terms numbered
  build_vocab e =
      let terms = take e.max_dims (sort_terms (positive e.df)) in
      record e { vocab = terms_of terms; vocab_idx = numbered 0 (terms_of terms) []; dirty = false }

  abbrev pub ready : Bm25 D → Bm25 D
  ready e = if e.dirty then build_vocab e else e
