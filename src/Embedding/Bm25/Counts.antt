-- ===== src/Embedding/Bm25/Counts.antt =====
-- The statistics of the corpus, against what the documents say.
use go_tahu_okf_semantic_mcp.Prelude.{
  ◌≡◌, ◌≤◌, ◌∙◌, ap, sym, refl, Bool, true, false, ◌&&◌, not, ℕ, zero, suc, ◌+◌, Option, none, some,
  [], ◌∷◌, List, arith, Bytes, str_eq, str_eq_iff, if◌then◌else◌, length, ℤ, pos, negsuc, int_inc,
  int_dec, int_add, int_sub,
}
use go_tahu_okf_semantic_mcp.Go.Strings.{has_part}
use go_tahu_okf_semantic_mcp.Go.Map.{Map, lookup, insert, lookup-insert, lookup-remove}
use go_tahu_okf_semantic_mcp.Embedding.Tokens.{tokenize}
use go_tahu_okf_semantic_mcp.Embedding.Bm25.{
  Bm25, value, is_zero, decrement, increment, remove_terms, add_terms, without_old, index,
}

abbrev pub one_if : Bool → ℕ
one_if true = 1
one_if false = 0

-- How many documents hold a term, and how many tokens there are.
unfoldable pub documents_with : Bytes → Map (List Bytes) → ℕ
documents_with t [] = 0
documents_with t ((id, tokens) ∷ docs) = one_if (has_part tokens t) + documents_with t docs

unfoldable pub tokens_in : Map (List Bytes) → ℕ
tokens_in [] = 0
tokens_in ((id, tokens) ∷ docs) = length tokens + tokens_in docs

abbrev lowered : Option ℤ → Option ℤ
lowered o = let z = int_dec (value o) in if is_zero z then none else some z

lookup-decrement :
    (t u : Bytes) (df : Map ℤ)
    → lookup u (decrement t df) ≡ (if str_eq t u then lowered (lookup u df) else lookup u df)
unfolding decrement
lookup-decrement t u df =
    let z = int_dec (value (lookup t df)) in
    ground (arith, str_eq_iff t u, lookup-insert t u z df, lookup-remove t u (insert t z df))

lookup-increment :
    (t u : Bytes) (df : Map ℤ)
    → lookup u (increment t df)
      ≡ (if str_eq t u then some (int_inc (value (lookup u df))) else lookup u df)
unfolding increment
lookup-increment t u df =
    ground (arith, str_eq_iff t u, lookup-insert t u (int_inc (value (lookup t df))) df)

lookup-remove_terms :
    (ts seen : List Bytes) (u : Bytes) (df : Map ℤ)
    → lookup u (remove_terms ts seen df)
      ≡ (if has_part ts u && not (has_part seen u) then lowered (lookup u df) else lookup u df)
unfolding remove_terms has_part
lookup-remove_terms [] seen u df = refl
lookup-remove_terms (t ∷ ts) seen u df = ground (
  arith,
  str_eq_iff t u,
  lookup-decrement t u df,
  lookup-remove_terms ts seen u df,
  lookup-remove_terms ts (t ∷ seen) u (decrement t df),
)

lookup-add_terms :
    (ts seen : List Bytes) (u : Bytes) (df : Map ℤ)
    → lookup u (add_terms ts seen df) ≡ (
        if has_part ts u && not (has_part seen u)
        then some (int_inc (value (lookup u df)))
        else lookup u df)
unfolding add_terms has_part
lookup-add_terms [] seen u df = refl
lookup-add_terms (t ∷ ts) seen u df = ground (
  arith,
  str_eq_iff t u,
  lookup-increment t u df,
  lookup-add_terms ts seen u df,
  lookup-add_terms ts (t ∷ seen) u (increment t df),
)

-- The old document of an identifier.
abbrev held : Option (List Bytes) → Bytes → Bool
held none t = false
held (some old) t = has_part old t

abbrev old_length : Option (List Bytes) → ℕ
old_length none = 0
old_length (some old) = length old

documents_with-insert :
    (t id : Bytes) (new : List Bytes) (docs : Map (List Bytes))
    → documents_with t (insert id new docs) + one_if (held (lookup id docs) t)
      ≡ documents_with t docs + one_if (has_part new t)
unfolding documents_with insert lookup
documents_with-insert t id new [] = omega arith
documents_with-insert t id new ((j, old) ∷ docs) =
    ground (arith, documents_with-insert t id new docs)

tokens_in-insert :
    (id : Bytes) (new : List Bytes) (docs : Map (List Bytes))
    → tokens_in (insert id new docs) + old_length (lookup id docs) ≡ tokens_in docs + length new
unfolding tokens_in insert lookup
tokens_in-insert id new [] = omega arith
tokens_in-insert id new ((j, old) ∷ docs) = ground (arith, tokens_in-insert id new docs)

-- The frequency of a term that `n` documents hold: there is no entry for 0.
abbrev pub counted : ℕ → Option ℤ
counted zero = none
counted (suc n) = some (pos (suc n))

pub record IsCounted {D : Type 0} (e : Bm25 D) : Type 0 where
  pub frequency : (t : Bytes) → lookup t e.df ≡ counted (documents_with t e.docs)
  pub total : e.total_len ≡ pos (tokens_in e.docs)

lowered-counted : (n : ℕ) → lowered (counted (suc n)) ≡ counted n
lowered-counted zero = refl
lowered-counted (suc n) = refl

raised-counted : (n : ℕ) → some (int_inc (value (counted n))) ≡ counted (suc n)
raised-counted zero = refl
raised-counted (suc n) = refl

-- Dropping a document that holds the term and adding one that holds it, each or not.
counted-change :
    (old new : Bool) (k n : ℕ) (o : Option ℤ)
    → n + one_if old ≡ k + one_if new
    → (old ≡ true → 1 ≤ k)
    → o ≡ (if old then lowered (counted k) else counted k)
    → (if new then some (int_inc (value o)) else o) ≡ counted n
counted-change true true zero n o e h s = absurd (omega (arith, h refl))
counted-change true true (suc k) n o e h s =
    let same : n ≡ suc k = omega arith in rw (s, lowered-counted, same) (raised-counted k)
counted-change true false zero n o e h s = absurd (omega (arith, h refl))
counted-change true false (suc k) n o e h s =
    let same : n ≡ k = omega arith in rw (s, lowered-counted, same) refl
counted-change false true k n o e h s =
    let same : n ≡ suc k = omega arith in rw (s, same) (raised-counted k)
counted-change false false k n o e h s = let same : n ≡ k = omega arith in rw (s, same) refl

held-documents_with :
    (t id : Bytes) (docs : Map (List Bytes))
    → held (lookup id docs) t ≡ true
    → 1 ≤ documents_with t docs
unfolding documents_with lookup
held-documents_with t id [] h = absurd (cc h)
held-documents_with t id ((j, old) ∷ docs) h = ground (arith, held-documents_with t id docs)

old_length-le :
    (id : Bytes) (docs : Map (List Bytes)) → old_length (lookup id docs) ≤ tokens_in docs
unfolding tokens_in lookup
old_length-le id [] = omega arith
old_length-le id ((j, old) ∷ docs) = ground (arith, old_length-le id docs)

total-change :
    (k n old new : ℕ) → n + old ≡ k + new → old ≤ k → int_add (int_sub (pos k) old) new ≡ pos n
total-change k n old new e h = ground arith

and_true : {A : Type 0} (b : Bool) (x y : A) → (if b && true then x else y) ≡ (if b then x else y)
and_true true x y = refl
and_true false x y = refl

int_sub_zero : (z : ℤ) → int_sub z 0 ≡ z
int_sub_zero (pos n) = ground arith
int_sub_zero (negsuc n) = ap negsuc (omega arith)

module _ {D : Type 0} where
  without_old-df :
      (o : Option (List Bytes)) (e : Bm25 D) (u : Bytes)
      → lookup u (without_old o e).df
        ≡ (if held o u then lowered (lookup u e.df) else lookup u e.df)
  without_old-df none e u = refl
  without_old-df (some old) e u =
      lookup-remove_terms old [] u e.df ∙ unfold has_part in ground arith

  without_old-total :
      (o : Option (List Bytes)) (e : Bm25 D)
      → (without_old o e).total_len ≡ int_sub e.total_len (old_length o)
  without_old-total none e = sym (int_sub_zero e.total_len)
  without_old-total (some old) e = refl

  same-docs : (o : Option (List Bytes)) (e : Bm25 D) → (without_old o e).docs ≡ e.docs
  same-docs none e = refl
  same-docs (some old) e = refl

  -- Index keeps the statistics right: the frequency of each term is the number of documents that hold
  -- it, with no entry for 0, and the total is the number of tokens.
  pub index-IsCounted : (id text : Bytes) (e : Bm25 D) → IsCounted e → IsCounted (index id text e)
  unfolding index has_part
  index-IsCounted id text e h =
      let new = tokenize text in
      let o = lookup id e.docs in
      record {
        frequency = λ t. rw (same-docs o e) (
            lookup-add_terms new [] t (without_old o e).df
            ∙ and_true (has_part new t) _ _
            ∙ counted-change (held o t) (has_part new t) (documents_with t e.docs) _
                (lookup t (without_old o e).df) (documents_with-insert t id new e.docs)
                (held-documents_with t id e.docs)
                (without_old-df o e t
                  ∙ ap (λ x. if held o t then lowered x else x) (h.frequency t)));
        total =
            rw (same-docs o e, without_old-total o e, h.total)
              (total-change (tokens_in e.docs) _ (old_length o) (length new)
                (tokens_in-insert id new e.docs) (old_length-le id e.docs));
      }
