-- ===== src/Embedding/Bm25/Vectors.antt =====
-- What Embed returns: a vector of the fixed dimension for every text, without a panic.
use go_tahu_okf_semantic_mcp.Prelude.{
  ◌≡◌, ◌<◌, ◌∙◌, ap, refl, ℕ, zero, suc, [], ◌∷◌, List, map, arith, Bytes, length, All,
}
use go_tahu_okf_semantic_mcp.Exec.{Result, ok}
use go_tahu_okf_semantic_mcp.Go.Map.{Map}
use go_tahu_okf_semantic_mcp.Go.Float.{Floats, Arithmetic}
use go_tahu_okf_semantic_mcp.Embedding.Tokens.{tokenize}
use go_tahu_okf_semantic_mcp.Embedding.Bm25.{Bm25, count_term, consed, set_elem, zeros, ready}
use go_tahu_okf_semantic_mcp.Embedding.Bm25.Scores.{
  Corpus, corpus_of, weigh_at, fill, vector_of, vectors_of, embed,
}
use go_tahu_okf_semantic_mcp.Embedding.Bm25.Vocabulary.{
  Below, IsNumbered, ready-max_dims, ready-Below,
}

module _ {F : Type 0} where
  -- A computation succeeds with a vector of the given length.
  abbrev pub IsVector : ℕ → Result (List F) → Type 0
  IsVector n r = (v : List F) × (r ≡ ok v) × (length v ≡ n)

  consed-IsVector :
      (y : F) (n : ℕ) (r : Result (List F)) → IsVector n r → IsVector (suc n) (consed y r)
  consed-IsVector y n r (v, e, l) = (y ∷ v, rw e refl, ap suc l)

  set_elem-IsVector :
      (i : ℕ) (x : F) (vec : List F) → i < length vec → IsVector (length vec) (set_elem i x vec)
  set_elem-IsVector i x [] h = absurd (omega (arith, h))
  set_elem-IsVector zero x (y ∷ ys) h = (x ∷ ys, refl, refl)
  set_elem-IsVector (suc i) x (y ∷ ys) h =
      consed-IsVector y (length ys) (set_elem i x ys) (set_elem-IsVector i x ys (omega (arith, h)))

  pub length-zeros : (x : F) (n : ℕ) → length (zeros x n) ≡ n
  length-zeros x zero = refl
  length-zeros x (suc n) = ap suc (length-zeros x n)

module _ {F D : Type 0} (fl : Floats F D) (ar : Arithmetic F D) where
  weigh_at-IsVector :
      (c : Corpus fl ar) (doc_len : ℕ) (term : Bytes) (i tf : ℕ) (vec : List F)
      → i < length vec
      → IsVector (length vec) (weigh_at fl ar c doc_len term i tf vec)
  weigh_at-IsVector c doc_len term i zero vec h = (vec, refl, refl)
  weigh_at-IsVector c doc_len term i (suc k) vec h = set_elem-IsVector i _ vec h

  fill-IsVector :
      (c : Corpus fl ar) (tokens : List Bytes) (idx : Map ℕ) (n : ℕ) (vec : List F)
      → length vec ≡ n
      → All (Below n) idx
      → IsVector n (fill fl ar c tokens idx vec)
  unfolding fill
  fill-IsVector c tokens [] n vec l h = (vec, refl, l)
  fill-IsVector c tokens ((t, i) ∷ idx) n vec l (p, h) =
      let (v, e, same) =
        weigh_at-IsVector c (length tokens) t i (count_term tokens t) vec (omega (arith, l, p)) in
      rw e (fill-IsVector c tokens idx n v (same ∙ l) h)

  vectors_of-total :
      (e : Bm25 D) (n : ℕ) (texts : List Bytes)
      → e.max_dims ≡ n
      → All (Below n) e.vocab_idx
      → (vs : List (List F)) × (vectors_of fl ar e texts ≡ ok vs)
        × (length vs ≡ length texts)
        × All (λ v. length v ≡ n) vs
  unfolding vectors_of vector_of
  vectors_of-total e n [] l h = ([], refl, refl, tt)
  vectors_of-total e n (text ∷ texts) l h =
      let (v, made, size) =
        fill-IsVector (corpus_of fl ar e) (tokenize text) e.vocab_idx n (zeros ar.zero32 e.max_dims)
          (length-zeros ar.zero32 e.max_dims ∙ l) h in
      let (vs, rest, count, sizes) = vectors_of-total e n texts l h in
      (v ∷ vs, rw (made, rest) refl, ap suc count, (size, sizes))

  -- From an embedder whose vocabulary has its numbers below the dimension where it is up to date, Embed
  -- succeeds without an index out of range: a vector for each text, each of the length Dims().
  pub embed-total :
      (texts : List Bytes) (e : Bm25 D)
      → IsNumbered e
      → (vs : List (List F)) × (embed fl ar texts e ≡ (ok vs, ready fl ar e))
        × (length vs ≡ length texts)
        × All (λ v. length v ≡ e.max_dims) vs
  unfolding embed
  embed-total texts e h =
      let (vs, made, count, sizes) =
        vectors_of-total (ready fl ar e) e.max_dims texts (ready-max_dims fl ar e)
          (ready-Below fl ar e h) in
      (vs, rw made refl, count, sizes)

  pub vectors_of-zero :
      (e : Bm25 D) (texts : List Bytes)
      → e.vocab_idx ≡ []
      → vectors_of fl ar e texts ≡ ok (map (λ (t : Bytes). zeros ar.zero32 e.max_dims) texts)
  unfolding vectors_of vector_of fill
  vectors_of-zero e [] h = refl
  vectors_of-zero e (text ∷ texts) h = rw (h, vectors_of-zero e texts h) refl
