-- ===== src/Command/Unindexed.antt =====
-- The embedder that the program builds and never hands a document: what an index run stores then.
use go_tahu_okf_semantic_mcp.Prelude.{
  ◌≡◌, ◌≤◌, refl, sym, ◌∙◌, subst, Bool, true, false, Bool-cases, inl, inr, ℤ, if◌then◌else◌, ℕ,
  zero, suc, [], ◌∷◌, List, map, take, arith, Bytes, ◌==◌,
}
use go_tahu_okf_semantic_mcp.Exec.{ok}
use go_tahu_okf_semantic_mcp.Go.Float.{Floats, Arithmetic}
use go_tahu_okf_semantic_mcp.Go.Map.{Map}
use go_tahu_okf_semantic_mcp.Domain.Types.{EmbeddingChunk}
use go_tahu_okf_semantic_mcp.UseCase.Reindex.{attach, embed_and_upsert}
use go_tahu_okf_semantic_mcp.Embedding.Bm25.{
  Bm25, zeros, build_vocab, ready, positive, sort_terms, numbered,
}
use go_tahu_okf_semantic_mcp.Embedding.Bm25.Scores.{embed}
use go_tahu_okf_semantic_mcp.Embedding.Bm25.Vocabulary.{ready-max_dims}
use go_tahu_okf_semantic_mcp.Embedding.Bm25.Vectors.{length-zeros, vectors_of-zero}
use go_tahu_okf_semantic_mcp.VectorStore.{Hnsw, HnswStore, is_zero_norm, upsert}
use go_tahu_okf_semantic_mcp.Command.State.{Platform, Process, embedder, vector_store, services}

-- An embedder to which Index was never applied.
pub record IsUnindexed {D : Type 0} (e : Bm25 D) : Type 0 where
  pub no_terms : e.df ≡ []
  pub no_places : e.dirty ≡ false → e.vocab_idx ≡ []

module _ {F D : Type 0} (fl : Floats F D) (ar : Arithmetic F D) where
  take-nil : (n : ℕ) (m : Map ℤ) → m ≡ [] → take n m ≡ []
  take-nil zero m h = refl
  take-nil (suc n) m h = rw h refl

  build_vocab-empty : (e : Bm25 D) → e.df ≡ [] → (build_vocab fl ar e).vocab_idx ≡ []
  unfolding build_vocab positive sort_terms numbered
  build_vocab-empty e h = rw (h, take-nil e.max_dims [] refl) refl

  choice-empty :
      (b : Bool) (e : Bm25 D)
      → e.df ≡ []
      → (b ≡ false → e.vocab_idx ≡ [])
      → (if b then build_vocab fl ar e else e).vocab_idx ≡ []
  choice-empty true e h k = build_vocab-empty e h
  choice-empty false e h k = k refl

  ready-empty : (e : Bm25 D) → IsUnindexed e → (ready fl ar e).vocab_idx ≡ []
  ready-empty e u = choice-empty e.dirty e u.no_terms u.no_places

  ready-df : (e : Bm25 D) → (ready fl ar e).df ≡ e.df
  unfolding build_vocab
  ready-df e = elim (Bool-cases e.dirty) [ inl d ↦ rw d refl | inr n ↦ rw n refl ]

  pub ready-IsUnindexed : (e : Bm25 D) → IsUnindexed e → IsUnindexed (ready fl ar e)
  ready-IsUnindexed e u = record {
    no_terms = ready-df e ∙ u.no_terms;
    no_places = λ n. ready-empty e u;
  }

module _ {G F D : Type 0} (fl : Floats F D) (lib : Hnsw G F) (z : F)
    (is : fl.is_zero z ≡ true) where
  zeros-is_zero_norm : (n : ℕ) → is_zero_norm fl (zeros z n) ≡ true
  unfolding is_zero_norm
  zeros-is_zero_norm zero = refl
  zeros-is_zero_norm (suc n) = rw (is, zeros-is_zero_norm n) refl

  abbrev pub with_zeros : ℕ → List (EmbeddingChunk F) → List (EmbeddingChunk F)
  with_zeros n cs = map (λ (c : EmbeddingChunk F). record c { embedding = zeros z n }) cs

  -- Chunks with zero vectors are passed over.
  pub upsert-with_zeros :
      (cs : List (EmbeddingChunk F)) (s : HnswStore G F) (n : ℕ)
      → s.dims ≡ n
      → 1 ≤ n
      → upsert fl lib (with_zeros n cs) s ≡ (ok tt, s)
  unfolding upsert
  upsert-with_zeros [] s n d h = refl
  upsert-with_zeros (c ∷ cs) s n d h =
      let some_dims : n == 0 ≡ false = ground arith in
      let same : n == s.dims ≡ true = ground (arith, d) in
      rw (length-zeros z n, some_dims, same, zeros-is_zero_norm n) (upsert-with_zeros cs s n d h)

  pub attach-with_zeros :
      (cs : List (EmbeddingChunk F)) (n : ℕ)
      → attach cs (map (λ (t : Bytes). zeros z n) (map (λ (c : EmbeddingChunk F). c.text) cs))
        ≡ ok (with_zeros n cs)
  unfolding attach
  attach-with_zeros [] n = refl
  attach-with_zeros (c ∷ cs) n = rw (attach-with_zeros cs n) refl

module _ {T G F D N : Type 0} (platform : Platform T G F D N) (path index_path : Bytes)
    (roots : Map Bytes) where
  -- As long as Index was never applied to the embedder, the embedding step of a reindex of whatever chunks succeeds and
  -- stores none of them, over a store of the dimension of the embedder: the store, the files and the dimension are as before, and Index is still not applied.
  -- `zero32` counts as zero.
  pub embed_and_upsert-IsUnindexed :
      (cs : List (EmbeddingChunk F)) (p : Process T G F D)
      → platform.floats.is_zero platform.arithmetic.zero32 ≡ true
      → IsUnindexed p.bm25
      → p.index.dims ≡ p.bm25.max_dims
      → 1 ≤ p.bm25.max_dims
      → (p' : Process T G F D) × (embed_and_upsert
            (services platform path index_path roots).bundle
            (embedder platform)
            (vector_store platform index_path)
            cs
            p
          ≡ (ok tt, p'))
        × (p'.index ≡ p.index)
        × (p'.files ≡ p.files)
        × (p'.bm25.max_dims ≡ p.bm25.max_dims)
        × IsUnindexed p'.bm25
  unfolding embed_and_upsert embed
  embed_and_upsert-IsUnindexed [] p is u d h = (p, refl, refl, refl, refl, u)
  embed_and_upsert-IsUnindexed (c ∷ cs) p is u d h =
      let fl = platform.floats in
      let ar = platform.arithmetic in
      let e = ready fl ar p.bm25 in
      let same = ready-max_dims fl ar p.bm25 in
      let texts = map (λ (x : EmbeddingChunk F). x.text) (c ∷ cs) in
      (
        record p { bm25 = e },
        rw
            (
              vectors_of-zero fl ar e texts (ready-empty fl ar p.bm25 u),
              attach-with_zeros fl platform.graph ar.zero32 is (c ∷ cs) e.max_dims,
              upsert-with_zeros fl platform.graph ar.zero32 is (c ∷ cs) p.index e.max_dims
                  (d ∙ sym same) (subst (λ n. 1 ≤ n) (sym same) h),
            )
            refl,
        refl,
        refl,
        same,
        ready-IsUnindexed fl ar p.bm25 u,
      )
