-- ===== src/VectorStore/Contents.antt =====
-- What Upsert and Delete leave in the store, as a map from identifiers to chunks.
use go_tahu_okf_semantic_mcp.Prelude.{
  ◌≡◌, ◌≢◌, ◌↔◌, refl, not, ◌&&◌, Option, none, some, [], ◌∷◌, List, arith, length, All, Bytes,
  if◌then◌else◌, str_eq,
}
use go_tahu_okf_semantic_mcp.Exec.{ok}
use go_tahu_okf_semantic_mcp.Go.Strings.{has_part}
use go_tahu_okf_semantic_mcp.Go.Float.{Floats}
use go_tahu_okf_semantic_mcp.Go.Map.{Map, lookup, remove, lookup-insert, lookup-remove}
use go_tahu_okf_semantic_mcp.Domain.Types.{EmbeddingChunk}
use go_tahu_okf_semantic_mcp.VectorStore.{
  Hnsw, HnswStore, is_zero_norm, stored, upsert, delete, remove_all,
}

module _ {F D : Type 0} (fl : Floats F D) where
  -- The chunk of an identifier that a sequence of chunks stores: the last one that is not a zero
  -- vector, or else the old one.
  abbrev pub latest :
      Bytes → List (EmbeddingChunk F) → Option (EmbeddingChunk F) → Option (EmbeddingChunk F)
  latest k [] old = old
  latest k (c ∷ cs) old =
      latest k cs (if str_eq c.id k && not (is_zero_norm fl c.embedding) then some c else old)

module _ {G F D : Type 0} (fl : Floats F D) (lib : Hnsw G F) where
  -- Upsert succeeds exactly if every embedding has the dimension of the store and is not empty.
  pub upsert-succeeds_iff :
      (cs : List (EmbeddingChunk F)) (s : HnswStore G F)
      → ((upsert fl lib cs s).0 ≡ ok tt)
        ↔ All
            (λ (c : EmbeddingChunk F). (length c.embedding ≢ 0) × (length c.embedding ≡ s.dims))
            cs
  unfolding upsert
  upsert-succeeds_iff [] s = (λ _. tt, λ _. refl)
  upsert-succeeds_iff (c ∷ cs) s =
      ground (arith, upsert-succeeds_iff cs s, upsert-succeeds_iff cs (stored lib c s))

  -- After a successful Upsert each identifier has the last chunk given for it that is not a zero
  -- vector, and its old chunk if there is none.
  pub upsert-contents :
      (cs : List (EmbeddingChunk F)) (s : HnswStore G F) (k : Bytes)
      → (upsert fl lib cs s).0 ≡ ok tt
      → lookup k (upsert fl lib cs s).1.chunks ≡ latest fl k cs (lookup k s.chunks)
  unfolding upsert
  upsert-contents [] s k h = refl
  upsert-contents (c ∷ cs) s k h = ground (
    arith,
    upsert-contents cs s k,
    upsert-contents cs (stored lib c s) k,
    lookup-insert c.id k c s.chunks,
  )

lookup-remove_all :
    {V : Type 0} (ids : List Bytes) (k : Bytes) (m : Map (EmbeddingChunk V))
    → lookup k (remove_all ids m) ≡ (if has_part ids k then none else lookup k m)
unfolding remove_all has_part
lookup-remove_all [] k m = refl
lookup-remove_all (id ∷ ids) k m =
    rw (lookup-remove_all ids k (remove id m), lookup-remove) (ground arith)

module _ {G F D : Type 0} (fl : Floats F D) (lib : Hnsw G F) where
  -- Delete succeeds, and takes exactly the given identifiers out; unknown ones are ignored.
  pub delete-contents :
      (ids : List Bytes) (s : HnswStore G F) (k : Bytes)
      → ((delete fl lib ids s).0 ≡ ok tt)
        × (lookup k (delete fl lib ids s).1.chunks
            ≡ (if has_part ids k then none else lookup k s.chunks))
  unfolding delete
  delete-contents [] s k = (refl, unfold has_part in refl)
  delete-contents (id ∷ ids) s k = (refl, lookup-remove_all (id ∷ ids) k s.chunks)
