-- ===== src/UseCase/Reindex.antt =====
-- ReindexBundle of internal/usecase/bundle.go.
pub mod Embedding
use go_tahu_okf_semantic_mcp.Prelude.{[], ◌∷◌, ◌++◌, List, map, if◌then◌else◌, Bytes, codes}
use go_tahu_okf_semantic_mcp.Exec.{panic, Result, ok, err, Exec, pure, lift, ◌>>=◌, ◌>>◌}
use go_tahu_okf_semantic_mcp.Go.Strings.{has_part}
use go_tahu_okf_semantic_mcp.Domain.Ref.{ConceptRef}
use go_tahu_okf_semantic_mcp.Domain.Types.{Concept, EmbeddingChunk}
use go_tahu_okf_semantic_mcp.Domain.Interfaces.{Embedder, VectorStore}
use go_tahu_okf_semantic_mcp.UseCase.Bundle.{BundleService}

-- Step 5: the identifiers of the old index that are not among the new ones.
unfoldable pub stale_ids : List Bytes → List Bytes → List Bytes
stale_ids new [] = []
stale_ids new (id ∷ ids) =
    let rest = stale_ids new ids in if has_part new id then rest else id ∷ rest

-- Step 3: "alias:path:0"
unfoldable pub chunk_id : Bytes → ConceptRef → Bytes
chunk_id alias ref = alias ++ b':' ∷ ref.relative_path ++ codes ":0"

module _ {F : Type 0} where
  -- Step 3: the chunk of a concept, with no embedding yet.
  unfoldable pub make_chunk : Bytes → ConceptRef → Concept → EmbeddingChunk F
  unfolding chunk_id
  make_chunk alias ref concept = record {
    id = chunk_id alias ref;
    bundle_alias = alias;
    concept_path = ref.relative_path;
    chunk_index = 0;
    text = concept.body;
    embedding = [];
    frontmatter_summary = concept.frontmatter.type ++ b':' ∷ concept.frontmatter.title;
  }

  abbrev attached :
      EmbeddingChunk F → Result (List (EmbeddingChunk F)) → Result (List (EmbeddingChunk F))
  attached d (ok ds) = ok (d ∷ ds)
  attached d (err x) = err x

  -- Step 4: `chunks[i].Embedding = embeddings[i]`, which panics where there are too few.
  unfoldable pub attach : List (EmbeddingChunk F) → List (List F) → Result (List (EmbeddingChunk F))
  attach [] es = ok []
  attach (c ∷ cs) [] = err panic
  attach (c ∷ cs) (e ∷ es) = attached (record c { embedding = e }) (attach cs es)

module _ {S F : Type 0} (s : BundleService S) (embedder : Embedder S F)
    (store : VectorStore S F) where
  -- Step 3: the chunks of all concepts, in the order of the listing.
  unfoldable pub collect_chunks :
      Bytes → List ConceptRef → List (EmbeddingChunk F) → Exec S (List (EmbeddingChunk F))
  unfolding make_chunk
  collect_chunks alias [] out = pure out
  collect_chunks alias (ref ∷ refs) out = do
    concept ← s.node_repository.get ref
    collect_chunks alias refs (out ++ make_chunk alias ref concept ∷ [])

  -- Step 4: nothing is embedded where there is no concept.
  unfoldable pub embed_and_upsert : List (EmbeddingChunk F) → Exec S (Unit {0})
  unfolding attach
  embed_and_upsert [] = pure tt
  embed_and_upsert (c ∷ cs) = do
    embeddings ← embedder.embed (map (λ (d : EmbeddingChunk F). d.text) (c ∷ cs))
    chunks ← lift (attach (c ∷ cs) embeddings)
    store.upsert chunks

  unfoldable pub reindex_bundle : Bytes → Exec S (Unit {0})
  unfolding collect_chunks embed_and_upsert stale_ids
  reindex_bundle alias = do
    entry ← s.bundle_repository.get alias
    refs ← s.node_repository.list alias []
    chunks ← collect_chunks alias refs []
    embed_and_upsert chunks
    store.delete (stale_ids (map (λ (c : EmbeddingChunk F). c.id) chunks) entry.chunk_ids)
    t ← s.now
    s.bundle_repository.put (record entry {
      last_indexed_at = t;
      chunk_ids = map (λ (c : EmbeddingChunk F). c.id) chunks;
    })
