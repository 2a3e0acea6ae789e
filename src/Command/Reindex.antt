-- ===== src/Command/Reindex.antt =====
-- What a run of ReindexBundle does to the index in the process that buildServices makes.
use go_tahu_okf_semantic_mcp.Prelude.{
  ◌≡◌, ◌≤◌, refl, sym, ap, ◌∙◌, subst, Bool, true, false, Option, none, some, [], ◌∷◌, ◌++◌, List,
  map, Bytes, if◌then◌else◌,
}
use go_tahu_okf_semantic_mcp.Exec.{Exec, ◌>>=◌, ◌>>◌}
use go_tahu_okf_semantic_mcp.Exec.Maintains.{Maintains, Maintains-bind, Maintains-then}
use go_tahu_okf_semantic_mcp.Go.Strings.{has_part}
use go_tahu_okf_semantic_mcp.Go.Map.{Map, lookup}
use go_tahu_okf_semantic_mcp.Domain.Ref.{ConceptRef}
use go_tahu_okf_semantic_mcp.Domain.Types.{Time, Concept, BundleEntry, EmbeddingChunk}
use go_tahu_okf_semantic_mcp.UseCase.Reindex.{
  stale_ids, collect_chunks, embed_and_upsert, reindex_bundle, make_chunk,
}
use go_tahu_okf_semantic_mcp.Mcp.Request.{Services}
use go_tahu_okf_semantic_mcp.VectorStore.{HnswStore, delete}
use go_tahu_okf_semantic_mcp.VectorStore.Contents.{delete-contents}
use go_tahu_okf_semantic_mcp.Command.State.{Platform, Process, embedder, services}
use go_tahu_okf_semantic_mcp.Command.Unindexed.{IsUnindexed, embed_and_upsert-IsUnindexed}

module _ {T G F D N : Type 0} (platform : Platform T G F D N)
    (zero : platform.floats.is_zero platform.arithmetic.zero32 ≡ true) where
  -- The embedder was never given a document, the store has its dimension, and every chunk of the store is one of the chunks
  -- `old`.
  pub record IsStale (old : Map (EmbeddingChunk F)) (p : Process T G F D) : Type 0 where
    pub unindexed : IsUnindexed p.bm25
    pub sized : p.index.dims ≡ p.bm25.max_dims
    pub positive : 1 ≤ p.bm25.max_dims
    pub nothing_new :
        (id : Bytes) (c : EmbeddingChunk F)
        → lookup id p.index.chunks ≡ some c
        → lookup id old ≡ some c

  module _ (old : Map (EmbeddingChunk F)) (path index_path : Bytes) (roots : Map Bytes) where
    abbrev svc : Services (Process T G F D) F
    svc = services platform path index_path roots

    files-IsStale :
        (p : Process T G F D) (t : T) → IsStale old p → IsStale old (record p { files = t })
    files-IsStale p t h = record {
      unindexed = h.unindexed;
      sized = h.sized;
      positive = h.positive;
      nothing_new = h.nothing_new;
    }

    get-IsStale : (ref : ConceptRef) → Maintains (IsStale old) (svc.bundle.node_repository.get ref)
    get-IsStale ref p h = files-IsStale p _ h

    collect_chunks-IsStale :
        (alias : Bytes) (refs : List ConceptRef) (out : List (EmbeddingChunk F))
        → Maintains
            (IsStale old)
            (collect_chunks svc.bundle (embedder platform) svc.vector_store alias refs out)
    unfolding collect_chunks
    collect_chunks-IsStale alias [] out p h = h
    collect_chunks-IsStale alias (ref ∷ refs) out p h =
        let rest : Concept → Exec (Process T G F D) (List (EmbeddingChunk F)) = λ c.
          collect_chunks svc.bundle (embedder platform) svc.vector_store alias refs
            (out ++ make_chunk alias ref c ∷ []) in
        Maintains-bind (IsStale old) (svc.bundle.node_repository.get ref) rest (get-IsStale ref)
          (λ c. collect_chunks-IsStale alias refs (out ++ make_chunk alias ref c ∷ [])) p h

    embed_and_upsert-IsStale :
        (cs : List (EmbeddingChunk F))
        → Maintains
            (IsStale old)
            (embed_and_upsert svc.bundle (embedder platform) svc.vector_store cs)
    embed_and_upsert-IsStale cs p h =
        let (p', run, index, files, dims, unindexed) =
          embed_and_upsert-IsUnindexed platform path index_path roots cs p zero h.unindexed h.sized
            h.positive in
        rw run (record {
          unindexed = unindexed;
          sized = ap (λ (s : HnswStore G F). s.dims) index ∙ h.sized ∙ sym dims;
          positive = subst (λ n. 1 ≤ n) (sym dims) h.positive;
          nothing_new = λ id c e.
              h.nothing_new id c (sym (ap (λ (s : HnswStore G F). lookup id s.chunks) index) ∙ e);
        })

    delete-dims :
        (ids : List Bytes) (s : HnswStore G F)
        → (delete platform.floats platform.graph ids s).1.dims ≡ s.dims
    unfolding delete
    delete-dims [] s = refl
    delete-dims (id ∷ ids) s = refl

    kept :
        (b : Bool) (o : Option (EmbeddingChunk F)) (c : EmbeddingChunk F)
        → (if b then none else o) ≡ some c
        → o ≡ some c
    kept true o c h = absurd (cc h)
    kept false o c h = h

    delete-IsStale : (ids : List Bytes) → Maintains (IsStale old) (svc.vector_store.delete ids)
    delete-IsStale ids p h = record {
      unindexed = h.unindexed;
      sized = delete-dims ids p.index ∙ h.sized;
      positive = h.positive;
      nothing_new = λ id c e. h.nothing_new id c (
          kept (has_part ids id) (lookup id p.index.chunks) c
            (sym (delete-contents platform.floats platform.graph ids p.index id).1 ∙ e));
    }

    -- Steps 5 and 6 of ReindexBundle.
    abbrev stamped : BundleEntry → List (EmbeddingChunk F) → Exec (Process T G F D) (Unit {0})
    stamped entry chunks = do
      t ← svc.bundle.now
      svc.bundle.bundle_repository.put (record entry {
        last_indexed_at = t;
        chunk_ids = map (λ (c : EmbeddingChunk F). c.id) chunks;
      })

    stamped-IsStale :
        (entry : BundleEntry) (chunks : List (EmbeddingChunk F))
        → Maintains (IsStale old) (stamped entry chunks)
    stamped-IsStale entry chunks =
        let put : Time → Exec (Process T G F D) (Unit {0}) = λ t.
          svc.bundle.bundle_repository.put (record entry {
            last_indexed_at = t;
            chunk_ids = map (λ (c : EmbeddingChunk F). c.id) chunks;
          }) in
        Maintains-bind (IsStale old) svc.bundle.now put (λ p h. files-IsStale p _ h)
          λ t p h. files-IsStale p _ h

    abbrev without_stale : BundleEntry → List (EmbeddingChunk F) → Exec (Process T G F D) (Unit {0})
    without_stale entry chunks =
        svc.vector_store.delete
          (stale_ids (map (λ (c : EmbeddingChunk F). c.id) chunks) entry.chunk_ids)
        >> stamped entry chunks

    abbrev embedded : BundleEntry → List (EmbeddingChunk F) → Exec (Process T G F D) (Unit {0})
    embedded entry chunks =
        embed_and_upsert svc.bundle (embedder platform) svc.vector_store chunks
        >> without_stale entry chunks

    embedded-IsStale :
        (entry : BundleEntry) (chunks : List (EmbeddingChunk F))
        → Maintains (IsStale old) (embedded entry chunks)
    embedded-IsStale entry chunks =
        let ids = stale_ids (map (λ (c : EmbeddingChunk F). c.id) chunks) entry.chunk_ids in
        Maintains-then (IsStale old)
          (embed_and_upsert svc.bundle (embedder platform) svc.vector_store chunks)
          (without_stale entry chunks) (embed_and_upsert-IsStale chunks)
          (Maintains-then (IsStale old) (svc.vector_store.delete ids) (stamped entry chunks)
            (delete-IsStale ids) (stamped-IsStale entry chunks))

    pub reindex_bundle-IsStale :
        (alias : Bytes)
        → Maintains
            (IsStale old)
            (reindex_bundle svc.bundle (embedder platform) svc.vector_store alias)
    unfolding reindex_bundle
    reindex_bundle-IsStale alias =
        let collected : List ConceptRef → Exec (Process T G F D) (List (EmbeddingChunk F)) =
          λ refs. collect_chunks svc.bundle (embedder platform) svc.vector_store alias refs [] in
        let listed : BundleEntry → Exec (Process T G F D) (Unit {0}) = λ entry.
          svc.bundle.node_repository.list alias [] >>= λ refs. collected refs >>= embedded entry in
        Maintains-bind (IsStale old) (svc.bundle.bundle_repository.get alias) listed
          (λ p h. files-IsStale p _ h)
          λ entry.
            Maintains-bind (IsStale old) (svc.bundle.node_repository.list alias [])
              (λ refs. collected refs >>= embedded entry) (λ p h. files-IsStale p _ h)
              λ refs.
                Maintains-bind (IsStale old) (collected refs) (embedded entry)
                  (collect_chunks-IsStale alias refs []) (embedded-IsStale entry)
