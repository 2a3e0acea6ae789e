-- ===== src/Command/Built.antt =====
-- What buildServices leaves behind it, and what the reindex command does then.
use go_tahu_okf_semantic_mcp.Prelude.{
  ◌≡◌, refl, sym, ap, ◌∙◌, subst, Bool, true, false, some, pos, List, arith, Bytes, codes, str_eq,
  if◌then◌else◌,
}
use go_tahu_okf_semantic_mcp.Exec.{
  ok_injective, continue-ok, other, Result, ok, Exec, lift, pure, fail, bind-ok, then-ok, ◌>>=◌,
  ◌>>◌,
}
use go_tahu_okf_semantic_mcp.Go.Map.{lookup}
use go_tahu_okf_semantic_mcp.Domain.Types.{BundleEntry, EmbeddingChunk}
use go_tahu_okf_semantic_mcp.UseCase.Reindex.{reindex_bundle}
use go_tahu_okf_semantic_mcp.Mcp.Request.{Services}
use go_tahu_okf_semantic_mcp.Embedding.Bm25.{new_default}
use go_tahu_okf_semantic_mcp.Config.{Config}
use go_tahu_okf_semantic_mcp.VectorStore.{HnswStore}
use go_tahu_okf_semantic_mcp.VectorStore.Files.{new_store}
use go_tahu_okf_semantic_mcp.VectorStore.Files.Dims.{new_store-dims, load-dims}
use go_tahu_okf_semantic_mcp.Command.{build_services, index_path, roots_of}
use go_tahu_okf_semantic_mcp.Command.State.{
  with_embedder, with_index, bundle_repository, Platform, Process, vector_store, services,
}
use go_tahu_okf_semantic_mcp.Command.Unindexed.{IsUnindexed}
use go_tahu_okf_semantic_mcp.Command.Reindex.{IsStale, reindex_bundle-IsStale}

module _ {T G F D N : Type 0} (platform : Platform T G F D N) where
  -- A new embedder, and a store of its dimension.
  record IsFresh (p : Process T G F D) : Type 0 where
    unindexed : IsUnindexed p.bm25
    capacity : p.bm25.max_dims ≡ 4096
    sized : p.index.dims ≡ 4096

  IsFresh-IsStale :
      (zero : platform.floats.is_zero platform.arithmetic.zero32 ≡ true) (p : Process T G F D)
      → IsFresh p
      → IsStale platform zero p.index.chunks p
  IsFresh-IsStale zero p h = record {
    unindexed = h.unindexed;
    sized = h.sized ∙ sym h.capacity;
    positive = omega (arith, h.capacity);
    nothing_new = λ id c e. e;
  }

  new_default-IsUnindexed : IsUnindexed (new_default platform.floats platform.arithmetic)
  new_default-IsUnindexed = record { no_terms = refl; no_places = λ n. absurd (cc n) }

  loaded-IsFresh :
      (path : Bytes) (s : HnswStore G F) (t : T)
      → s.dims ≡ 4096
      → IsFresh
          ((vector_store platform path).load (record {
            bm25 = new_default platform.floats platform.arithmetic;
            index = s;
            files = t;
          })).1
  loaded-IsFresh path s t h = record {
    unindexed = new_default-IsUnindexed;
    capacity = refl;
    sized = load-dims platform.index_files platform.graph platform.decoders path (s, t) ∙ h;
  }

  -- Steps 4 and 5 of buildServices.
  abbrev modelled : Config → Exec (Process T G F D) (Unit {0})
  modelled cfg = do
    store ← lift (
        new_store platform.parametrized
          (pos (new_default platform.floats platform.arithmetic).max_dims) cfg.hnsw_ef_construction
          cfg.hnsw_m)
    with_embedder (new_default platform.floats platform.arithmetic)
    with_index store
    (vector_store platform (index_path cfg)).load

  modelled-IsFresh :
      (cfg : Config) (p p' : Process T G F D) → modelled cfg p ≡ (ok tt, p') → IsFresh p'
  modelled-IsFresh cfg p p' h =
      let made : Result (HnswStore G F) =
        new_store platform.parametrized (pos 4096) cfg.hnsw_ef_construction cfg.hnsw_m in
      let rest : HnswStore G F → Exec (Process T G F D) (Unit {0}) = λ store.
        with_embedder (new_default platform.floats platform.arithmetic)
        >> (with_index store >> (vector_store platform (index_path cfg)).load) in
      let (store, e, run) = continue-ok made rest p tt p' h in
      subst IsFresh (ap (λ (m : Result (Unit {0}) × Process T G F D). m.1) run) (
        loaded-IsFresh (index_path cfg) store p.files
          (new_store-dims platform.parametrized cfg.hnsw_ef_construction cfg.hnsw_m store e))

  chosen-IsFresh :
      (b : Bool) (cfg : Config) (p p' : Process T G F D)
      → (if b then modelled cfg else fail (other "embedding_model")) p ≡ (ok tt, p')
      → IsFresh p'
  chosen-IsFresh true cfg p p' h = modelled-IsFresh cfg p p' h
  chosen-IsFresh false cfg p p' h = absurd (cc h)

  -- What a success of buildServices went through.
  build_services-IsFresh :
      (cfg : Config) (p p' : Process T G F D) (svc : Services (Process T G F D) F)
      → build_services platform cfg p ≡ (ok svc, p')
      → IsFresh p'
        × ((bundles : List BundleEntry) × (svc
              ≡ services platform cfg.bundle_registry (index_path cfg) (roots_of bundles)))
  unfolding build_services
  build_services-IsFresh cfg p p' svc h =
      let (bundles, p₂, listed, h₂) =
        bind-ok (bundle_repository platform cfg.bundle_registry).list _ p p' svc h in
      let known = str_eq cfg.embedding_model (codes "bm25") in
      let choice : Exec (Process T G F D) (Unit {0}) =
        if known then modelled cfg else fail (other "embedding_model") in
      let wired = services platform cfg.bundle_registry (index_path cfg) (roots_of bundles) in
      let (u, p₃, ran, h₃) = then-ok choice (pure wired) p₂ p' svc h₂ in
      let same : p₃ ≡ p' =
        ap (λ (m : Result (Services (Process T G F D) F) × Process T G F D). m.1) h₃ in
      (
        subst IsFresh same (chosen-IsFresh known cfg p₂ p₃ ran),
        (
          bundles,
          sym (
              ok_injective wired svc
                (ap (λ (m : Result (Services (Process T G F D) F) × Process T G F D). m.0) h₃)),
        ),
      )

  -- After a buildServices that succeeds, a ReindexBundle of whatever bundle, whether it succeeds or fails, puts no chunk into
  -- the index: what is there afterwards was there before, under the same identifier. `zero32` counts as zero.
  pub reindex_bundle_adds_nothing :
      (cfg : Config) (p p' : Process T G F D) (svc : Services (Process T G F D) F)
      (alias id : Bytes) (c : EmbeddingChunk F)
      → platform.floats.is_zero platform.arithmetic.zero32 ≡ true
      → build_services platform cfg p ≡ (ok svc, p')
      → lookup id (reindex_bundle svc.bundle svc.embedder svc.vector_store alias p').1.index.chunks
        ≡ some c
      → lookup id p'.index.chunks ≡ some c
  reindex_bundle_adds_nothing cfg p p' svc alias id c zero built found =
      let (fresh, (bundles, wired)) = build_services-IsFresh cfg p p' svc built in
      let stale =
        reindex_bundle-IsStale platform zero p'.index.chunks cfg.bundle_registry (index_path cfg)
          (roots_of bundles) alias p' (IsFresh-IsStale zero p' fresh) in
      stale.nothing_new id c (
        subst
          (λ (s : Services (Process T G F D) F).
            lookup id (reindex_bundle s.bundle s.embedder s.vector_store alias p').1.index.chunks
            ≡ some c)
          wired found)
