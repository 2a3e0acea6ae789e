-- ===== src/UseCase/Reindex/Embedding.antt =====
-- The steps of ReindexBundle that pair chunks with embeddings and find the stale identifiers.
use go_tahu_okf_semantic_mcp.Prelude.{
  ◌≡◌, ◌<◌, ◌↔◌, refl, ap, sym, take, ◌&&◌, not, [], ◌∷◌, List, map, arith, Bytes, length,
  str_eq_iff,
}
use go_tahu_okf_semantic_mcp.Exec.{panic, Result, ok, err, ok_injective}
use go_tahu_okf_semantic_mcp.Go.Strings.{has_part}
use go_tahu_okf_semantic_mcp.Domain.Types.{EmbeddingChunk}
use go_tahu_okf_semantic_mcp.UseCase.Reindex.{stale_ids, attached, attach}

-- An identifier is stale exactly if the old index has it and the new one has not.
stale_ids_lem :
    (new old : List Bytes) (id : Bytes)
    → has_part (stale_ids new old) id ≡ (has_part old id && not (has_part new id))
unfolding stale_ids has_part
stale_ids_lem new [] id = refl
stale_ids_lem new (x ∷ old) id = ground (arith, str_eq_iff x id, stale_ids_lem new old id)

module _ {F : Type 0} where
  abbrev pub vectors : List (EmbeddingChunk F) → List (List F)
  vectors = map (λ (c : EmbeddingChunk F). c.embedding)

  abbrev pub ids : List (EmbeddingChunk F) → List Bytes
  ids = map (λ (c : EmbeddingChunk F). c.id)

  attached_iff :
      (d : EmbeddingChunk F) (r : Result (List (EmbeddingChunk F)))
      → (attached d r ≡ err panic) ↔ (r ≡ err panic)
  attached_iff d (ok ds) = (λ h. absurd (cc h), λ h. absurd (cc h))
  attached_iff d (err x) = (λ h. cc h, λ h. cc h)

  -- The loop over the chunks panics exactly if the embedder returned fewer vectors than chunks.
  pub attach_iff :
      (cs : List (EmbeddingChunk F)) (es : List (List F))
      → (attach cs es ≡ err panic) ↔ (length es < length cs)
  unfolding attach
  attach_iff [] es = (λ h. absurd (cc h), λ h. absurd (omega (arith, h)))
  attach_iff (c ∷ cs) [] = (λ _. omega arith, λ _. refl)
  attach_iff (c ∷ cs) (e ∷ es) =
      let step = attached_iff (record c { embedding = e }) (attach cs es) in
      (
        λ h. let less = (attach_iff cs es).0 (step.0 h) in omega (arith, less),
        λ h. step.1 ((attach_iff cs es).1 (omega (arith, h))),
      )

  attached-ok :
      (d : EmbeddingChunk F) (r : Result (List (EmbeddingChunk F))) (ds : List (EmbeddingChunk F))
      → attached d r ≡ ok ds
      → (fs : List (EmbeddingChunk F)) × (r ≡ ok fs) × (ds ≡ d ∷ fs)
  attached-ok d (ok fs) ds h = (fs, refl, sym (ok_injective (d ∷ fs) ds h))
  attached-ok d (err x) ds h = absurd (cc h)

  -- Otherwise each chunk keeps its identifier and has the vector of its place.
  attach-ok :
      (cs : List (EmbeddingChunk F)) (es : List (List F)) (ds : List (EmbeddingChunk F))
      → attach cs es ≡ ok ds
      → (ids ds ≡ ids cs) × (vectors ds ≡ take (length cs) es)
  unfolding attach
  attach-ok [] es ds h = let same : ds ≡ [] = cc h in rw same (refl, refl)
  attach-ok (c ∷ cs) [] ds h = absurd (cc h)
  attach-ok (c ∷ cs) (e ∷ es) ds h =
      let (fs, made, same) = attached-ok (record c { embedding = e }) (attach cs es) ds h in
      let (x, y) = attach-ok cs es fs made in rw same (ap (λ l. c.id ∷ l) x, ap (λ l. e ∷ l) y)
