-- ===== src/VectorStore/Files/Reload.antt =====
-- Persist, and Load of what it wrote.
use go_tahu_okf_semantic_mcp.Prelude.{
  ◌≡◌, refl, ap, sym, ◌∙◌, subst, false, Bool-cases, inl, inr, Option, some, [], ◌∷◌, ◌++◌, List,
  Bytes, arith, length, length-append, ℕ, All, str_eq, str_eq_sound, ==_iff,
}
use go_tahu_okf_semantic_mcp.Exec.{Result, ok, then-ok}
use go_tahu_okf_semantic_mcp.Go.Float.{Floats}
use go_tahu_okf_semantic_mcp.Go.Map.{Map}
use go_tahu_okf_semantic_mcp.Domain.Types.{EmbeddingChunk}
use go_tahu_okf_semantic_mcp.VectorStore.{Hnsw, HnswStore}
use go_tahu_okf_semantic_mcp.VectorStore.Consistency.{IsEntry, IsConsistent}
use go_tahu_okf_semantic_mcp.VectorStore.Files.{
  IndexFiles, Decoders, meta_suffix, export_flushed, write_graph, write_meta, persist, first_sized,
  load,
}
use go_tahu_okf_semantic_mcp.VectorStore.Files.Replacement.{
  IsIndexDisk, IsFill, replace_index_file-content,
}

suffix-differs : (path : Bytes) → str_eq path (path ++ meta_suffix) ≡ false
suffix-differs path = elim (Bool-cases (str_eq path (path ++ meta_suffix))) [
  | inr n ↦ n
  | inl e ↦
      let longer = length-append path meta_suffix in
      let same = ap length (str_eq_sound path (path ++ meta_suffix) e) in
      absurd (omega (arith, longer, same))
]

suffix-differs_back : (path : Bytes) → str_eq (path ++ meta_suffix) path ≡ false
suffix-differs_back path = elim (Bool-cases (str_eq (path ++ meta_suffix) path)) [
  | inr n ↦ n
  | inl e ↦
      let longer = length-append path meta_suffix in
      let same = ap length (str_eq_sound (path ++ meta_suffix) path e) in
      absurd (omega (arith, longer, same))
]

module _ {T G F : Type 0} (files : IndexFiles T G F) (content : T → Bytes → Option Bytes)
    (graph_text : G → Bytes) (meta_text : Map (EmbeddingChunk F) → Bytes)
    (disk : IsIndexDisk files content graph_text meta_text) where
  export_flushed-IsFill :
      (g : G)
      → IsFill files content graph_text meta_text disk (export_flushed files g) (graph_text g)
  export_flushed-IsFill g = record {
    fills = λ t t' tmp h. disk.flushed t t' g tmp h;
    keeps = λ t t' tmp q n h.
        let (_, t₁, exported, flushed) = then-ok (files.export g tmp) (files.flush tmp) t t' tt h in
        ap (λ (m : Result (Unit {0}) × T). content m.1 q) (sym flushed)
        ∙ disk.flush_keeps t₁ tmp q n
        ∙ ap (λ (m : Result (Unit {0}) × T). content m.1 q) (sym exported)
        ∙ disk.export_keeps t g tmp q n;
  }

  encode-IsFill :
      (m : Map (EmbeddingChunk F))
      → IsFill files content graph_text meta_text disk (files.encode m) (meta_text m)
  encode-IsFill m = record {
    fills = λ t t' tmp h. disk.encoded t t' m tmp h;
    keeps = λ t t' tmp q n h.
        ap (λ (r : Result (Unit {0}) × T). content r.1 q) (sym h) ∙ disk.encode_keeps t m tmp q n;
  }

  -- A Persist that succeeds has written both files.
  persist-content :
      (path : Bytes) (s : HnswStore G F) (t t' : T)
      → persist files path s t ≡ (ok tt, t')
      → (content t' path ≡ some (graph_text s.graph))
        × (content t' (path ++ meta_suffix) ≡ some (meta_text s.chunks))
  unfolding persist
  persist-content path s t t' h =
      let (_, t₁, graph_written, meta_written) =
        then-ok (write_graph files path s) (write_meta files path s) t t' tt h in
      let (there, _) =
        replace_index_file-content files content graph_text meta_text disk path _
          (graph_text s.graph) (export_flushed files s.graph) t t₁ (export_flushed-IsFill s.graph)
          graph_written in
      let (meta, kept) =
        replace_index_file-content files content graph_text meta_text disk (path ++ meta_suffix) _
          (meta_text s.chunks) (files.encode s.chunks) t₁ t' (encode-IsFill s.chunks)
          meta_written in
      (kept path (graph_text s.graph) (suffix-differs_back path) there, meta)

  module _ {D : Type 0} (fl : Floats F D) (lib : Hnsw G F) (decoders : Decoders G F)
      (vector : G → Bytes → Option (List F)) (Encodable : Map (EmbeddingChunk F) → Type 0) where
    -- Import of an exported graph into a new one gives the vectors of that graph, and Decode of encoded
    -- chunks into an empty map gives those chunks.
    pub record IsDecoder : Type 0 where
      pub imports : (g g₀ : G) → (decoders.import (graph_text g) (lib.reset g₀)).0 ≡ ok tt
      pub vectors :
          (g g₀ : G) (k : Bytes)
          → vector (decoders.import (graph_text g) (lib.reset g₀)).1 k ≡ vector g k
      pub decodes :
          (m : Map (EmbeddingChunk F)) → Encodable m → decoders.decode (meta_text m) [] ≡ (ok tt, m)

    entries-sized :
        (dims : ℕ) (m : Map (EmbeddingChunk F))
        → All (IsEntry fl lib vector dims) m
        → first_sized files lib decoders dims m ≡ ok tt
    entries-sized dims [] h = refl
    entries-sized dims ((k, c) ∷ m) (e, h) = rw ((==_iff (length c.embedding) dims).1 e.sized) refl

    -- Over files that keep to IsIndexDisk and decoders that keep to IsDecoder: what a Persist that succeeds wrote of a
    -- store with its invariant and with chunks that can be encoded is read by the Load of a store of the same dimension, whatever that holds: it
    -- succeeds, with the chunks of the first store, its vectors and the invariant.
    pub load-persist :
        (path : Bytes) (s s₀ : HnswStore G F) (t t' : T)
        → IsDecoder
        → IsConsistent fl lib vector s
        → s₀.dims ≡ s.dims
        → Encodable s.chunks
        → persist files path s t ≡ (ok tt, t')
        → (s' : HnswStore G F) × (load files lib decoders path (s₀, t') ≡ (ok tt, (s', t')))
          × (s'.chunks ≡ s.chunks)
          × ((k : Bytes) → vector s'.graph k ≡ vector s.graph k)
          × IsConsistent fl lib vector s'
    unfolding load
    load-persist path s s₀ t t' laws inv same encodable h =
        let (graph, meta) = persist-content path s t t' h in
        let read = decoders.import (graph_text s.graph) (lib.reset s₀.graph) in
        let s' : HnswStore G F = record { graph = read.1; chunks = s.chunks; dims = s₀.dims } in
        (
          s',
          rw
              (
                disk.stat_of t' path (graph_text s.graph) graph,
                disk.open_of t' path (graph_text s.graph) graph,
                laws.imports s.graph s₀.graph,
                disk.open_of t' (path ++ meta_suffix) (meta_text s.chunks) meta,
                laws.decodes s.chunks encodable,
                same,
                entries-sized s.dims s.chunks inv.entries,
              )
              refl,
          refl,
          laws.vectors s.graph s₀.graph,
          record {
            entries = subst (λ d. All (IsEntry fl lib vector d) s.chunks) (sym same) inv.entries;
            agree = λ k. laws.vectors s.graph s₀.graph k ∙ inv.agree k;
          },
        )
