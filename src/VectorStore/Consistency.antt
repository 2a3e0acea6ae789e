-- ===== src/VectorStore/Consistency.antt =====
-- The invariant of the store: the graph holds exactly the vectors of the stored chunks.
use mathlib.Core.Option
use go_tahu_okf_semantic_mcp.Prelude.{
  ◌≡◌, refl, false, Option, none, some, [], ◌∷◌, List, arith, Bool-cases, inl, inr, length, All,
  Bytes, if◌then◌else◌, str_eq, ◌==◌, ==_iff, ℕ,
}
use go_tahu_okf_semantic_mcp.Go.Float.{Floats}
use go_tahu_okf_semantic_mcp.Go.Map.{
  Map, lookup, insert, remove, lookup-insert, All-insert, All-remove,
}
use go_tahu_okf_semantic_mcp.Domain.Types.{EmbeddingChunk}
use go_tahu_okf_semantic_mcp.VectorStore.{
  Hnsw, HnswStore, is_zero_norm, upsert, delete, rebuild, remove_all,
}

-- What the store relies on of the graph: `vector g k` is the vector under the key `k`, a new graph
-- has none, and adding a node replaces the vector of its key and no other.
pub record IsGraph {G F : Type 0} (lib : Hnsw G F) (vector : G → Bytes → Option (List F))
    : Type 0 where
  pub vector_reset : (g : G) (k : Bytes) → vector (lib.reset g) k ≡ none
  pub vector_add :
      (g : G) (j k : Bytes) (v : List F)
      → vector (lib.add j v g) k ≡ (if str_eq j k then some v else vector g k)

module _ {G F D : Type 0} (fl : Floats F D) (lib : Hnsw G F)
    (vector : G → Bytes → Option (List F)) where
  -- An entry of the map: under its own identifier, of the right dimension, and not a zero vector.
  pub record IsEntry (dims : ℕ) (e : Bytes × EmbeddingChunk F) : Type 0 where
    pub own_id : e.1.id ≡ e.0
    pub sized : length e.1.embedding ≡ dims
    pub nonzero : is_zero_norm fl e.1.embedding ≡ false

  abbrev pub embedding_at : Map (EmbeddingChunk F) → Bytes → Option (List F)
  embedding_at m k = Option.map (λ (c : EmbeddingChunk F). c.embedding) (lookup k m)

  pub record IsConsistent (s : HnswStore G F) : Type 0 where
    pub entries : All (IsEntry s.dims) s.chunks
    pub agree : (k : Bytes) → vector s.graph k ≡ embedding_at s.chunks k

  module _ (graph : IsGraph lib vector) where
    insert-agree :
        (s : HnswStore G F) (c : EmbeddingChunk F) (k : Bytes)
        → vector s.graph k ≡ embedding_at s.chunks k
        → vector (lib.add c.id c.embedding s.graph) k ≡ embedding_at (insert c.id c s.chunks) k
    insert-agree s c k h = rw (graph.vector_add, lookup-insert) (ground (arith, h))

    -- Over a graph that keeps to IsGraph, Upsert keeps the invariant, whether it succeeds or stops at an error.
    pub upsert-IsConsistent :
        (cs : List (EmbeddingChunk F)) (s : HnswStore G F)
        → IsConsistent s
        → IsConsistent (upsert fl lib cs s).1
    unfolding upsert
    upsert-IsConsistent [] s h = h
    upsert-IsConsistent (c ∷ cs) s h = elim (Bool-cases (length c.embedding == 0)) [
      | inl e ↦ rw e h
      | inr n ↦ elim (Bool-cases (length c.embedding == s.dims)) [
        | inr m ↦ rw (n, m) h
        | inl d ↦ elim (Bool-cases (is_zero_norm fl c.embedding)) [
          | inl z ↦ rw (n, d, z) (upsert-IsConsistent cs s h)
          | inr v ↦
              rw (n, d, v)
                (upsert-IsConsistent cs _ (record {
                  entries =
                      All-insert (IsEntry s.dims) c.id c s.chunks
                        (record { own_id = refl; sized = (==_iff _ _).0 d; nonzero = v }) h.entries;
                  agree = λ k. insert-agree s c k (h.agree k);
                }))
        ]
      ]
    ]

    rebuild-agree :
        (n : ℕ) (m : Map (EmbeddingChunk F)) (g : G) (k : Bytes)
        → All (IsEntry n) m
        → vector (rebuild fl lib m (lib.reset g)) k ≡ embedding_at m k
    unfolding rebuild lookup
    rebuild-agree n [] g k h = graph.vector_reset g k
    rebuild-agree n ((j, c) ∷ m) g k (e, h) =
        rw (e.nonzero, graph.vector_add, e.own_id) (ground (arith, rebuild-agree n m g k h))

    remove_all-entries :
        (n : ℕ) (ids : List Bytes) (m : Map (EmbeddingChunk F))
        → All (IsEntry n) m
        → All (IsEntry n) (remove_all ids m)
    unfolding remove_all
    remove_all-entries n [] m h = h
    remove_all-entries n (id ∷ ids) m h =
        remove_all-entries n ids (remove id m) (All-remove (IsEntry n) id m h)

    -- Over a graph that keeps to IsGraph, Delete keeps the invariant: the rebuilt graph holds the vectors of the survivors.
    pub delete-IsConsistent :
        (ids : List Bytes) (s : HnswStore G F)
        → IsConsistent s
        → IsConsistent (delete fl lib ids s).1
    unfolding delete
    delete-IsConsistent [] s h = h
    delete-IsConsistent (id ∷ ids) s h = record {
      entries = remove_all-entries s.dims (id ∷ ids) s.chunks h.entries;
      agree = λ k.
          rebuild-agree s.dims _ s.graph k
            (remove_all-entries s.dims (id ∷ ids) s.chunks h.entries);
    }
