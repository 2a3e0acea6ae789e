-- ===== src/VectorStore/Files.antt =====
-- New, Persist and Load of internal/adapter/vectorstore/hnsw.go. The locks are not modelled.
pub mod Replacement
pub mod Reload
pub mod Dims
use go_tahu_okf_semantic_mcp.Prelude.{
  Bool, true, false, not, Option, none, some, ℕ, zero, suc, [], ◌∷◌, ◌++◌, List, if◌then◌else◌,
  Bytes, codes, length, ◌==◌, ℤ, pos, negsuc, int_gt, natural,
}
use go_tahu_okf_semantic_mcp.Exec.{
  not_exist, other, Result, ok, err, Exec, pure, fail, lift, attempt, continue, ◌>>=◌, ◌>>◌,
}
use go_tahu_okf_semantic_mcp.Go.Path.{dir}
use go_tahu_okf_semantic_mcp.Go.Map.{Map}
use go_tahu_okf_semantic_mcp.Domain.Types.{EmbeddingChunk}
use go_tahu_okf_semantic_mcp.VectorStore.{Hnsw, HnswStore}

-- The calls on the files, with a temporary file known by its name: `export` and `flush` are Export of the
-- graph through a bufio.Writer, and `encode` is Encode of encoding/json.
pub record IndexFiles (T G F : Type 0) : Type 0 where
  pub stat : Bytes → Exec T (Unit {0})
  pub open_file : Bytes → Exec T Bytes
  pub create_temp : Bytes → Bytes → Exec T Bytes
  pub export : G → Bytes → Exec T (Unit {0})
  pub flush : Bytes → Exec T (Unit {0})
  pub encode : Map (EmbeddingChunk F) → Bytes → Exec T (Unit {0})
  pub close : Bytes → Exec T (Unit {0})
  pub rename : Bytes → Bytes → Exec T (Unit {0})
  pub remove : Bytes → Exec T (Unit {0})

-- Import of the graph and Decode of encoding/json, from the content of a file into what is there.
pub record Decoders (G F : Type 0) : Type 0 where
  pub import : Bytes → Exec G (Unit {0})
  pub decode : Bytes → Exec (Map (EmbeddingChunk F)) (Unit {0})

abbrev pub meta_suffix : Bytes
meta_suffix = codes ".meta"

-- New; `parametrized` is the new graph with M and EfSearch and the cosine distance.
module _ {G F : Type 0} (parametrized : ℤ → ℤ → G) where
  unfoldable pub new_store : ℤ → ℤ → ℤ → Result (HnswStore G F)
  new_store dims ef_construction m =
      if not (int_gt dims 0)
      then err (other "dims")
      else if not (int_gt ef_construction 0)
      then err (other "efConstruction")
      else if not (int_gt m 0)
      then err (other "m")
      else ok (record { graph = parametrized m ef_construction; chunks = []; dims = natural dims })

module _ {T G F : Type 0} (files : IndexFiles T G F) where
  -- The deferred function: Close, and Remove if the rename was not reached or failed.
  abbrev pub deferred : Bytes → Result (Unit {0}) → T → Result (Unit {0}) × T
  deferred tmp (ok u) t = (ok u, (files.close tmp t).1)
  deferred tmp (err e) t = (err e, (files.remove tmp (files.close tmp t).1).1)

  -- From the temporary file on: `fill` writes it.
  abbrev pub filled : Bytes → (Bytes → Exec T (Unit {0})) → Bytes → Exec T (Unit {0})
  filled path fill tmp t =
      let (r, t') = (fill tmp >> files.close tmp >> files.rename tmp path) t in deferred tmp r t'

  unfoldable pub replace_index_file :
      Bytes → Bytes → (Bytes → Exec T (Unit {0})) → Exec T (Unit {0})
  replace_index_file path pattern fill = do
    tmp ← files.create_temp (dir path) pattern
    filled path fill tmp

  abbrev pub export_flushed : G → Bytes → Exec T (Unit {0})
  export_flushed g tmp = files.export g tmp >> files.flush tmp

  unfoldable pub write_graph : Bytes → HnswStore G F → Exec T (Unit {0})
  unfolding replace_index_file
  write_graph path s = replace_index_file path (codes ".hnsw-graph-*.tmp") (export_flushed s.graph)

  unfoldable pub write_meta : Bytes → HnswStore G F → Exec T (Unit {0})
  unfolding replace_index_file
  write_meta path s =
      replace_index_file (path ++ meta_suffix) (codes ".hnsw-meta-*.tmp") (files.encode s.chunks)

  unfoldable pub persist : Bytes → HnswStore G F → Exec T (Unit {0})
  unfolding write_graph write_meta
  persist path s = write_graph path s >> write_meta path s

  module _ (lib : Hnsw G F) (decoders : Decoders G F) where
    abbrev pub with_graph :
        HnswStore G F → Result (Unit {0}) × G → T → Result (Unit {0}) × (HnswStore G F × T)
    with_graph s (r, g) t = (r, (record s { graph = g }, t))

    abbrev pub with_chunks :
        HnswStore G F
        → Result (Unit {0}) × Map (EmbeddingChunk F)
        → T
        → Result (Unit {0}) × (HnswStore G F × T)
    with_chunks s (r, m) t = (r, (record s { chunks = m }, t))

    abbrev pub imported : HnswStore G F → Result Bytes → T → Result (Unit {0}) × (HnswStore G F × T)
    imported s (ok text) t = with_graph s (decoders.import text s.graph) t
    imported s (err e) t = (err e, (s, t))

    unfoldable pub read_graph : Bytes → Exec (HnswStore G F × T) (Unit {0})
    read_graph path (s, t) = let (r, t') = files.open_file path t in imported s r t'

    abbrev pub decoded : HnswStore G F → Result Bytes → T → Result (Unit {0}) × (HnswStore G F × T)
    decoded s (ok text) t = with_chunks s (decoders.decode text s.chunks) t
    decoded s (err not_exist) t = (ok tt, (s, t))
    decoded s (err e) t = (err e, (s, t))

    unfoldable pub read_meta : Bytes → Exec (HnswStore G F × T) (Unit {0})
    read_meta path (s, t) = let (r, t') = files.open_file (path ++ meta_suffix) t in decoded s r t'

    abbrev pub first_sized : ℕ → Map (EmbeddingChunk F) → Result (Unit {0})
    first_sized dims [] = ok tt
    first_sized dims ((key, c) ∷ m) =
        if not (length c.embedding == dims) then err (other "persisted dims") else ok tt

    -- The check of the dimensions, of one chunk.
    unfoldable pub check_dims : Exec (HnswStore G F × T) (Unit {0})
    check_dims (s, t) = (first_sized s.dims s.chunks, (s, t))

    abbrev pub cleared : HnswStore G F → HnswStore G F
    cleared s = record s { graph = lib.reset s.graph; chunks = [] }

    abbrev pub loaded : Bytes → Result (Unit {0}) → Exec (HnswStore G F × T) (Unit {0})
    loaded path (ok u) (s, t) = (read_graph path >> read_meta path >> check_dims) (cleared s, t)
    loaded path (err not_exist) (s, t) = (ok tt, (s, t))
    loaded path (err e) (s, t) = (err e, (s, t))

    unfoldable pub load : Bytes → Exec (HnswStore G F × T) (Unit {0})
    unfolding read_graph read_meta check_dims
    load path (s, t) = let (r, t') = files.stat path t in loaded path r (s, t')
