-- ===== src/VectorStore.antt =====
-- HNSWStore of internal/adapter/vectorstore/hnsw.go.
pub mod Order
pub mod Matching
pub mod Consistency
pub mod Results
pub mod Contents
pub mod Interface
pub mod Files
use go_tahu_okf_semantic_mcp.Prelude.{
  Bool, true, false, ◌&&◌, ◌||◌, not, ◌≡◌, Option, none, some, ℕ, zero, suc, ◌<◌, [], ◌∷◌, ◌++◌,
  List, map, if◌then◌else◌, Bytes, codes, str_eq, length, take, ℤ, pos, negsuc, int_mul, ltb, ◌==◌,
  foldl,
}
use go_tahu_okf_semantic_mcp.Exec.{Error, other, Result, ok, err, Exec, pure, fail}
use go_tahu_okf_semantic_mcp.Go.Strings.{has_prefix}
use go_tahu_okf_semantic_mcp.Go.Path.{slash}
use go_tahu_okf_semantic_mcp.Go.Float.{Floats}
use go_tahu_okf_semantic_mcp.Go.Map.{Map, lookup, insert, remove}
use go_tahu_okf_semantic_mcp.Domain.Scope.{ScopeKind, global, bundle, path, Scope}
use go_tahu_okf_semantic_mcp.Domain.Types.{EmbeddingChunk, ScoredChunk}

-- The graph of github.com/coder/hnsw, with the parameters M, EfSearch and Distance in it. `reset`
-- is a new graph with the parameters of the given one.
pub record Hnsw (G F : Type 0) : Type 0 where
  pub reset : G → G
  pub add : Bytes → List F → G → G
  pub len : G → ℕ
  pub search : G → List F → ℤ → List (Bytes × List F)
  pub distance : List F → List F → F

pub record HnswStore (G F : Type 0) : Type 0 where
  pub graph : G
  pub chunks : Map (EmbeddingChunk F)
  pub dims : ℕ

abbrev oversample_factor : ℕ
oversample_factor = 20

-- chunkMatchesScope; the default case is that of no kind.
abbrev matches_kind : ScopeKind → Bytes → Bytes → Bytes → Bytes → Bool
matches_kind global alias sub a p = true
matches_kind bundle alias sub a p = str_eq a alias
matches_kind path alias sub a p =
    str_eq a alias && (str_eq p sub || has_prefix p (sub ++ slash ∷ []))

-- How many nodes Search asks the graph for, for a positive `topK`.
abbrev fetch_count : ScopeKind → ℕ → ℤ
fetch_count global top_k = pos top_k
fetch_count _ top_k = int_mul top_k oversample_factor

module _ {F : Type 0} where
  unfoldable pub chunk_matches_scope : EmbeddingChunk F → Scope → Bool
  chunk_matches_scope c scope =
      matches_kind scope.kind scope.bundle_alias scope.sub_path c.bundle_alias c.concept_path

  unfoldable pub remove_all : List Bytes → Map (EmbeddingChunk F) → Map (EmbeddingChunk F)
  remove_all [] m = m
  remove_all (id ∷ ids) m = remove_all ids (remove id m)

  -- The entry of a result: the fields of the chunk that it shows, and its score.
  unfoldable pub scored : EmbeddingChunk F × F → ScoredChunk F
  scored (c, score) = record {
    source = c.bundle_alias ++ b':' ∷ c.concept_path;
    chunk_index = c.chunk_index;
    chunk_text = c.text;
    score = score;
    frontmatter_summary = c.frontmatter_summary;
  }

module _ {F D : Type 0} (fl : Floats F D) where
  unfoldable pub is_zero_norm : List F → Bool
  is_zero_norm [] = true
  is_zero_norm (x ∷ v) = fl.is_zero x && is_zero_norm v

  -- sort.SliceStable by descending score: a candidate goes in front of the first later one whose
  -- score is not greater.
  unfoldable pub place :
      EmbeddingChunk F × F → List (EmbeddingChunk F × F) → List (EmbeddingChunk F × F)
  place c [] = c ∷ []
  place c (d ∷ ds) = let rest = place c ds in if fl.gt d.1 c.1 then d ∷ rest else c ∷ d ∷ ds

  unfoldable pub sort_stable : List (EmbeddingChunk F × F) → List (EmbeddingChunk F × F)
  unfolding place
  sort_stable [] = []
  sort_stable (c ∷ cs) = place c (sort_stable cs)

module _ {G F : Type 0} (lib : Hnsw G F) where
  -- The node is added to the graph, and the chunk to the map.
  abbrev pub stored : EmbeddingChunk F → HnswStore G F → HnswStore G F
  stored c s = record s {
    graph = lib.add c.id c.embedding s.graph;
    chunks = insert c.id c s.chunks;
  }

module _ {G F D : Type 0} (fl : Floats F D) (lib : Hnsw G F) where
  -- The loop of Upsert: what was inserted before an error stays.
  unfoldable pub upsert : List (EmbeddingChunk F) → Exec (HnswStore G F) (Unit {0})
  unfolding is_zero_norm
  upsert [] s = (ok tt, s)
  upsert (c ∷ cs) s =
      let skip = upsert cs s in
      let go_on = upsert cs (stored lib c s) in
      if length c.embedding == 0
      then (err (other "empty embedding"), s)
      else if not (length c.embedding == s.dims)
      then (err (other "wrong dimensions"), s)
      else if is_zero_norm fl c.embedding
      then skip
      else go_on

  abbrev kept :
      Option (EmbeddingChunk F × F) → List (EmbeddingChunk F × F) → List (EmbeddingChunk F × F)
  kept none cs = cs
  kept (some c) cs = c ∷ cs

  -- One round of the loop over the nodes that the graph found: `none` is `continue`.
  unfoldable pub candidate :
      HnswStore G F → List F → Scope → Bytes → List F → Option (EmbeddingChunk F × F)
  candidate s query scope key value = elim (lookup key s.chunks) [
    | none ↦ none
    | some c ↦
        let score = fl.one_minus (lib.distance query value) in
        if not (chunk_matches_scope c scope)
        then none
        else if fl.is_nan score
        then none
        else some (c, score)
  ]

  unfoldable pub candidates :
      HnswStore G F → List F → Scope → List (Bytes × List F) → List (EmbeddingChunk F × F)
  candidates s query scope [] = []
  candidates s query scope ((key, value) ∷ nodes) =
      kept (candidate s query scope key value) (candidates s query scope nodes)

  abbrev found_nodes : HnswStore G F → List F → Scope → ℕ → List (Bytes × List F)
  found_nodes s query scope k = lib.search s.graph query (fetch_count scope.kind k)

  -- The best of the candidates that the graph found.
  abbrev ranked : HnswStore G F → List F → Scope → ℕ → List (ScoredChunk F)
  ranked s query scope k =
      map scored (take k (sort_stable fl (candidates s query scope (found_nodes s query scope k))))

  abbrev search_pos : HnswStore G F → List F → Scope → ℕ → List (ScoredChunk F)
  search_pos s query scope zero = []
  search_pos s query scope (suc k) =
      if lib.len s.graph == 0 then [] else ranked s query scope (suc k)

  unfoldable pub search : List F → Scope → ℤ → Exec (HnswStore G F) (List (ScoredChunk F))
  unfolding sort_stable candidates candidate scored chunk_matches_scope
  search query scope (pos k) s = (ok (search_pos s query scope k), s)
  search query scope (negsuc k) s = (ok [], s)

  -- The graph built anew from the surviving chunks.
  unfoldable pub rebuild : Map (EmbeddingChunk F) → G → G
  unfolding is_zero_norm
  rebuild [] g = g
  rebuild ((key, c) ∷ m) g =
      let rest = rebuild m g in
      if is_zero_norm fl c.embedding then rest else lib.add c.id c.embedding rest

  unfoldable pub delete : List Bytes → Exec (HnswStore G F) (Unit {0})
  unfolding remove_all rebuild
  delete [] s = (ok tt, s)
  delete (id ∷ ids) s =
      let rest = remove_all (id ∷ ids) s.chunks in
      (ok tt, record s { chunks = rest; graph = rebuild rest (lib.reset s.graph) })
