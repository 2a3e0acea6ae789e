-- ===== src/Domain/Fakes.antt =====
-- internal/domain/domaintest/fakes.go: implementations of the interfaces in memory. Each has a state of
-- its own, so that `S` is that state here. A fake holds a concept itself where the code holds a pointer to
-- it, and the mutexes are left out: a call is one step.
pub mod Contract
pub mod Listing
use go_tahu_okf_semantic_mcp.Prelude.{
  Option, none, some, ℕ, zero, suc, [], ◌∷◌, ◌++◌, List, map, if◌then◌else◌, Bytes,
}
use go_tahu_okf_semantic_mcp.Exec.{not_found, Result, ok, err}
use go_tahu_okf_semantic_mcp.Go.Strings.{is_empty, has_prefix, trim_prefix, has_part}
use go_tahu_okf_semantic_mcp.Go.Map.{Map, lookup, insert, remove}
use go_tahu_okf_semantic_mcp.Domain.Ref.{ConceptRef, ref_string}
use go_tahu_okf_semantic_mcp.Domain.Types.{Concept, BundleEntry, EmbeddingChunk}
use go_tahu_okf_semantic_mcp.Domain.Interfaces.{
  BundleRepository, NodeRepository, Embedder, VectorStore,
}

-- `v, ok := m[k]; if !ok { return ErrNotFound }`
abbrev pub found : {A : Type 0} → Option A → Result A
found none = err not_found
found (some a) = ok a

abbrev pub bundle_fake : BundleRepository (Map BundleEntry)
bundle_fake = record {
  get = λ alias t. (found (lookup alias t), t);
  put = λ entry t. (ok tt, insert entry.alias entry t);
  delete = λ alias t. (ok tt, remove alias t);
  list = λ t. (ok (map (λ (p : Bytes × BundleEntry). p.1) t), t);
}

pub record NodeMaps : Type 0 where
  pub concepts : Map Concept
  pub reserved : Map Bytes

-- `bundleAlias + ":" + relPath`
abbrev pub key : Bytes → Bytes → Bytes
key alias rel_path = alias ++ b':' ∷ rel_path

-- The loop of List: the references of the keys that begin with `alias + ":" + subPath`.
unfoldable pub refs_under : Bytes → Bytes → Map Concept → List ConceptRef
refs_under alias sub [] = []
refs_under alias sub ((k, c) ∷ m) =
    let rest = refs_under alias sub m in
    if has_prefix k (key alias sub)
    then record { bundle_alias = alias; relative_path = trim_prefix k (key alias []) } ∷ rest
    else rest

-- The loop of ListTypes.
unfoldable pub types_under : Bytes → Map Concept → Map Unit → Map Unit
types_under alias [] seen = seen
types_under alias ((k, c) ∷ m) seen =
    let with_type = types_under alias m (insert c.frontmatter.type tt seen) in
    let without = types_under alias m seen in
    if has_prefix k (key alias [])
    then (if is_empty c.frontmatter.type then without else with_type)
    else without

abbrev pub node_fake : NodeRepository NodeMaps
node_fake = record {
  get = λ ref t. (found (lookup (ref_string ref) t.concepts), t);
  put = λ ref c t. (ok tt, record t { concepts = insert (ref_string ref) c t.concepts });
  list = λ alias sub t. (ok (refs_under alias sub t.concepts), t);
  list_types =
      λ alias t. (ok (map (λ (p : Bytes × Unit {0}). p.0) (types_under alias t.concepts [])), t);
  read_reserved = λ alias p t. (found (lookup (key alias p) t.reserved), t);
  write_reserved =
      λ alias p text t. (ok tt, record t { reserved = insert (key alias p) text t.reserved });
}

module _ {F : Type 0} where
  abbrev pub zero_vector : F → ℕ → List F
  zero_vector x zero = []
  zero_vector x (suc n) = x ∷ zero_vector x n

  -- `zero32` is the zero of the floats.
  abbrev pub embedder_fake : {S : Type 0} → F → ℕ → Embedder S F
  embedder_fake zero32 dims = record {
    embed = λ texts t. (ok (map (λ _. zero_vector zero32 dims) texts), t);
    dims = dims;
  }

  -- The loop of Delete.
  unfoldable pub keep_others : List Bytes → List (EmbeddingChunk F) → List (EmbeddingChunk F)
  keep_others ids [] = []
  keep_others ids (c ∷ cs) =
      let rest = keep_others ids cs in if has_part ids c.id then rest else c ∷ rest

  abbrev pub vector_fake : VectorStore (List (EmbeddingChunk F)) F
  vector_fake = record {
    upsert = λ cs t. (ok tt, t ++ cs);
    search = λ query scope top_k t. (ok [], t);
    delete = λ ids t. (ok tt, keep_others ids t);
    persist = λ t. (ok tt, t);
    load = λ t. (ok tt, t);
  }
