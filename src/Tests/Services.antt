-- ===== src/Tests/Services.antt =====
-- The theorems on the use cases and the handlers, at services over small states.
use go_tahu_okf_semantic_mcp.Prelude.{
  ◌≡◌, ◌≤◌, ◌<◌, ◌↔◌, refl, Option, none, some, ℕ, pos, [], ◌∷◌, List, map, codes, length, All,
  str_eq, false,
}
use go_tahu_okf_semantic_mcp.Exec.{not_found, panic, Result, ok, err}
use go_tahu_okf_semantic_mcp.Go.Map.{Map, lookup}
use go_tahu_okf_semantic_mcp.Domain.Scope.{Scope, global, parse_scope}
use go_tahu_okf_semantic_mcp.Domain.Types.{ScoredChunk}
use go_tahu_okf_semantic_mcp.Domain.Interfaces.{
  Embedder, VectorStore, NodeRepository, BundleRepository,
}
use go_tahu_okf_semantic_mcp.UseCase.Concept.{ConceptService}
use go_tahu_okf_semantic_mcp.UseCase.Bundle.{visit, BundleService}
use go_tahu_okf_semantic_mcp.UseCase.Reindex.{attach}
use go_tahu_okf_semantic_mcp.UseCase.Reindex.Embedding.{attach_iff}
use go_tahu_okf_semantic_mcp.UseCase.Search.{
  SearchService, semantic_search, keep_scored, rag_search,
}
use go_tahu_okf_semantic_mcp.UseCase.Search.Threshold.{Passes, IsThreshold, rag_search-IsThreshold}
use go_tahu_okf_semantic_mcp.VectorStore.{HnswStore, search}
use go_tahu_okf_semantic_mcp.VectorStore.Interface.{vector_store, vector_store-IsBounded}
use go_tahu_okf_semantic_mcp.Mcp.Validation.{validate_input_size}
use go_tahu_okf_semantic_mcp.Mcp.Request.{CallToolRequest, Payload, chunks, ToolResults, Services}
use go_tahu_okf_semantic_mcp.Mcp.Searches.{handle_search_rag}
use go_tahu_okf_semantic_mcp.Mcp.Limits.{handle_search_rag-bounded}
use go_tahu_okf_semantic_mcp.Tests.Store.{
  whole_floats, whole_floats-Asymmetric, listed, intro_chunk,
}

attach_iff_example : (attach (intro_chunk ∷ []) [] ≡ err panic) ↔ (0 < 1)
attach_iff_example = attach_iff (intro_chunk ∷ []) []

-- An embedder that gives every text the same vector.
abbrev pub same_vector : {S : Type 0} → Embedder S ℕ
same_vector = record { embed = λ texts t. (ok (map (λ x. 3 ∷ 5 ∷ []) texts), t); dims = 2 }

abbrev Vectors : Type 0
Vectors = HnswStore (Map (List ℕ)) ℕ

abbrev store : VectorStore Vectors ℕ
store = vector_store whole_floats listed (λ t. (ok tt, t)) (λ t. (ok tt, t))

abbrev searches : SearchService Vectors ℕ
searches = record { embedder = same_vector; keyword_embedder = none; vector_store = store }

abbrev one_chunk : Vectors
one_chunk = record {
  graph = (intro_chunk.id, intro_chunk.embedding) ∷ [];
  chunks = (intro_chunk.id, intro_chunk) ∷ [];
  dims = 2;
}

abbrev everywhere : Scope
everywhere = record { kind = global; bundle_alias = []; sub_path = [] }

rag_search-IsThreshold_example :
    IsThreshold whole_floats searches 50
      (rag_search whole_floats searches (codes "q") everywhere (pos 3) 50 one_chunk).0
      (semantic_search searches (codes "q") everywhere (pos 3) one_chunk).0
    × ((rag_search whole_floats searches (codes "q") everywhere (pos 3) 50 one_chunk).1
        ≡ (semantic_search searches (codes "q") everywhere (pos 3) one_chunk).1)
rag_search-IsThreshold_example =
    rag_search-IsThreshold whole_floats searches (codes "q") everywhere (pos 3) 50 one_chunk

-- A vector store and repositories that hold nothing.
abbrev pub no_vectors : {S : Type 0} → VectorStore S ℕ
no_vectors = record {
  upsert = λ cs t. (ok tt, t);
  search = λ v scope k t. (ok [], t);
  delete = λ ids t. (ok tt, t);
  persist = λ t. (ok tt, t);
  load = λ t. (ok tt, t);
}

abbrev pub no_nodes : {S : Type 0} → NodeRepository S
no_nodes = record {
  get = λ r t. (err not_found, t);
  put = λ r c t. (ok tt, t);
  list = λ a p t. (ok [], t);
  list_types = λ a t. (ok [], t);
  read_reserved = λ a p t. (err not_found, t);
  write_reserved = λ a p text t. (ok tt, t);
}

abbrev pub no_bundles : {S : Type 0} → BundleRepository S
no_bundles = record {
  get = λ a t. (err not_found, t);
  put = λ e t. (ok tt, t);
  delete = λ a t. (ok tt, t);
  list = λ t. (ok [], t);
}

abbrev pub bundle_service : {S : Type 0} → BundleRepository S → BundleService S
bundle_service bundles = record {
  bundle_repository = bundles;
  node_repository = no_nodes;
  disk = record {
    stat = λ p t. (ok tt, t);
    walk = λ p t. (ok (visit (codes "/srv/a.md") false ∷ []), t);
  };
  now = λ t. (ok 7, t);
}

abbrev pub concept_service : {S : Type 0} → NodeRepository S → ConceptService S
concept_service nodes = record {
  node_repository = nodes;
  now = λ t. (ok 7, t);
  format_time = λ n. codes "T";
}

-- Every argument is the reference, and every other setting is its default.
abbrev request : CallToolRequest ℕ
request = record {
  require_string = λ name. ok (codes "kb:docs/intro.md");
  get_string = λ name default. default;
  get_string_slice = λ name. [];
  get_int = λ name default. default;
  get_float = λ name default. default;
}

abbrev pub echo : ToolResults ℕ (Option (Payload ℕ))
echo = record { json = λ p. ok (some p); text = λ t. none }

abbrev search_services : Services Vectors ℕ
search_services = record {
  bundle = bundle_service no_bundles;
  concept = concept_service no_nodes;
  search = searches;
  embedder = same_vector;
  vector_store = store;
}

abbrev answer : Result (Option (Payload ℕ)) × Vectors
answer = handle_search_rag whole_floats echo search_services request one_chunk

abbrev shown_chunk : ScoredChunk ℕ
shown_chunk = record {
  source = codes "kb:docs/intro.md";
  chunk_index = 0;
  chunk_text = codes "hello";
  score = 100;
  frontmatter_summary = codes "note:Intro";
}

answer-found : answer ≡ (ok (some (chunks (shown_chunk ∷ []))), one_chunk)
unfolding handle_search_rag validate_input_size parse_scope str_eq rag_search semantic_search search
    keep_scored lookup
answer-found = refl

handle_search_rag-bounded_example :
    (cs : List (ScoredChunk ℕ)) × (echo.json (chunks cs) ≡ ok (some (chunks (shown_chunk ∷ []))))
    × (length cs ≤ 20)
    × All (Passes whole_floats 0) cs
handle_search_rag-bounded_example =
    handle_search_rag-bounded whole_floats echo search_services request
      (vector_store-IsBounded whole_floats listed (λ t. (ok tt, t)) (λ t. (ok tt, t))
        whole_floats-Asymmetric)
      one_chunk one_chunk (some (chunks (shown_chunk ∷ []))) answer-found
