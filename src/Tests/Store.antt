-- ===== src/Tests/Store.antt =====
-- The theorems on the vector store at a graph of association lists and whole numbers for floats.
use go_tahu_okf_semantic_mcp.Prelude.{
  ◌≡◌, ◌≢◌, ◌↔◌, refl, true, false, Option, ℕ, ◌-◌, ◌+◌, ltb, leb, ◌==◌, [], ◌∷◌, List, Bytes,
  codes, length, take, ℤ, pos, negsuc, arith, All,
}
use go_tahu_okf_semantic_mcp.Exec.{ok}
use go_tahu_okf_semantic_mcp.Go.Float.{Floats}
use go_tahu_okf_semantic_mcp.Go.Map.{Map, lookup, insert, lookup-insert}
use go_tahu_okf_semantic_mcp.Domain.Scope.{Scope, path}
use go_tahu_okf_semantic_mcp.Domain.Types.{EmbeddingChunk, ScoredChunk}
use go_tahu_okf_semantic_mcp.VectorStore.{
  Hnsw, HnswStore, chunk_matches_scope, is_zero_norm, upsert, delete, search,
}
use go_tahu_okf_semantic_mcp.VectorStore.Matching.{InScope, chunk_matches_scope_iff}
use go_tahu_okf_semantic_mcp.VectorStore.Order.{Asymmetric}
use go_tahu_okf_semantic_mcp.VectorStore.Consistency.{
  IsGraph, IsConsistent, upsert-IsConsistent, delete-IsConsistent,
}
use go_tahu_okf_semantic_mcp.VectorStore.Contents.{latest, upsert-succeeds_iff, upsert-contents}
use go_tahu_okf_semantic_mcp.VectorStore.Results.{IsAnswer, search-IsAnswer}

abbrev pub whole_floats : Floats ℕ ℕ
whole_floats = record {
  ge = λ x y. leb y x;
  gt = λ x y. ltb y x;
  is_zero = λ x. x == 0;
  is_nan = λ x. false;
  one_minus = λ x. 100 - x;
  to_float32 = λ x. x;
  zero64 = 0;
}

pub whole_floats-Asymmetric : Asymmetric whole_floats
whole_floats-Asymmetric x y h = ground arith

abbrev taken : ℤ → List (Bytes × List ℕ) → List (Bytes × List ℕ)
taken (pos k) ns = take k ns
taken (negsuc k) ns = []

abbrev first_gap : List ℕ → List ℕ → ℕ
first_gap [] ys = 0
first_gap (x ∷ xs) [] = 0
first_gap (x ∷ xs) (y ∷ ys) = (x - y) + (y - x)

-- A graph that finds its first nodes.
abbrev pub listed : Hnsw (Map (List ℕ)) ℕ
listed = record {
  reset = λ g. [];
  add = insert;
  len = length;
  search = λ g query k. taken k g;
  distance = first_gap;
}

abbrev vector_in : Map (List ℕ) → Bytes → Option (List ℕ)
vector_in g k = lookup k g

listed-IsGraph : IsGraph listed vector_in
unfolding lookup
listed-IsGraph = record {
  vector_reset = λ g k. refl;
  vector_add = λ g j k v. lookup-insert j k v g;
}

abbrev pub intro_chunk : EmbeddingChunk ℕ
intro_chunk = record {
  id = codes "kb:docs/intro.md:0";
  bundle_alias = codes "kb";
  concept_path = codes "docs/intro.md";
  chunk_index = 0;
  text = codes "hello";
  embedding = 3 ∷ 4 ∷ [];
  frontmatter_summary = codes "note:Intro";
}

abbrev zero_chunk : EmbeddingChunk ℕ
zero_chunk = record intro_chunk { id = codes "z"; embedding = 0 ∷ 0 ∷ [] }

abbrev empty_store : HnswStore (Map (List ℕ)) ℕ
empty_store = record { graph = []; chunks = []; dims = 2 }

abbrev docs : Scope
docs = record { kind = path; bundle_alias = codes "kb"; sub_path = codes "docs" }

empty_store-IsConsistent : IsConsistent whole_floats listed vector_in empty_store
unfolding lookup
empty_store-IsConsistent = record { entries = tt; agree = λ k. refl }

abbrev two_chunks : List (EmbeddingChunk ℕ)
two_chunks = intro_chunk ∷ zero_chunk ∷ []

two_chunks-succeed : (upsert whole_floats listed two_chunks empty_store).0 ≡ ok tt
unfolding upsert is_zero_norm
two_chunks-succeed = refl

upsert-IsConsistent_example :
    IsConsistent whole_floats listed vector_in (upsert whole_floats listed two_chunks empty_store).1
upsert-IsConsistent_example =
    upsert-IsConsistent whole_floats listed vector_in listed-IsGraph two_chunks empty_store
      empty_store-IsConsistent

abbrev filled : HnswStore (Map (List ℕ)) ℕ
filled = (upsert whole_floats listed two_chunks empty_store).1

filled-IsConsistent : IsConsistent whole_floats listed vector_in filled
filled-IsConsistent =
    upsert-IsConsistent whole_floats listed vector_in listed-IsGraph two_chunks empty_store
      empty_store-IsConsistent

delete-IsConsistent_example :
    IsConsistent whole_floats listed vector_in
      (delete whole_floats listed (intro_chunk.id ∷ []) filled).1
delete-IsConsistent_example =
    delete-IsConsistent whole_floats listed vector_in listed-IsGraph (intro_chunk.id ∷ []) filled
      filled-IsConsistent

upsert-contents_example :
    lookup intro_chunk.id filled.chunks
    ≡ latest whole_floats intro_chunk.id two_chunks (lookup intro_chunk.id [])
upsert-contents_example =
    upsert-contents whole_floats listed two_chunks empty_store intro_chunk.id two_chunks-succeed

upsert-succeeds_iff_example :
    ((upsert whole_floats listed two_chunks empty_store).0 ≡ ok tt)
    ↔ All (λ (c : EmbeddingChunk ℕ). (length c.embedding ≢ 0) × (length c.embedding ≡ 2)) two_chunks
upsert-succeeds_iff_example = upsert-succeeds_iff whole_floats listed two_chunks empty_store

chunk_matches_scope_iff_example :
    (chunk_matches_scope intro_chunk docs ≡ true) ↔ InScope intro_chunk docs
chunk_matches_scope_iff_example = chunk_matches_scope_iff intro_chunk docs

search-IsAnswer_example :
    (rs : List (ScoredChunk ℕ)) × (search whole_floats listed (3 ∷ 5 ∷ []) docs (pos 10) filled
      ≡ (ok rs, filled))
    × IsAnswer whole_floats listed filled docs 10 rs
search-IsAnswer_example =
    search-IsAnswer whole_floats listed filled whole_floats-Asymmetric (3 ∷ 5 ∷ []) docs 10
