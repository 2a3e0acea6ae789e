-- ===== src/Domain/Interfaces.antt =====
-- internal/domain/interfaces.go: what the use cases ask of their collaborators. `S` is the state of
-- the whole process, which a method may read and change; the context argument is left out.
use go_tahu_okf_semantic_mcp.Prelude.{◌≡◌, ◌≤◌, pos, length, ℕ, ℤ, List, Bytes}
use go_tahu_okf_semantic_mcp.Exec.{Exec, ok}
use go_tahu_okf_semantic_mcp.Domain.Scope.{Scope}
use go_tahu_okf_semantic_mcp.Domain.Ref.{ConceptRef}
use go_tahu_okf_semantic_mcp.Domain.Types.{Concept, BundleEntry, EmbeddingChunk, ScoredChunk}

pub record Embedder (S F : Type 0) : Type 0 where
  pub embed : List Bytes → Exec S (List (List F))
  pub dims : ℕ

pub record VectorStore (S F : Type 0) : Type 0 where
  pub upsert : List (EmbeddingChunk F) → Exec S (Unit {0})
  pub search : List F → Scope → ℤ → Exec S (List (ScoredChunk F))
  pub delete : List Bytes → Exec S (Unit {0})
  pub persist : Exec S (Unit {0})
  pub load : Exec S (Unit {0})

pub record NodeRepository (S : Type 0) : Type 0 where
  pub get : ConceptRef → Exec S Concept
  pub put : ConceptRef → Concept → Exec S (Unit {0})
  pub list : Bytes → Bytes → Exec S (List ConceptRef)
  pub list_types : Bytes → Exec S (List Bytes)
  pub read_reserved : Bytes → Bytes → Exec S Bytes
  pub write_reserved : Bytes → Bytes → Bytes → Exec S (Unit {0})

pub record BundleRepository (S : Type 0) : Type 0 where
  pub get : Bytes → Exec S BundleEntry
  pub put : BundleEntry → Exec S (Unit {0})
  pub delete : Bytes → Exec S (Unit {0})
  pub list : Exec S (List BundleEntry)

-- Search returns at most the number of chunks that it is asked for.
abbrev pub IsBounded : {S F : Type 0} → VectorStore S F → Type 0
IsBounded {S = S} {F = F} store =
    (v : List F) (scope : Scope) (k : ℕ) (t t' : S) (rs : List (ScoredChunk F))
    → store.search v scope (pos k) t ≡ (ok rs, t')
    → length rs ≤ k
