-- ===== src/Domain/Types.antt =====
-- Records of internal/domain: concept.go, bundle.go and chunk.go.
-- A `time.Time` is a number, its zero value 0. The floats of an embedding are a parameter `F`. The
-- values of `Extra` are opaque texts: no code looks into them.
use go_tahu_okf_semantic_mcp.Prelude.{ℕ, Bool, List, Bytes}
use go_tahu_okf_semantic_mcp.Domain.Ref.{ConceptRef}

abbrev pub Time : Type 0
Time = ℕ

pub record Frontmatter : Type 0 where
  pub type : Bytes
  pub title : Bytes
  pub description : Bytes
  pub resource : Bytes
  pub tags : List Bytes
  pub timestamp : Time
  pub extra : List (Bytes × Bytes)

pub record ConceptLink : Type 0 where
  pub target : Bytes
  pub text : Bytes
  pub broken : Bool

pub record Concept : Type 0 where
  pub ref : ConceptRef
  pub frontmatter : Frontmatter
  pub body : Bytes
  pub outbound_links : List ConceptLink

pub record BundleEntry : Type 0 where
  pub alias : Bytes
  pub root_path : Bytes
  pub description : Bytes
  pub tags : List Bytes
  pub created_at : Time
  pub last_indexed_at : Time
  pub chunk_ids : List Bytes
  pub concept_count : ℕ

pub record EmbeddingChunk (F : Type 0) : Type 0 where
  pub id : Bytes
  pub bundle_alias : Bytes
  pub concept_path : Bytes
  pub chunk_index : ℕ
  pub text : Bytes
  pub embedding : List F
  pub frontmatter_summary : Bytes

pub record ScoredChunk (F : Type 0) : Type 0 where
  pub source : Bytes
  pub chunk_index : ℕ
  pub chunk_text : Bytes
  pub score : F
  pub frontmatter_summary : Bytes
