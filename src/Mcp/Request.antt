-- ===== src/Mcp/Request.antt =====
-- The requests and results of github.com/mark3labs/mcp-go, as the handlers use them.
use go_tahu_okf_semantic_mcp.Prelude.{List, Bytes, ℤ}
use go_tahu_okf_semantic_mcp.Exec.{Result}
use go_tahu_okf_semantic_mcp.Domain.Ref.{ConceptRef}
use go_tahu_okf_semantic_mcp.Domain.Types.{Concept, ConceptLink, BundleEntry, ScoredChunk}
use go_tahu_okf_semantic_mcp.Domain.Interfaces.{Embedder, VectorStore}
use go_tahu_okf_semantic_mcp.UseCase.Bundle.{BundleService}
use go_tahu_okf_semantic_mcp.UseCase.Concept.{ConceptService}
use go_tahu_okf_semantic_mcp.UseCase.Search.{SearchService}

-- The arguments of a call, by name: RequireString, GetString, GetStringSlice with the default nil,
-- GetInt and GetFloat, the last three with a default.
pub record CallToolRequest (D : Type 0) : Type 0 where
  pub require_string : Bytes → Result Bytes
  pub get_string : Bytes → Bytes → Bytes
  pub get_string_slice : Bytes → List Bytes
  pub get_int : Bytes → ℤ → ℤ
  pub get_float : Bytes → D → D

-- The values that are handed to NewToolResultJSON.
pub data Payload (F : Type 0) : Type 0 where
  bundles : List BundleEntry → Payload F
  bundle : BundleEntry → Payload F
  concept : Concept → Payload F
  refs : List ConceptRef → Payload F
  links : List ConceptLink → Payload F
  types : List Bytes → Payload F
  chunks : List (ScoredChunk F) → Payload F

-- NewToolResultJSON and NewToolResultText, into results `R`.
pub record ToolResults (F R : Type 0) : Type 0 where
  pub json : Payload F → Result R
  pub text : Bytes → R

pub record Services (S F : Type 0) : Type 0 where
  pub bundle : BundleService S
  pub concept : ConceptService S
  pub search : SearchService S F
  pub embedder : Embedder S F
  pub vector_store : VectorStore S F
