-- ===== src/Mcp/Limits.antt =====
-- The limits that HandleSearchRAG puts on its answer.
use go_tahu_okf_semantic_mcp.Prelude.{
  ◌≡◌, ◌≤◌, refl, ap, subst, List, ℕ, ℤ, pos, negsuc, arith, Bytes, codes, length, All, ltb,
  Bool-cases, inl, inr,
}
use go_tahu_okf_semantic_mcp.Exec.{Result, ok, continue-ok}
use go_tahu_okf_semantic_mcp.Go.Float.{Floats}
use go_tahu_okf_semantic_mcp.Domain.Scope.{Scope, parse_scope}
use go_tahu_okf_semantic_mcp.Domain.Types.{ScoredChunk}
use go_tahu_okf_semantic_mcp.Domain.Interfaces.{IsBounded}
use go_tahu_okf_semantic_mcp.UseCase.Search.{rag_search}
use go_tahu_okf_semantic_mcp.UseCase.Search.Threshold.{Passes}
use go_tahu_okf_semantic_mcp.UseCase.Search.Bounds.{rag_search-bounded}
use go_tahu_okf_semantic_mcp.Mcp.Validation.{validate_input_size, max_string_bytes}
use go_tahu_okf_semantic_mcp.Mcp.Request.{CallToolRequest, chunks, ToolResults, Services}
use go_tahu_okf_semantic_mcp.Mcp.Searches.{at_least_one, clamp_rag, handle_search_rag}

-- Whatever top_k a request asks for, HandleSearchRAG asks the search for 1 to 20 chunks, and for as
-- many as the request does where that lies between them.
clamp_rag_lem :
    (k : ℤ)
    → (n : ℕ) × (clamp_rag k ≡ pos n)
      × (1 ≤ n)
      × (n ≤ 20)
      × ((m : ℕ) → k ≡ pos m → 1 ≤ m → m ≤ 20 → n ≡ m)
unfolding clamp_rag at_least_one
clamp_rag_lem (negsuc k) = (1, refl, omega arith, omega arith, λ m e. absurd (cc e))
clamp_rag_lem (pos k) = elim (Bool-cases (ltb k 1)) [
  | inl l ↦ (1, rw l refl, omega arith, omega arith, λ m e a b. ground arith)
  | inr n ↦ elim (Bool-cases (ltb 20 k)) [
    | inl g ↦ (20, rw (n, g) refl, omega arith, omega arith, λ m e a b. ground arith)
    | inr h ↦ (k, rw (n, h) refl, ground arith, ground arith, λ m e a b. cc e)
  ]
]

module _ {S F D R : Type 0} (fl : Floats F D) (tools : ToolResults F R) (s : Services S F)
    (req : CallToolRequest D) (bounded : IsBounded s.search.vector_store) where
  -- The threshold that a request asks for.
  abbrev pub requested_score : F
  requested_score = fl.to_float32 (req.get_float (codes "min_score") fl.zero64)

  clamped-bounded :
      (query : Bytes) (scope : Scope) (z : ℤ) (n : ℕ) (m : F) (t : S) (cs : List (ScoredChunk F))
      → z ≡ pos n
      → (rag_search fl s.search query scope z m t).0 ≡ ok cs
      → (length cs ≤ n) × All (Passes fl m) cs
  clamped-bounded query scope z n m t cs e h =
      rag_search-bounded fl s.search bounded query scope n m t cs
        (subst (λ y. (rag_search fl s.search query scope y m t).0 ≡ ok cs) e h)

  -- An answer of HandleSearchRAG is the result of at most 20 chunks, each of which reaches the
  -- requested score, if the vector store returns at most as many chunks as it is asked for.
  pub handle_search_rag-bounded :
      (t t' : S) (r : R)
      → handle_search_rag fl tools s req t ≡ (ok r, t')
      → (cs : List (ScoredChunk F)) × (tools.json (chunks cs) ≡ ok r)
        × (length cs ≤ 20)
        × All (Passes fl requested_score) cs
  unfolding handle_search_rag
  handle_search_rag-bounded t t' r h =
      let (query, given, h₁) = continue-ok (req.require_string (codes "query")) _ t r t' h in
      let (u, sized, h₂) = continue-ok (validate_input_size query max_string_bytes) _ t r t' h₁ in
      let (scope, parsed, h₃) =
        continue-ok (parse_scope (req.get_string (codes "scope") (codes "global"))) _ t r t' h₂ in
      let top_k = clamp_rag (req.get_int (codes "top_k") (pos 5)) in
      let found = rag_search fl s.search query scope top_k requested_score t in
      let (cs, answered, h₄) = continue-ok found.0 _ found.1 r t' h₃ in
      let (n, clamped, low, high, kept) = clamp_rag_lem (req.get_int (codes "top_k") (pos 5)) in
      let (most, reach) =
        clamped-bounded query scope top_k n requested_score t cs clamped answered in
      (cs, ap (λ (m : Result R × S). m.0) h₄, omega (arith, most, high), reach)
