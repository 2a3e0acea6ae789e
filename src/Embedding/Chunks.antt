-- ===== src/Embedding/Chunks.antt =====
-- internal/adapter/embedder/chunker.go.
pub mod Windows
pub mod Whole
use go_tahu_okf_semantic_mcp.Prelude.{
  Bool, ◌&&◌, ℕ, zero, suc, ◌+◌, ◌-◌, ◌==◌, ltb, [], ◌∷◌, ◌++◌, List, if◌then◌else◌, Bytes, codes,
  length, take, drop,
}
use go_tahu_okf_semantic_mcp.Go.Strings.{is_empty, push, join}
use go_tahu_okf_semantic_mcp.Go.Space.{trim_space}
use go_tahu_okf_semantic_mcp.Domain.Types.{Frontmatter, Concept, EmbeddingChunk}

abbrev pub max_chunk_runes : ℕ
max_chunk_runes = 512

-- `[]rune(s)`, `string(runes)` and strconv.Itoa of an index.
pub record RuneText : Type 0 where
  pub runes : Bytes → List ℕ
  pub text : List ℕ → Bytes
  pub itoa : ℕ → Bytes

-- strings.Split at "\n\n"
unfoldable pub paragraphs : Bytes → List Bytes
paragraphs [] = [] ∷ []
paragraphs (c ∷ []) = (c ∷ []) ∷ []
paragraphs (c ∷ d ∷ s) =
    let behind = paragraphs s in
    let later = paragraphs (d ∷ s) in if c == b'\n' && d == b'\n' then [] ∷ behind else push c later

abbrev pub frontmatter_text : Frontmatter → Bytes
frontmatter_text fm =
    codes "type: "
    ++ fm.type
    ++ codes " | title: "
    ++ fm.title
    ++ codes " | description: "
    ++ fm.description
    ++ codes " | tags: ["
    ++ join fm.tags b','
    ++ codes "]"

-- runes[start:end]
abbrev pub slice : ℕ → ℕ → List ℕ → List ℕ
slice start end runes = take (end - start) (drop start runes)

abbrev pub window_end : ℕ → ℕ → ℕ
window_end start len = if ltb len (start + max_chunk_runes) then len else start + max_chunk_runes

-- The loop over the windows of a paragraph, from `start` on.
unfoldable pub windows : ℕ → ℕ → List ℕ → List (List ℕ)
windows zero start runes = []
windows (suc fuel) start runes =
    let rest = windows fuel (start + max_chunk_runes) runes in
    if ltb start (length runes)
    then slice start (window_end start (length runes)) runes ∷ rest
    else []

module _ {F : Type 0} (rt : RuneText) where
  -- makeChunk
  abbrev pub chunk_of : Bytes → Concept → ℕ → Bytes → EmbeddingChunk F
  chunk_of alias concept idx text = record {
    id = alias ++ codes ":" ++ concept.ref.relative_path ++ codes ":" ++ rt.itoa idx;
    bundle_alias = alias;
    concept_path = concept.ref.relative_path;
    chunk_index = idx;
    text = text;
    embedding = [];
    frontmatter_summary = concept.frontmatter.type ++ codes ":" ++ concept.frontmatter.title;
  }

  -- The chunks of the windows of one paragraph, in front of the chunks with higher numbers.
  unfoldable pub window_chunks :
      (ℕ → Bytes → EmbeddingChunk F)
      → List (List ℕ)
      → ℕ
      → (ℕ → List (EmbeddingChunk F))
      → List (EmbeddingChunk F)
  window_chunks make [] idx later = later idx
  window_chunks make (w ∷ ws) idx later =
      make idx (rt.text w) ∷ window_chunks make ws (suc idx) later

  -- The loop over the paragraphs, from the number `idx` on.
  unfoldable pub body_chunks :
      (ℕ → Bytes → EmbeddingChunk F) → List Bytes → ℕ → List (EmbeddingChunk F)
  unfolding windows window_chunks
  body_chunks make [] idx = []
  body_chunks make (p ∷ ps) idx =
      let runes = rt.runes (trim_space p) in
      let skipped = body_chunks make ps idx in
      let taken =
        window_chunks make (windows (length runes) 0 runes) idx (λ i. body_chunks make ps i) in
      if is_empty (trim_space p) then skipped else taken

  unfoldable pub chunk_concept : Concept → Bytes → List (EmbeddingChunk F)
  unfolding body_chunks paragraphs
  chunk_concept concept alias =
      chunk_of alias concept 0 (frontmatter_text concept.frontmatter)
      ∷ body_chunks (chunk_of alias concept) (paragraphs concept.body) 1
