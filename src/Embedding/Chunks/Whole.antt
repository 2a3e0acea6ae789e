-- ===== src/Embedding/Chunks/Whole.antt =====
-- The chunks of a concept hold its text, in order and numbered.
use go_tahu_okf_semantic_mcp.Prelude.{
  ◌≡◌, refl, ap, sym, ◌∙◌, true, Bool-cases, inl, inr, ℕ, zero, suc, [], ◌∷◌, ◌++◌, append_assoc,
  List, map, arith, Bytes, length, All,
}
use go_tahu_okf_semantic_mcp.Go.Strings.{is_empty}
use go_tahu_okf_semantic_mcp.Go.Space.{trim_space}
use go_tahu_okf_semantic_mcp.Domain.Types.{Concept, EmbeddingChunk}
use go_tahu_okf_semantic_mcp.Embedding.Chunks.{
  RuneText, paragraphs, frontmatter_text, windows, chunk_of, window_chunks, body_chunks,
  chunk_concept,
}
use go_tahu_okf_semantic_mcp.Embedding.Chunks.Windows.{joined, joined-windows}

-- The conversion of runes to a text goes rune by rune, and gives a `Valid` text, one in UTF-8, back.
pub record IsRuneText (rt : RuneText) : Type 1 where
  pub Valid : Bytes → Type 0
  pub text_nil : rt.text [] ≡ []
  pub text_append : (us vs : List ℕ) → rt.text (us ++ vs) ≡ rt.text us ++ rt.text vs
  pub text_runes : (s : Bytes) → Valid s → rt.text (rt.runes s) ≡ s

-- The numbers from `n` on, and `k` of them.
abbrev pub numbers : ℕ → ℕ → List ℕ
numbers n zero = []
numbers n (suc k) = n ∷ numbers (suc n) k

module _ {F : Type 0} where
  abbrev pub texts : List (EmbeddingChunk F) → Bytes
  texts [] = []
  texts (c ∷ cs) = c.text ++ texts cs

  abbrev pub indices : List (EmbeddingChunk F) → List ℕ
  indices = map (λ (c : EmbeddingChunk F). c.chunk_index)

-- The paragraphs one after the other, without the white space at their ends.
abbrev pub trimmed : List Bytes → Bytes
trimmed [] = []
trimmed (p ∷ ps) = trim_space p ++ trimmed ps

empty-nil : (s : Bytes) → is_empty s ≡ true → s ≡ []
empty-nil [] h = refl
empty-nil (c ∷ s) h = absurd (cc h)

module _ (F : Type 0) (rt : RuneText) (laws : IsRuneText rt) (alias : Bytes)
    (concept : Concept) where
  open laws use {Valid}

  abbrev make : ℕ → Bytes → EmbeddingChunk F
  make = chunk_of rt alias concept

  window_chunks-texts :
      (ws : List (List ℕ)) (idx : ℕ) (later : ℕ → List (EmbeddingChunk F)) (rest : Bytes)
      → ((i : ℕ) → texts (later i) ≡ rest)
      → texts (window_chunks rt make ws idx later) ≡ rt.text (joined ws) ++ rest
  unfolding window_chunks
  window_chunks-texts [] idx later rest h = h idx ∙ rw laws.text_nil refl
  window_chunks-texts (w ∷ ws) idx later rest h =
      rw (window_chunks-texts ws (suc idx) later rest h, laws.text_append)
        (sym (append_assoc (rt.text w) (rt.text (joined ws)) rest))

  body_chunks-texts :
      (ps : List Bytes) (idx : ℕ)
      → All (λ p. Valid (trim_space p)) ps
      → texts (body_chunks rt make ps idx) ≡ trimmed ps
  unfolding body_chunks
  body_chunks-texts [] idx h = refl
  body_chunks-texts (p ∷ ps) idx (v, h) = elim (Bool-cases (is_empty (trim_space p))) [
    | inl e ↦ rw (e, empty-nil (trim_space p) e) (body_chunks-texts ps idx h)
    | inr n ↦
        let runes = rt.runes (trim_space p) in
        let all_runes = joined-windows (length runes) 0 runes (omega arith) in
        rw n (
          window_chunks-texts (windows (length runes) 0 runes) idx (λ i. body_chunks rt make ps i)
            (trimmed ps) (λ i. body_chunks-texts ps i h)
          ∙ rw (all_runes, laws.text_runes (trim_space p) v) refl)
  ]

  -- A list of chunks with the numbers from `n` on.
  abbrev IsNumbered : ℕ → List (EmbeddingChunk F) → Type 0
  IsNumbered n cs = indices cs ≡ numbers n (length cs)

  window_chunks-IsNumbered :
      (ws : List (List ℕ)) (idx : ℕ) (later : ℕ → List (EmbeddingChunk F))
      → ((i : ℕ) → IsNumbered i (later i))
      → IsNumbered idx (window_chunks rt make ws idx later)
  unfolding window_chunks
  window_chunks-IsNumbered [] idx later h = h idx
  window_chunks-IsNumbered (w ∷ ws) idx later h =
      ap (λ x. idx ∷ x) (window_chunks-IsNumbered ws (suc idx) later h)

  body_chunks-IsNumbered : (ps : List Bytes) (idx : ℕ) → IsNumbered idx (body_chunks rt make ps idx)
  unfolding body_chunks
  body_chunks-IsNumbered [] idx = refl
  body_chunks-IsNumbered (p ∷ ps) idx = elim (Bool-cases (is_empty (trim_space p))) [
    | inl e ↦ rw e (body_chunks-IsNumbered ps idx)
    | inr n ↦
        let runes = rt.runes (trim_space p) in
        rw n (
          window_chunks-IsNumbered (windows (length runes) 0 runes) idx
            (λ i. body_chunks rt make ps i) (λ i. body_chunks-IsNumbered ps i))
  ]

  -- With conversions of runes that keep to IsRuneText, for a concept whose paragraphs are in UTF-8: the rounds of the loop over the windows are
  -- enough, so that the texts of the chunks are the summary of the frontmatter and all of the paragraphs, without the white space
  -- at their ends, in their order; and the chunks are numbered from 0 on without a gap.
  pub chunk_concept-IsWhole :
      All (λ p. Valid (trim_space p)) (paragraphs concept.body)
      → (texts (chunk_concept {F = F} rt concept alias)
          ≡ frontmatter_text concept.frontmatter ++ trimmed (paragraphs concept.body))
        × IsNumbered 0 (chunk_concept rt concept alias)
  unfolding chunk_concept
  chunk_concept-IsWhole h = (
    ap (λ x. frontmatter_text concept.frontmatter ++ x)
        (body_chunks-texts (paragraphs concept.body) 1 h),
    ap (λ x. 0 ∷ x) (body_chunks-IsNumbered (paragraphs concept.body) 1),
  )
