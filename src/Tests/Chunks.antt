-- ===== src/Tests/Chunks.antt =====
-- The chunks of a concept, over runes that are bytes.
use go_tahu_okf_semantic_mcp.Prelude.{◌≡◌, refl, ℕ, suc, zero, [], ◌∷◌, Bytes, codes}
use go_tahu_okf_semantic_mcp.Go.Space.{trim_space}
use go_tahu_okf_semantic_mcp.Go.Strings.{push, join}
use go_tahu_okf_semantic_mcp.Domain.Types.{Concept}
use go_tahu_okf_semantic_mcp.Embedding.Chunks.{RuneText, paragraphs, chunk_concept}
use go_tahu_okf_semantic_mcp.Embedding.Chunks.Whole.{
  IsRuneText, texts, indices, chunk_concept-IsWhole,
}
use go_tahu_okf_semantic_mcp.Tests.Frontmatter.{sample_concept}

abbrev stars : ℕ → Bytes
stars zero = []
stars (suc n) = b'*' ∷ stars n

abbrev byte_runes : RuneText
byte_runes = record { runes = λ s. s; text = λ us. us; itoa = stars }

byte_runes-IsRuneText : IsRuneText byte_runes
byte_runes-IsRuneText = record {
  Valid = λ s. Unit;
  text_nil = refl;
  text_append = λ us vs. refl;
  text_runes = λ s v. refl;
}

abbrev two_paragraphs : Concept
two_paragraphs = record sample_concept { body = codes "one \n\n\n\n two" }

chunk_concept-IsWhole_example :
    (texts (chunk_concept {F = ℕ} byte_runes two_paragraphs (codes "k"))
      ≡ codes "type: note | title:  | description:  | tags: [ops]onetwo")
    × (indices (chunk_concept {F = ℕ} byte_runes two_paragraphs (codes "k")) ≡ 0 ∷ 1 ∷ 2 ∷ [])
unfolding paragraphs trim_space push join byte_runes-IsRuneText chunk_concept
chunk_concept-IsWhole_example =
    chunk_concept-IsWhole ℕ byte_runes byte_runes-IsRuneText (codes "k") two_paragraphs
      (tt, (tt, (tt, tt)))
