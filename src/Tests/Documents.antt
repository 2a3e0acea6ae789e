-- ===== src/Tests/Documents.antt =====
-- The theorems on concept documents, over a YAML library for one document.
use go_tahu_okf_semantic_mcp.Prelude.{◌≡◌, refl, [], ◌∷◌, codes, str_eq}
use go_tahu_okf_semantic_mcp.Exec.{ok}
use go_tahu_okf_semantic_mcp.Go.Strings.{
  contains_byte, split, join, trim_right, trim_prefix, has_prefix, has_suffix,
}
use go_tahu_okf_semantic_mcp.Okf.Document.{
  ended, serialize_concept, parse_concept, is_delimiter, split_frontmatter,
}
use go_tahu_okf_semantic_mcp.Okf.Document.Split.{
  split_frontmatter-document, IsDocument, split_frontmatter-IsDocument,
}
use go_tahu_okf_semantic_mcp.Okf.Document.RoundTrip.{parse_concept-serialize_concept}
use go_tahu_okf_semantic_mcp.Tests.Frontmatter.{
  one_document, one_document-IsYaml, sample_concept, sample-IsFaithful,
}

parse_concept-serialize_concept_example :
    parse_concept one_document (codes "---\ntype: note\ntags:\n  - ops\nowner: ann\n---\n\nhello\n")
    ≡ ok (record {
      ref = record { bundle_alias = []; relative_path = [] };
      frontmatter = sample_concept.frontmatter;
      body = codes "hello\n";
      outbound_links = [];
    })
unfolding serialize_concept ended has_suffix has_prefix trim_prefix str_eq join trim_right
    contains_byte
parse_concept-serialize_concept_example =
    parse_concept-serialize_concept one_document one_document-IsYaml sample_concept
      (codes "---\ntype: note\ntags:\n  - ops\nowner: ann\n---\n\nhello\n") sample-IsFaithful refl

split_frontmatter-document_example :
    split_frontmatter (codes "---\ntype: note\n---\n\nhello\n")
    ≡ (codes "type: note", codes "hello\n")
unfolding ended has_suffix has_prefix trim_prefix split is_delimiter str_eq trim_right
split_frontmatter-document_example =
    split_frontmatter-document (codes "type: note") (codes "\nhello") (refl, tt)

split_frontmatter-IsDocument_example :
    IsDocument
      (codes "---\na: b\n---\nx")
      (codes "---" ∷ codes "a: b" ∷ codes "---" ∷ codes "x" ∷ [])
      (codes "a: b", codes "x")
unfolding split_frontmatter split str_eq trim_right trim_prefix has_prefix join
split_frontmatter-IsDocument_example = split_frontmatter-IsDocument (codes "---\na: b\n---\nx")
