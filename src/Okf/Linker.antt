-- ===== src/Okf/Linker.antt =====
-- internal/adapter/okf/linker.go: the links of a body. The markdown parser is a parameter.
use go_tahu_okf_semantic_mcp.Prelude.{
  Bool, true, false, ◌||◌, [], ◌∷◌, ◌++◌, List, if◌then◌else◌, Bytes, ℕ, codes,
}
use go_tahu_okf_semantic_mcp.Exec.{Result, ok, err, Exec, pure, attempt, ◌>>=◌}
use go_tahu_okf_semantic_mcp.Go.Strings.{has_prefix}
use go_tahu_okf_semantic_mcp.Go.Path.{is_abs, clean, join_path}
use go_tahu_okf_semantic_mcp.Domain.Types.{ConceptLink}

-- A child of a link in the syntax tree: a text with its soft line break, or another node.
pub data Child : Type 0 where
  text_child : Bytes → Bool → Child
  other_child : Child

pub record MarkdownLink : Type 0 where
  pub destination : Bytes
  pub children : List Child

-- github.com/yuin/goldmark: the links of a body in the order in which ast.Walk enters them.
abbrev pub Markdown : Type 0
Markdown = Bytes → List MarkdownLink

unfoldable pub is_external_link : Bytes → Bool
is_external_link target =
    has_prefix target (codes "http://")
    || has_prefix target (codes "https://")
    || has_prefix target (codes "//")
    || has_prefix target (codes "mailto:")

unfoldable pub extract_link_text : List Child → Bytes
extract_link_text [] = []
extract_link_text (text_child s true ∷ cs) = s ++ (codes " " ++ extract_link_text cs)
extract_link_text (text_child s false ∷ cs) = s ++ extract_link_text cs
extract_link_text (other_child ∷ cs) = extract_link_text cs

-- Where a link to a file leads.
unfoldable pub link_path : Bytes → Bytes → Bytes → Bytes
link_path root dir target =
    clean (if is_abs target then join_path root target else join_path dir target)

abbrev pub failed : {A : Type 0} → Result A → Bool
failed (ok a) = false
failed (err e) = true

abbrev pub link_of : MarkdownLink → Bool → ConceptLink
link_of l broken = record {
  target = l.destination;
  text = extract_link_text l.children;
  broken = broken;
}

module _ {S : Type 0} (stat : Bytes → Exec S ℕ) where
  unfoldable pub check_link : Bytes → Bytes → MarkdownLink → Exec S ConceptLink
  unfolding is_external_link link_path
  check_link root dir l t =
      let checked =
        attempt (stat (link_path root dir l.destination)) (λ r. pure (link_of l (failed r))) t in
      if is_external_link l.destination then pure (link_of l false) t else checked

  unfoldable pub check_links : Bytes → Bytes → List MarkdownLink → Exec S (List ConceptLink)
  unfolding check_link
  check_links root dir [] = pure []
  check_links root dir (l ∷ ls) = do
    c ← check_link root dir l
    cs ← check_links root dir ls
    pure (c ∷ cs)

  unfoldable pub extract_links : Markdown → Bytes → Bytes → Bytes → Exec S (List ConceptLink)
  unfolding check_links
  extract_links markdown body root dir = check_links root dir (markdown body)
