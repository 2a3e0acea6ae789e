-- ===== src/Okf/Repository/Concepts.antt =====
-- Get, Put and ListTypes of internal/adapter/okf/repository.go, and the repository as the use cases see it.
use go_tahu_okf_semantic_mcp.Prelude.{◌||◌, [], ◌∷◌, List, if◌then◌else◌, Bytes}
use go_tahu_okf_semantic_mcp.Exec.{Result, ok, err, Exec, pure, lift, attempt, ◌>>=◌, ◌>>◌}
use go_tahu_okf_semantic_mcp.Go.Strings.{is_empty, has_part}
use go_tahu_okf_semantic_mcp.Go.Path.{dir, join_path}
use go_tahu_okf_semantic_mcp.Go.Map.{Map}
use go_tahu_okf_semantic_mcp.Domain.Ref.{ConceptRef}
use go_tahu_okf_semantic_mcp.Domain.Types.{Concept, ConceptLink}
use go_tahu_okf_semantic_mcp.Domain.Interfaces.{NodeRepository}
use go_tahu_okf_semantic_mcp.Okf.Resolver.{bundle_root, resolve, resolve_new}
use go_tahu_okf_semantic_mcp.Okf.Document.{
  Yaml, parse_concept, serialize_concept, validate_frontmatter,
}
use go_tahu_okf_semantic_mcp.Okf.Linker.{Markdown, extract_links}
use go_tahu_okf_semantic_mcp.Okf.Repository.{
  FileSystem, read_answer, check_file_size, list, read_reserved, write_reserved,
}

-- The collaborators of FileNodeRepository: the file system, the roots of its resolver, and the libraries.
module _ {S N : Type 0} (fs : FileSystem S) (roots : Map Bytes) (y : Yaml N)
    (markdown : Markdown) where
  unfoldable pub resolved : Bytes → Bytes → Exec S Bytes
  resolved alias rel_path t = (resolve (fs.links t) roots alias rel_path, t)

  unfoldable pub resolved_new : Bytes → Bytes → Exec S Bytes
  resolved_new alias rel_path t = (resolve_new (fs.links t) roots alias rel_path, t)

  unfoldable pub rooted : Bytes → Exec S Bytes
  rooted alias t = (bundle_root (fs.links t) roots alias, t)

  abbrev with_links : ConceptRef → Concept → List ConceptLink → Concept
  with_links ref c links = record c { ref = ref; outbound_links = links }

  unfoldable pub get : ConceptRef → Exec S Concept
  unfolding resolved rooted check_file_size
  get ref = do
    abs_path ← resolved ref.bundle_alias ref.relative_path
    check_file_size fs roots abs_path
    text ← attempt (fs.read_file abs_path) λ r. lift (read_answer r)
    concept ← lift (parse_concept y text)
    root ← rooted ref.bundle_alias
    links ← extract_links fs.size markdown concept.body root (dir abs_path)
    pure (with_links ref concept links)

  unfoldable pub put : ConceptRef → Concept → Exec S (Unit {0})
  unfolding resolved_new
  put ref concept = do
    abs_path ← resolved_new ref.bundle_alias ref.relative_path
    lift (validate_frontmatter concept.frontmatter)
    text ← lift (serialize_concept y concept)
    fs.mkdir_all (dir abs_path)
    fs.write_file abs_path text

  -- The type of a document of ListTypes; one that cannot be read has none.
  abbrev type_in : Result Concept → Bytes
  type_in (ok c) = c.frontmatter.type
  type_in (err e) = []

  abbrev type_read : Result Bytes → Bytes
  type_read (ok text) = type_in (parse_concept y text)
  type_read (err e) = []

  abbrev type_checked : Bytes → Result (Unit {0}) → Exec S Bytes
  type_checked abs_path (ok u) = attempt (fs.read_file abs_path) λ r. pure (type_read r)
  type_checked abs_path (err e) = pure []

  unfoldable pub type_at : Bytes → Exec S Bytes
  unfolding check_file_size
  type_at abs_path = attempt (check_file_size fs roots abs_path) λ r. type_checked abs_path r

  -- The loop of ListTypes, with the types that were seen.
  unfoldable pub distinct_types : Bytes → List ConceptRef → List Bytes → Exec S (List Bytes)
  unfolding type_at
  distinct_types root [] seen = pure []
  distinct_types root (ref ∷ refs) seen = do
    type ← type_at (join_path root ref.relative_path)
    let again = distinct_types root refs seen
    let more = do types ← distinct_types root refs (type ∷ seen); pure (type ∷ types)
    if is_empty type || has_part seen type then again else more

  unfoldable pub list_types : Bytes → Exec S (List Bytes)
  unfolding rooted distinct_types
  list_types alias = do
    refs ← list fs roots alias []
    root ← rooted alias
    distinct_types root refs []

  -- FileNodeRepository as a domain.NodeRepository.
  abbrev pub file_node_repository : NodeRepository S
  file_node_repository = record {
    get = get;
    put = put;
    list = list fs roots;
    list_types = list_types;
    read_reserved = read_reserved fs roots;
    write_reserved = write_reserved fs roots;
  }
