-- ===== src/Okf/Repository/Store/Reads.antt =====
-- Get, List and the checks read the disk and leave it as it is.
use go_tahu_okf_semantic_mcp.Prelude.{
  refl, Bool-cases, inl, inr, Option, List, Bytes, if◌then◌else◌,
}
use go_tahu_okf_semantic_mcp.Exec.{Exec, attempt, lift, pure, ◌>>=◌}
use go_tahu_okf_semantic_mcp.Exec.Keeps.{Keeps, Keeps-bind}
use go_tahu_okf_semantic_mcp.Go.Strings.{is_empty}
use go_tahu_okf_semantic_mcp.Go.Path.{dir, join_path}
use go_tahu_okf_semantic_mcp.Go.Map.{Map}
use go_tahu_okf_semantic_mcp.Domain.Ref.{ConceptRef}
use go_tahu_okf_semantic_mcp.Okf.Document.{Yaml, parse_concept}
use go_tahu_okf_semantic_mcp.Okf.Linker.{Markdown, extract_links}
use go_tahu_okf_semantic_mcp.Okf.Resolver.{bundle_root}
use go_tahu_okf_semantic_mcp.UseCase.Bundle.{WalkStep}
use go_tahu_okf_semantic_mcp.Okf.Repository.{
  FileSystem, read_answer, check_file_size, list, check_sub_path, resolved_reserved, walk_refs,
}
use go_tahu_okf_semantic_mcp.Okf.Repository.Reserved.{IsFiles}
use go_tahu_okf_semantic_mcp.Okf.Repository.Concepts.{get}
use go_tahu_okf_semantic_mcp.Okf.Repository.Storage.{extract_links-described}
use go_tahu_okf_semantic_mcp.Okf.Repository.Store.{IsStable}

module _ {S N : Type 0} (fs : FileSystem S) (roots : Map Bytes) (y : Yaml N) (markdown : Markdown)
    (content : S → Bytes → Option Bytes) (files : IsFiles fs content)
    (stable : IsStable fs roots content) where
  -- A call that reads the disk leaves it as it is.
  abbrev pub Reads : {A : Type 0} → Exec S A → Type 0
  Reads m = Keeps (λ t. t) m

  check_file_size-Reads : (p : Bytes) → Reads (check_file_size fs roots p)
  unfolding check_file_size
  check_file_size-Reads p t = files.size_keeps t p

  read_file-Reads : (p : Bytes) → Reads (attempt (fs.read_file p) λ r. lift (read_answer r))
  read_file-Reads p t = files.read_keeps t p

  extract_links-Reads : (body root d : Bytes) → Reads (extract_links fs.size markdown body root d)
  extract_links-Reads body root d t =
      rw (extract_links-described fs content files markdown body root d t) refl

  pub get-Reads : (ref : ConceptRef) → Reads (get fs roots y markdown ref)
  unfolding get
  get-Reads ref =
      Keeps-bind (λ t. t) _ _ (λ t. refl)
        λ p.
          Keeps-bind (λ t. t) (check_file_size fs roots p) _ (check_file_size-Reads p)
            λ _.
              Keeps-bind (λ t. t) (attempt (fs.read_file p) λ r. lift (read_answer r)) _
                (read_file-Reads p)
                λ text.
                  Keeps-bind (λ t. t) (lift (parse_concept y text)) _ (λ t. refl)
                    λ c.
                      Keeps-bind (λ t. t) _ _ (λ t. refl)
                        λ root.
                          Keeps-bind (λ t. t) (extract_links fs.size markdown c.body root (dir p)) _
                            (extract_links-Reads c.body root (dir p)) λ _ t. refl

  check_sub_path-Reads : (alias sub_path : Bytes) → Reads (check_sub_path fs roots alias sub_path)
  unfolding check_sub_path
  check_sub_path-Reads alias sub_path t = elim (Bool-cases (is_empty sub_path)) [
    | inl e ↦ rw e refl
    | inr n ↦ rw n (
        Keeps-bind (λ t. t) (resolved_reserved fs roots alias sub_path) (λ _. pure tt)
          (λ t. unfold resolved_reserved in refl) (λ _ t. refl) t)
  ]

  pub list-Reads : (alias sub_path : Bytes) → Reads (list fs roots alias sub_path)
  unfolding list
  list-Reads alias sub_path =
      let at : Exec S Bytes = λ t. (bundle_root (fs.links t) roots alias, t) in
      let place : Bytes → Bytes =
        λ root. if is_empty sub_path then root else join_path root sub_path in
      let answer : Bytes → List WalkStep → Exec S (List ConceptRef) =
        λ root steps. lift (walk_refs alias root steps) in
      Keeps-bind (λ t. t) at _ (λ t. refl)
        λ root.
          Keeps-bind (λ t. t) (check_sub_path fs roots alias sub_path)
            (λ _. fs.walk (place root) >>= answer root) (check_sub_path-Reads alias sub_path)
            λ _.
              Keeps-bind (λ t. t) (fs.walk (place root)) (answer root)
                (λ t. stable.walk_keeps t (place root)) λ _ t. refl
