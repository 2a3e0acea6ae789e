-- ===== src/UseCase/Concept/Views.antt =====
-- What the steps of WriteConcept leave as it was: a part of the state, its view, that the calls of the repository leave.
use go_tahu_okf_semantic_mcp.Prelude.{refl, ◌∙◌, [], ◌∷◌, ◌++◌, List, Bytes, codes}
use go_tahu_okf_semantic_mcp.Exec.{Result, ok, err, Exec, ◌>>=◌}
use go_tahu_okf_semantic_mcp.Exec.Keeps.{Keeps, Keeps-bind, Keeps-attempt}
use go_tahu_okf_semantic_mcp.Domain.Ref.{ConceptRef}
use go_tahu_okf_semantic_mcp.Domain.Types.{Time}
use go_tahu_okf_semantic_mcp.UseCase.Concept.{
  ConceptService, index_md, log_md, concept_dir, reserved_file, log_entry, list_concepts,
  listed_or_none, text_or_empty, index_rows, render_index, regenerate_index, existing_log,
  append_log,
}

module _ {S V : Type 0} (s : ConceptService S) (view : S → V) where
  text_or_empty-Keeps : (r : Result Bytes) → Keeps view (text_or_empty s r)
  text_or_empty-Keeps (ok text) t = refl
  text_or_empty-Keeps (err e) t = refl

  pub existing_log-Keeps :
      (a p : Bytes)
      → Keeps view (s.node_repository.read_reserved a p)
      → Keeps view (existing_log s a p)
  unfolding existing_log
  existing_log-Keeps a p reads =
      Keeps-attempt view (s.node_repository.read_reserved a p) (text_or_empty s) reads
        text_or_empty-Keeps

  pub append_log-Keeps :
      (ref : ConceptRef)
      → ((a p : Bytes) → Keeps view (s.node_repository.read_reserved a p))
      → Keeps view s.now
      → ((text : Bytes)
          → Keeps view (
              s.node_repository.write_reserved ref.bundle_alias
                (reserved_file (concept_dir ref.relative_path) log_md)
                text))
      → Keeps view (append_log s ref)
  unfolding append_log
  append_log-Keeps ref reads clock writes =
      let a = ref.bundle_alias in
      let q = reserved_file (concept_dir ref.relative_path) log_md in
      let line : Bytes → Time → Exec S (Unit {0}) = λ existing t.
        s.node_repository.write_reserved a q (existing ++ log_entry (s.format_time t) ref) in
      Keeps-bind view (existing_log s a q) (λ existing. s.now >>= line existing)
        (existing_log-Keeps a q (reads a q))
        λ existing. Keeps-bind view s.now (line existing) clock λ t. writes _

  module _ (gets : (r : ConceptRef) → Keeps view (s.node_repository.get r))
      (lists : (a p : Bytes) → Keeps view (s.node_repository.list a p)) where
    listed_or_none-Keeps : (r : Result (List ConceptRef)) → Keeps view (listed_or_none s r)
    listed_or_none-Keeps (ok refs) t = refl
    listed_or_none-Keeps (err e) t = refl

    list_concepts-Keeps : (a p : Bytes) → Keeps view (list_concepts s a p)
    unfolding list_concepts
    list_concepts-Keeps a p =
        Keeps-attempt view (s.node_repository.list a p) (listed_or_none s) (lists a p)
          listed_or_none-Keeps

    index_rows-Keeps : (refs : List ConceptRef) (out : Bytes) → Keeps view (index_rows s refs out)
    unfolding index_rows
    index_rows-Keeps [] out t = refl
    index_rows-Keeps (r ∷ refs) out t =
        index_rows-Keeps refs _ (s.node_repository.get r t).1 ∙ gets r t

    render_index-Keeps : (refs : List ConceptRef) → Keeps view (render_index s refs)
    unfolding render_index
    render_index-Keeps [] t = refl
    render_index-Keeps (r ∷ refs) t =
        index_rows-Keeps (r ∷ refs)
          (codes "# Index\n\n" ++ codes "| File | Type | Title |\n|---|---|---|\n") t

    pub regenerate_index-Keeps :
        (ref : ConceptRef)
        → ((text : Bytes)
            → Keeps view (
                s.node_repository.write_reserved ref.bundle_alias
                  (reserved_file (concept_dir ref.relative_path) index_md)
                  text))
        → Keeps view (regenerate_index s ref)
    unfolding regenerate_index
    regenerate_index-Keeps ref writes =
        let a = ref.bundle_alias in
        let d = concept_dir ref.relative_path in
        let write : Bytes → Exec S (Unit {0}) =
          λ text. s.node_repository.write_reserved a (reserved_file d index_md) text in
        Keeps-bind view (list_concepts s a d) (λ refs. render_index s refs >>= write)
          (list_concepts-Keeps a d)
          λ refs. Keeps-bind view (render_index s refs) write (render_index-Keeps refs) writes
