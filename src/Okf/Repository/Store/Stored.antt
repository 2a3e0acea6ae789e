-- ===== src/Okf/Repository/Store/Stored.antt =====
-- WriteConcept over FileNodeRepository, and a read of the concept behind it.
use go_tahu_okf_semantic_mcp.Prelude.{
  ◌≡◌, ◌≤◌, refl, sym, ap, ◌∙◌, true, false, Bool-cases, inl, inr, Option, some, [], ◌∷◌, map,
  length, Bytes, str_eq, str_eq_sound,
}
use go_tahu_okf_semantic_mcp.Exec.{Result, ok, err, Exec, continue-ok, bind-ok}
use go_tahu_okf_semantic_mcp.Exec.Keeps.{Keeps}
use go_tahu_okf_semantic_mcp.Go.Strings.{trim_prefix}
use go_tahu_okf_semantic_mcp.Go.Path.{dir, base}
use go_tahu_okf_semantic_mcp.Go.Path.Clean.{IsPlain}
use go_tahu_okf_semantic_mcp.Go.Map.{Map}
use go_tahu_okf_semantic_mcp.Domain.Ref.{ConceptRef}
use go_tahu_okf_semantic_mcp.Domain.Types.{Time, Concept}
use go_tahu_okf_semantic_mcp.UseCase.Concept.{
  ConceptService, index_md, log_md, reserved_file, concept_dir, validate_write, regenerate_index,
  append_log, write_concept, read_concept,
}
use go_tahu_okf_semantic_mcp.UseCase.Concept.Views.{regenerate_index-Keeps, append_log-Keeps}
use go_tahu_okf_semantic_mcp.Okf.Document.{Yaml, ended, newline, serialize_concept}
use go_tahu_okf_semantic_mcp.Okf.Document.Laws.{IsYaml, IsFaithful}
use go_tahu_okf_semantic_mcp.Okf.Linker.{Markdown}
use go_tahu_okf_semantic_mcp.Okf.Resolver.{
  is_reserved_name, resolve_reserved, resolve_new, resolve, bundle_root,
}
use go_tahu_okf_semantic_mcp.Okf.Resolver.Names.{
  index_md-IsPlain, log_md-IsPlain, resolve_new-parts, base-reserved,
}
use go_tahu_okf_semantic_mcp.Okf.Repository.{
  FileSystem, write_reserved, read_reserved, max_file_bytes,
}
use go_tahu_okf_semantic_mcp.Okf.Repository.Reserved.{IsFiles}
use go_tahu_okf_semantic_mcp.Okf.Repository.Storage.{put-content, get-stored, described}
use go_tahu_okf_semantic_mcp.Okf.Repository.Store.{
  IsStable, IsBelow-clean, contained-IsBelow, read_reserved-Reads,
}
use go_tahu_okf_semantic_mcp.Okf.Repository.Store.Reads.{get-Reads, list-Reads}
use go_tahu_okf_semantic_mcp.Okf.Repository.Store.Contract.{service, write-Wrote}

not_reserved_base :
    (q p f : Bytes)
    → base q ≡ f
    → is_reserved_name f ≡ true
    → is_reserved_name (base p) ≡ false
    → str_eq q p ≡ false
not_reserved_base q p f named reserved free = elim (Bool-cases (str_eq q p)) [
  | inl e ↦
      let same : base p ≡ f = sym (ap base (str_eq_sound q p e)) ∙ named in
      absurd (cc (ap is_reserved_name same, reserved, free))
  | inr m ↦ m
]

module _ {S N : Type 0} (fs : FileSystem S) (roots : Map Bytes) (y : Yaml N) (markdown : Markdown)
    (content : S → Bytes → Option Bytes) (files : IsFiles fs content)
    (stable : IsStable fs roots content) where
  -- The write of a reserved file leaves a file of another name.
  write_reserved-at :
      (alias d f text p : Bytes) (t : S) (r : Result Bytes)
      → IsPlain f
      → is_reserved_name f ≡ true
      → is_reserved_name (base p) ≡ false
      → resolve_reserved (fs.links t) roots alias (reserved_file d f) ≡ r
      → content (write_reserved fs roots alias (reserved_file d f) text t).1 p ≡ content t p
  unfolding write_reserved
  write_reserved-at alias d f text p t (err e) plain reserved free h = rw h refl
  write_reserved-at alias d f text p t (ok q) plain reserved free h =
      (write-Wrote fs roots y markdown content files stable t alias (reserved_file d f) text q
          h).keeps
        p
        (not_reserved_base q p f (base-reserved (fs.links t) roots alias f d q plain h) reserved
          free)

  write_reserved-Keeps :
      (alias d f p text : Bytes)
      → IsPlain f
      → is_reserved_name f ≡ true
      → is_reserved_name (base p) ≡ false
      → Keeps (λ t. content t p) (write_reserved fs roots alias (reserved_file d f) text)
  write_reserved-Keeps alias d f p text plain reserved free t =
      write_reserved-at alias d f text p t _ plain reserved free refl

  read_reserved-Keeps :
      (p alias path : Bytes) → Keeps (λ t. content t p) (read_reserved fs roots alias path)
  read_reserved-Keeps p alias path t =
      ap (λ u. content u p) (read_reserved-Reads fs roots content files stable alias path t)

  module _ (now : Exec S Time) (format_time : Time → Bytes) (reads : (t : S) → (now t).1 ≡ t) where
    abbrev svc : ConceptService S
    svc = service fs roots y markdown content files stable now format_time reads

    -- The index and the log of a directory leave a document.
    regenerate_index-document :
        (ref : ConceptRef) (p : Bytes)
        → is_reserved_name (base p) ≡ false
        → Keeps (λ t. content t p) (regenerate_index svc ref)
    regenerate_index-document ref p free =
        regenerate_index-Keeps svc (λ t. content t p)
          (λ r t. ap (λ u. content u p) (get-Reads fs roots y markdown content files stable r t))
          (λ a q t.
            ap (λ u. content u p) (list-Reads fs roots y markdown content files stable a q t))
          ref
          λ text.
            write_reserved-Keeps ref.bundle_alias (concept_dir ref.relative_path) index_md p text
              index_md-IsPlain (unfold is_reserved_name str_eq in refl) free

    append_log-document :
        (ref : ConceptRef) (p : Bytes)
        → is_reserved_name (base p) ≡ false
        → Keeps (λ t. content t p) (append_log svc ref)
    append_log-document ref p free =
        append_log-Keeps svc (λ t. content t p) ref (read_reserved-Keeps p)
          (λ t. ap (λ u. content u p) (reads t))
          λ text.
            write_reserved-Keeps ref.bundle_alias (concept_dir ref.relative_path) log_md p text
              log_md-IsPlain (unfold is_reserved_name str_eq in refl) free

    -- A WriteConcept that succeeds has written the document, and the index and the log beside it.
    write_concept-content :
        (ref : ConceptRef) (c : Concept) (t t' : S) (p text : Bytes)
        → resolve_new (fs.links t) roots ref.bundle_alias ref.relative_path ≡ ok p
        → serialize_concept y c ≡ ok text
        → write_concept svc ref c t ≡ (ok tt, t')
        → content t' p ≡ some text
    unfolding write_concept
    write_concept-content ref c t t' p text new made h =
        let (canon, rooted, inside, free) =
          resolve_new-parts (fs.links t) roots ref.bundle_alias ref.relative_path p new in
        let cleaned = IsBelow-clean canon p (
          contained-IsBelow fs roots content files stable t ref.bundle_alias canon ref.relative_path
            p rooted inside) in
        let (_, _, h₁) = continue-ok (validate_write ref c) _ t tt t' h in
        let (_, t₁, stored, h₂) = bind-ok (svc.node_repository.put ref c) _ t t' tt h₁ in
        let (_, t₂, indexed, h₃) = bind-ok (regenerate_index svc ref) _ t₁ t' tt h₂ in
        let placed =
          put-content fs content roots y markdown ref c t t₁ p text
            (λ u. files.write_sets u p text cleaned) new made stored in
        let after_index : content t₂ p ≡ content t₁ p =
          ap (λ (m : Result (Unit {0}) × S). content m.1 p) (sym indexed)
          ∙ regenerate_index-document ref p free t₁ in
        let after_log : content t' p ≡ content t₂ p =
          ap (λ (m : Result (Unit {0}) × S). content m.1 p) (sym h₃)
          ∙ append_log-document ref p free t₂ in
        after_log ∙ after_index ∙ placed

    -- On a disk that keeps to IsFiles and IsStable, with a YAML library that keeps to IsYaml and a clock that changes nothing:
    -- after a WriteConcept that succeeds of a concept with a faithful frontmatter and a document of at most 1 MiB, a
    -- ReadConcept whose path resolves to the same file changes nothing and returns the frontmatter, the body with a newline
    -- at its end and without one at its start, and the links of that body, a link broken exactly if it is no external one
    -- and os.Stat of where it leads fails.
    pub read_concept-write_concept :
        (laws : IsYaml y) (ref : ConceptRef) (c : Concept) (t t' : S) (p root text : Bytes)
        → IsFaithful y laws c.frontmatter
        → resolve_new (fs.links t) roots ref.bundle_alias ref.relative_path ≡ ok p
        → resolve (fs.links t') roots ref.bundle_alias ref.relative_path ≡ ok p
        → bundle_root (fs.links t') roots ref.bundle_alias ≡ ok root
        → serialize_concept y c ≡ ok text
        → length text ≤ max_file_bytes
        → write_concept svc ref c t ≡ (ok tt, t')
        → read_concept svc ref t' ≡ (
          ok (record {
            ref = ref;
            frontmatter = c.frontmatter;
            body = trim_prefix (ended c.body) (newline ∷ []);
            outbound_links =
                map
                  (described fs t' root (dir p))
                  (markdown (trim_prefix (ended c.body) (newline ∷ [])));
          }),
          t',
        )
    unfolding read_concept
    read_concept-write_concept laws ref c t t' p root text faithful new old rooted made fits h =
        get-stored fs content files roots y markdown laws ref c t' p root text faithful old rooted
          made fits (write_concept-content ref c t t' p text new made h)
