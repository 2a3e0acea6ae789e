-- ===== src/Okf/Repository/Storage.antt =====
-- What Get returns after Put, and the links that it returns with a concept.
use go_tahu_okf_semantic_mcp.Prelude.{
  ◌≡◌, ◌≤◌, refl, ap, sym, ◌∙◌, true, false, Option, some, [], ◌∷◌, List, map, arith, suc, Bytes,
  length, if◌then◌else◌, ltb, Bool-cases, inl, inr,
}
use go_tahu_okf_semantic_mcp.Exec.{input_too_large, Result, ok, err, continue-ok, ok_injective}
use go_tahu_okf_semantic_mcp.Go.Strings.{trim_prefix}
use go_tahu_okf_semantic_mcp.Go.Path.{dir}
use go_tahu_okf_semantic_mcp.Go.Map.{Map}
use go_tahu_okf_semantic_mcp.Domain.Ref.{ConceptRef}
use go_tahu_okf_semantic_mcp.Domain.Types.{Concept, ConceptLink}
use go_tahu_okf_semantic_mcp.Okf.Resolver.{bundle_root, resolve, resolve_new}
use go_tahu_okf_semantic_mcp.Okf.Document.{
  newline, Yaml, ended, parse_concept, serialize_concept, validate_frontmatter,
}
use go_tahu_okf_semantic_mcp.Okf.Document.Laws.{IsYaml, IsFaithful}
use go_tahu_okf_semantic_mcp.Okf.Document.RoundTrip.{parse_concept-serialize_concept}
use go_tahu_okf_semantic_mcp.Okf.Linker.{
  Markdown, MarkdownLink, is_external_link, link_path, link_of, failed, check_link, check_links,
  extract_links,
}
use go_tahu_okf_semantic_mcp.Okf.Repository.{FileSystem, max_file_bytes}
use go_tahu_okf_semantic_mcp.Okf.Repository.Reserved.{IsDisk, IsFiles}
use go_tahu_okf_semantic_mcp.Okf.Repository.Concepts.{get, put}

-- A link to a place outside the files is not broken, and another is if os.Stat of where it leads fails.
abbrev pub described : {S : Type 0} → FileSystem S → S → Bytes → Bytes → MarkdownLink → ConceptLink
described fs t root d l = link_of l (
    if is_external_link l.destination
    then false
    else failed (fs.size (link_path root d l.destination) t).0)

module _ {S : Type 0} (fs : FileSystem S) (content : S → Bytes → Option Bytes)
    (files : IsFiles fs content) where
  check_link-described :
      (t : S) (root d : Bytes) (l : MarkdownLink)
      → check_link fs.size root d l t ≡ (ok (described fs t root d l), t)
  unfolding check_link
  check_link-described t root d l = elim (Bool-cases (is_external_link l.destination)) [
    | inl e ↦ rw e refl
    | inr n ↦ rw (n, files.size_keeps) refl
  ]

  check_links-described :
      (t : S) (root d : Bytes) (ls : List MarkdownLink)
      → check_links fs.size root d ls t ≡ (ok (map (described fs t root d) ls), t)
  unfolding check_links
  check_links-described t root d [] = refl
  check_links-described t root d (l ∷ ls) =
      rw (check_link-described t root d l, check_links-described t root d ls) refl

  -- ExtractLinks changes nothing and returns the links of the body in their order, a link broken exactly if it is no
  -- external one and os.Stat of where it leads fails.
  pub extract_links-described :
      (markdown : Markdown) (body root d : Bytes) (t : S)
      → extract_links fs.size markdown body root d t
        ≡ (ok (map (described fs t root d) (markdown body)), t)
  unfolding extract_links
  extract_links-described markdown body root d t = check_links-described t root d (markdown body)

  module _ {N : Type 0} (roots : Map Bytes) (y : Yaml N) (markdown : Markdown) where
    -- Get of a file that parses and has at most 1 MiB.
    get-parsed :
        (ref : ConceptRef) (t : S) (p root text : Bytes) (c : Concept)
        → resolve (fs.links t) roots ref.bundle_alias ref.relative_path ≡ ok p
        → bundle_root (fs.links t) roots ref.bundle_alias ≡ ok root
        → content t p ≡ some text
        → ltb max_file_bytes (length text) ≡ false
        → parse_concept y text ≡ ok c
        → get fs roots y markdown ref t ≡ (
          ok (record c {
            ref = ref;
            outbound_links = map (described fs t root (dir p)) (markdown c.body);
          }),
          t,
        )
    unfolding get
    get-parsed ref t p root text c resolves rooted is fits parses =
        rw
          (
            resolves,
            files.size_keeps t p,
            files.size_found t p text is,
            fits,
            files.read_keeps t p,
            files.read_found t p text is,
            parses,
            rooted,
            extract_links-described markdown c.body root (dir p) t,
          )
          refl

    -- Get of the document of a concept.
    pub get-stored :
        (laws : IsYaml y) (ref : ConceptRef) (c : Concept) (t : S) (p root text : Bytes)
        → IsFaithful y laws c.frontmatter
        → resolve (fs.links t) roots ref.bundle_alias ref.relative_path ≡ ok p
        → bundle_root (fs.links t) roots ref.bundle_alias ≡ ok root
        → serialize_concept y c ≡ ok text
        → length text ≤ max_file_bytes
        → content t p ≡ some text
        → get fs roots y markdown ref t ≡ (
          ok (record {
            ref = ref;
            frontmatter = c.frontmatter;
            body = trim_prefix (ended c.body) (newline ∷ []);
            outbound_links =
                map
                  (described fs t root (dir p))
                  (markdown (trim_prefix (ended c.body) (newline ∷ [])));
          }),
          t,
        )
    get-stored laws ref c t p root text faithful old rooted made fits is =
        get-parsed ref t p root text _ old rooted is (ground (arith, fits))
          (parse_concept-serialize_concept y laws c text faithful made)

module _ {S : Type 0} (fs : FileSystem S) (content : S → Bytes → Option Bytes) {N : Type 0}
    (roots : Map Bytes) (y : Yaml N) (markdown : Markdown) where
  -- A Put that succeeds has written the document to the file that its reference resolves to.
  pub put-content :
      (ref : ConceptRef) (c : Concept) (t t' : S) (p text : Bytes)
      → ((u : S)
          → (fs.write_file p text u).0 ≡ ok tt
          → content (fs.write_file p text u).1 p ≡ some text)
      → resolve_new (fs.links t) roots ref.bundle_alias ref.relative_path ≡ ok p
      → serialize_concept y c ≡ ok text
      → put fs roots y markdown ref c t ≡ (ok tt, t')
      → content t' p ≡ some text
  unfolding put
  put-content ref c t t' p text sets resolves made h =
      let (p₁, r, h₁) =
        continue-ok (resolve_new (fs.links t) roots ref.bundle_alias ref.relative_path) _ t tt t'
          h in
      let (_, _, h₂) = continue-ok (validate_frontmatter c.frontmatter) _ t tt t' h₁ in
      let (text₁, m, h₃) = continue-ok (serialize_concept y c) _ t tt t' h₂ in
      let t₁ = (fs.mkdir_all (dir p₁) t).1 in
      let (_, _, h₄) = continue-ok (fs.mkdir_all (dir p₁) t).0 _ t₁ tt t' h₃ in
      let left : (fs.write_file p₁ text₁ t₁).1 ≡ t' = ap (λ (m : Result (Unit {0}) × S). m.1) h₄ in
      let same_path = ok_injective p₁ p (sym r ∙ resolves) in
      let same_text = ok_injective text₁ text (sym m ∙ made) in
      let answered : (fs.write_file p text t₁).0 ≡ ok tt =
        ap (λ x. (fs.write_file x text t₁).0) (sym same_path)
        ∙ ap (λ x. (fs.write_file p₁ x t₁).0) (sym same_text)
        ∙ ap (λ (m : Result (Unit {0}) × S). m.0) h₄ in
      ap (λ u. content u p) (sym left)
      ∙ ap (λ x. content (fs.write_file x text₁ t₁).1 p) same_path
      ∙ ap (λ x. content (fs.write_file p x t₁).1 p) same_text
      ∙ sets t₁ answered

  module _ (disk : IsDisk fs content) where
    get-too_large :
        (ref : ConceptRef) (t : S) (p text : Bytes)
        → resolve (fs.links t) roots ref.bundle_alias ref.relative_path ≡ ok p
        → content t p ≡ some text
        → ltb max_file_bytes (length text) ≡ true
        → get fs roots y markdown ref t ≡ (err input_too_large, t)
    unfolding get
    get-too_large ref t p text resolves is big = rw (resolves, disk.size_of, is, big) refl

    -- On a disk that keeps to IsDisk, a concept whose document has more than 1 MiB is stored by a Put that
    -- succeeds, and refused with ErrInputTooLarge by a Get whose path resolves to the same file.
    pub get-put_large :
        (ref : ConceptRef) (c : Concept) (t t' : S) (p text : Bytes)
        → resolve_new (fs.links t) roots ref.bundle_alias ref.relative_path ≡ ok p
        → resolve (fs.links t') roots ref.bundle_alias ref.relative_path ≡ ok p
        → serialize_concept y c ≡ ok text
        → suc max_file_bytes ≤ length text
        → put fs roots y markdown ref c t ≡ (ok tt, t')
        → get fs roots y markdown ref t' ≡ (err input_too_large, t')
    get-put_large ref c t t' p text new old made big h =
        get-too_large ref t' p text old
          (put-content ref c t t' p text (λ u. disk.write_sets u p text) new made h)
          (ground (arith, big))
