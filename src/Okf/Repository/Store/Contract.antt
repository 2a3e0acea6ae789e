-- ===== src/Okf/Repository/Store/Contract.antt =====
-- FileNodeRepository against IsReservedStore.
use go_tahu_okf_semantic_mcp.Prelude.{
  ◌≡◌, refl, sym, ap, ◌∙◌, true, false, Bool-cases, inl, inr, Option, some, Bytes, str_eq,
  str_eq_iff, str_eq_sound,
}
use go_tahu_okf_semantic_mcp.Exec.{Result, ok, err, Exec, continue, continue-ok}
use go_tahu_okf_semantic_mcp.Go.Path.{dir, base}
use go_tahu_okf_semantic_mcp.Go.Map.{Map}
use go_tahu_okf_semantic_mcp.Domain.Ref.{ConceptRef}
use go_tahu_okf_semantic_mcp.Domain.Types.{Time, Concept}
use go_tahu_okf_semantic_mcp.UseCase.Concept.{
  ConceptService, index_md, log_md, reserved_file, concept_dir,
}
use go_tahu_okf_semantic_mcp.UseCase.Concept.Log.{IsReservedStore, log_path}
use go_tahu_okf_semantic_mcp.Okf.Document.{Yaml, serialize_concept, validate_frontmatter}
use go_tahu_okf_semantic_mcp.Okf.Linker.{Markdown}
use go_tahu_okf_semantic_mcp.Okf.Resolver.{is_reserved_name, resolve_reserved, resolve_new}
use go_tahu_okf_semantic_mcp.Okf.Resolver.Names.{
  index_md-IsPlain, log_md-IsPlain, resolve_reserved-parts, resolve_new-parts,
  base-contained_reserved,
}
use go_tahu_okf_semantic_mcp.Okf.Resolver.Growth.{Grows-same}
use go_tahu_okf_semantic_mcp.Okf.Repository.{FileSystem, write_reserved}
use go_tahu_okf_semantic_mcp.Okf.Repository.Reserved.{IsFiles}
use go_tahu_okf_semantic_mcp.Okf.Repository.Concepts.{put, file_node_repository}
use go_tahu_okf_semantic_mcp.Okf.Repository.Store.{
  IsStable, IsBelow-clean, contained-IsBelow, content_of, file_at, read_reserved-ok,
  read_reserved-missing, read_reserved-Reads, Wrote, written-Wrote, file_at-Wrote,
  resolve_reserved-written,
}
use go_tahu_okf_semantic_mcp.Okf.Repository.Store.Reads.{get-Reads, list-Reads}

module _ {S N : Type 0} (fs : FileSystem S) (roots : Map Bytes) (y : Yaml N) (markdown : Markdown)
    (content : S → Bytes → Option Bytes) (files : IsFiles fs content)
    (stable : IsStable fs roots content) where
  abbrev file : S → Bytes → Bytes → Option Bytes
  file = file_at fs roots content files stable

  differs : (a b c d : Bytes) → base a ≡ c → base b ≡ d → str_eq c d ≡ false → str_eq a b ≡ false
  differs a b c d h k n = elim (Bool-cases (str_eq a b)) [
    | inl e ↦
        let same : c ≡ d = sym h ∙ ap base (str_eq_sound a b e) ∙ k in
        absurd (cc ((str_eq_iff c d).1 same, n))
    | inr m ↦ m
  ]

  not_log : (a b : Bytes) → is_reserved_name (base a) ≡ false → base b ≡ log_md → str_eq a b ≡ false
  not_log a b free log = elim (Bool-cases (str_eq a b)) [
    | inl e ↦
        let same : base a ≡ log_md = ap base (str_eq_sound a b e) ∙ log in
        let reserved : is_reserved_name log_md ≡ true = unfold is_reserved_name str_eq in refl in
        absurd (cc (ap is_reserved_name same, reserved, free))
    | inr m ↦ m
  ]

  pub write-Wrote :
      (t : S) (alias p text q : Bytes)
      → resolve_reserved (fs.links t) roots alias p ≡ ok q
      → Wrote fs roots content files stable q t (write_reserved fs roots alias p text t).1
  unfolding write_reserved
  write-Wrote t alias p text q h =
      rw h (written-Wrote fs roots content files stable q text t (fs.mkdir_all (dir q) t).0)

  -- A write of the index of a directory leaves its log.
  write-keeps :
      (t : S) (alias d text : Bytes) (r : Result Bytes)
      → resolve_reserved (fs.links t) roots alias (reserved_file d index_md) ≡ r
      → file
          (write_reserved fs roots alias (reserved_file d index_md) text t).1
          alias
          (reserved_file d log_md)
        ≡ file t alias (reserved_file d log_md)
  unfolding write_reserved
  write-keeps t alias d text (err e) h = rw h refl
  write-keeps t alias d text (ok q) h =
      let (canon, rooted, inside, _) =
        resolve_reserved-parts (fs.links t) roots alias (reserved_file d index_md) q h in
      let named = base-contained_reserved index_md d canon q index_md-IsPlain inside in
      rw h (
        file_at-Wrote fs roots content files stable q alias (reserved_file d log_md) canon t _
          (written-Wrote fs roots content files stable q text t (fs.mkdir_all (dir q) t).0) rooted
          λ q' k.
            differs q q' index_md log_md named
              (base-contained_reserved log_md d canon q' log_md-IsPlain k) (unfold str_eq in refl))

  lifted-Wrote :
      {A : Type 0} (q : Bytes) (t : S) (r : Result A) (f : A → Exec S (Unit {0}))
      → ((a : A) → Wrote fs roots content files stable q t (f a t).1)
      → Wrote fs roots content files stable q t (continue r f t).1
  lifted-Wrote q t (ok a) f h = h a
  lifted-Wrote q t (err e) f h = record { grows = Grows-same (fs.links t); keeps = λ p n. refl }

  -- Put writes a file whose base is not reserved.
  put-keeps :
      (t : S) (ref : ConceptRef) (c : Concept) (r : Result Bytes)
      → resolve_new (fs.links t) roots ref.bundle_alias ref.relative_path ≡ r
      → file (put fs roots y markdown ref c t).1 ref.bundle_alias (log_path ref)
        ≡ file t ref.bundle_alias (log_path ref)
  unfolding put
  put-keeps t ref c (err e) h = rw h refl
  put-keeps t ref c (ok q) h =
      let (canon, rooted, _, free) =
        resolve_new-parts (fs.links t) roots ref.bundle_alias ref.relative_path q h in
      let d = concept_dir ref.relative_path in
      rw h (
        file_at-Wrote fs roots content files stable q ref.bundle_alias (log_path ref) canon t _
          (lifted-Wrote q t (validate_frontmatter c.frontmatter) _ λ _.
            lifted-Wrote q t (serialize_concept y c) _ λ text.
              written-Wrote fs roots content files stable q text t (fs.mkdir_all (dir q) t).0)
          rooted
          λ q' k. not_log q q' free (base-contained_reserved log_md d canon q' log_md-IsPlain k))

  write-sets :
      (t : S) (alias p text : Bytes)
      → (write_reserved fs roots alias p text t).0 ≡ ok tt
      → file (write_reserved fs roots alias p text t).1 alias p ≡ some text
  unfolding write_reserved
  write-sets t alias p text h =
      let t' = (write_reserved fs roots alias p text t).1 in
      let (q, resolves, h₁) =
        continue-ok (resolve_reserved (fs.links t) roots alias p) _ t tt t'
          (ap (λ (r : Result (Unit {0})). (r, t')) h) in
      let t₁ = (fs.mkdir_all (dir q) t).1 in
      let (_, _, h₂) = continue-ok (fs.mkdir_all (dir q) t).0 _ t₁ tt t' h₁ in
      let (canon, rooted, inside, _) =
        resolve_reserved-parts (fs.links t) roots alias p q resolves in
      let cleaned =
        IsBelow-clean canon q
          (contained-IsBelow fs roots content files stable t alias canon p q rooted inside) in
      let is : content t' q ≡ some text =
        ap (λ (m : Result (Unit {0}) × S). content m.1 q) (sym h₂)
        ∙ files.write_sets t₁ q text cleaned (ap (λ (m : Result (Unit {0}) × S). m.0) h₂) in
      ap (content_of fs roots content files stable t') (
        resolve_reserved-written fs roots content files stable alias p q text t t'
          (write-Wrote t alias p text q resolves) resolves is)
      ∙ is

  module _ (now : Exec S Time) (format_time : Time → Bytes) (reads : (t : S) → (now t).1 ≡ t) where
    abbrev pub service : ConceptService S
    service = record {
      node_repository = file_node_repository fs roots y markdown;
      now = now;
      format_time = format_time;
    }

    -- On a disk that keeps to IsFiles and IsStable, and with a clock that changes nothing, FileNodeRepository keeps to
    -- IsReservedStore: the reserved file of a path is the one that the path resolves to, and there is none where it does not
    -- resolve.
    pub file_node_repository-IsReservedStore :
        IsReservedStore service (file_at fs roots content files stable)
    file_node_repository-IsReservedStore = record {
      read_found = λ t a p text h. read_reserved-ok fs roots content files stable a p text t h;
      read_missing = λ t a p h. read_reserved-missing fs roots content files stable a p t h;
      read_keeps = λ t a p b q.
          ap (λ u. file u b q) (read_reserved-Reads fs roots content files stable a p t);
      write_sets = write-sets;
      write_keeps = λ t a d text.
          write-keeps t a d text (resolve_reserved (fs.links t) roots a (reserved_file d index_md))
            refl;
      get_keeps =
          λ t r b q. ap (λ u. file u b q) (get-Reads fs roots y markdown content files stable r t);
      put_keeps = λ t r c.
          put-keeps t r c (resolve_new (fs.links t) roots r.bundle_alias r.relative_path) refl;
      list_keeps = λ t a p b q.
          ap (λ u. file u b q) (list-Reads fs roots y markdown content files stable a p t);
      now_keeps = λ t b q. ap (λ u. file u b q) (reads t);
    }
