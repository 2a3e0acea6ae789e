-- ===== src/UseCase/Concept/Log.antt =====
-- The audit log of WriteConcept, log.md.
use go_tahu_okf_semantic_mcp.Prelude.{
  ◌≡◌, refl, ap, sym, ◌∙◌, subst, false, str_eq, arith, Option, none, some, [], ◌∷◌, ◌++◌, Bytes,
}
use go_tahu_okf_semantic_mcp.Exec.{not_found, Result, ok, err, continue-ok, ok_injective}
use go_tahu_okf_semantic_mcp.Exec.Keeps.{Keeps}
use go_tahu_okf_semantic_mcp.Go.Path.{slash}
use go_tahu_okf_semantic_mcp.Domain.Ref.{ConceptRef}
use go_tahu_okf_semantic_mcp.Domain.Types.{Time, Concept}
use go_tahu_okf_semantic_mcp.UseCase.Concept.Views
use go_tahu_okf_semantic_mcp.UseCase.Concept.{
  ConceptService, index_md, log_md, concept_dir, reserved_file, log_entry, validate_write,
  text_or_empty, regenerate_index, existing_log, append_log, write_concept,
}

-- Where the log of a concept lies.
abbrev pub log_path : ConceptRef → Bytes
log_path ref = reserved_file (concept_dir ref.relative_path) log_md

abbrev pub text_of : Option Bytes → Bytes
text_of none = []
text_of (some text) = text

pub same-prefix : (a b c : Bytes) → str_eq (a ++ b) (a ++ c) ≡ str_eq b c
unfolding str_eq
same-prefix [] b c = refl
same-prefix (x ∷ a) b c = ground (arith, same-prefix a b c)

-- The index and the log of a directory have two paths.
pub index-differs : (d : Bytes) → str_eq (reserved_file d index_md) (reserved_file d log_md) ≡ false
unfolding reserved_file str_eq
index-differs [] = refl
index-differs (c ∷ d) =
    same-prefix (c ∷ d) (slash ∷ index_md) (slash ∷ log_md) ∙ unfold str_eq in refl

-- What WriteConcept relies on of its repository: `file t alias path` is a reserved file of a bundle in
-- the state `t`. A read that succeeds answers with it, and one that does not find it means that there
-- is none; a write that succeeds sets it. The index and the log of a directory are two files, a concept is
-- stored in neither, and no other call changes a reserved file. Any call may fail.
pub record IsReservedStore {S : Type 0} (s : ConceptService S)
    (file : S → Bytes → Bytes → Option Bytes) : Type 0 where
  pub read_found :
      (t : S) (a p text : Bytes)
      → (s.node_repository.read_reserved a p t).0 ≡ ok text
      → file t a p ≡ some text
  pub read_missing :
      (t : S) (a p : Bytes)
      → (s.node_repository.read_reserved a p t).0 ≡ err not_found
      → file t a p ≡ none
  pub read_keeps :
      (t : S) (a p b q : Bytes) → file (s.node_repository.read_reserved a p t).1 b q ≡ file t b q
  pub write_sets :
      (t : S) (a p text : Bytes)
      → (s.node_repository.write_reserved a p text t).0 ≡ ok tt
      → file (s.node_repository.write_reserved a p text t).1 a p ≡ some text
  pub write_keeps :
      (t : S) (a d text : Bytes)
      → file
          (s.node_repository.write_reserved a (reserved_file d index_md) text t).1
          a
          (reserved_file d log_md)
        ≡ file t a (reserved_file d log_md)
  pub get_keeps :
      (t : S) (r : ConceptRef) (b q : Bytes) → file (s.node_repository.get r t).1 b q ≡ file t b q
  pub put_keeps :
      (t : S) (r : ConceptRef) (c : Concept)
      → file (s.node_repository.put r c t).1 r.bundle_alias (log_path r)
        ≡ file t r.bundle_alias (log_path r)
  pub list_keeps :
      (t : S) (a p b q : Bytes) → file (s.node_repository.list a p t).1 b q ≡ file t b q
  pub now_keeps : (t : S) (b q : Bytes) → file (s.now t).1 b q ≡ file t b q

module _ {S : Type 0} (s : ConceptService S) (file : S → Bytes → Bytes → Option Bytes)
    (store : IsReservedStore s file) where
  regenerate_index-Keeps :
      (ref : ConceptRef)
      → Keeps (λ t. file t ref.bundle_alias (log_path ref)) (regenerate_index s ref)
  regenerate_index-Keeps ref =
      let a = ref.bundle_alias in
      let q = log_path ref in
      Views.regenerate_index-Keeps s (λ t. file t a q) (λ r t. store.get_keeps t r a q)
        (λ b p t. store.list_keeps t b p a q) ref
        λ text t. store.write_keeps t a (concept_dir ref.relative_path) text

  found_text :
      (r : Result Bytes) (old : Option Bytes) (text : Bytes) (t : S)
      → ((u : Bytes) → r ≡ ok u → old ≡ some u)
      → (r ≡ err not_found → old ≡ none)
      → (text_or_empty s r t).0 ≡ ok text
      → text ≡ text_of old
  found_text (ok u) old text t h k e =
      let same : text ≡ u = sym (ok_injective u text e) in rw (h u refl) same
  found_text (err not_found) old text t h k e =
      let same : text ≡ [] = sym (ok_injective [] text e) in rw (k refl) same
  found_text (err _) old text t h k e = absurd (cc e)

  existing_log-text :
      (a p text : Bytes) (t : S) → (existing_log s a p t).0 ≡ ok text → text ≡ text_of (file t a p)
  unfolding existing_log
  existing_log-text a p text t e =
      found_text (s.node_repository.read_reserved a p t).0 (file t a p) text _
        (λ u. store.read_found t a p u) (store.read_missing t a p) e

  -- The log `new` is the log `old` with one line for the concept behind it.
  abbrev pub Appended : ConceptRef → Option Bytes → Option Bytes → Type 0
  Appended ref old new =
      (time : Time) × (new ≡ some (text_of old ++ log_entry (s.format_time time) ref))

  append_log-Appended :
      (ref : ConceptRef) (t t' : S)
      → append_log s ref t ≡ (ok tt, t')
      → Appended ref
          (file t ref.bundle_alias (log_path ref))
          (file t' ref.bundle_alias (log_path ref))
  unfolding append_log
  append_log-Appended ref t t' h =
      let a = ref.bundle_alias in
      let q = log_path ref in
      let t₁ = (existing_log s a q t).1 in
      let t₂ = (s.now t₁).1 in
      let (text, found, h₁) = continue-ok (existing_log s a q t).0 _ t₁ tt t' h in
      let (time, read, h₂) = continue-ok (s.now t₁).0 _ t₂ tt t' h₁ in
      let line = log_entry (s.format_time time) ref in
      let written =
        store.write_sets t₂ a q (text ++ line) (ap (λ (m : Result (Unit {0}) × S). m.0) h₂) in
      let left : t' ≡ (s.node_repository.write_reserved a q (text ++ line) t₂).1 =
        sym (ap (λ (m : Result (Unit {0}) × S). m.1) h₂) in
      (time, rw (left, written) (ap (λ u. some (u ++ line)) (existing_log-text a q text t found)))

  -- Over a repository that keeps to IsReservedStore, a write that succeeds leaves the log of the concept's directory as it was, with one line behind it.
  pub write_concept-Appended :
      (ref : ConceptRef) (concept : Concept) (t t' : S)
      → write_concept s ref concept t ≡ (ok tt, t')
      → Appended ref
          (file t ref.bundle_alias (log_path ref))
          (file t' ref.bundle_alias (log_path ref))
  unfolding write_concept
  write_concept-Appended ref concept t t' h =
      let a = ref.bundle_alias in
      let q = log_path ref in
      let t₁ = (s.node_repository.put ref concept t).1 in
      let t₂ = (regenerate_index s ref t₁).1 in
      let (u, valid, h₁) = continue-ok (validate_write ref concept) _ t tt t' h in
      let (v, stored, h₂) = continue-ok (s.node_repository.put ref concept t).0 _ t₁ tt t' h₁ in
      let (w, indexed, h₃) = continue-ok (regenerate_index s ref t₁).0 _ t₂ tt t' h₂ in
      let same : file t₂ a q ≡ file t a q =
        regenerate_index-Keeps ref t₁ ∙ store.put_keeps t ref concept in
      subst (λ o. Appended ref o (file t' a q)) same (append_log-Appended ref t₂ t' h₃)
