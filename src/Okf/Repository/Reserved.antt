-- ===== src/Okf/Repository/Reserved.antt =====
-- What ReadReserved and WriteReserved answer and change.
use go_tahu_okf_semantic_mcp.Prelude.{
  ◌≡◌, refl, ap, ◌∙◌, false, Option, none, some, ℕ, Bytes, length, if◌then◌else◌, ltb, Bool-cases,
  inl, inr, str_eq,
}
use go_tahu_okf_semantic_mcp.Exec.{
  not_found, not_exist, input_too_large, Result, ok, err, continue, continue-ok, attempt, lift,
}
use go_tahu_okf_semantic_mcp.Go.Path.{dir, clean}
use go_tahu_okf_semantic_mcp.Go.Map.{Map}
use go_tahu_okf_semantic_mcp.Okf.Resolver.{resolve_reserved}
use go_tahu_okf_semantic_mcp.Okf.Repository.{
  FileSystem, max_file_bytes, size_checked, read_answer, read_reserved, write_reserved,
}

abbrev pub size_answer : Option Bytes → Result ℕ
size_answer none = err not_exist
size_answer (some text) = ok (length text)

abbrev pub file_answer : Option Bytes → Result Bytes
file_answer none = err not_exist
file_answer (some text) = ok text

-- The file system as a map of contents: os.Stat and os.ReadFile answer with the content of a file and
-- change nothing, and a write that succeeds sets its file. Making directories leaves files alone.
pub record IsDisk {S : Type 0} (fs : FileSystem S) (content : S → Bytes → Option Bytes)
    : Type 0 where
  pub size_of : (t : S) (p : Bytes) → fs.size p t ≡ (size_answer (content t p), t)
  pub read_of : (t : S) (p : Bytes) → fs.read_file p t ≡ (file_answer (content t p), t)
  pub mkdir_keeps : (t : S) (d p : Bytes) → content (fs.mkdir_all d t).1 p ≡ content t p
  pub write_sets :
      (t : S) (p text : Bytes)
      → (fs.write_file p text t).0 ≡ ok tt
      → content (fs.write_file p text t).1 p ≡ some text
  pub write_keeps :
      (t : S) (p q text : Bytes)
      → str_eq p q ≡ false
      → content (fs.write_file p text t).1 q ≡ content t q

-- The files that can be read, by their clean paths, on a disk that has directories too: os.Stat and os.ReadFile of such a
-- file answer with its size and content, and what os.ReadFile reads is such a file. Both change nothing. A write that succeeds
-- sets its file and no other; making directories leaves files alone. Two clean paths are two files: no link gives a file a
-- second name.
pub record IsFiles {S : Type 0} (fs : FileSystem S) (content : S → Bytes → Option Bytes)
    : Type 0 where
  pub size_found :
      (t : S) (p text : Bytes) → content t p ≡ some text → (fs.size p t).0 ≡ ok (length text)
  pub read_found :
      (t : S) (p text : Bytes) → content t p ≡ some text → (fs.read_file p t).0 ≡ ok text
  pub read_is :
      (t : S) (p text : Bytes)
      → clean p ≡ p
      → (fs.read_file p t).0 ≡ ok text
      → content t p ≡ some text
  pub size_keeps : (t : S) (p : Bytes) → (fs.size p t).1 ≡ t
  pub read_keeps : (t : S) (p : Bytes) → (fs.read_file p t).1 ≡ t
  pub mkdir_keeps : (t : S) (d p : Bytes) → content (fs.mkdir_all d t).1 p ≡ content t p
  pub write_sets :
      (t : S) (p text : Bytes)
      → clean p ≡ p
      → (fs.write_file p text t).0 ≡ ok tt
      → content (fs.write_file p text t).1 p ≡ some text
  pub write_keeps :
      (t : S) (p q text : Bytes)
      → str_eq p q ≡ false
      → content (fs.write_file p text t).1 q ≡ content t q

-- What ReadReserved answers for a file of the given content.
abbrev pub reserved_answer : Option Bytes → Result Bytes
reserved_answer none = err not_found
reserved_answer (some text) =
    if ltb max_file_bytes (length text) then err input_too_large else ok text

module _ {S : Type 0} (fs : FileSystem S) (roots : Map Bytes) (content : S → Bytes → Option Bytes)
    (disk : IsDisk fs content) where
  read_step :
      (p : Bytes) (t : S) (o : Option Bytes)
      → content t p ≡ o
      → continue
          (size_checked (size_answer o))
          (λ _. attempt (fs.read_file p) λ r. lift (read_answer r))
          t
        ≡ (reserved_answer o, t)
  read_step p t none h = rw (disk.read_of, h) refl
  read_step p t (some text) h = elim (Bool-cases (ltb max_file_bytes (length text))) [
    | inl big ↦ rw big refl
    | inr fits ↦ rw (fits, disk.read_of, h) refl
  ]

  -- On a disk that keeps to IsDisk, ReadReserved of a path that resolves changes nothing, and answers with the text of the file, with
  -- ErrNotFound where there is no file, and with ErrInputTooLarge where it has more than 1 MiB.
  pub read_reserved_lem :
      (alias rel_path p : Bytes) (t : S)
      → resolve_reserved (fs.links t) roots alias rel_path ≡ ok p
      → read_reserved fs roots alias rel_path t ≡ (reserved_answer (content t p), t)
  unfolding read_reserved
  read_reserved_lem alias rel_path p t h = rw (h, disk.size_of) (read_step p t (content t p) refl)

  -- On a disk that keeps to IsDisk, a WriteReserved that succeeds sets exactly the file that its path resolves to.
  pub write_reserved-content :
      (alias rel_path text q : Bytes) (t t' : S)
      → write_reserved fs roots alias rel_path text t ≡ (ok tt, t')
      → (p : Bytes) × (resolve_reserved (fs.links t) roots alias rel_path ≡ ok p)
        × (content t' p ≡ some text)
        × (str_eq p q ≡ false → content t' q ≡ content t q)
  unfolding write_reserved
  write_reserved-content alias rel_path text q t t' h =
      let (p, resolves, h₁) =
        continue-ok (resolve_reserved (fs.links t) roots alias rel_path) _ t tt t' h in
      let t₁ = (fs.mkdir_all (dir p) t).1 in
      let (u, made, h₂) = continue-ok (fs.mkdir_all (dir p) t).0 _ t₁ tt t' h₁ in
      let left : (fs.write_file p text t₁).1 ≡ t' = ap (λ (m : Result (Unit {0}) × S). m.1) h₂ in
      (
        p,
        resolves,
        rw (← left) (disk.write_sets t₁ p text (ap (λ (m : Result (Unit {0}) × S). m.0) h₂)),
        λ n. rw (← left) (disk.write_keeps t₁ p q text n ∙ disk.mkdir_keeps t (dir p) q),
      )
