-- ===== src/Tests/Storage.antt =====
-- The theorems on the concepts of a repository, over a map of files and a YAML library for one document.
use mathlib.Core.Bool.{xor}
use go_tahu_okf_semantic_mcp.Prelude.{
  ◌≡◌, ◌≤◌, refl, false, Bool-cases, inl, inr, str_eq, ℕ, zero, suc, ◌^◌, [], ◌∷◌, ◌++◌, arith,
  Bytes, codes, length, length-append,
}
use go_tahu_okf_semantic_mcp.Exec.{ok, err, input_too_large}
use go_tahu_okf_semantic_mcp.Go.Map.{insert, lookup}
use go_tahu_okf_semantic_mcp.Go.Path.{base, clean, is_abs, join_path, rel}
use go_tahu_okf_semantic_mcp.Okf.Resolver.{bundle_root, resolve, resolve_new, guard_components}
use go_tahu_okf_semantic_mcp.Go.Strings.{
  has_suffix, has_prefix, trim_right, split, join, contains_byte,
}
use go_tahu_okf_semantic_mcp.Domain.Types.{Concept}
use go_tahu_okf_semantic_mcp.Okf.Document.{
  newline, ended, document, validate_frontmatter, serialize_concept,
}
use go_tahu_okf_semantic_mcp.Okf.Linker.{Markdown, text_child}
use go_tahu_okf_semantic_mcp.Okf.Repository.{max_file_bytes}
use go_tahu_okf_semantic_mcp.Okf.Repository.Concepts.{get, put}
use go_tahu_okf_semantic_mcp.Okf.Repository.Storage.{get-put_large}
use go_tahu_okf_semantic_mcp.Tests.Disk.{no_links, plain_disk, content, plain_disk-IsDisk, roots}
use go_tahu_okf_semantic_mcp.Tests.Frontmatter.{one_document, sample_concept}

-- A parser that finds one link in every body.
abbrev pub one_link : Markdown
one_link = λ body.
    record { destination = codes "deploy.md"; children = text_child (codes "deploy") false ∷ [] }
    ∷ []

abbrev pub sample_document : Bytes
sample_document = codes "---\ntype: note\ntags:\n  - ops\nowner: ann\n---\n\nhello\n"

new_path : resolve_new no_links roots (codes "k") (codes "ops.md") ≡ ok (codes "/b/ops.md")
unfolding resolve_new bundle_root lookup str_eq has_prefix has_suffix clean is_abs join_path join
    split rel xor guard_components base trim_right
new_path = refl

old_path : resolve no_links roots (codes "k") (codes "ops.md") ≡ ok (codes "/b/ops.md")
unfolding resolve bundle_root lookup str_eq has_prefix has_suffix clean is_abs join_path join split
    base trim_right
old_path = refl

pub sample-serialized : serialize_concept one_document sample_concept ≡ ok sample_document
unfolding serialize_concept ended has_suffix has_prefix str_eq join trim_right contains_byte
sample-serialized = refl

put_answer :
    (c : Concept) (text : Bytes)
    → validate_frontmatter c.frontmatter ≡ ok tt
    → serialize_concept one_document c ≡ ok text
    → put plain_disk roots one_document one_link sample_concept.ref c []
      ≡ (ok tt, insert (codes "/b/ops.md") text [])
unfolding put
put_answer c text h made = rw (new_path, h, made) refl

-- A body of `n` bytes.
many : ℕ → Bytes
many zero = []
many (suc n) = b'a' ∷ many n

length-many : (n : ℕ) → length (many n) ≡ n
unfolding many
length-many zero = refl
length-many (suc n) = omega (arith, length-many n)

length-ended : (body : Bytes) → length body ≤ length (ended body)
unfolding ended
length-ended [] = omega arith
length-ended (c ∷ body) = elim (Bool-cases (has_suffix (c ∷ body) (newline ∷ []))) [
  | inl e ↦ rw e (omega arith)
  | inr n ↦ rw n (omega (arith, length-append (c ∷ body) (newline ∷ [])))
]

length-document : (yaml body : Bytes) → suc (length body) ≤ length (document yaml body)
length-document yaml body =
    let end = length-ended body in
    let tail = length-append yaml (codes "\n---\n" ++ ended body) in omega (arith, end, tail)

abbrev large_concept : Concept
large_concept = record sample_concept { body = many (2 ^ 20) }

abbrev large_document : Bytes
large_document = document (codes "type: note\ntags:\n  - ops\nowner: ann") (many (2 ^ 20))

large-serialized : serialize_concept one_document large_concept ≡ ok large_document
unfolding serialize_concept str_eq join trim_right contains_byte
large-serialized = refl

large-length : suc max_file_bytes ≤ length large_document
large-length =
    let size = length-many (2 ^ 20) in
    let more = length-document (codes "type: note\ntags:\n  - ops\nowner: ann") (many (2 ^ 20)) in
    omega (arith, size, more)

get-put_large_example :
    get plain_disk roots one_document one_link sample_concept.ref
      (insert (codes "/b/ops.md") large_document [])
    ≡ (err input_too_large, insert (codes "/b/ops.md") large_document [])
unfolding validate_frontmatter
get-put_large_example =
    get-put_large plain_disk content roots one_document one_link plain_disk-IsDisk
      sample_concept.ref large_concept [] (insert (codes "/b/ops.md") large_document [])
      (codes "/b/ops.md") large_document new_path old_path large-serialized large-length
      (put_answer large_concept large_document refl large-serialized)
