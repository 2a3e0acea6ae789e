-- ===== src/Tests/Disk.antt =====
-- The theorems on the files of a bundle, over a map of files without symbolic links.
use mathlib.Core.Bool.{xor}
use go_tahu_okf_semantic_mcp.Prelude.{
  ◌↔◌, ◌≡◌, refl, true, false, Option, some, [], ◌∷◌, List, Bytes, codes, str_eq, str_eq_refl, All,
}
use go_tahu_okf_semantic_mcp.Exec.{not_exist, ok, err}
use go_tahu_okf_semantic_mcp.Go.Strings.{has_prefix, has_suffix, trim_right, split, join}
use go_tahu_okf_semantic_mcp.Go.Path.{slash, base, clean, join_path, is_abs, walk, enter, rel}
use go_tahu_okf_semantic_mcp.Go.Map.{Map, lookup, insert, lookup-insert}
use go_tahu_okf_semantic_mcp.Domain.Ref.{ConceptRef}
use go_tahu_okf_semantic_mcp.UseCase.Bundle.{WalkStep, visit}
use go_tahu_okf_semantic_mcp.Okf.Resolver.{
  guard_components, sym_guard_new, Links, bundle_root, resolve_reserved,
}
use go_tahu_okf_semantic_mcp.Okf.Resolver.Symlinks.{Reached, NoLink, sym_guard_new_iff}
use go_tahu_okf_semantic_mcp.Okf.Repository.{FileSystem, read_reserved, is_concept_file, walk_refs}
use go_tahu_okf_semantic_mcp.Okf.Repository.Reserved.{
  IsDisk, size_answer, file_answer, reserved_answer, read_reserved_lem,
}
use go_tahu_okf_semantic_mcp.Okf.Repository.Listing.{IsListed, walk_refs-IsListed}

abbrev pub Files : Type 0
Files = Map Bytes

abbrev pub no_links : Links
no_links = record { eval_symlinks = λ p. ok p; lstat = λ p. err not_exist }

abbrev pub plain_disk : FileSystem Files
plain_disk = record {
  links = λ t. no_links;
  size = λ p t. (size_answer (lookup p t), t);
  read_file = λ p t. (file_answer (lookup p t), t);
  mkdir_all = λ d t. (ok tt, t);
  write_file = λ p text t. (ok tt, insert p text t);
  walk = λ p t. (ok [], t);
}

abbrev pub content : Files → Bytes → Option Bytes
content t p = lookup p t

pub plain_disk-IsDisk : IsDisk plain_disk content
plain_disk-IsDisk = record {
  size_of = λ t p. refl;
  read_of = λ t p. refl;
  mkdir_keeps = λ t d p. refl;
  write_sets = λ t p text h. rw (lookup-insert, str_eq_refl) refl;
  write_keeps = λ t p q text n. rw (lookup-insert, n) refl;
}

abbrev pub roots : Map Bytes
roots = (codes "k", codes "/b") ∷ []

log_resolves : resolve_reserved no_links roots (codes "k") (codes "log.md") ≡ ok (codes "/b/log.md")
unfolding resolve_reserved bundle_root lookup str_eq has_prefix has_suffix clean is_abs join_path
    join split rel xor guard_components
log_resolves = refl

read_reserved_lem_example :
    read_reserved plain_disk roots
      (codes "k")
      (codes "log.md")
      ((codes "/b/log.md", codes "x") ∷ [])
    ≡ (
      reserved_answer (content ((codes "/b/log.md", codes "x") ∷ []) (codes "/b/log.md")),
      (codes "/b/log.md", codes "x") ∷ [],
    )
read_reserved_lem_example =
    read_reserved_lem plain_disk roots content plain_disk-IsDisk (codes "k") (codes "log.md")
      (codes "/b/log.md") ((codes "/b/log.md", codes "x") ∷ []) log_resolves

abbrev steps : List WalkStep
steps =
    visit (codes "/b") true ∷ visit (codes "/b/log.md") false ∷ visit (codes "/b/a.md") false ∷ []

abbrev a_ref : ConceptRef
a_ref = record { bundle_alias = codes "k"; relative_path = codes "a.md" }

steps-listed : walk_refs (codes "k") (codes "/b") steps ≡ ok (a_ref ∷ [])
unfolding walk_refs is_concept_file has_suffix has_prefix base trim_right split str_eq rel xor
    is_abs walk enter join
steps-listed = refl

walk_refs-IsListed_example : All (IsListed (codes "k") (codes "/b") steps) (a_ref ∷ [])
walk_refs-IsListed_example =
    walk_refs-IsListed (codes "k") (codes "/b") steps (a_ref ∷ []) steps-listed

sym_guard_new_iff_example : (sym_guard_new no_links (codes "/b/log.md") (codes "/b") ≡ ok tt) ↔ (
    (r : Bytes) × (rel (codes "/b") (codes "/b/log.md") ≡ some r)
    × ((p : Bytes) → Reached no_links (codes "/b") (split r slash) p → NoLink no_links p))
sym_guard_new_iff_example = sym_guard_new_iff no_links (codes "/b/log.md") (codes "/b")
