-- ===== src/Tests/Stored.antt =====
-- A WriteConcept and a ReadConcept on a disk of files and the directories above them.
use mathlib.Core.Bool.{xor}
use go_tahu_okf_semantic_mcp.Prelude.{◌≡◌, refl, [], ◌∷◌, false, arith, Bytes, codes, str_eq}
use go_tahu_okf_semantic_mcp.Exec.{ok}
use go_tahu_okf_semantic_mcp.Go.Map.{Map, lookup, insert}
use go_tahu_okf_semantic_mcp.Go.Strings.{
  trim_prefix, has_prefix, has_suffix, split, join, has_part, trim_right, contains_byte,
}
use go_tahu_okf_semantic_mcp.Go.Space.{trim_space}
use go_tahu_okf_semantic_mcp.Go.Path.{
  base, dir, clean, ascend, but_last, enter, is_abs, print, walk, join_path, rel,
}
use go_tahu_okf_semantic_mcp.Domain.Ref.{ref_string}
use go_tahu_okf_semantic_mcp.UseCase.Concept.{
  ConceptService, validate_write, write_concept, read_concept, regenerate_index, list_concepts,
  render_index, append_log, existing_log, reserved_file, concept_dir, index_row, index_rows,
  is_reserved, log_entry,
}
use go_tahu_okf_semantic_mcp.Okf.Document.{ended, validate_frontmatter, serialize_concept}
use go_tahu_okf_semantic_mcp.Okf.Linker.{extract_link_text, is_external_link, link_path}
use go_tahu_okf_semantic_mcp.Okf.Resolver.{
  resolve, resolve_new, resolve_reserved, bundle_root, guard_components,
}
use go_tahu_okf_semantic_mcp.Okf.Repository.{list, read_reserved, write_reserved, walk_refs}
use go_tahu_okf_semantic_mcp.Okf.Repository.Concepts.{put}
use go_tahu_okf_semantic_mcp.Okf.Repository.Store.Contract.{service}
use go_tahu_okf_semantic_mcp.Okf.Repository.Store.Stored.{read_concept-write_concept}
use go_tahu_okf_semantic_mcp.Tests.Disk.{roots}
use go_tahu_okf_semantic_mcp.Tests.Frontmatter.{
  one_document, one_document-IsYaml, sample_concept, sample-IsFaithful,
}
use go_tahu_okf_semantic_mcp.Tests.Storage.{one_link, sample_document, sample-serialized}
use go_tahu_okf_semantic_mcp.Tests.Tree.{
  tree_disk, tree_content, tree_disk-IsFiles, tree_disk-IsStable, is_there, holds,
}

abbrev svc : ConceptService (Map Bytes)
svc =
    service tree_disk roots one_document one_link tree_content tree_disk-IsFiles tree_disk-IsStable
      (λ t. (ok 0, t)) (λ t. codes "T") (λ t. refl)

-- The bundle has one file, the one that the written concept links to.
abbrev before : Map Bytes
before = (codes "/b/deploy.md", codes "x") ∷ []

abbrev after : Map Bytes
after = (write_concept svc sample_concept.ref sample_concept before).1

new_path :
    resolve_new (tree_disk.links before) roots (codes "k") (codes "ops.md") ≡ ok (codes "/b/ops.md")
unfolding resolve_new bundle_root lookup str_eq has_prefix has_suffix clean is_abs join_path join
    split rel xor guard_components base trim_right is_there holds
new_path = refl

old_path :
    resolve (tree_disk.links after) roots (codes "k") (codes "ops.md") ≡ ok (codes "/b/ops.md")
unfolding write_concept validate_write trim_space str_eq base trim_right split has_part
    regenerate_index list_concepts render_index append_log existing_log lookup insert reserved_file
    concept_dir dir clean ref_string ascend but_last enter is_abs print walk has_prefix join xor
    index_row index_rows is_reserved log_entry put resolve_new resolve_reserved bundle_root
    validate_frontmatter serialize_concept ended has_suffix contains_byte list read_reserved
    write_reserved join_path rel walk_refs guard_components is_there holds resolve
old_path = refl

root_found : bundle_root (tree_disk.links after) roots (codes "k") ≡ ok (codes "/b")
unfolding bundle_root lookup str_eq
root_found = refl

write-succeeds : write_concept svc sample_concept.ref sample_concept before ≡ (ok tt, after)
unfolding write_concept validate_write trim_space str_eq base trim_right split has_part
    regenerate_index list_concepts render_index append_log existing_log lookup insert reserved_file
    concept_dir dir clean ref_string ascend but_last enter is_abs print walk has_prefix join xor
    index_row index_rows is_reserved log_entry put resolve_new resolve_reserved bundle_root
    validate_frontmatter serialize_concept ended has_suffix contains_byte list read_reserved
    write_reserved join_path rel walk_refs guard_components is_there holds
write-succeeds = refl

read_concept-write_concept_example : read_concept svc sample_concept.ref after ≡ (
  ok (record {
    ref = sample_concept.ref;
    frontmatter = sample_concept.frontmatter;
    body = codes "hello\n";
    outbound_links =
        record { target = codes "deploy.md"; text = codes "deploy"; broken = false } ∷ [];
  }),
  after,
)
unfolding write_concept validate_write trim_space str_eq base trim_right split has_part
    regenerate_index list_concepts render_index append_log existing_log lookup insert reserved_file
    concept_dir dir clean ref_string ascend but_last enter is_abs print walk has_prefix join xor
    index_row index_rows is_reserved log_entry put resolve_new resolve_reserved bundle_root
    validate_frontmatter serialize_concept ended has_suffix contains_byte list read_reserved
    write_reserved join_path rel walk_refs guard_components trim_prefix extract_link_text
    is_external_link link_path is_there holds
read_concept-write_concept_example =
    read_concept-write_concept tree_disk roots one_document one_link tree_content tree_disk-IsFiles
      tree_disk-IsStable (λ t. (ok 0, t)) (λ t. codes "T") (λ t. refl) one_document-IsYaml
      sample_concept.ref sample_concept before after (codes "/b/ops.md") (codes "/b")
      sample_document sample-IsFaithful new_path old_path root_found sample-serialized (omega arith)
      write-succeeds
