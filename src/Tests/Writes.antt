-- ===== src/Tests/Writes.antt =====
-- The theorems on writes: of concepts, into a map of files, and of bundles, into a list of entries.
use go_tahu_okf_semantic_mcp.Prelude.{
  ◌≡◌, ◌≢◌, ◌≤◌, ◌↔◌, refl, ap, Option, none, some, ℕ, [], Bytes, codes, length, str_eq,
  str_eq_refl,
}
use go_tahu_okf_semantic_mcp.Exec.{not_found, Result, ok, err, ok_injective}
use go_tahu_okf_semantic_mcp.Go.Strings.{
  Lacks, cut_byte, has_part, split, trim_right, has_prefix, join, push,
}
use go_tahu_okf_semantic_mcp.Go.Space.{trim_space}
use go_tahu_okf_semantic_mcp.Go.Path.{
  base, dir, clean, ascend, but_last, enter, is_abs, print, walk,
}
use go_tahu_okf_semantic_mcp.Go.Map.{Map, lookup, insert, lookup-insert}
use go_tahu_okf_semantic_mcp.Domain.Ref.{ConceptRef, ref_string, NoDotDot}
use go_tahu_okf_semantic_mcp.Domain.Types.{Concept}
use go_tahu_okf_semantic_mcp.Domain.Interfaces.{NodeRepository}
use go_tahu_okf_semantic_mcp.UseCase.Concept.{
  ConceptService, index_md, log_md, validate_write, write_concept, regenerate_index, list_concepts,
  render_index, append_log, existing_log, reserved_file, concept_dir, index_row, index_rows,
  is_reserved, log_entry,
}
use go_tahu_okf_semantic_mcp.UseCase.Concept.Guards.{validate_write_iff}
use go_tahu_okf_semantic_mcp.UseCase.Concept.Log.{
  IsReservedStore, index-differs, log_path, Appended,
}
use go_tahu_okf_semantic_mcp.Mcp.Validation.{
  max_body_bytes, validate_path, validate_input_size, parse_concept_ref,
}
use go_tahu_okf_semantic_mcp.Mcp.Request.{CallToolRequest, Services}
use go_tahu_okf_semantic_mcp.Mcp.Concepts.{handle_concept_write}
use go_tahu_okf_semantic_mcp.Mcp.Writes.{handle_concept_write-Appended}
use go_tahu_okf_semantic_mcp.Tests.Services.{
  same_vector, no_vectors, no_bundles, bundle_service, concept_service, echo,
}

abbrev Files : Type 0
Files = Map Bytes

abbrev found : Option Bytes → Result Bytes
found none = err not_found
found (some text) = ok text

-- A repository of one bundle, whose reserved files are the entries of a map.
abbrev file_nodes : NodeRepository Files
file_nodes = record {
  get = λ r t. (err not_found, t);
  put = λ r c t. (ok tt, t);
  list = λ a p t. (ok [], t);
  list_types = λ a t. (ok [], t);
  read_reserved = λ a p t. (found (lookup p t), t);
  write_reserved = λ a p text t. (ok tt, insert p text t);
}

abbrev concepts : ConceptService Files
concepts = concept_service file_nodes

abbrev file : Files → Bytes → Bytes → Option Bytes
file t a p = lookup p t

found-ok : (o : Option Bytes) (text : Bytes) → found o ≡ ok text → o ≡ some text
found-ok none text h = absurd (cc h)
found-ok (some u) text h = ap some (ok_injective u text h)

found-err : (o : Option Bytes) → found o ≡ err not_found → o ≡ none
found-err none h = refl
found-err (some u) h = absurd (cc h)

concepts-IsReservedStore : IsReservedStore concepts file
concepts-IsReservedStore = record {
  read_found = λ t a p text h. found-ok (lookup p t) text h;
  read_missing = λ t a p h. found-err (lookup p t) h;
  read_keeps = λ t a p b q. refl;
  write_sets = λ t a p text h. rw (lookup-insert, str_eq_refl) refl;
  write_keeps = λ t a d text. rw (lookup-insert, index-differs d) refl;
  get_keeps = λ t r b q. refl;
  put_keeps = λ t r c. refl;
  list_keeps = λ t a p b q. refl;
  now_keeps = λ t b q. refl;
}

abbrev a_ref : ConceptRef
a_ref = record { bundle_alias = codes "k"; relative_path = codes "a.md" }

abbrev note : Concept
note = record {
  ref = a_ref;
  frontmatter = record {
    type = codes "note";
    title = codes "A";
    description = [];
    resource = [];
    tags = [];
    timestamp = 0;
    extra = [];
  };
  body = codes "text";
  outbound_links = [];
}

validate_write_iff_example : (validate_write a_ref note ≡ ok tt) ↔ (
    (trim_space (codes "note") ≢ [])
    × (base (codes "a.md") ≢ index_md)
    × (base (codes "a.md") ≢ log_md)
    × (codes "a.md" ≢ [])
    × NoDotDot (codes "a.md"))
validate_write_iff_example = validate_write_iff a_ref note

abbrev after_write : Files
after_write = (write_concept concepts a_ref note []).1

write-succeeds : write_concept concepts a_ref note [] ≡ (ok tt, after_write)
unfolding write_concept trim_space str_eq base trim_right split has_part regenerate_index
    list_concepts render_index append_log existing_log lookup insert reserved_file concept_dir dir
    clean ref_string ascend but_last enter is_abs print walk has_prefix join push index_row
    index_rows is_reserved log_entry validate_write
write-succeeds = refl

abbrev services : Services Files ℕ
services = record {
  bundle = bundle_service no_bundles;
  concept = concepts;
  search = record { embedder = same_vector; keyword_embedder = none; vector_store = no_vectors };
  embedder = same_vector;
  vector_store = no_vectors;
}

-- A reference and a type that are both "k:a.md", and the defaults for the rest.
abbrev request : CallToolRequest ℕ
request = record {
  require_string = λ name. ok (codes "k:a.md");
  get_string = λ name default. default;
  get_string_slice = λ name. [];
  get_int = λ name default. default;
  get_float = λ name default. default;
}

abbrev after_call : Files
after_call = (handle_concept_write echo services request []).1

call-succeeds : handle_concept_write echo services request [] ≡ (ok none, after_call)
unfolding handle_concept_write parse_concept_ref cut_byte validate_path validate_input_size
    write_concept trim_space str_eq base trim_right split has_part regenerate_index list_concepts
    render_index append_log existing_log lookup insert reserved_file concept_dir dir clean
    ref_string ascend but_last enter is_abs print walk has_prefix join push index_row index_rows
    is_reserved log_entry validate_write
call-succeeds = refl

handle_concept_write-Appended_example :
    (ref : ConceptRef) × (request.require_string (codes "ref") ≡ ok (ref_string ref))
    × (ref.bundle_alias ≢ [])
    × Lacks b':' ref.bundle_alias
    × NoDotDot ref.relative_path
    × (length (request.get_string (codes "body") []) ≤ max_body_bytes)
    × Appended concepts file concepts-IsReservedStore ref
        (file [] ref.bundle_alias (log_path ref))
        (file after_call ref.bundle_alias (log_path ref))
handle_concept_write-Appended_example =
    handle_concept_write-Appended echo services request file concepts-IsReservedStore [] after_call
      none call-succeeds
