-- ===== src/Okf/Document.antt =====
-- internal/adapter/okf/parser.go and validator.go: concept documents as text. A range over a map goes in
-- the order in which the map is given.
pub mod Split
pub mod Fields
pub mod Laws
pub mod Entries
pub mod RoundTrip
use go_tahu_okf_semantic_mcp.Prelude.{
  Bool, ◌||◌, not, Option, none, some, ℕ, ◌==◌, [], ◌∷◌, ◌++◌, List, map, if◌then◌else◌, Bytes,
  codes, str_eq, length, ltb,
}
use go_tahu_okf_semantic_mcp.Exec.{missing_type, other, Result, ok, err}
use go_tahu_okf_semantic_mcp.Exec.Try.{◌>>=◌, ◌>>◌}
use go_tahu_okf_semantic_mcp.Go.Strings.{
  is_empty, has_suffix, trim_prefix, trim_right, split, join, has_part,
}
use go_tahu_okf_semantic_mcp.Go.Space.{trim_space}
use go_tahu_okf_semantic_mcp.Go.Map.{Map}
use go_tahu_okf_semantic_mcp.Domain.Types.{Time, Frontmatter, Concept}

abbrev pub newline : ℕ
newline = b'\n'

abbrev pub known_fm_keys : List Bytes
known_fm_keys =
    codes "type"
    ∷ codes "title"
    ∷ codes "description"
    ∷ codes "resource"
    ∷ codes "tags"
    ∷ codes "timestamp"
    ∷ []

pub record StandardFrontmatter : Type 0 where
  pub type : Bytes
  pub title : Bytes
  pub description : Bytes
  pub resource : Bytes
  pub tags : List Bytes
  pub timestamp : Time

-- gopkg.in/yaml.v3, with `N` for its nodes: a scalar with the given value, the node tagged !!null, a
-- sequence tagged !!seq, and a mapping tagged !!map of alternating keys and values.
pub record Yaml (N : Type 0) : Type 0 where
  pub scalar : Bytes → N
  pub null : N
  pub sequence : List N → N
  pub mapping : List N → N
  -- Encode of a document node with this content, with indent 2, and Close on the encoder.
  pub encode : N → Result Bytes
  pub close : Result (Unit {0})
  pub marshal_time : Time → Result Bytes
  pub marshal_value : Bytes → Result Bytes
  -- Unmarshal into a yaml.Node, whose content it returns; into the struct; and into a map.
  pub unmarshal_node : Bytes → Result (List N)
  pub unmarshal_standard : Bytes → Result StandardFrontmatter
  pub unmarshal_map : Bytes → Result (Map Bytes)

unfoldable pub trim_cr : Bytes → Bytes
trim_cr s = trim_right s b'\r'

-- A line that opens or closes the frontmatter.
unfoldable pub is_delimiter : Bytes → Bool
unfolding trim_cr
is_delimiter l = str_eq (trim_cr l) (codes "---")

abbrev pub behind : Bytes → Option (List Bytes × List Bytes) → Option (List Bytes × List Bytes)
behind l none = none
behind l (some (fm, body)) = some (l ∷ fm, body)

-- The loop over the lines behind the first: those before the closing line, and those after it.
unfoldable pub closed_at : List Bytes → Option (List Bytes × List Bytes)
closed_at [] = none
closed_at (l ∷ ls) =
    let rest = closed_at ls in if is_delimiter l then some ([], ls) else behind l rest

abbrev pub split_closed : Bytes → Option (List Bytes × List Bytes) → Bytes × Bytes
split_closed s none = ([], s)
split_closed s (some (fm, body)) = (join fm newline, trim_prefix (join body newline) (newline ∷ []))

abbrev pub split_lines : Bytes → List Bytes → Bytes × Bytes
split_lines s [] = ([], s)
split_lines s (l ∷ ls) =
    if ltb (length (l ∷ ls)) 2 || not (is_delimiter l)
    then ([], s)
    else split_closed s (closed_at ls)

unfoldable pub split_frontmatter : Bytes → Bytes × Bytes
unfolding closed_at is_delimiter
split_frontmatter s = split_lines s (split s newline)

abbrev pub empty_frontmatter : Frontmatter
empty_frontmatter = record {
  type = [];
  title = [];
  description = [];
  resource = [];
  tags = [];
  timestamp = 0;
  extra = [];
}

-- The entries under keys that are not known.
unfoldable pub extra_of : Map Bytes → Map Bytes
extra_of [] = []
extra_of ((k, v) ∷ raw) =
    let rest = extra_of raw in if has_part known_fm_keys k then rest else (k, v) ∷ rest

abbrev pub frontmatter_of : StandardFrontmatter → Map Bytes → Frontmatter
frontmatter_of std raw = record {
  type = std.type;
  title = std.title;
  description = std.description;
  resource = std.resource;
  tags = std.tags;
  timestamp = std.timestamp;
  extra = extra_of raw;
}

unfoldable pub validate_frontmatter : Frontmatter → Result (Unit {0})
validate_frontmatter fm = if is_empty fm.type then err missing_type else ok tt

-- OKFFrontmatter.Validate, which no code of the repository calls.
unfoldable pub validate : Frontmatter → Result (Unit {0})
validate f = if is_empty f.type then err (other "type is required") else ok tt

-- The body with a newline at its end.
unfoldable pub ended : Bytes → Bytes
ended body =
    if is_empty body
    then []
    else if has_suffix body (newline ∷ [])
    then body
    else body ++ newline ∷ []

-- What SerializeConcept writes.
abbrev pub document : Bytes → Bytes → Bytes
document yaml body = codes "---\n" ++ (yaml ++ (codes "\n---\n" ++ ended body))

module _ {N : Type 0} (y : Yaml N) where
  unfoldable pub parse_frontmatter : Bytes → Result Frontmatter
  unfolding extra_of
  parse_frontmatter text =
      let decoded = do
        std ← y.unmarshal_standard text
        raw ← y.unmarshal_map text
        ok (frontmatter_of std raw)
      in if is_empty (trim_space text) then ok empty_frontmatter else decoded

  -- The concept of a document; its reference and its links are those of a zero value.
  unfoldable pub parse_concept : Bytes → Result Concept
  unfolding split_frontmatter parse_frontmatter
  parse_concept document = do
    fm ← parse_frontmatter (split_frontmatter document).0
    ok (record {
      ref = record { bundle_alias = []; relative_path = [] };
      frontmatter = fm;
      body = (split_frontmatter document).1;
      outbound_links = [];
    })

  abbrev pub first_node : List N → N
  first_node [] = y.null
  first_node (n ∷ ns) = n

  -- valueToNode of a value that marshals to the given outcome.
  unfoldable pub value_to_node : Result Bytes → Result N
  value_to_node marshalled = do
    b ← marshalled
    content ← y.unmarshal_node b
    ok (first_node content)

  abbrev pub scalar_entry : Bytes → Bytes → List N
  scalar_entry key val = if is_empty val then [] else y.scalar key ∷ y.scalar val ∷ []

  abbrev pub seq_entry : Bytes → List Bytes → List N
  seq_entry key [] = []
  seq_entry key (v ∷ vals) = y.scalar key ∷ y.sequence (map y.scalar (v ∷ vals)) ∷ []

  abbrev pub stamp_nodes : Time → Result (List N)
  stamp_nodes t = do
    n ← value_to_node (y.marshal_time t)
    ok (y.scalar (codes "timestamp") ∷ n ∷ [])

  unfoldable pub timestamp_entry : Time → Result (List N)
  unfolding value_to_node
  timestamp_entry t = let entry = stamp_nodes t in if t == 0 then ok [] else entry

  unfoldable pub extra_entries : Map Bytes → Result (List N)
  unfolding value_to_node
  extra_entries [] = ok []
  extra_entries ((k, v) ∷ extra) = do
    n ← value_to_node (y.marshal_value v)
    rest ← extra_entries extra
    ok (y.scalar k ∷ n ∷ rest)

  -- The entries that need no encoding of their own.
  unfoldable pub plain_entries : Frontmatter → List N
  plain_entries fm =
      let tags = seq_entry (codes "tags") fm.tags in
      let resource = scalar_entry (codes "resource") fm.resource in
      let description = scalar_entry (codes "description") fm.description in
      let title = scalar_entry (codes "title") fm.title in
      y.scalar (codes "type") ∷ y.scalar fm.type ∷ (title ++ (description ++ (resource ++ tags)))

  -- The mapping that SerializeConcept writes.
  unfoldable pub mapping_of : Frontmatter → Result N
  unfolding timestamp_entry extra_entries plain_entries
  mapping_of fm = do
    stamp ← timestamp_entry fm.timestamp
    extra ← extra_entries fm.extra
    ok (y.mapping (plain_entries fm ++ (stamp ++ extra)))

  -- The lines of the frontmatter, without newlines at their end.
  unfoldable pub yaml_text : Frontmatter → Result Bytes
  unfolding mapping_of
  yaml_text fm = do n ← mapping_of fm; text ← y.encode n; y.close; ok (trim_right text newline)

  unfoldable pub serialize_concept : Concept → Result Bytes
  unfolding yaml_text ended
  serialize_concept concept = do
    yaml ← yaml_text concept.frontmatter
    ok (document yaml concept.body)
