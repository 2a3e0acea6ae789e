-- ===== src/Okf/Document/Laws.antt =====
-- What the program relies on of the YAML library.
use go_tahu_okf_semantic_mcp.Prelude.{
  ◌≡◌, false, Option, none, some, [], ◌∷◌, List, map, Bytes, codes, All,
}
use go_tahu_okf_semantic_mcp.Exec.{ok}
use go_tahu_okf_semantic_mcp.Go.Strings.{is_empty, trim_right, split}
use go_tahu_okf_semantic_mcp.Go.Space.{trim_space}
use go_tahu_okf_semantic_mcp.Go.Map.{Map, lookup}
use go_tahu_okf_semantic_mcp.Domain.Types.{Time, Frontmatter}
use go_tahu_okf_semantic_mcp.Okf.Document.{
  newline, known_fm_keys, StandardFrontmatter, Yaml, value_to_node,
}
use go_tahu_okf_semantic_mcp.Okf.Document.Split.{IsInner}
use go_tahu_okf_semantic_mcp.Okf.Document.Fields.{IsExtra, keys, IsUnique, values}

-- The alternating keys and values of a mapping.
abbrev pub flat : {N : Type 0} → Yaml N → Map N → List N
flat y [] = []
flat y ((k, n) ∷ m) = y.scalar k ∷ n ∷ flat y m

-- What a field is decoded to: its zero value where its key is missing.
abbrev pub read : {N A : Type 0} → A → (N → Option A) → Option N → Option A
read zero_value decode none = some zero_value
read zero_value decode (some n) = decode n

-- What the program relies on of the YAML library. A `Faithful` text reads back where it was written as a
-- scalar without a style, and a `Sound` node has such texts or is of a value that was marshalled. The
-- text of a mapping without a repeated key is not blank, has no line `---`, and decodes, without the
-- newlines at its end, to the values under its keys.
pub record IsYaml {N : Type 0} (y : Yaml N) : Type 1 where
  pub Faithful : Bytes → Type 0
  pub Sound : N → Type 0
  pub text_of : N → Option Bytes
  pub texts_of : N → Option (List Bytes)
  pub time_of : N → Option Time
  pub value_of : N → Bytes
  pub faithful_keys : All Faithful known_fm_keys
  pub of_scalar : (b : Bytes) → Faithful b → Sound (y.scalar b) × (text_of (y.scalar b) ≡ some b)
  pub of_sequence :
      (bs : List Bytes)
      → All Faithful bs
      → Sound (y.sequence (map y.scalar bs)) × (texts_of (y.sequence (map y.scalar bs)) ≡ some bs)
  pub of_time :
      (t : Time) (n : N)
      → value_to_node y (y.marshal_time t) ≡ ok n
      → Sound n × (time_of n ≡ some t)
  pub of_value :
      (v : Bytes) (n : N) → value_to_node y (y.marshal_value v) ≡ ok n → Sound n × (value_of n ≡ v)
  pub not_blank :
      (m : Map N) (text : Bytes)
      → y.encode (y.mapping (flat y m)) ≡ ok text
      → is_empty (trim_space (trim_right text newline)) ≡ false
  pub no_delimiter :
      (m : Map N) (text : Bytes)
      → All (λ (e : Bytes × N). Faithful e.0 × Sound e.1) m
      → y.encode (y.mapping (flat y m)) ≡ ok text
      → All IsInner (split (trim_right text newline) newline)
  pub reads_standard :
      (m : Map N) (text : Bytes) (std : StandardFrontmatter)
      → All (λ (e : Bytes × N). Faithful e.0 × Sound e.1) m
      → IsUnique m
      → read [] text_of (lookup (codes "type") m) ≡ some std.type
      → read [] text_of (lookup (codes "title") m) ≡ some std.title
      → read [] text_of (lookup (codes "description") m) ≡ some std.description
      → read [] text_of (lookup (codes "resource") m) ≡ some std.resource
      → read [] texts_of (lookup (codes "tags") m) ≡ some std.tags
      → read 0 time_of (lookup (codes "timestamp") m) ≡ some std.timestamp
      → y.encode (y.mapping (flat y m)) ≡ ok text
      → y.unmarshal_standard (trim_right text newline) ≡ ok std
  pub reads_map :
      (m : Map N) (text : Bytes)
      → All (λ (e : Bytes × N). Faithful e.0 × Sound e.1) m
      → IsUnique m
      → y.encode (y.mapping (flat y m)) ≡ ok text
      → y.unmarshal_map (trim_right text newline) ≡ ok (values value_of m)

module _ {N : Type 0} (y : Yaml N) (laws : IsYaml y) where
  open laws use {Faithful, Sound, text_of, texts_of, time_of, value_of}

  -- A frontmatter whose texts are faithful, with extra keys that are not known and not repeated.
  pub record IsFaithful (fm : Frontmatter) : Type 0 where
    pub type : Faithful fm.type
    pub title : Faithful fm.title
    pub description : Faithful fm.description
    pub resource : Faithful fm.resource
    pub tags : All Faithful fm.tags
    pub keys_faithful : All Faithful (keys fm.extra)
    pub keys_extra : All IsExtra (keys fm.extra)
    pub keys_unique : IsUnique fm.extra
