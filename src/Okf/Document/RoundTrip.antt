-- ===== src/Okf/Document/RoundTrip.antt =====
-- Reading back a document that SerializeConcept wrote.
use go_tahu_okf_semantic_mcp.Prelude.{
  ◌≡◌, refl, ap, sym, ◌∙◌, Option, some, [], ◌∷◌, List, Bytes, codes, All, str_eq, subst,
}
use go_tahu_okf_semantic_mcp.Exec.{ok, ok_injective}
use go_tahu_okf_semantic_mcp.Exec.Try.{>>=-eq-ok, >>-eq-ok}
use go_tahu_okf_semantic_mcp.Go.Strings.{has_part, trim_prefix, trim_right, split}
use go_tahu_okf_semantic_mcp.Go.Map.{Map, lookup}
use go_tahu_okf_semantic_mcp.Domain.Types.{Frontmatter, Concept}
use go_tahu_okf_semantic_mcp.Okf.Document.{
  newline, StandardFrontmatter, Yaml, timestamp_entry, extra_entries, mapping_of, yaml_text, ended,
  serialize_concept, parse_frontmatter, parse_concept,
}
use go_tahu_okf_semantic_mcp.Okf.Document.Split.{IsInner, split_frontmatter-document}
use go_tahu_okf_semantic_mcp.Okf.Document.Fields.{
  IsKnown, IsExtra, keys, NoRepeat, IsUnique, with_fields, field, lookup-with_fields,
  IsUnique-with_fields, All-with_fields, values, extra_of-with_fields, has_part-extra,
}
use go_tahu_okf_semantic_mcp.Okf.Document.Laws.{flat, read, IsYaml, IsFaithful}
use go_tahu_okf_semantic_mcp.Okf.Document.Entries.{
  scalar_field, seq_field, fields, plain_entries-flat, timestamp_entry-flat, extra_entries-flat,
}

abbrev standard_of : Frontmatter → StandardFrontmatter
standard_of fm = record {
  type = fm.type;
  title = fm.title;
  description = fm.description;
  resource = fm.resource;
  tags = fm.tags;
  timestamp = fm.timestamp;
}

module _ {N : Type 0} (y : Yaml N) (laws : IsYaml y) where
  open laws use {Faithful, Sound, text_of, texts_of, time_of, value_of}

  abbrev IsReadable : Bytes × N → Type 0
  IsReadable (k, n) = Faithful k × Sound n

  scalar_field-read : (v : Bytes) → Faithful v → read [] text_of (scalar_field y v) ≡ some v
  scalar_field-read [] f = refl
  scalar_field-read (c ∷ v) f = (laws.of_scalar (c ∷ v) f).1

  seq_field-read : (vs : List Bytes) → All Faithful vs → read [] texts_of (seq_field y vs) ≡ some vs
  seq_field-read [] f = refl
  seq_field-read (v ∷ vs) f = (laws.of_sequence (v ∷ vs) f).1

  scalar_field-Sound : (v : Bytes) → Faithful v → (n : N) → scalar_field y v ≡ some n → Sound n
  scalar_field-Sound [] f n h = absurd (cc h)
  scalar_field-Sound (c ∷ v) f n h = subst Sound (cc h) (laws.of_scalar (c ∷ v) f).0

  seq_field-Sound :
      (vs : List Bytes) → All Faithful vs → (n : N) → seq_field y vs ≡ some n → Sound n
  seq_field-Sound [] f n h = absurd (cc h)
  seq_field-Sound (v ∷ vs) f n h = subst Sound (cc h) (laws.of_sequence (v ∷ vs) f).0

  module _ (fm : Frontmatter) (faithful : IsFaithful y laws fm) (o : Option N) (m : Map N)
      (sound : (n : N) → o ≡ some n → Sound n) (reads : read 0 time_of o ≡ some fm.timestamp)
      (extra : All IsExtra (keys m)) (unique : IsUnique m) (readable : All IsReadable m) where
    abbrev written : Map N
    written = with_fields (fields y fm o) m

    fields-IsUnique : IsUnique (fields y fm o)
    unfolding has_part str_eq
    fields-IsUnique = (refl, (refl, (refl, (refl, (refl, (refl, tt))))))

    fields-IsKnown : All IsKnown (keys (fields y fm o))
    unfolding has_part str_eq
    fields-IsKnown = (refl, (refl, (refl, (refl, (refl, (refl, tt))))))

    written-IsUnique : IsUnique written
    written-IsUnique =
        IsUnique-with_fields (fields y fm o) m fields-IsUnique fields-IsKnown unique extra

    written-IsReadable : All IsReadable written
    written-IsReadable =
        let (type, (title, (description, (resource, (tags, (timestamp, _)))))) =
          laws.faithful_keys in
        All-with_fields IsReadable (fields y fm o) m
          (
            (λ n h. (type, subst Sound (cc h) (laws.of_scalar fm.type faithful.type).0)),
            (
              (λ n h. (title, scalar_field-Sound fm.title faithful.title n h)),
              (
                (λ n h. (description, scalar_field-Sound fm.description faithful.description n h)),
                (
                  (λ n h. (resource, scalar_field-Sound fm.resource faithful.resource n h)),
                  (
                    (λ n h. (tags, seq_field-Sound fm.tags faithful.tags n h)),
                    ((λ n h. (timestamp, sound n h)), tt),
                  ),
                ),
              ),
            ),
          )
          readable

    -- The entry that is written under a known key.
    lookup-written : (k : Bytes) → IsKnown k → lookup k written ≡ field k (fields y fm o)
    lookup-written k known =
        lookup-with_fields k (fields y fm o) m fields-IsUnique (has_part-extra m k extra known)

    written-standard :
        (text : Bytes)
        → y.encode (y.mapping (flat y written)) ≡ ok text
        → y.unmarshal_standard (trim_right text newline) ≡ ok (standard_of fm)
    unfolding has_part str_eq
    written-standard text h =
        laws.reads_standard written text (standard_of fm) written-IsReadable written-IsUnique
          (rw (lookup-written (codes "type") refl) (laws.of_scalar fm.type faithful.type).1)
          (rw (lookup-written (codes "title") refl) (scalar_field-read fm.title faithful.title))
          (rw (lookup-written (codes "description") refl)
            (scalar_field-read fm.description faithful.description))
          (rw (lookup-written (codes "resource") refl)
            (scalar_field-read fm.resource faithful.resource))
          (rw (lookup-written (codes "tags") refl) (seq_field-read fm.tags faithful.tags))
          (rw (lookup-written (codes "timestamp") refl) reads) h

    written-parsed :
        (text : Bytes)
        → values value_of m ≡ fm.extra
        → y.encode (y.mapping (flat y written)) ≡ ok text
        → parse_frontmatter y (trim_right text newline) ≡ ok fm
    unfolding parse_frontmatter
    written-parsed text same h =
        rw
          (
            laws.not_blank written text h,
            written-standard text h,
            laws.reads_map written text written-IsReadable written-IsUnique h,
            extra_of-with_fields value_of (fields y fm o) m fields-IsKnown extra,
            same,
          )
          refl

  -- The text of a frontmatter is read back as that frontmatter, and has no line that is a delimiter.
  pub yaml_text-parsed :
      (fm : Frontmatter) (yaml : Bytes)
      → IsFaithful y laws fm
      → yaml_text y fm ≡ ok yaml
      → (parse_frontmatter y yaml ≡ ok fm) × All IsInner (split yaml newline)
  unfolding yaml_text mapping_of
  yaml_text-parsed fm yaml f h =
      let (n, mapped, h₁) = >>=-eq-ok (mapping_of y fm) _ yaml h in
      let (text, encoded, h₂) = >>=-eq-ok (y.encode n) _ yaml h₁ in
      let (ns, stamped, h₃) = >>=-eq-ok (timestamp_entry y fm.timestamp) _ n mapped in
      let (es, extras, h₄) = >>=-eq-ok (extra_entries y fm.extra) _ n h₃ in
      let (o, stamp, sound, reads) = timestamp_entry-flat y laws fm.timestamp ns stamped in
      let (m, flattened, (ks, vs, readable)) =
        extra_entries-flat y laws fm.extra es f.keys_faithful extras in
      let trimmed = ok_injective _ yaml (>>-eq-ok y.close (ok (trim_right text newline)) yaml h₂) in
      let extra = subst (All IsExtra) (sym ks) f.keys_extra in
      let unique = subst NoRepeat (sym ks) f.keys_unique in
      let content =
        sym (ok_injective _ n h₄)
        ∙ rw (stamp, flattened) (ap y.mapping (plain_entries-flat y fm o m)) in
      let written = subst (λ x. y.encode x ≡ ok text) content encoded in
      rw (← trimmed) (
        written-parsed fm f o m sound reads extra unique readable text vs written,
        laws.no_delimiter (with_fields (fields y fm o) m) text
            (written-IsReadable fm f o m sound reads extra unique readable) written,
      )

  -- A document that SerializeConcept makes of a concept with a faithful frontmatter parses to a concept with
  -- the same frontmatter, and with the body that has a newline at its end and not one at its start.
  pub parse_concept-serialize_concept :
      (c : Concept) (text : Bytes)
      → IsFaithful y laws c.frontmatter
      → serialize_concept y c ≡ ok text
      → parse_concept y text
        ≡ ok (record {
          ref = record { bundle_alias = []; relative_path = [] };
          frontmatter = c.frontmatter;
          body = trim_prefix (ended c.body) (newline ∷ []);
          outbound_links = [];
        })
  unfolding serialize_concept parse_concept
  parse_concept-serialize_concept c text f h =
      let (yaml, made, h₁) = >>=-eq-ok (yaml_text y c.frontmatter) _ text h in
      let (parsed, inner) = yaml_text-parsed c.frontmatter yaml f made in
      rw (← ok_injective _ text h₁, split_frontmatter-document yaml c.body inner, parsed) refl
