-- ===== src/Okf/Document/Entries.antt =====
-- The entries that SerializeConcept writes, as a map from keys to nodes.
use go_tahu_okf_semantic_mcp.Prelude.{
  ◌≡◌, refl, ap, sym, ◌∙◌, Bool-cases, inl, inr, Option, none, some, [], ◌∷◌, ◌++◌, append_assoc,
  List, map, arith, Bytes, codes, All, if◌then◌else◌, subst, ◌==◌,
}
use go_tahu_okf_semantic_mcp.Exec.{ok, ok_injective}
use go_tahu_okf_semantic_mcp.Exec.Try.{>>=-eq-ok}
use go_tahu_okf_semantic_mcp.Go.Map.{Map}
use go_tahu_okf_semantic_mcp.Domain.Types.{Time, Frontmatter}
use go_tahu_okf_semantic_mcp.Okf.Document.{
  Yaml, value_to_node, scalar_entry, seq_entry, stamp_nodes, timestamp_entry, extra_entries,
  plain_entries,
}
use go_tahu_okf_semantic_mcp.Okf.Document.Fields.{keys, entry, with_fields, values}
use go_tahu_okf_semantic_mcp.Okf.Document.Laws.{flat, read, IsYaml}

module _ {N : Type 0} (y : Yaml N) where
  abbrev pub scalar_field : Bytes → Option N
  scalar_field [] = none
  scalar_field (c ∷ s) = some (y.scalar (c ∷ s))

  abbrev pub seq_field : List Bytes → Option N
  seq_field [] = none
  seq_field (v ∷ vs) = some (y.sequence (map y.scalar (v ∷ vs)))

  -- The known fields in the order in which they are written.
  abbrev pub fields : Frontmatter → Option N → Map (Option N)
  fields fm stamp =
      (codes "type", some (y.scalar fm.type))
      ∷ (codes "title", scalar_field fm.title)
      ∷ (codes "description", scalar_field fm.description)
      ∷ (codes "resource", scalar_field fm.resource)
      ∷ (codes "tags", seq_field fm.tags)
      ∷ (codes "timestamp", stamp)
      ∷ []

  flat-entry :
      (k : Bytes) (o : Option N) (m : Map N)
      → flat y (entry k o []) ++ flat y m ≡ flat y (entry k o m)
  flat-entry k none m = refl
  flat-entry k (some n) m = refl

  scalar_entry-flat : (k v : Bytes) → scalar_entry y k v ≡ flat y (entry k (scalar_field v) [])
  scalar_entry-flat k [] = refl
  scalar_entry-flat k (c ∷ v) = refl

  seq_entry-flat :
      (k : Bytes) (vs : List Bytes) → seq_entry y k vs ≡ flat y (entry k (seq_field vs) [])
  seq_entry-flat k [] = refl
  seq_entry-flat k (v ∷ vs) = refl

  pub plain_entries-flat :
      (fm : Frontmatter) (stamp : Option N) (m : Map N)
      → plain_entries y fm ++ (flat y (entry (codes "timestamp") stamp []) ++ flat y m)
        ≡ flat y (with_fields (fields fm stamp) m)
  unfolding plain_entries
  plain_entries-flat fm stamp m =
      let stamped = entry (codes "timestamp") stamp m in
      let tagged = entry (codes "tags") (seq_field fm.tags) stamped in
      let located = entry (codes "resource") (scalar_field fm.resource) tagged in
      let described = entry (codes "description") (scalar_field fm.description) located in
      rw
        (
          scalar_entry-flat (codes "title") fm.title,
          scalar_entry-flat (codes "description") fm.description,
          scalar_entry-flat (codes "resource") fm.resource,
          seq_entry-flat (codes "tags") fm.tags,
          append_assoc,
          append_assoc,
          append_assoc,
          flat-entry (codes "timestamp") stamp m,
          flat-entry (codes "tags") (seq_field fm.tags) stamped,
          flat-entry (codes "resource") (scalar_field fm.resource) tagged,
          flat-entry (codes "description") (scalar_field fm.description) located,
          flat-entry (codes "title") (scalar_field fm.title) described,
        )
        refl

module _ {N : Type 0} (y : Yaml N) (laws : IsYaml y) where
  open laws use {Faithful, Sound, text_of, texts_of, time_of, value_of}

  abbrev pub IsStamp : Time → List N → Type 0
  IsStamp t ns =
      (o : Option N) × (ns ≡ flat y (entry (codes "timestamp") o []))
      × ((n : N) → o ≡ some n → Sound n)
      × (read 0 time_of o ≡ some t)

  pub timestamp_entry-flat : (t : Time) (ns : List N) → timestamp_entry y t ≡ ok ns → IsStamp t ns
  unfolding timestamp_entry
  timestamp_entry-flat t ns h = elim (Bool-cases (t == 0)) [
    | inl e ↦
        let none_written : ok [] ≡ ok ns =
          subst (λ b. (if b then ok [] else stamp_nodes y t) ≡ ok ns) e h in
        (none, sym (ok_injective [] ns none_written), λ n i. absurd (cc i), ap some (ground arith))
    | inr n ↦
        let (node, made, h₁) =
          >>=-eq-ok (value_to_node y (y.marshal_time t)) _ ns
            (subst (λ b. (if b then ok [] else stamp_nodes y t) ≡ ok ns) n h) in
        let (sound, reads) = laws.of_time t node made in
        (some node, sym (ok_injective _ ns h₁), λ n i. subst Sound (cc i) sound, reads)
  ]

  -- Extra entries whose keys are faithful become entries that read back.
  abbrev pub IsEncoded : Map Bytes → Map N → Type 0
  IsEncoded ex m =
      (keys m ≡ keys ex)
      × (values value_of m ≡ ex)
      × All (λ (e : Bytes × N). Faithful e.0 × Sound e.1) m

  pub extra_entries-flat :
      (ex : Map Bytes) (ns : List N)
      → All Faithful (keys ex)
      → extra_entries y ex ≡ ok ns
      → (m : Map N) × (ns ≡ flat y m) × IsEncoded ex m
  unfolding extra_entries
  extra_entries-flat [] ns f h = ([], sym (ok_injective [] ns h), (refl, refl, tt))
  extra_entries-flat ((k, v) ∷ ex) ns (f, fs) h =
      let (n, made, h₁) = >>=-eq-ok (value_to_node y (y.marshal_value v)) _ ns h in
      let (rest, made_rest, h₂) = >>=-eq-ok (extra_entries y ex) _ ns h₁ in
      let (m, same, (ks, vs, all)) = extra_entries-flat ex rest fs made_rest in
      let (sound, reads) = laws.of_value v n made in
      (
        (k, n) ∷ m,
        sym (ok_injective _ ns h₂) ∙ ap (λ x. y.scalar k ∷ n ∷ x) same,
        (ap (λ x. k ∷ x) ks, rw (reads, vs) refl, ((f, sound), all)),
      )
