-- ===== src/Tests/Frontmatter.antt =====
-- A YAML library that writes the frontmatter of one document, and that document.
use go_tahu_okf_semantic_mcp.Prelude.{
  ◌≡◌, ◌≢◌, refl, ap, sym, ◌∙◌, subst, Bool, true, false, Option, none, some, ◌+◌, ◌-◌, [], ◌∷◌,
  List, map, arith, Bytes, codes, All, All-append, All-map, str_eq, str_eq_sound, if◌then◌else◌,
}
use go_tahu_okf_semantic_mcp.Exec.{Error, ok, err, other, ok_injective}
use go_tahu_okf_semantic_mcp.Go.Strings.{
  Lacks, Lacks-contains_byte, contains_byte, split, join, split-join, trim_right, has_part,
}
use go_tahu_okf_semantic_mcp.Go.Space.{trim_space}
use go_tahu_okf_semantic_mcp.Go.Map.{Map, lookup}
use go_tahu_okf_semantic_mcp.Domain.Types.{Time, Concept}
use go_tahu_okf_semantic_mcp.Okf.Document.{StandardFrontmatter, Yaml, value_to_node, is_delimiter}
use go_tahu_okf_semantic_mcp.Okf.Document.Laws.{flat, read, IsYaml, IsFaithful}

-- Keys and values with 1000 between them, and the texts of a sequence with 1001 before each.
abbrev sample_node : Bytes
sample_node =
    join
      (codes "type"
        ∷ codes "note"
        ∷ codes "tags"
        ∷ (1001 ∷ codes "ops")
        ∷ codes "owner"
        ∷ codes "ann"
        ∷ [])
      1000

abbrev sample_text : Bytes
sample_text = codes "type: note\ntags:\n  - ops\nowner: ann\n"

abbrev sample_standard : StandardFrontmatter
sample_standard = record {
  type = codes "note";
  title = [];
  description = [];
  resource = [];
  tags = codes "ops" ∷ [];
  timestamp = 0;
}

abbrev sample_map : Map Bytes
sample_map =
    (codes "type", codes "note")
    ∷ (codes "tags", 1001 ∷ codes "ops")
    ∷ (codes "owner", codes "ann")
    ∷ []

abbrev pub one_document : Yaml Bytes
one_document = record {
  scalar = λ b. b;
  null = [];
  sequence = λ ns. join ([] ∷ ns) 1001;
  mapping = λ ns. join ns 1000;
  encode = λ n. if str_eq n sample_node then ok sample_text else err (other "unknown node");
  close = ok tt;
  marshal_time = λ t. ok ((2000 + t) ∷ []);
  marshal_value = λ v. if contains_byte v 1000 then err (other "unknown value") else ok v;
  unmarshal_node = λ b. ok (b ∷ []);
  unmarshal_standard = λ b. ok sample_standard;
  unmarshal_map = λ b. ok sample_map;
}

abbrev Plain : Bytes → Type 0
Plain b = Lacks 1000 b × Lacks 1001 b

abbrev unflat : List Bytes → Map Bytes
unflat [] = []
unflat (k ∷ []) = []
unflat (k ∷ v ∷ m) = (k, v) ∷ unflat m

unflat-flat : (m : Map Bytes) → unflat (flat one_document m) ≡ m
unflat-flat [] = refl
unflat-flat ((k, v) ∷ m) = ap (λ x. (k, v) ∷ x) (unflat-flat m)

flat-Lacks :
    (m : Map Bytes)
    → All (λ (e : Bytes × Bytes). Plain e.0 × Lacks 1000 e.1) m
    → All (Lacks 1000) (flat one_document m)
flat-Lacks [] h = tt
flat-Lacks ((k, v) ∷ m) (((p, q), r), h) = (p, (r, flat-Lacks m h))

guarded-ok :
    (b : Bool) (x y : Bytes) (e : Error) → (if b then ok x else err e) ≡ ok y → (b ≡ true) × (x ≡ y)
guarded-ok true x y e h = (refl, ok_injective x y h)
guarded-ok false x y e h = absurd (cc h)

empty-not-sample : [] ≢ sample_node
unfolding join
empty-not-sample h = cc

sample_map_only :
    (m : Map Bytes) (text : Bytes)
    → All (λ (e : Bytes × Bytes). Plain e.0 × Lacks 1000 e.1) m
    → one_document.encode (one_document.mapping (flat one_document m)) ≡ ok text
    → m ≡ sample_map
unfolding split join
sample_map_only m text h e =
    let (same, _) =
      guarded-ok (str_eq (join (flat one_document m) 1000) sample_node) sample_text text
        (other "unknown node") e in
    let joined = str_eq_sound (join (flat one_document m) 1000) sample_node same in
    let some_entry : flat one_document m ≢ [] =
      λ i. absurd (empty-not-sample (subst (λ x. join x 1000 ≡ sample_node) i joined)) in
    let parts =
      sym (split-join (flat one_document m) 1000 some_entry (flat-Lacks m h))
      ∙ ap (λ x. split x 1000) joined in
    sym (unflat-flat m) ∙ ap unflat parts

map-same : (bs : List Bytes) → map (λ (b : Bytes). b) bs ≡ bs
map-same [] = refl
map-same (b ∷ bs) = ap (λ x. b ∷ x) (map-same bs)

join-Lacks : (ps : List Bytes) → All (Lacks 1000) ps → Lacks 1000 (join ps 1001)
unfolding join
join-Lacks [] h = tt
join-Lacks (p ∷ []) (k, h) = k
join-Lacks (p ∷ q ∷ ps) (k, h) =
    All-append (λ c. c ≢ 1000) p (1001 ∷ join (q ∷ ps) 1001) k
      ((λ e. omega (arith, e)), join-Lacks (q ∷ ps) h)

but_first : List Bytes → Option (List Bytes)
but_first [] = none
but_first (p ∷ ps) = some ps

sequence_texts : Bytes → Option (List Bytes)
sequence_texts n = but_first (split n 1001)

sequence-read :
    (bs : List Bytes)
    → All Plain bs
    → Lacks 1000 (join ([] ∷ bs) 1001) × (sequence_texts (join ([] ∷ bs) 1001) ≡ some bs)
unfolding sequence_texts but_first
sequence-read bs h =
    let left = All-map Plain (Lacks 1000) (λ b p. p.0) bs h in
    let right = All-map Plain (Lacks 1001) (λ b p. p.1) bs h in
    (join-Lacks ([] ∷ bs) (tt, left), rw (split-join ([] ∷ bs) 1001 (λ e. cc e) (tt, right)) refl)

first_time : Bytes → Option Time
first_time [] = none
first_time (c ∷ s) = some (c - 2000)

time-read :
    (t : Time) (n : Bytes) → ok ((2000 + t) ∷ []) ≡ ok n → Lacks 1000 n × (first_time n ≡ some t)
unfolding first_time
time-read t n h =
    subst (λ x. Lacks 1000 x × (first_time x ≡ some t)) (ok_injective ((2000 + t) ∷ []) n h)
      (((λ e. omega (arith, e)), tt), ap some (omega arith))

value-back :
    (b : Bool) (v n : Bytes)
    → value_to_node one_document (if b then err (other "unknown value") else ok v) ≡ ok n
    → (b ≡ false) × (v ≡ n)
unfolding value_to_node
value-back true v n h = absurd (cc h)
value-back false v n h = (refl, ok_injective v n h)

value-read :
    (v n : Bytes)
    → value_to_node one_document (one_document.marshal_value v) ≡ ok n
    → Lacks 1000 n × (n ≡ v)
unfolding value_to_node
value-read v n h =
    let (clean, same) = value-back (contains_byte v 1000) v n h in
    subst (λ x. Lacks 1000 x × (x ≡ v)) same (Lacks-contains_byte v 1000 clean, refl)

plain : (b : Bytes) → contains_byte b 1000 ≡ false → contains_byte b 1001 ≡ false → Plain b
plain b h k = (Lacks-contains_byte b 1000 h, Lacks-contains_byte b 1001 k)

abbrev IsRead : StandardFrontmatter → Map Bytes → Type 0
IsRead std m =
    (read [] (λ (n : Bytes). some n) (lookup (codes "type") m) ≡ some std.type)
    × (read [] (λ (n : Bytes). some n) (lookup (codes "title") m) ≡ some std.title)
    × (read [] (λ (n : Bytes). some n) (lookup (codes "description") m) ≡ some std.description)
    × (read [] (λ (n : Bytes). some n) (lookup (codes "resource") m) ≡ some std.resource)
    × (read [] sequence_texts (lookup (codes "tags") m) ≡ some std.tags)
    × (read 0 first_time (lookup (codes "timestamp") m) ≡ some std.timestamp)

some_injective : {A : Type 0} (x y : A) → some x ≡ some y → x ≡ y
some_injective x y h = cc h

sample-read : (std : StandardFrontmatter) → IsRead std sample_map → sample_standard ≡ std
unfolding lookup str_eq sequence_texts but_first split
sample-read std (a, b, c, d, e, f) =
    let same : sample_standard ≡ record {
      type = std.type;
      title = std.title;
      description = std.description;
      resource = std.resource;
      tags = std.tags;
      timestamp = std.timestamp;
    } =
      cc (
        some_injective _ _ a,
        some_injective _ _ b,
        some_injective _ _ c,
        some_injective _ _ d,
        some_injective _ _ e,
        some_injective _ _ f,
      ) in
    same

encoded-text : (n text : Bytes) → one_document.encode n ≡ ok text → sample_text ≡ text
encoded-text n text h =
    (guarded-ok (str_eq n sample_node) sample_text text (other "unknown node") h).1

pub one_document-IsYaml : IsYaml one_document
unfolding contains_byte value_to_node trim_space trim_right split is_delimiter str_eq first_time
one_document-IsYaml = record {
  Faithful = Plain;
  Sound = Lacks 1000;
  text_of = λ n. some n;
  texts_of = sequence_texts;
  time_of = first_time;
  value_of = λ n. n;
  faithful_keys = (
    plain (codes "type") refl refl,
    (
      plain (codes "title") refl refl,
      (
        plain (codes "description") refl refl,
        (
          plain (codes "resource") refl refl,
          (plain (codes "tags") refl refl, (plain (codes "timestamp") refl refl, tt)),
        ),
      ),
    ),
  );
  of_scalar = λ b p. (p.0, refl);
  of_sequence = λ bs h. rw (map-same bs) (sequence-read bs h);
  of_time = λ t n h. time-read t n h;
  of_value = λ v n h. value-read v n h;
  not_blank = λ m text h. rw (← encoded-text (join (flat one_document m) 1000) text h) refl;
  no_delimiter = λ m text h e.
      rw (← encoded-text (join (flat one_document m) 1000) text e)
        (refl, (refl, (refl, (refl, tt))));
  reads_standard = λ m text std h u a b c d e f g.
      ap ok (sample-read std (subst (IsRead std) (sample_map_only m text h g) (a, b, c, d, e, f)));
  reads_map = λ m text h u e. rw (sample_map_only m text h e) refl;
}

abbrev pub sample_concept : Concept
sample_concept = record {
  ref = record { bundle_alias = codes "k"; relative_path = codes "ops.md" };
  frontmatter = record {
    type = codes "note";
    title = [];
    description = [];
    resource = [];
    tags = codes "ops" ∷ [];
    timestamp = 0;
    extra = (codes "owner", codes "ann") ∷ [];
  };
  body = codes "\nhello";
  outbound_links = [];
}

pub sample-IsFaithful : IsFaithful one_document one_document-IsYaml sample_concept.frontmatter
unfolding has_part str_eq contains_byte one_document-IsYaml
sample-IsFaithful = record {
  type = plain (codes "note") refl refl;
  title = (tt, tt);
  description = (tt, tt);
  resource = (tt, tt);
  tags = (plain (codes "ops") refl refl, tt);
  keys_faithful = (plain (codes "owner") refl refl, tt);
  keys_extra = (refl, tt);
  keys_unique = (refl, tt);
}
