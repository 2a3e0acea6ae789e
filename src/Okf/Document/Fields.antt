-- ===== src/Okf/Document/Fields.antt =====
-- The entries of a frontmatter as a map from keys to nodes, and what is read back from it.
use go_tahu_okf_semantic_mcp.Prelude.{
  ◌≡◌, refl, ◌∙◌, true, false, Bool-cases, inl, inr, Option, none, some, [], ◌∷◌, List, map, arith,
  Bytes, All, str_eq, str_eq_sound, if◌then◌else◌, subst,
}
use go_tahu_okf_semantic_mcp.Go.Strings.{has_part}
use go_tahu_okf_semantic_mcp.Go.Map.{Map, lookup}
use go_tahu_okf_semantic_mcp.Okf.Document.{known_fm_keys, extra_of}

abbrev pub IsKnown : Bytes → Type 0
IsKnown k = has_part known_fm_keys k ≡ true

abbrev pub IsExtra : Bytes → Type 0
IsExtra k = has_part known_fm_keys k ≡ false

abbrev pub keys : {W : Type 0} → Map W → List Bytes
keys {W = W} m = map (λ (e : Bytes × W). e.0) m

-- No text stands twice.
abbrev pub NoRepeat : List Bytes → Type 0
NoRepeat [] = Unit
NoRepeat (k ∷ ks) = (has_part ks k ≡ false) × NoRepeat ks

abbrev pub IsUnique : {W : Type 0} → Map W → Type 0
IsUnique m = NoRepeat (keys m)

pub has_part-extra :
    {W : Type 0} (m : Map W) (j : Bytes)
    → All IsExtra (keys m)
    → IsKnown j
    → has_part (keys m) j ≡ false
unfolding has_part
has_part-extra [] j h known = refl
has_part-extra ((k, v) ∷ m) j (extra, h) known = elim (Bool-cases (str_eq k j)) [
  | inl e ↦ absurd (cc (extra, known, str_eq_sound k j e))
  | inr n ↦ rw n (has_part-extra m j h known)
]

lookup-absent :
    {W : Type 0} (k : Bytes) (m : Map W) → has_part (keys m) k ≡ false → lookup k m ≡ none
unfolding lookup has_part
lookup-absent k [] h = refl
lookup-absent k ((j, v) ∷ m) h = ground (arith, lookup-absent k m)

module _ {V : Type 0} where
  -- Optional entries in front of others.
  abbrev pub entry : Bytes → Option V → Map V → Map V
  entry k none m = m
  entry k (some v) m = (k, v) ∷ m

  abbrev pub with_fields : Map (Option V) → Map V → Map V
  with_fields [] m = m
  with_fields ((k, o) ∷ fs) m = entry k o (with_fields fs m)

  -- The entry of a key among the optional ones.
  abbrev pub field : Bytes → Map (Option V) → Option V
  field k [] = none
  field k ((j, o) ∷ fs) = if str_eq j k then o else field k fs

  has_part-with_fields :
      (fs : Map (Option V)) (m : Map V) (k : Bytes)
      → has_part (keys fs) k ≡ false
      → has_part (keys m) k ≡ false
      → has_part (keys (with_fields fs m)) k ≡ false
  unfolding has_part
  has_part-with_fields [] m k h g = g
  has_part-with_fields ((j, none) ∷ fs) m k h g = has_part-with_fields fs m k (ground arith) g
  has_part-with_fields ((j, some v) ∷ fs) m k h g = ground (arith, has_part-with_fields fs m k)

  lookup-entry :
      (j k : Bytes) (o : Option V) (m : Map V)
      → (str_eq j k ≡ true → lookup k m ≡ none)
      → lookup k (entry j o m) ≡ (if str_eq j k then o else lookup k m)
  unfolding lookup
  lookup-entry j k none m h = ground arith
  lookup-entry j k (some v) m h = refl

  pub lookup-with_fields :
      (k : Bytes) (fs : Map (Option V)) (m : Map V)
      → IsUnique fs
      → has_part (keys m) k ≡ false
      → lookup k (with_fields fs m) ≡ field k fs
  lookup-with_fields k [] m u h = lookup-absent k m h
  lookup-with_fields k ((j, o) ∷ fs) m (new, u) h =
      let gone = λ (e : str_eq j k ≡ true). lookup-absent k (with_fields fs m) (
        has_part-with_fields fs m k
          (subst (λ x. has_part (keys fs) x ≡ false) (str_eq_sound j k e) new) h) in
      lookup-entry j k o (with_fields fs m) gone ∙ rw (lookup-with_fields k fs m u h) refl

  pub IsUnique-with_fields :
      (fs : Map (Option V)) (m : Map V)
      → IsUnique fs
      → All IsKnown (keys fs)
      → IsUnique m
      → All IsExtra (keys m)
      → IsUnique (with_fields fs m)
  IsUnique-with_fields [] m u known v extra = v
  IsUnique-with_fields ((j, none) ∷ fs) m (new, u) (k, known) v extra =
      IsUnique-with_fields fs m u known v extra
  IsUnique-with_fields ((j, some w) ∷ fs) m (new, u) (k, known) v extra = (
    has_part-with_fields fs m j new (has_part-extra m j extra k),
    IsUnique-with_fields fs m u known v extra,
  )

  pub All-with_fields :
      (P : Bytes × V → Type 0) (fs : Map (Option V)) (m : Map V)
      → All (λ (f : Bytes × Option V). (v : V) → f.1 ≡ some v → P (f.0, v)) fs
      → All P m
      → All P (with_fields fs m)
  All-with_fields P [] m hs h = h
  All-with_fields P ((k, none) ∷ fs) m (p, hs) h = All-with_fields P fs m hs h
  All-with_fields P ((k, some v) ∷ fs) m (p, hs) h = (p v refl, All-with_fields P fs m hs h)

  -- The entries with their values read.
  abbrev pub values : (V → Bytes) → Map V → Map Bytes
  values g [] = []
  values g ((k, v) ∷ m) = (k, g v) ∷ values g m

  pub extra_of-with_fields :
      (g : V → Bytes) (fs : Map (Option V)) (m : Map V)
      → All IsKnown (keys fs)
      → All IsExtra (keys m)
      → extra_of (values g (with_fields fs m)) ≡ values g m
  unfolding extra_of
  extra_of-with_fields g [] [] known extra = refl
  extra_of-with_fields g [] ((k, v) ∷ m) known (e, extra) =
      rw (e, extra_of-with_fields g [] m known extra) refl
  extra_of-with_fields g ((k, none) ∷ fs) m (p, known) extra =
      extra_of-with_fields g fs m known extra
  extra_of-with_fields g ((k, some v) ∷ fs) m (p, known) extra =
      rw p (extra_of-with_fields g fs m known extra)
