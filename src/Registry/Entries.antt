-- ===== src/Registry/Entries.antt =====
-- The entries of the registry as a map from aliases, and their order.
use go_tahu_okf_semantic_mcp.Prelude.{
  ◌≡◌, ◌≢◌, refl, sym, ap, All, Bool-cases, inl, inr, str_eq_sound, none, some, [], ◌∷◌, ◌++◌, List,
  map, arith, if◌then◌else◌, Bytes, str_eq, str_eq_iff,
}
use go_tahu_okf_semantic_mcp.Go.Strings.{has_part}
use go_tahu_okf_semantic_mcp.Domain.Types.{BundleEntry}
use go_tahu_okf_semantic_mcp.Registry.{
  to_yaml, from_yaml, YamlEntry, YamlFile, find_entry, put_entry, delete_entry,
}

pub find_entry-put_entry :
    (y : YamlEntry) (a : Bytes) (es : YamlFile)
    → find_entry a (put_entry y es) ≡ (if str_eq y.alias a then some y else find_entry a es)
unfolding find_entry put_entry
find_entry-put_entry y a [] = refl
find_entry-put_entry y a (e ∷ es) = ground (
  arith,
  str_eq_iff e.alias y.alias,
  str_eq_iff e.alias a,
  str_eq_iff y.alias a,
  find_entry-put_entry y a es,
)

pub find_entry-delete_entry :
    (b a : Bytes) (es : YamlFile)
    → find_entry a (delete_entry b es) ≡ (if str_eq b a then none else find_entry a es)
unfolding find_entry delete_entry
find_entry-delete_entry b a [] = ground arith
find_entry-delete_entry b a (e ∷ es) = ground (
  arith,
  str_eq_iff e.alias b,
  str_eq_iff e.alias a,
  str_eq_iff b a,
  find_entry-delete_entry b a es,
)

abbrev pub aliases : YamlFile → List Bytes
aliases = map (λ (e : YamlEntry). e.alias)

-- Put keeps the order of the entries: an alias that is there keeps its place, a new one comes last.
aliases-put_entry :
    (y : YamlEntry) (es : YamlFile)
    → aliases (put_entry y es)
      ≡ (if has_part (aliases es) y.alias then aliases es else aliases es ++ y.alias ∷ [])
unfolding put_entry has_part
aliases-put_entry y [] = refl
aliases-put_entry y (e ∷ es) = ground (arith, str_eq_iff e.alias y.alias, aliases-put_entry y es)

-- A registry in which Get finds no entry has none of the alias.
pub find_entry-none :
    (a : Bytes) (es : YamlFile)
    → find_entry a es ≡ none
    → All (λ (b : BundleEntry). b.alias ≢ a) (map from_yaml es)
unfolding find_entry from_yaml
find_entry-none a [] h = tt
find_entry-none a (e ∷ es) h = elim (Bool-cases (str_eq e.alias a)) [
  | inl t ↦ absurd (cc (rw t at h))
  | inr n ↦ (λ k. cc ((str_eq_iff e.alias a).1 k, n), find_entry-none a es (rw n at h))
]

-- An entry of a new alias comes last.
pub put_entry-new :
    (y : YamlEntry) (es : YamlFile)
    → All (λ (b : BundleEntry). b.alias ≢ y.alias) (map from_yaml es)
    → put_entry y es ≡ es ++ y ∷ []
unfolding put_entry from_yaml
put_entry-new y [] h = refl
put_entry-new y (e ∷ es) (n, h) = elim (Bool-cases (str_eq e.alias y.alias)) [
  | inl t ↦ absurd (n (str_eq_sound e.alias y.alias t))
  | inr m ↦ rw m (ap (λ fs. e ∷ fs) (put_entry-new y es h))
]

pub map-snoc :
    (es : YamlFile) (y : YamlEntry)
    → map from_yaml (es ++ y ∷ []) ≡ map from_yaml es ++ from_yaml y ∷ []
map-snoc [] y = refl
map-snoc (e ∷ es) y = ap (λ fs. from_yaml e ∷ fs) (map-snoc es y)

pub from_yaml-to_yaml : (e : BundleEntry) → e.concept_count ≡ 0 → from_yaml (to_yaml e) ≡ e
unfolding from_yaml to_yaml
from_yaml-to_yaml e h = ap (λ n. record e { concept_count = n }) (sym h)
