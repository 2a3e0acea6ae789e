-- ===== src/Registry/Contract.antt =====
-- The registry against the contract of AddBundle.
use go_tahu_okf_semantic_mcp.Prelude.{
  ◌≡◌, ◌≢◌, refl, ap, sym, ◌∙◌, Option, none, some, [], ◌∷◌, ◌++◌, List, map, All, Bytes,
}
use go_tahu_okf_semantic_mcp.Exec.{
  Error, not_found, Result, ok, err, Exec, ok_injective, pure, continue,
}
use go_tahu_okf_semantic_mcp.Domain.Types.{Time, BundleEntry}
use go_tahu_okf_semantic_mcp.Domain.Interfaces.{BundleRepository, NodeRepository}
use go_tahu_okf_semantic_mcp.UseCase.Bundle.{Disk, BundleService}
use go_tahu_okf_semantic_mcp.UseCase.Bundle.Uniqueness.{IsBundleStore}
use go_tahu_okf_semantic_mcp.Registry.{
  YamlEntry, YamlFile, Yaml, Os, to_yaml, from_yaml, find_entry, put_entry, parsed, found_entry,
  load, get, put, delete, list,
}
use go_tahu_okf_semantic_mcp.Registry.Entries.{
  find_entry-none, put_entry-new, map-snoc, from_yaml-to_yaml,
}
use go_tahu_okf_semantic_mcp.Registry.Atomicity.{answer, IsFileSystem, IsAtomic}
use go_tahu_okf_semantic_mcp.Registry.Refinement.{
  IsYaml, registry_of, Updated, with_lock-IsAtomic, put-Updated, entry_answer, found_entry_lem,
}

module _ {S : Type 0} (os : Os S) (yaml : Yaml) (path : Bytes) (content : S → Bytes → Option Bytes)
    (fs : IsFileSystem os path content) (codec : IsYaml yaml) where
  abbrev entries_of : Result YamlFile → List BundleEntry
  entries_of (ok es) = map from_yaml es
  entries_of (err e) = []

  -- The entries of the registry file; none where it cannot be read.
  abbrev pub entries_at : S → List BundleEntry
  entries_at s = entries_of (registry_of yaml (content s path))

  abbrev answer_of : Bytes → Result YamlFile → Result BundleEntry
  answer_of a (ok es) = entry_answer os yaml path content fs codec (find_entry a es)
  answer_of a (err e) = err e

  parsed-at :
      (o : Option Bytes) (s : S) → parsed os yaml path (answer o) s ≡ (registry_of yaml o, s)
  parsed-at none s = refl
  parsed-at (some text) s = refl

  load-at : (s : S) → load os yaml path s ≡ (registry_of yaml (content s path), s)
  unfolding load
  load-at s = rw (fs.read s path) (parsed-at (content s path) s)

  found-at :
      (a : Bytes) (r : Result YamlFile) (s : S)
      → continue r (λ reg. found_entry os yaml path (find_entry a reg)) s ≡ (answer_of a r, s)
  found-at a (ok es) s = found_entry_lem os yaml path content fs codec (find_entry a es) s
  found-at a (err e) s = refl

  get-at :
      (a : Bytes) (s : S)
      → get os yaml path a s ≡ (answer_of a (registry_of yaml (content s path)), s)
  unfolding get
  get-at a s = rw (load-at s) (found-at a (registry_of yaml (content s path)) s)

  answer-none :
      (o : Option YamlEntry)
      → entry_answer os yaml path content fs codec o ≡ err not_found
      → o ≡ none
  answer-none none h = refl
  answer-none (some y) h = absurd (cc h)

  get-missing :
      (a : Bytes) (r : Result YamlFile)
      → answer_of a r ≡ err not_found
      → All (λ (b : BundleEntry). b.alias ≢ a) (entries_of r)
  get-missing a (ok es) h = find_entry-none a es (answer-none (find_entry a es) h)
  get-missing a (err e) h = tt

  listed_of : Result YamlFile → Result (List BundleEntry)
  listed_of (ok es) = ok (map from_yaml es)
  listed_of (err e) = err e

  listed-at :
      (r : Result YamlFile) (s : S)
      → continue r (λ reg. pure (map from_yaml reg)) s ≡ (listed_of r, s)
  unfolding listed_of
  listed-at (ok es) s = refl
  listed-at (err e) s = refl

  list-at : (s : S) → list os yaml path s ≡ (listed_of (registry_of yaml (content s path)), s)
  unfolding list
  list-at s = rw (load-at s) (listed-at (registry_of yaml (content s path)) s)

  listed-entries :
      (r : Result YamlFile) (es : List BundleEntry) → listed_of r ≡ ok es → es ≡ entries_of r
  unfolding listed_of
  listed-entries (ok ys) es h = sym (ok_injective (map from_yaml ys) es h)
  listed-entries (err e) es h = absurd (cc h)

  -- Put into a registry that cannot be read: the file stays, whatever the new one would be.
  broken-IsAtomic :
      (new : Option Bytes) (e : BundleEntry) (s : S) (x : Error)
      → registry_of yaml (content s path) ≡ err x
      → IsAtomic path content (content s path) new (put os yaml path e s)
  unfolding put
  broken-IsAtomic new e s x h =
      with_lock-IsAtomic os yaml path content fs codec (content s path) new _ s refl
        λ t same. rw (load-at t, ap (registry_of yaml) same, h) same

  IsAtomic-twice :
      (old : Option Bytes) (m : Result (Unit {0}) × S)
      → IsAtomic path content old none m
      → IsAtomic path content old (some []) m
      → (m.0 ≢ ok tt) × (content m.1 path ≡ old)
  IsAtomic-twice old (ok u, t) h k = absurd (cc (h, k))
  IsAtomic-twice old (err e, t) h k = (λ c. cc c, h)

  Updated-ok :
      (es es' : YamlFile) (m : Result (Unit {0}) × S)
      → m.0 ≡ ok tt
      → Updated os yaml path content fs codec es es' m
      → registry_of yaml (content m.1 path) ≡ ok es'
  Updated-ok es es' (ok u, t) h k = k
  Updated-ok es es' (err e, t) h k = absurd (cc h)

  Updated-err :
      (es es' : YamlFile) (m : Result (Unit {0}) × S) (x : Error)
      → m.0 ≡ err x
      → Updated os yaml path content fs codec es es' m
      → registry_of yaml (content m.1 path) ≡ ok es
  Updated-err es es' (ok u, t) x h k = absurd (cc h)
  Updated-err es es' (err e, t) x h k = k

  put-adds :
      (s : S) (e : BundleEntry) (r : Result YamlFile)
      → registry_of yaml (content s path) ≡ r
      → e.concept_count ≡ 0
      → All (λ (b : BundleEntry). b.alias ≢ e.alias) (entries_of r)
      → (put os yaml path e s).0 ≡ ok tt
      → entries_at (put os yaml path e s).1 ≡ entries_of r ++ e ∷ []
  put-adds s e (ok es) is count new done =
      let after =
        Updated-ok es (put_entry (to_yaml e) es) (put os yaml path e s) done
          (put-Updated os yaml path content fs codec e s es is) in
      rw (after, put_entry-new (to_yaml e) es (unfold to_yaml in new), map-snoc es (to_yaml e))
        (ap (λ b. map from_yaml es ++ b ∷ []) (from_yaml-to_yaml e count))
  put-adds s e (err x) is count new done = absurd (
      (IsAtomic-twice (content s path) (put os yaml path e s) (broken-IsAtomic none e s x is)
          (broken-IsAtomic (some []) e s x is)).0
        done)

  put-fails :
      (s : S) (e : BundleEntry) (x : Error) (r : Result YamlFile)
      → registry_of yaml (content s path) ≡ r
      → (put os yaml path e s).0 ≡ err x
      → entries_at (put os yaml path e s).1 ≡ entries_of r
  put-fails s e x (ok es) is failed = ap entries_of (
      Updated-err es (put_entry (to_yaml e) es) (put os yaml path e s) x failed
        (put-Updated os yaml path content fs codec e s es is))
  put-fails s e x (err y) is failed =
      let (_, kept) =
        IsAtomic-twice (content s path) (put os yaml path e s) (broken-IsAtomic none e s y is)
          (broken-IsAtomic (some []) e s y is) in
      ap entries_of (ap (registry_of yaml) kept ∙ is)

  -- The registry as the use cases see it.
  abbrev pub bundle_repository : BundleRepository S
  bundle_repository = record {
    get = get os yaml path;
    put = put os yaml path;
    delete = delete os yaml path;
    list = list os yaml path;
  }

  module _ (nodes : NodeRepository S) (disk : Disk S) (now : Exec S Time)
      (stat_keeps : (t : S) (p : Bytes) → content (disk.stat p t).1 path ≡ content t path)
      (walk_keeps : (t : S) (p : Bytes) → content (disk.walk p t).1 path ≡ content t path)
      (now_keeps : (t : S) → content (now t).1 path ≡ content t path) where
    abbrev pub service : BundleService S
    service = record {
      bundle_repository = bundle_repository;
      node_repository = nodes;
      disk = disk;
      now = now;
    }

    -- Over a file system and a YAML library that keep to their laws, and where stat, a walk and the clock leave the registry file, the
    -- registry keeps to IsBundleStore: its entries are those of the file, and none where it cannot be read.
    pub bundle_repository-IsBundleStore : IsBundleStore service entries_at
    bundle_repository-IsBundleStore = record {
      get_missing = λ t a h.
          get-missing a (registry_of yaml (content t path))
            (sym (ap (λ (m : Result BundleEntry × S). m.0) (get-at a t)) ∙ h);
      get_keeps = λ t a. (ap (λ (m : Result BundleEntry × S). entries_at m.1) (get-at a t));
      list_all = λ t es h.
          listed-entries (registry_of yaml (content t path)) es
            (sym (ap (λ (m : Result (List BundleEntry) × S). m.0) (list-at t)) ∙ h);
      list_keeps = λ t. (ap (λ (m : Result (List BundleEntry) × S). entries_at m.1) (list-at t));
      put_adds =
          λ t e count new h. (put-adds t e (registry_of yaml (content t path)) refl count new h);
      put_fails = λ t e x h. (put-fails t e x (registry_of yaml (content t path)) refl h);
      stat_keeps = λ t p. ap (λ o. entries_of (registry_of yaml o)) (stat_keeps t p);
      walk_keeps = λ t p. ap (λ o. entries_of (registry_of yaml o)) (walk_keeps t p);
      now_keeps = λ t. ap (λ o. entries_of (registry_of yaml o)) (now_keeps t);
    }
