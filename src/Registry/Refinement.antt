-- ===== src/Registry/Refinement.antt =====
-- The repository as a map from aliases to entries: Put and Delete update it, or leave it whole.
use go_tahu_okf_semantic_mcp.Prelude.{
  ◌≡◌, refl, ap, sym, ◌∙◌, subst, Bool, true, false, Option, none, some, [], Bytes, str_eq,
  if◌then◌else◌,
}
use go_tahu_okf_semantic_mcp.Exec.{not_found, Result, ok, err, Exec, continue, ◌>>=◌}
use go_tahu_okf_semantic_mcp.Domain.Types.{BundleEntry}
use go_tahu_okf_semantic_mcp.Registry.{
  YamlEntry, YamlFile, Yaml, Os, to_yaml, from_yaml, find_entry, put_entry, delete_entry, parsed,
  load, save, get, found_entry, with_lock, put, delete, lock_path,
}
use go_tahu_okf_semantic_mcp.Registry.Entries.{find_entry-put_entry, find_entry-delete_entry}
use go_tahu_okf_semantic_mcp.Registry.Atomicity.{
  IsFileSystem, answer, IsAtomic, IsAtomic-continue, save-IsAtomic,
}

-- Every registry can be written as YAML, and is read back from what was written.
pub record IsYaml (yaml : Yaml) : Type 0 where
  pub written : YamlFile → Bytes
  pub marshals : (f : YamlFile) → yaml.marshal f ≡ ok (written f)
  pub reads_back : (f : YamlFile) → yaml.unmarshal (written f) ≡ ok f

-- The entries that a registry file of the given content stands for; no file is no entry.
abbrev pub registry_of : Yaml → Option Bytes → Result YamlFile
registry_of yaml none = ok []
registry_of yaml (some text) = yaml.unmarshal text

module _ {S : Type 0} (os : Os S) (yaml : Yaml) (path : Bytes) (content : S → Bytes → Option Bytes)
    (fs : IsFileSystem os path content) (codec : IsYaml yaml) where
  -- The file of the state holds these entries.
  abbrev pub Holds : S → YamlFile → Type 0
  Holds s es = registry_of yaml (content s path) ≡ ok es

  parsed-answer :
      (o : Option Bytes) (es : YamlFile) (s : S)
      → registry_of yaml o ≡ ok es
      → parsed os yaml path (answer o) s ≡ (ok es, s)
  parsed-answer none es s h = ap (λ r. (r, s)) h
  parsed-answer (some text) es s h = ap (λ r. (r, s)) h

  pub load-Holds : (s : S) (es : YamlFile) → Holds s es → load os yaml path s ≡ (ok es, s)
  unfolding load
  load-Holds s es h = rw (fs.read s path) (parsed-answer (content s path) es s h)

  close_lock-IsAtomic :
      (old new : Option Bytes) (p : Bytes) (m : Result (Unit {0}) × S)
      → IsAtomic path content old new m
      → IsAtomic path content old new (m.0, (os.close_lock p m.1).1)
  close_lock-IsAtomic old new p (ok _, s) h = fs.close_lock_keeps s p ∙ h
  close_lock-IsAtomic old new p (err e, s) h = fs.close_lock_keeps s p ∙ h

  pub with_lock-IsAtomic :
      (old new : Option Bytes) (action : Exec S (Unit {0})) (s : S)
      → content s path ≡ old
      → ((t : S) → content t path ≡ old → IsAtomic path content old new (action t))
      → IsAtomic path content old new (with_lock os yaml path action s)
  unfolding with_lock
  with_lock-IsAtomic old new action s h k =
      let s₁ = (os.open_lock (lock_path os yaml path) s).1 in
      let same₁ = fs.open_lock_keeps s _ ∙ h in
      IsAtomic-continue path content old new (os.open_lock _ s).0 _ _ same₁ λ _ _.
        close_lock-IsAtomic old new _ _ (
          IsAtomic-continue path content old new (os.flock _ s₁).0 _ _ (fs.flock_keeps s₁ _ ∙ same₁)
            λ _ _. k _ (fs.flock_keeps s₁ _ ∙ same₁))

  -- Put and Delete: an action on the entries under the lock.
  abbrev updated : (YamlFile → YamlFile) → Exec S (Unit {0})
  updated g = with_lock os yaml path do reg ← load os yaml path; save os yaml path (g reg)

  abbrev pub Updated : YamlFile → YamlFile → Result (Unit {0}) × S → Type 0
  Updated es es' (ok _, s) = Holds s es'
  Updated es es' (err e, s) = Holds s es

  Updated-IsAtomic :
      (es es' : YamlFile) (old : Option Bytes) (m : Result (Unit {0}) × S)
      → registry_of yaml old ≡ ok es
      → IsAtomic path content old (some (codec.written es')) m
      → Updated es es' m
  Updated-IsAtomic es es' old (ok _, s) h k = ap (registry_of yaml) k ∙ codec.reads_back es'
  Updated-IsAtomic es es' old (err e, s) h k = ap (registry_of yaml) k ∙ h

  updated-Updated :
      (g : YamlFile → YamlFile) (s : S) (es : YamlFile)
      → Holds s es
      → Updated es (g es) (updated g s)
  updated-Updated g s es h =
      let old = content s path in
      let new = some (codec.written (g es)) in
      Updated-IsAtomic es (g es) old (updated g s) h (
        with_lock-IsAtomic old new _ s refl λ t same.
          let loaded = load-Holds t es (ap (registry_of yaml) same ∙ h) in
          subst
            (λ (m : Result YamlFile × S).
              IsAtomic path content old new (continue m.0 (λ reg. save os yaml path (g reg)) m.1))
            (sym loaded)
            (subst (λ o. IsAtomic path content o new (save os yaml path (g es) t)) same
              (save-IsAtomic os path content fs yaml (g es) (codec.written (g es)) t
                (codec.marshals (g es)))))

  pub put-Updated :
      (e : BundleEntry) (s : S) (es : YamlFile)
      → Holds s es
      → Updated es (put_entry (to_yaml e) es) (put os yaml path e s)
  unfolding put
  put-Updated e s es h = updated-Updated (put_entry (to_yaml e)) s es h

  pub delete-Updated :
      (a : Bytes) (s : S) (es : YamlFile)
      → Holds s es
      → Updated es (delete_entry a es) (delete os yaml path a s)
  unfolding delete
  delete-Updated a s es h = updated-Updated (delete_entry a) s es h

  -- What Get answers for the entry that it finds.
  abbrev pub entry_answer : Option YamlEntry → Result BundleEntry
  entry_answer none = err not_found
  entry_answer (some e) = ok (from_yaml e)

  answer-if :
      (b : Bool) (y : YamlEntry) (o : Option YamlEntry)
      → entry_answer (if b then some y else o) ≡ (if b then ok (from_yaml y) else entry_answer o)
  answer-if true y o = refl
  answer-if false y o = refl

  answer-if_none :
      (b : Bool) (o : Option YamlEntry)
      → entry_answer (if b then none else o) ≡ (if b then err not_found else entry_answer o)
  answer-if_none true o = refl
  answer-if_none false o = refl

  pub found_entry_lem :
      (o : Option YamlEntry) (s : S) → found_entry os yaml path o s ≡ (entry_answer o, s)
  found_entry_lem none s = refl
  found_entry_lem (some e) s = refl

  pub get-Holds :
      (a : Bytes) (s : S) (es : YamlFile)
      → Holds s es
      → get os yaml path a s ≡ (entry_answer (find_entry a es), s)
  unfolding get
  get-Holds a s es h =
      ap
        (λ (m : Result YamlFile × S).
          continue m.0 (λ reg. found_entry os yaml path (find_entry a reg)) m.1)
        (load-Holds s es h)
      ∙ found_entry_lem (find_entry a es) s

  get-answer :
      (a : Bytes) (s : S) (es : YamlFile)
      → Holds s es
      → (get os yaml path a s).0 ≡ entry_answer (find_entry a es)
  get-answer a s es h = ap (λ (m : Result BundleEntry × S). m.0) (get-Holds a s es h)

  -- What Get answers after a change: the new answer if it succeeded, the old one if it failed.
  abbrev pub after : {A : Type 0} → Result (Unit {0}) → A → A → A
  after (ok _) new old = new
  after (err _) new old = old

  Updated-get :
      (es es' : YamlFile) (a : Bytes) (m : Result (Unit {0}) × S)
      → Updated es es' m
      → (get os yaml path a m.1).0
        ≡ after m.0 (entry_answer (find_entry a es')) (entry_answer (find_entry a es))
  Updated-get es es' a (ok _, s) h = get-answer a s es' h
  Updated-get es es' a (err e, s) h = get-answer a s es h

  -- From a readable registry, over a file system that keeps to IsFileSystem and a YAML that keeps to
  -- IsYaml: a Put that succeeds makes Get return the entry under its alias, with no count of concepts, and
  -- leaves every other alias as it was. One that fails, at whatever call, changes no alias.
  pub get-put :
      (e : BundleEntry) (a : Bytes) (s : S) (es : YamlFile)
      → Holds s es
      → (get os yaml path a (put os yaml path e s).1).0
        ≡ after
            (put os yaml path e s).0
            (if str_eq e.alias a
              then ok (record e { concept_count = 0 })
              else (get os yaml path a s).0)
            (get os yaml path a s).0
  get-put e a s es h =
      rw
        (
          Updated-get es (put_entry (to_yaml e) es) a (put os yaml path e s) (put-Updated e s es h),
          get-answer a s es h,
          find_entry-put_entry (to_yaml e) a es,
        )
        (unfold to_yaml from_yaml in
          ap (λ r. after (put os yaml path e s).0 r (entry_answer (find_entry a es)))
            (answer-if (str_eq e.alias a) (to_yaml e) (find_entry a es)))

  -- Under the same conditions as for Put, a Delete that succeeds takes exactly the entries of its alias out; one that fails changes nothing.
  pub get-delete :
      (b a : Bytes) (s : S) (es : YamlFile)
      → Holds s es
      → (get os yaml path a (delete os yaml path b s).1).0
        ≡ after
            (delete os yaml path b s).0
            (if str_eq b a then err not_found else (get os yaml path a s).0)
            (get os yaml path a s).0
  get-delete b a s es h =
      rw
        (
          Updated-get es (delete_entry b es) a (delete os yaml path b s) (delete-Updated b s es h),
          get-answer a s es h,
          find_entry-delete_entry b a es,
        )
        (ap (λ r. after (delete os yaml path b s).0 r (entry_answer (find_entry a es)))
          (answer-if_none (str_eq b a) (find_entry a es)))
