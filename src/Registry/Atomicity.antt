-- ===== src/Registry/Atomicity.antt =====
-- The registry file over every failure of the file system: a write is seen whole or not at all.
use mathlib.Core.Path.{subst₂}
use go_tahu_okf_semantic_mcp.Go.Path.{dir}
use go_tahu_okf_semantic_mcp.Prelude.{
  subst, ◌≡◌, refl, ap, sym, ◌∙◌, false, Option, none, some, Bytes, str_eq,
}
use go_tahu_okf_semantic_mcp.Exec.{Error, not_exist, Result, ok, err, Exec, ok_injective, continue}
use go_tahu_okf_semantic_mcp.Registry.{YamlFile, Yaml, Os, replace_file, clean_up, save_text, save}

-- What reading a file of the given content answers.
abbrev pub answer : Option Bytes → Result Bytes
answer none = err not_exist
answer (some text) = ok text

module _ {S : Type 0} (os : Os S) (path : Bytes) (content : S → Bytes → Option Bytes) where
  -- The registry file as the calls leave it. Reading answers with its content. Locks, directories and
  -- temporary files, whose names differ from it, leave it alone, whether the call succeeds or fails.
  -- A write that succeeds gives its file the text, a rename that succeeds replaces the file at once,
  -- and a rename that fails changes nothing.
  pub record IsFileSystem : Type 0 where
    pub read : (s : S) (p : Bytes) → os.read_file p s ≡ (answer (content s p), s)
    pub open_lock_keeps : (s : S) (p : Bytes) → content (os.open_lock p s).1 path ≡ content s path
    pub flock_keeps : (s : S) (p : Bytes) → content (os.flock p s).1 path ≡ content s path
    pub close_lock_keeps : (s : S) (p : Bytes) → content (os.close_lock p s).1 path ≡ content s path
    pub mkdir_keeps : (s : S) (d : Bytes) → content (os.mkdir_all d s).1 path ≡ content s path
    pub create_keeps : (s : S) (d : Bytes) → content (os.create_temp d s).1 path ≡ content s path
    pub create_fresh :
        (s : S) (d tmp : Bytes) → (os.create_temp d s).0 ≡ ok tmp → str_eq tmp path ≡ false
    pub write_keeps :
        (s : S) (p text : Bytes)
        → str_eq p path ≡ false
        → content (os.write p text s).1 path ≡ content s path
    pub write_content :
        (s : S) (p text : Bytes)
        → (os.write p text s).0 ≡ ok tt
        → content (os.write p text s).1 p ≡ some text
    pub close_keeps : (s : S) (p q : Bytes) → content (os.close p s).1 q ≡ content s q
    pub rename_content :
        (s : S) (p : Bytes)
        → (os.rename p path s).0 ≡ ok tt
        → content (os.rename p path s).1 path ≡ content s p
    pub rename_keeps :
        (s : S) (p : Bytes) (e : Error)
        → (os.rename p path s).0 ≡ err e
        → content (os.rename p path s).1 path ≡ content s path
    pub remove_keeps :
        (s : S) (p : Bytes)
        → str_eq p path ≡ false
        → content (os.remove p s).1 path ≡ content s path

module _ {S : Type 0} (path : Bytes) (content : S → Bytes → Option Bytes) where
  -- The outcome of a write: success with the new content in place, or an error with the old content.
  abbrev pub IsAtomic : Option Bytes → Option Bytes → Result (Unit {0}) × S → Type 0
  IsAtomic old new (ok _, s) = content s path ≡ new
  IsAtomic old new (err e, s) = content s path ≡ old

  -- A step that leaves the file alone may come first.
  pub IsAtomic-continue :
      {A : Type 0} (old new : Option Bytes) (r : Result A) (f : A → Exec S (Unit {0})) (s : S)
      → content s path ≡ old
      → ((a : A) → r ≡ ok a → IsAtomic old new (f a s))
      → IsAtomic old new (continue r f s)
  IsAtomic-continue old new (ok a) f s h k = k a refl
  IsAtomic-continue old new (err e) f s h k = h

module _ {S : Type 0} (os : Os S) (path : Bytes) (content : S → Bytes → Option Bytes)
    (fs : IsFileSystem os path content) where
  rename-IsAtomic :
      (tmp : Bytes) (s : S)
      → IsAtomic path content (content s path) (content s tmp) (os.rename tmp path s)
  rename-IsAtomic tmp s = outcome (os.rename tmp path s) refl
    where
      outcome :
          (m : Result (Unit {0}) × S)
          → os.rename tmp path s ≡ m
          → IsAtomic path content (content s path) (content s tmp) m
      outcome (ok u, t) e =
          rw (← ap (λ (m : Result (Unit {0}) × S). m.1) e)
            (fs.rename_content s tmp (ap (λ (m : Result (Unit {0}) × S). m.0) e))
      outcome (err x, t) e =
          rw (← ap (λ (m : Result (Unit {0}) × S). m.1) e)
            (fs.rename_keeps s tmp x (ap (λ (m : Result (Unit {0}) × S). m.0) e))

  replace_file-IsAtomic :
      (tmp text : Bytes) (s : S)
      → str_eq tmp path ≡ false
      → IsAtomic path content (content s path) (some text) (replace_file os path tmp text s)
  unfolding replace_file
  replace_file-IsAtomic tmp text s n =
      let s₁ = (os.write tmp text s).1 in
      let s₂ = (os.close tmp s₁).1 in
      IsAtomic-continue path content (content s path) (some text) (os.write tmp text s).0 _ _
        (fs.write_keeps s tmp text n)
        λ _ written.
          IsAtomic-continue path content (content s path) (some text) (os.close tmp _).0 _ _
            (fs.close_keeps _ tmp path ∙ fs.write_keeps s tmp text n)
            λ _ closed.
              subst₂ (λ old new. IsAtomic path content old new (os.rename tmp path s₂))
                (fs.close_keeps s₁ tmp path ∙ fs.write_keeps s tmp text n)
                (fs.close_keeps s₁ tmp tmp ∙ fs.write_content s tmp text written)
                (rename-IsAtomic tmp s₂)

  -- The deferred clean-up changes neither the outcome nor the file.
  clean_up-IsAtomic :
      (tmp : Bytes) (old new : Option Bytes) (m : Result (Unit {0}) × S)
      → str_eq tmp path ≡ false
      → IsAtomic path content old new m
      → IsAtomic path content old new (clean_up os path tmp m.0 m.1)
  clean_up-IsAtomic tmp old new (ok _, s) n h = fs.close_keeps s tmp path ∙ h
  clean_up-IsAtomic tmp old new (err e, s) n h =
      fs.remove_keeps _ tmp n ∙ fs.close_keeps s tmp path ∙ h

  save_text-IsAtomic :
      (text : Bytes) (s : S)
      → IsAtomic path content (content s path) (some text) (save_text os path text s)
  unfolding save_text
  save_text-IsAtomic text s =
      let s₁ = (os.mkdir_all (dir path) s).1 in
      let s₂ = (os.create_temp (dir path) s₁).1 in
      let same = fs.create_keeps s₁ (dir path) ∙ fs.mkdir_keeps s (dir path) in
      IsAtomic-continue path content (content s path) (some text) (os.mkdir_all (dir path) s).0 _ _
        (fs.mkdir_keeps s (dir path))
        λ _ _.
          IsAtomic-continue path content (content s path) (some text)
            (os.create_temp (dir path) s₁).0 _ _ same
            λ tmp made.
              let n = fs.create_fresh s₁ (dir path) tmp made in
              clean_up-IsAtomic tmp (content s path) (some text) (replace_file os path tmp text s₂)
                n
                (subst
                  (λ old. IsAtomic path content old (some text) (replace_file os path tmp text s₂))
                  same (replace_file-IsAtomic tmp text s₂ n))

  -- Of a registry that can be marshalled, over a file system that keeps to IsFileSystem: whatever call
  -- fails on the way, the file is the old one or the new one, and a success means
  -- the new one.
  pub save-IsAtomic :
      (yaml : Yaml) (f : YamlFile) (text : Bytes) (s : S)
      → yaml.marshal f ≡ ok text
      → IsAtomic path content (content s path) (some text) (save os yaml path f s)
  unfolding save
  save-IsAtomic yaml f text s marshalled =
      IsAtomic-continue path content (content s path) (some text) (yaml.marshal f) _ s refl
        λ text' made.
          subst (λ t. IsAtomic path content (content s path) (some t) (save_text os path text' s))
            (ok_injective text' text (sym made ∙ marshalled)) (save_text-IsAtomic text' s)
