-- ===== src/Tests/Tree.antt =====
-- A disk of files by path, whose directories are those above its files: some paths are there, and others are not.
use go_tahu_okf_semantic_mcp.Prelude.{
  ◌≡◌, ◌≢◌, refl, sym, ap, ◌∙◌, Bool, true, false, ◌||◌, Bool-cases, inl, inr, Option, none, some,
  [], ◌∷◌, ◌++◌, append_assoc, arith, length, if◌then◌else◌, Bytes, codes, str_eq, ℕ, str_eq_refl,
  str_eq_sound,
}
use go_tahu_okf_semantic_mcp.Exec.{not_exist, Result, ok, err, ok_injective}
use go_tahu_okf_semantic_mcp.Go.Map.{Map, lookup, insert, lookup-insert}
use go_tahu_okf_semantic_mcp.Go.Strings.{has_prefix, join, join-append}
use go_tahu_okf_semantic_mcp.Go.Path.{slash}
use go_tahu_okf_semantic_mcp.Go.Path.Clean.{IsPlain, root_path}
use go_tahu_okf_semantic_mcp.UseCase.Concept.Log.{IsReservedStore}
use go_tahu_okf_semantic_mcp.Okf.Resolver.{Links, canonical_root, bundle_root}
use go_tahu_okf_semantic_mcp.Okf.Resolver.Growth.{Grows, Grows-same, IsTree}
use go_tahu_okf_semantic_mcp.Okf.Repository.{FileSystem}
use go_tahu_okf_semantic_mcp.Okf.Repository.Reserved.{IsFiles, file_answer}
use go_tahu_okf_semantic_mcp.Okf.Repository.Store.{IsStable, file_at}
use go_tahu_okf_semantic_mcp.Okf.Repository.Store.Contract.{
  service, file_node_repository-IsReservedStore,
}
use go_tahu_okf_semantic_mcp.Exec.Try.{>>=-eq-ok}
use go_tahu_okf_semantic_mcp.Tests.Disk.{roots}
use go_tahu_okf_semantic_mcp.Tests.Frontmatter.{one_document}
use go_tahu_okf_semantic_mcp.Tests.Storage.{one_link}

abbrev Files : Type 0
Files = Map Bytes

-- A file at `k` lies at `p` or below it.
abbrev lies_at : Bytes → Bytes → Bool
lies_at p k = has_prefix (k ++ slash ∷ []) (p ++ slash ∷ [])

unfoldable pub holds : Bytes → Files → Bool
holds p [] = false
holds p ((k, text) ∷ t) = lies_at p k || holds p t

unfoldable pub is_there : Bytes → Files → Bool
unfolding holds
is_there p t = str_eq p (slash ∷ []) || holds p t

abbrev stat_answer : Option Bytes → Bool → Result ℕ
stat_answer (some text) b = ok (length text)
stat_answer none b = if b then ok 0 else err not_exist

abbrev pub tree_disk : FileSystem Files
tree_disk = record {
  links = λ t. record {
    eval_symlinks = λ p. if is_there p t then ok p else err not_exist;
    lstat = λ p. if is_there p t then ok false else err not_exist;
  };
  size = λ p t. (stat_answer (lookup p t) (is_there p t), t);
  read_file = λ p t. (file_answer (lookup p t), t);
  mkdir_all = λ d t. (ok tt, t);
  write_file = λ p text t. (ok tt, insert p text t);
  walk = λ p t. (ok [], t);
}

abbrev pub tree_content : Files → Bytes → Option Bytes
tree_content t p = lookup p t

file_answer-ok : (o : Option Bytes) (text : Bytes) → file_answer o ≡ ok text → o ≡ some text
file_answer-ok none text h = absurd (cc h)
file_answer-ok (some u) text h = ap some (ok_injective u text h)

pub tree_disk-IsFiles : IsFiles tree_disk tree_content
tree_disk-IsFiles = record {
  size_found = λ t p text h. ap (λ o. stat_answer o (is_there p t)) h;
  read_found = λ t p text h. ap file_answer h;
  read_is = λ t p text cleaned h. file_answer-ok (lookup p t) text h;
  size_keeps = λ t p. refl;
  read_keeps = λ t p. refl;
  mkdir_keeps = λ t d p. refl;
  write_sets = λ t p text cleaned h. rw (lookup-insert, str_eq_refl) refl;
  write_keeps = λ t p q text n. rw (lookup-insert, n) refl;
}

has_prefix-shorter : (s x y : Bytes) → has_prefix s (x ++ y) ≡ true → has_prefix s x ≡ true
unfolding has_prefix
has_prefix-shorter s [] y h = refl
has_prefix-shorter [] (c ∷ x) y h = absurd (cc h)
has_prefix-shorter (d ∷ s) (c ∷ x) y h = ground (arith, has_prefix-shorter s x y)

has_prefix_self : (s : Bytes) → has_prefix s s ≡ true
unfolding has_prefix
has_prefix_self [] = refl
has_prefix_self (c ∷ s) = ground (arith, has_prefix_self s)

or_right : (a b : Bool) → b ≡ true → (a || b) ≡ true
or_right a b h = elim (Bool-cases a) [ inl e ↦ rw e refl | inr n ↦ rw n h ]

holds-above : (p c : Bytes) (t : Files) → holds (p ++ slash ∷ c) t ≡ true → holds p t ≡ true
unfolding holds
holds-above p c [] h = absurd (cc h)
holds-above p c ((k, text) ∷ t) h =
    let deeper : (p ++ slash ∷ c) ++ slash ∷ [] ≡ (p ++ slash ∷ []) ++ (c ++ slash ∷ []) =
      append_assoc p (slash ∷ c) (slash ∷ [])
      ∙ sym (append_assoc p (slash ∷ []) (c ++ slash ∷ [])) in
    elim (Bool-cases (lies_at (p ++ slash ∷ c) k)) [
      | inl e ↦
          rw
            (has_prefix-shorter (k ++ slash ∷ []) (p ++ slash ∷ []) (c ++ slash ∷ [])
              (rw deeper at e))
            refl
      | inr n ↦ or_right (lies_at p k) _ (holds-above p c t (rw n at h))
    ]

there_answer : Bool → Result Bool
there_answer b = if b then ok false else err not_exist

there-ok : (b c : Bool) → there_answer b ≡ ok c → b ≡ true
unfolding there_answer
there-ok true c h = refl
there-ok false c h = absurd (cc h)

-- Where a path of at least one part is there, a file lies at it or below it.
longer_path : (x c : Bytes) → str_eq (slash ∷ (x ++ slash ∷ c)) (slash ∷ []) ≡ false
unfolding str_eq
longer_path [] c = refl
longer_path (d ∷ x) c = refl

is_there-above :
    (t : Files) (x c : Bytes)
    → is_there (slash ∷ (x ++ slash ∷ c)) t ≡ true
    → is_there (slash ∷ x) t ≡ true
unfolding is_there
is_there-above t x c h =
    or_right (str_eq (slash ∷ x) (slash ∷ [])) _
      (holds-above (slash ∷ x) c t (rw (longer_path x c) at h))

is_there-root : (t : Files) → is_there (slash ∷ []) t ≡ true
unfolding is_there str_eq
is_there-root t = refl

lies_at-IsTree : (t : Files) → IsTree (tree_disk.links t)
unfolding join there_answer
lies_at-IsTree t [] c h p (b, there) = (false, rw is_there-root refl)
lies_at-IsTree t (d ∷ ds) c h p (b, there) =
    let last : join ((d ∷ ds) ++ c ∷ []) slash ≡ join (d ∷ ds) slash ++ slash ∷ c =
      join-append (d ∷ ds) (c ∷ []) slash (λ e. cc e) (λ e. cc e) in
    let is = there-ok (is_there (root_path ((d ∷ ds) ++ c ∷ [])) t) b there in
    (false, rw (is_there-above t (join (d ∷ ds) slash) c (rw last at is)) refl)

holds-lookup : (p text : Bytes) (t : Files) → lookup p t ≡ some text → holds p t ≡ true
unfolding holds lookup
holds-lookup p text [] h = absurd (cc h)
holds-lookup p text ((k, v) ∷ t) h = elim (Bool-cases (str_eq k p)) [
  | inl e ↦ rw (str_eq_sound k p e, has_prefix_self (p ++ slash ∷ [])) refl
  | inr n ↦ or_right (lies_at p k) _ (holds-lookup p text t (rw n at h))
]

-- A write takes nothing away.
holds-insert : (p k v : Bytes) (t : Files) → holds p t ≡ true → holds p (insert k v t) ≡ true
unfolding holds insert
holds-insert p k v [] h = absurd (cc h)
holds-insert p k v ((j, w) ∷ t) h = elim (Bool-cases (str_eq j k)) [
  | inl e ↦ rw (e, ← str_eq_sound j k e) h
  | inr n ↦ elim (Bool-cases (lies_at p j)) [
    | inl a ↦ rw (n, a) refl
    | inr a ↦ rw n (or_right (lies_at p j) _ (holds-insert p k v t (rw a at h)))
  ]
]

is_there-insert :
    (p k v : Bytes) (t : Files) → is_there p t ≡ true → is_there p (insert k v t) ≡ true
unfolding is_there
is_there-insert p k v t h = elim (Bool-cases (str_eq p (slash ∷ []))) [
  | inl e ↦ rw e refl
  | inr n ↦ or_right (str_eq p (slash ∷ [])) _ (holds-insert p k v t (rw n at h))
]

evaluated_answer : Bytes → Bool → Result Bytes
evaluated_answer p b = if b then ok p else err not_exist

evaluated-ok : (p q : Bytes) (b : Bool) → evaluated_answer p b ≡ ok q → (b ≡ true) × (p ≡ q)
unfolding evaluated_answer
evaluated-ok p q true h = (refl, ok_injective p q h)
evaluated-ok p q false h = absurd (cc h)

no_symlink : (b : Bool) → there_answer b ≢ ok true
unfolding there_answer
no_symlink true h = absurd (cc h)
no_symlink false h = absurd (cc h)

tree_disk-Grows :
    (t : Files) (p text : Bytes) → Grows (tree_disk.links t) (tree_disk.links (insert p text t))
unfolding there_answer evaluated_answer
tree_disk-Grows t p text = record {
  evals = λ q real h.
      let (there, is) = evaluated-ok q real (is_there q t) h in
      rw (is_there-insert q p text t there, is) refl;
  lstats = λ q. elim (Bool-cases (is_there q t)) [
    | inl e ↦ inl (rw (e, is_there-insert q p text t e) refl)
    | inr n ↦ inr (rw n refl, no_symlink (is_there q (insert p text t)))
  ];
}

b-IsPlain : IsPlain (codes "b")
b-IsPlain = record {
  nonempty = λ e. cc e;
  not_dot = λ e. cc e;
  not_dot_dot = λ e. cc e;
  one_part = omega arith;
}

root_answer :
    (l : Links) (alias root : Bytes) → bundle_root l roots alias ≡ ok root → codes "/b" ≡ root
unfolding bundle_root lookup
root_answer l alias root h = elim (Bool-cases (str_eq (codes "k") alias)) [
  | inl e ↦ ok_injective (codes "/b") root (rw e at h)
  | inr n ↦ absurd (cc (rw n at h))
]

tree_disk-rooted :
    (t : Files) (alias canon : Bytes)
    → canonical_root (tree_disk.links t) roots alias ≡ ok canon
    → canon ≡ root_path (codes "b" ∷ [])
unfolding canonical_root join evaluated_answer
tree_disk-rooted t alias canon h =
    let (root, found, evaluated) =
      >>=-eq-ok (bundle_root (tree_disk.links t) roots alias) (tree_disk.links t).eval_symlinks
        canon h in
    let (_, is) = evaluated-ok root canon (is_there root t) evaluated in
    sym is ∙ sym (root_answer (tree_disk.links t) alias root found)

pub tree_disk-IsStable : IsStable tree_disk roots tree_content
unfolding is_there
tree_disk-IsStable = record {
  tree = lies_at-IsTree;
  there =
      λ t p text h. (false, rw (or_right (str_eq p (slash ∷ [])) _ (holds-lookup p text t h)) refl);
  rooted = λ t alias canon h.
      (codes "b" ∷ [], λ e. cc e, (b-IsPlain, tt), tree_disk-rooted t alias canon h);
  mkdir_grows = λ t d. Grows-same (tree_disk.links t);
  write_grows = tree_disk-Grows;
  walk_keeps = λ t p. refl;
}

file_node_repository-IsReservedStore_example :
    IsReservedStore
      (service tree_disk roots one_document one_link tree_content tree_disk-IsFiles
        tree_disk-IsStable
        (λ t. (ok 7, t))
        (λ n. codes "T")
        (λ t. refl))
      (file_at tree_disk roots tree_content tree_disk-IsFiles tree_disk-IsStable)
file_node_repository-IsReservedStore_example =
    file_node_repository-IsReservedStore tree_disk roots one_document one_link tree_content
      tree_disk-IsFiles tree_disk-IsStable (λ t. (ok 7, t)) (λ n. codes "T") (λ t. refl)
