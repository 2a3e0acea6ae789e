-- ===== src/Okf/Document/Split.antt =====
-- What splitFrontmatter takes for the frontmatter and the body of a document.
use go_tahu_okf_semantic_mcp.Prelude.{
  ◌≡◌, ◌≢◌, refl, ap, ◌∙◌, true, false, inl, inr, Bool-cases, Option, none, some, [], ◌∷◌, ◌++◌,
  List, arith, Bytes, codes, str_eq, All, length, length-append, ltb,
}
use go_tahu_okf_semantic_mcp.Go.Strings.{
  trim_prefix, trim_right, split, join, split-append, split-append_any, join-split, split-ne-nil,
  Lacks,
}
use go_tahu_okf_semantic_mcp.Okf.Document.{
  newline, is_delimiter, behind, closed_at, split_closed, split_lines, split_frontmatter, ended,
  document,
}

abbrev pub IsInner : Bytes → Type 0
IsInner l = is_delimiter l ≡ false

-- The lines as they are cut at the first delimiter: those before it, the delimiter, those after it; or
-- none of them is a delimiter.
abbrev pub IsCut : List Bytes → Option (List Bytes × List Bytes) → Type 0
IsCut ls none = All IsInner ls
IsCut ls (some (fm, body)) =
    (l : Bytes) × (ls ≡ fm ++ l ∷ body) × (is_delimiter l ≡ true) × All IsInner fm

pub closed_at-append :
    (fm : List Bytes) (l : Bytes) (body : List Bytes)
    → is_delimiter l ≡ true
    → All IsInner fm
    → closed_at (fm ++ l ∷ body) ≡ some (fm, body)
unfolding closed_at
closed_at-append [] l body d h = rw d refl
closed_at-append (k ∷ fm) l body d (i, h) = rw (i, closed_at-append fm l body d h) refl

behind-IsCut :
    (l : Bytes) (ls : List Bytes) (r : Option (List Bytes × List Bytes))
    → IsInner l
    → IsCut ls r
    → IsCut (l ∷ ls) (behind l r)
behind-IsCut l ls none i h = (i, h)
behind-IsCut l ls (some (fm, body)) i (d, same, is, h) = (d, ap (λ x. l ∷ x) same, is, (i, h))

closed_at-IsCut : (ls : List Bytes) → IsCut ls (closed_at ls)
unfolding closed_at
closed_at-IsCut [] = tt
closed_at-IsCut (l ∷ ls) = elim (Bool-cases (is_delimiter l)) [
  | inl d ↦ rw d (l, refl, d, tt)
  | inr i ↦ rw i (behind-IsCut l ls (closed_at ls) i (closed_at-IsCut ls))
]

-- The frontmatter and the body that the lines of a document have: those between its first line and the
-- next delimiter and those behind that, where the first line is a delimiter and there is a next one;
-- and none and the whole document where there are no such lines.
pub data IsDocument (s : Bytes) : List Bytes → Bytes × Bytes → Type 0 where
  split_at :
      (first close : Bytes) (fm body : List Bytes)
      → is_delimiter first ≡ true
      → is_delimiter close ≡ true
      → All IsInner fm
      → IsDocument s
          (first ∷ fm ++ close ∷ body)
          (join fm newline, trim_prefix (join body newline) (newline ∷ []))
  not_opened : (l : Bytes) (ls : List Bytes) → IsInner l → IsDocument s (l ∷ ls) ([], s)
  not_closed :
      (l : Bytes) (ls : List Bytes)
      → is_delimiter l ≡ true
      → All IsInner ls
      → IsDocument s (l ∷ ls) ([], s)

split_closed-IsDocument :
    (s first : Bytes) (ls : List Bytes) (r : Option (List Bytes × List Bytes))
    → is_delimiter first ≡ true
    → IsCut ls r
    → IsDocument s (first ∷ ls) (split_closed s r)
split_closed-IsDocument s first ls none d h = not_closed first ls d h
split_closed-IsDocument s first ls (some (fm, body)) d (close, same, e, h) =
    rw same (split_at first close fm body d e h)

split_lines-IsDocument :
    (s : Bytes) (ls : List Bytes) → ls ≢ [] → IsDocument s ls (split_lines s ls)
split_lines-IsDocument s [] h = absurd (h refl)
split_lines-IsDocument s (l ∷ []) h = elim (Bool-cases (is_delimiter l)) [
  | inl d ↦ not_closed l [] d tt
  | inr i ↦ not_opened l [] i
]
split_lines-IsDocument s (l ∷ k ∷ ls) h =
    let two : ltb (length (l ∷ k ∷ ls)) 2 ≡ false = ground arith in
    elim (Bool-cases (is_delimiter l)) [
      | inl d ↦
          rw (two, d)
            (split_closed-IsDocument s l (k ∷ ls) (closed_at (k ∷ ls)) d (closed_at-IsCut (k ∷ ls)))
      | inr i ↦ rw (two, i) (not_opened l (k ∷ ls) i)
    ]

-- The frontmatter and the body of splitFrontmatter are those that the lines of the document have.
pub split_frontmatter-IsDocument :
    (s : Bytes) → IsDocument s (split s newline) (split_frontmatter s)
unfolding split_frontmatter
split_frontmatter-IsDocument s = split_lines-IsDocument s (split s newline) (split-ne-nil s newline)

-- The lines of a frontmatter between two delimiters, and of the body behind them.
split_lines-cut :
    (s first close : Bytes) (fm body : List Bytes)
    → is_delimiter first ≡ true
    → is_delimiter close ≡ true
    → All IsInner fm
    → split_lines s (first ∷ fm ++ close ∷ body)
      ≡ (join fm newline, trim_prefix (join body newline) (newline ∷ []))
split_lines-cut s first close fm body d e h =
    let some_more = length-append fm (close ∷ body) in
    let two : ltb (length (first ∷ fm ++ close ∷ body)) 2 ≡ false = ground (arith, some_more) in
    rw (two, d, closed_at-append fm close body e h) refl

-- The line `---`.
abbrev dashes : Bytes
dashes = codes "---"

dashes-Lacks : Lacks newline dashes
dashes-Lacks = ((λ e. cc e), ((λ e. cc e), ((λ e. cc e), tt)))

split-document :
    (yaml body : Bytes)
    → split (document yaml body) newline
      ≡ dashes ∷ split yaml newline ++ dashes ∷ split (ended body) newline
split-document yaml body =
    let last : split (dashes ++ newline ∷ ended body) newline
        ≡ dashes ∷ split (ended body) newline =
      split-append dashes (ended body) newline dashes-Lacks in
    let behind_yaml : split (yaml ++ newline ∷ (dashes ++ newline ∷ ended body)) newline
        ≡ split yaml newline ++ dashes ∷ split (ended body) newline =
      split-append_any yaml (dashes ++ newline ∷ ended body) newline
      ∙ ap (λ x. split yaml newline ++ x) last in
    split-append dashes (yaml ++ newline ∷ (dashes ++ newline ∷ ended body)) newline dashes-Lacks
    ∙ ap (λ x. dashes ∷ x) behind_yaml

-- A text none of whose lines is a delimiter, written as the frontmatter of a document, is read back, and the body
-- behind it with a newline at its end and without one at its start.
pub split_frontmatter-document :
    (yaml body : Bytes)
    → All IsInner (split yaml newline)
    → split_frontmatter (document yaml body) ≡ (yaml, trim_prefix (ended body) (newline ∷ []))
unfolding split_frontmatter str_eq trim_right
split_frontmatter-document yaml body h =
    let line : is_delimiter dashes ≡ true = refl in
    rw (split-document yaml body) (
      split_lines-cut (document yaml body) dashes dashes (split yaml newline)
        (split (ended body) newline) line line h
      ∙ rw (join-split yaml newline, join-split (ended body) newline) refl)
