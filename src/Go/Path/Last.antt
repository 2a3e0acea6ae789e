-- ===== src/Go/Path/Last.antt =====
-- The last part of a path: what Clean, Join and Base make of it.
use mathlib.Core.List.{reverse, reverse-append}
use go_tahu_okf_semantic_mcp.Prelude.{
  ◌≡◌, ◌≢◌, refl, sym, ap, ◌∙◌, Bool, ℕ, true, false, Bool-cases, inl, inr, List, [], ◌∷◌, ◌++◌,
  append_assoc, arith, Bytes, ◌==◌,
}
use go_tahu_okf_semantic_mcp.Go.Strings.{
  split, join, is_empty, trim_right, Lacks, split-append_any, split_single, join-split, join-append,
}
use go_tahu_okf_semantic_mcp.Go.Path.{slash, is_abs, walk, print, clean, join_path, last_or, base}
use go_tahu_okf_semantic_mcp.Go.Path.Clean.{IsPlain, walk-append, enter-plain}

-- A path whose last part is `f`.
abbrev pub EndsIn : Bytes → Bytes → Type 0
EndsIn f p = (ps : List Bytes) × (split p slash ≡ ps ++ f ∷ [])

pub EndsIn-behind : (f u p : Bytes) → EndsIn f p → EndsIn f (u ++ slash ∷ p)
EndsIn-behind f u p (ps, e) = (
  split u slash ++ ps,
  split-append_any u p slash
      ∙ ap (λ qs. split u slash ++ qs) e
      ∙ sym (append_assoc (split u slash) ps (f ∷ [])),
)

pub EndsIn-self : (f : Bytes) → IsPlain f → EndsIn f f
EndsIn-self f h = ([], split_single f slash h.one_part)

EndsIn-join : (f : Bytes) (ps : List Bytes) → IsPlain f → EndsIn f (join (ps ++ f ∷ []) slash)
EndsIn-join f [] h = unfold join in EndsIn-self f h
EndsIn-join f (p ∷ ps) h =
    let alone : join (f ∷ []) slash ≡ f = unfold join in refl in
    rw (join-append (p ∷ ps) (f ∷ []) slash (λ e. cc e) (λ e. cc e), alone)
      (EndsIn-behind f (join (p ∷ ps) slash) f (EndsIn-self f h))

EndsIn-print :
    (f : Bytes) (rooted : Bool) (ts : List Bytes) → IsPlain f → EndsIn f (print rooted (f ∷ ts))
unfolding print
EndsIn-print f true ts h =
    rw (reverse-append (f ∷ []) ts)
      (EndsIn-behind f [] (join (reverse ts ++ f ∷ []) slash) (EndsIn-join f (reverse ts) h))
EndsIn-print f false ts h = rw (reverse-append (f ∷ []) ts) (EndsIn-join f (reverse ts) h)

pub EndsIn-clean : (f p : Bytes) → IsPlain f → EndsIn f p → EndsIn f (clean p)
unfolding clean
EndsIn-clean f p h (ps, e) =
    let r = is_abs p in
    let last : walk r (ps ++ f ∷ []) [] ≡ f ∷ walk r ps [] =
      walk-append r ps (f ∷ []) [] ∙ unfold walk in enter-plain r f (walk r ps []) h in
    rw (e, last) (EndsIn-print f r (walk r ps []) h)

append-last : (ps : List Bytes) (f : Bytes) → [] ∷ [] ≡ ps ++ f ∷ [] → f ≡ []
append-last [] f e = cc e
append-last (p ∷ []) f e = absurd (cc e)
append-last (p ∷ q ∷ ps) f e = absurd (cc e)

EndsIn-nil : (f : Bytes) → IsPlain f → EndsIn f [] → ⊥
EndsIn-nil f h (ps, e) =
    let one : split [] slash ≡ [] ∷ [] = unfold split in refl in
    h.nonempty (append-last ps f (sym one ∙ e))

pub EndsIn-join_path : (f a p : Bytes) → IsPlain f → EndsIn f p → EndsIn f (join_path a p)
unfolding join_path
EndsIn-join_path f a [] h e = absurd (EndsIn-nil f h e)
EndsIn-join_path f [] (c ∷ p) h e = EndsIn-clean f (c ∷ p) h e
EndsIn-join_path f (b ∷ a) (c ∷ p) h e =
    EndsIn-clean f (b ∷ a ++ slash ∷ c ∷ p) h (EndsIn-behind f (b ∷ a) (c ∷ p) e)

last_or-append : (d f : Bytes) (ps : List Bytes) → last_or d (ps ++ f ∷ []) ≡ f
last_or-append d f [] = refl
last_or-append d f (p ∷ ps) = last_or-append p f ps

trim_right-Lacks : (f : Bytes) → Lacks slash f → trim_right f slash ≡ f
unfolding trim_right
trim_right-Lacks [] h = refl
trim_right-Lacks (c ∷ f) (n, h) = ground (arith, trim_right-Lacks f h)

is_empty-append : (u : Bytes) (d : ℕ) (f : Bytes) → is_empty (u ++ d ∷ f) ≡ false
is_empty-append [] d f = refl
is_empty-append (c ∷ u) d f = refl

trim_right-append : (u f : Bytes) → f ≢ [] → Lacks slash f → trim_right (u ++ f) slash ≡ u ++ f
unfolding trim_right
trim_right-append [] f n h = trim_right-Lacks f h
trim_right-append (c ∷ u) [] n h = absurd (n refl)
trim_right-append (c ∷ u) (d ∷ f) n h =
    rw (trim_right-append u (d ∷ f) n h) (elim (Bool-cases (c == slash)) [
      | inl t ↦ rw (t, is_empty-append u d f) refl
      | inr m ↦ rw m refl
    ])

EndsIn-text : (f p : Bytes) → EndsIn f p → (u : Bytes) × (p ≡ u ++ f)
EndsIn-text f p ([], e) =
    ([], sym (join-split p slash) ∙ ap (λ ps. join ps slash) e ∙ unfold join in refl)
EndsIn-text f p (q ∷ ps, e) = (
  join (q ∷ ps) slash ++ slash ∷ [],
  sym (join-split p slash)
      ∙ ap (λ rs. join rs slash) e
      ∙ join-append (q ∷ ps) (f ∷ []) slash (λ k. cc k) (λ k. cc k)
      ∙ unfold join in sym (append_assoc (join (q ∷ ps) slash) (slash ∷ []) f),
)

-- The base of a path that ends in a plain name is the name.
pub base-EndsIn : (f p : Bytes) → IsPlain f → EndsIn f p → base p ≡ f
unfolding base
base-EndsIn f [] h e = absurd (EndsIn-nil f h e)
base-EndsIn f (c ∷ p) h (ps, e) =
    let (u, spelled) = EndsIn-text f (c ∷ p) (ps, e) in
    let kept : trim_right (c ∷ p) slash ≡ c ∷ p =
      ap (λ x. trim_right x slash) spelled
      ∙ trim_right-append u f h.nonempty h.one_part
      ∙ sym spelled in
    rw (kept, e) (last_or-append [] f ps)
