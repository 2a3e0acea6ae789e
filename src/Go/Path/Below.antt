-- ===== src/Go/Path/Below.antt =====
-- The paths below a canonical directory, part by part.
use mathlib.Core.Bool.{xor}
use mathlib.Core.List.{reverse, reverse-reverse, reverse-append}
use go_tahu_okf_semantic_mcp.Prelude.{
  ◌≡◌, ◌≢◌, refl, sym, ap, ◌∙◌, true, List, [], ◌∷◌, ◌++◌, some, Bytes, All, str_eq_refl,
}
use go_tahu_okf_semantic_mcp.Go.Strings.{has_prefix, split, split_single, join}
use go_tahu_okf_semantic_mcp.Go.Path.{
  slash, clean, is_abs, enter, walk, print, join_path, parts, strip_common, climb, rel,
}
use go_tahu_okf_semantic_mcp.Go.Path.Clean.{
  IsPlain, root_path, clean-print, reverse-IsPlain, enter-plain, join_path-root, walk-root,
}

-- One plain name behind a directory.
pub join_path-plain :
    (ds : List Bytes) (c : Bytes)
    → All IsPlain ds
    → IsPlain c
    → join_path (root_path ds) c ≡ root_path (ds ++ c ∷ [])
unfolding walk print
join_path-plain ds c h p =
    rw
      (
        join_path-root ds c h,
        split_single c slash p.one_part,
        enter-plain true c (reverse ds) p,
        reverse-append (c ∷ []) (reverse ds),
        reverse-reverse,
      )
      refl

parts-root_path : (xs : List Bytes) → All IsPlain xs → parts (root_path xs) ≡ xs
unfolding parts is_abs walk split enter has_prefix
parts-root_path xs h = ap reverse (walk-root xs h) ∙ reverse-reverse xs

strip_common-same : (rs us : List Bytes) → strip_common rs (rs ++ us) ≡ ([], us)
unfolding strip_common
strip_common-same [] us = refl
strip_common-same (r ∷ rs) us = rw (str_eq_refl r, strip_common-same rs us) refl

climb-down : (us : List Bytes) → us ≢ [] → climb ([], us) ≡ some (join us slash)
unfolding climb
climb-down [] n = absurd (n refl)
climb-down (u ∷ us) n = refl

pub rel-below :
    (rs us : List Bytes)
    → us ≢ []
    → All IsPlain rs
    → All IsPlain (rs ++ us)
    → rel (root_path rs) (root_path (rs ++ us)) ≡ some (join us slash)
unfolding rel is_abs has_prefix xor
rel-below rs us n h k =
    ap (λ xs. climb (strip_common xs (parts (root_path (rs ++ us))))) (parts-root_path rs h)
    ∙ ap (λ xs. climb (strip_common rs xs)) (parts-root_path (rs ++ us) k)
    ∙ ap climb (strip_common-same rs us)
    ∙ climb-down us n

pub clean-root_path : (xs : List Bytes) → All IsPlain xs → clean (root_path xs) ≡ root_path xs
clean-root_path xs h =
    let same : print true (reverse xs) ≡ root_path xs =
      unfold print in ap (λ ys. root_path ys) (reverse-reverse xs) in
    ap clean (sym same) ∙ clean-print (reverse xs) (reverse-IsPlain xs h) ∙ same
