-- ===== src/Okf/Repository/Listing.antt =====
-- What List returns of a walk.
use go_tahu_okf_semantic_mcp.Prelude.{
  ◌≡◌, ◌≢◌, refl, ap, subst, Bool, true, false, Option, none, some, [], ◌∷◌, List, arith, Bytes,
  codes, All, ◌⊎◌, Bool-cases, inl, inr, str_eq_iff,
}
use go_tahu_okf_semantic_mcp.Exec.{not_exist, Result, ok, err, ok_injective}
use go_tahu_okf_semantic_mcp.Go.Strings.{has_suffix}
use go_tahu_okf_semantic_mcp.Go.Path.{base, rel}
use go_tahu_okf_semantic_mcp.Domain.Ref.{ConceptRef}
use go_tahu_okf_semantic_mcp.UseCase.Bundle.{WalkStep, visit, broken}
use go_tahu_okf_semantic_mcp.Okf.Resolver.{is_reserved_name}
use go_tahu_okf_semantic_mcp.Okf.Repository.{is_concept_file, plus, plus_at, walk_refs}

-- The steps of the walk, with the given step among them.
abbrev pub Visited : Bytes → List WalkStep → Type 0
Visited p [] = ⊥
Visited p (step ∷ steps) = (step ≡ visit p false) ⊎ Visited p steps

-- A reference that List makes: of a file that the walk met, named *.md and not index.md or log.md, by
-- its path below the root of the bundle.
pub record IsListed (alias root : Bytes) (steps : List WalkStep) (r : ConceptRef) : Type 0 where
  pub file : Bytes
  pub visited : Visited file steps
  pub named_md : has_suffix (base file) (codes ".md") ≡ true
  pub not_index : base file ≢ codes "index.md"
  pub not_log : base file ≢ codes "log.md"
  pub below : rel root file ≡ some r.relative_path
  pub of_bundle : r.bundle_alias ≡ alias

IsListed-later :
    (alias root : Bytes) (step : WalkStep) (steps : List WalkStep) (r : ConceptRef)
    → IsListed alias root steps r
    → IsListed alias root (step ∷ steps) r
IsListed-later alias root step steps r h = record {
  file = h.file;
  visited = inr h.visited;
  named_md = h.named_md;
  not_index = h.not_index;
  not_log = h.not_log;
  below = h.below;
  of_bundle = h.of_bundle;
}

All-later :
    (alias root : Bytes) (step : WalkStep) (steps : List WalkStep) (refs : List ConceptRef)
    → All (IsListed alias root steps) refs
    → All (IsListed alias root (step ∷ steps)) refs
All-later alias root step steps [] h = tt
All-later alias root step steps (r ∷ refs) (p, h) =
    (IsListed-later alias root step steps r p, All-later alias root step steps refs h)

is_concept_file_sound :
    (p : Bytes) (d : Bool)
    → is_concept_file p d ≡ true
    → (d ≡ false)
      × (has_suffix (base p) (codes ".md") ≡ true)
      × (base p ≢ codes "index.md")
      × (base p ≢ codes "log.md")
unfolding is_concept_file is_reserved_name
is_concept_file_sound p d h =
    let b = base p in
    (
      ground arith,
      ground arith,
      ground (arith, str_eq_iff b (codes "index.md")),
      ground (arith, str_eq_iff b (codes "log.md")),
    )

module _ (alias root : Bytes) where
  plus-All :
      (P : ConceptRef → Type 0) (r : ConceptRef) (a : Result (List ConceptRef))
      (refs : List ConceptRef)
      → P r
      → ((rs : List ConceptRef) → a ≡ ok rs → All P rs)
      → plus r a ≡ ok refs
      → All P refs
  plus-All P r (ok rs) refs p h e = subst (All P) (ok_injective (r ∷ rs) refs e) (p, h rs refl)
  plus-All P r (err x) refs p h e = absurd (cc e)

  plus_at-All :
      (P : ConceptRef → Type 0) (o : Option Bytes) (a : Result (List ConceptRef))
      (refs : List ConceptRef)
      → ((q : Bytes) → o ≡ some q → P (record { bundle_alias = alias; relative_path = q }))
      → ((rs : List ConceptRef) → a ≡ ok rs → All P rs)
      → plus_at alias o a ≡ ok refs
      → All P refs
  plus_at-All P none a refs p h e = absurd (cc e)
  plus_at-All P (some q) a refs p h e = plus-All P _ a refs (p q refl) h e

  -- Each reference of a listing is that of a file met by the walk, named *.md and not index.md or
  -- log.md, by its path relative to the root of the bundle.
  pub walk_refs-IsListed :
      (steps : List WalkStep) (refs : List ConceptRef)
      → walk_refs alias root steps ≡ ok refs
      → All (IsListed alias root steps) refs
  unfolding walk_refs
  walk_refs-IsListed [] refs h = subst (All _) (ok_injective [] refs h) tt
  walk_refs-IsListed (visit p d ∷ steps) refs h =
      let rest = λ (rs : List ConceptRef) (e : walk_refs alias root steps ≡ ok rs).
        All-later alias root (visit p d) steps rs (walk_refs-IsListed steps rs e) in
      elim (Bool-cases (is_concept_file p d)) [
        | inr n ↦ rest refs (rw n at h)
        | inl y ↦
            let (file, md, index, log) = is_concept_file_sound p d y in
            plus_at-All (IsListed alias root (visit p d ∷ steps)) (rel root p)
              (walk_refs alias root steps) refs
              (λ q e. record {
                file = p;
                visited = inl (ap (visit p) file);
                named_md = md;
                not_index = index;
                not_log = log;
                below = e;
                of_bundle = refl;
              })
              rest (rw y at h)
      ]
  walk_refs-IsListed (broken not_exist ∷ steps) refs h =
      All-later alias root (broken not_exist) steps refs (walk_refs-IsListed steps refs h)
  walk_refs-IsListed (broken _ ∷ steps) refs h = absurd (cc h)
