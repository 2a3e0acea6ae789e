-- ===== src/Okf/Resolver/Names.antt =====
-- The names of the files that the resolver accepts, reserved and others.
use go_tahu_okf_semantic_mcp.Prelude.{
  ◌≡◌, refl, sym, ap, ◌∙◌, Bool, true, false, Bool-cases, inl, inr, [], ◌∷◌, Bytes, if◌then◌else◌,
  arith,
}
use go_tahu_okf_semantic_mcp.Exec.{reserved_path, Result, ok, err, ok_injective, ok-ne-err}
use go_tahu_okf_semantic_mcp.Exec.Try.{>>=-eq-ok, >>-eq-ok, >>-first}
use go_tahu_okf_semantic_mcp.Go.Strings.{has_prefix}
use go_tahu_okf_semantic_mcp.Go.Path.{base, join_path, clean}
use go_tahu_okf_semantic_mcp.Go.Path.Clean.{IsPlain}
use go_tahu_okf_semantic_mcp.Go.Path.Last.{
  EndsIn, EndsIn-self, EndsIn-behind, EndsIn-clean, EndsIn-join_path, base-EndsIn,
}
use go_tahu_okf_semantic_mcp.Go.Map.{Map}
use go_tahu_okf_semantic_mcp.UseCase.Concept.{index_md, log_md, reserved_file}
use go_tahu_okf_semantic_mcp.Okf.Resolver.{
  Links, is_reserved_name, with_sep, contained_path, canonical_root, resolve_reserved, resolve_new,
  sym_guard_new,
}

pub index_md-IsPlain : IsPlain index_md
index_md-IsPlain = record {
  nonempty = λ e. cc e;
  not_dot = λ e. cc e;
  not_dot_dot = λ e. cc e;
  one_part = omega arith;
}

pub log_md-IsPlain : IsPlain log_md
log_md-IsPlain = record {
  nonempty = λ e. cc e;
  not_dot = λ e. cc e;
  not_dot_dot = λ e. cc e;
  one_part = omega arith;
}

reserved_file-EndsIn : (f d : Bytes) → IsPlain f → EndsIn f (reserved_file d f)
unfolding reserved_file
reserved_file-EndsIn f [] h = EndsIn-self f h
reserved_file-EndsIn f (c ∷ d) h = EndsIn-behind f (c ∷ d) f (EndsIn-self f h)

-- A path that containedPath accepts has the base of the path that was given.
base-contained_path :
    (f root p q : Bytes) → IsPlain f → EndsIn f p → contained_path root p ≡ ok q → base q ≡ f
unfolding contained_path
base-contained_path f root p q h e k =
    let cleaned = clean (join_path root p) in
    let last =
      base-EndsIn f cleaned h
        (EndsIn-clean f (join_path root p) h (EndsIn-join_path f root p h e)) in
    elim (Bool-cases (has_prefix cleaned (with_sep root))) [
      | inl t ↦ rw (← ok_injective cleaned q (rw t at k)) last
      | inr n ↦ absurd (ok-ne-err q _ (sym (rw n at k)))
    ]

-- The base of what containedPath makes of a reserved file.
pub base-contained_reserved :
    (f d canon q : Bytes) → IsPlain f → contained_path canon (reserved_file d f) ≡ ok q → base q ≡ f
base-contained_reserved f d canon q h e =
    base-contained_path f canon (reserved_file d f) q h (reserved_file-EndsIn f d h) e

not_reserved-ok :
    (b : Bool)
    → ◌≡◌ {A = Result (Unit {0})} (if b then err reserved_path else ok tt) (ok tt)
    → b ≡ false
not_reserved-ok true h = absurd (cc h)
not_reserved-ok false h = refl

module _ (l : Links) (roots : Map Bytes) where
  pub resolve_reserved-parts :
      (alias p q : Bytes)
      → resolve_reserved l roots alias p ≡ ok q
      → (canon : Bytes) × (canonical_root l roots alias ≡ ok canon)
        × (contained_path canon p ≡ ok q)
        × (sym_guard_new l q canon ≡ ok tt)
  unfolding resolve_reserved
  resolve_reserved-parts alias p q h =
      let (canon, rooted, h₁) = >>=-eq-ok (canonical_root l roots alias) _ q h in
      let (q₁, inside, h₂) = >>=-eq-ok (contained_path canon p) _ q h₁ in
      let same = ok_injective q₁ q (>>-eq-ok (sym_guard_new l q₁ canon) (ok q₁) q h₂) in
      let passed = >>-first (sym_guard_new l q₁ canon) (ok q₁) q h₂ in
      (canon, rooted, inside ∙ ap (λ x. ok x) same, rw (← same) passed)

  pub resolve_new-parts :
      (alias p q : Bytes)
      → resolve_new l roots alias p ≡ ok q
      → (canon : Bytes) × (canonical_root l roots alias ≡ ok canon)
        × (contained_path canon p ≡ ok q)
        × (is_reserved_name (base q) ≡ false)
  unfolding resolve_new
  resolve_new-parts alias p q h =
      let (canon, rooted, h₁) = >>=-eq-ok (canonical_root l roots alias) _ q h in
      let (q₁, inside, h₂) = >>=-eq-ok (contained_path canon p) _ q h₁ in
      let free = not_reserved-ok (is_reserved_name (base q₁)) (>>-first _ _ q h₂) in
      let same =
        ok_injective q₁ q (>>-eq-ok (sym_guard_new l q₁ canon) (ok q₁) q (>>-eq-ok _ _ q h₂)) in
      (canon, rooted, inside ∙ ap (λ x. ok x) same, rw (← same) free)

  -- A reserved file that resolves has its name as the base.
  pub base-reserved :
      (alias f d q : Bytes)
      → IsPlain f
      → resolve_reserved l roots alias (reserved_file d f) ≡ ok q
      → base q ≡ f
  base-reserved alias f d q h e =
      let (canon, rooted, inside, _) = resolve_reserved-parts alias (reserved_file d f) q e in
      base-contained_path f canon (reserved_file d f) q h (reserved_file-EndsIn f d h) inside
