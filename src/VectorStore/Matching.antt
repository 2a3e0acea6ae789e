-- ===== src/VectorStore/Matching.antt =====
-- chunkMatchesScope against a description of the scopes.
use go_tahu_okf_semantic_mcp.Prelude.{
  ◌≡◌, ◌↔◌, ◌⊎◌, refl, inl, inr, true, ◌||◌, [], ◌∷◌, ◌++◌, append_assoc, ◌∙◌, sym, arith, Bytes,
  str_eq, str_eq_iff, Bool-cases, and-eq-true,
}
use go_tahu_okf_semantic_mcp.Go.Strings.{has_prefix, has_prefix-append, has_prefix_sound}
use go_tahu_okf_semantic_mcp.Go.Path.{slash}
use go_tahu_okf_semantic_mcp.Domain.Scope.{ScopeKind, global, bundle, path, Scope}
use go_tahu_okf_semantic_mcp.Domain.Types.{EmbeddingChunk}
use go_tahu_okf_semantic_mcp.VectorStore.{matches_kind, chunk_matches_scope}

-- A path is the directory `sub`, or lies below it.
abbrev pub IsAtOrBelow : Bytes → Bytes → Type 0
IsAtOrBelow p sub = (p ≡ sub) ⊎ ((rest : Bytes) × (p ≡ sub ++ slash ∷ rest))

abbrev KindHolds : ScopeKind → Bytes → Bytes → Bytes → Bytes → Type 0
KindHolds global alias sub a p = Unit
KindHolds bundle alias sub a p = a ≡ alias
KindHolds path alias sub a p = (a ≡ alias) × IsAtOrBelow p sub

abbrev pub InScope : {F : Type 0} → EmbeddingChunk F → Scope → Type 0
InScope c scope =
    KindHolds scope.kind scope.bundle_alias scope.sub_path c.bundle_alias c.concept_path

prefix_iff :
    (p sub : Bytes)
    → ((str_eq p sub || has_prefix p (sub ++ slash ∷ [])) ≡ true) ↔ IsAtOrBelow p sub
prefix_iff p sub = (
  λ h. elim (Bool-cases (str_eq p sub)) [
    | inl e ↦ inl ((str_eq_iff p sub).0 e)
    | inr n ↦ inr (_, has_prefix_sound p _ (rw n at h) ∙ append_assoc sub _ _)
  ],
  λ h. elim h [ inl e ↦ rw ((str_eq_iff p sub).1 e) | inr (rest, e) ↦ below rest e ],
)
  where
    below :
        (rest : Bytes)
        → p ≡ sub ++ slash ∷ rest
        → (str_eq p sub || has_prefix p (sub ++ slash ∷ [])) ≡ true
    below rest e =
        let found : has_prefix p (sub ++ slash ∷ []) ≡ true =
          rw (e ∙ sym (append_assoc sub (slash ∷ []) rest))
            (has_prefix-append (sub ++ slash ∷ []) rest) in
        ground arith

kind_iff :
    (k : ScopeKind) (alias sub a p : Bytes)
    → (matches_kind k alias sub a p ≡ true) ↔ KindHolds k alias sub a p
kind_iff global alias sub a p = (λ _. tt, λ _. refl)
kind_iff bundle alias sub a p = str_eq_iff a alias
kind_iff path alias sub a p = (
  λ h. let (x, y) = and-eq-true _ _ h in ((str_eq_iff a alias).0 x, (prefix_iff p sub).0 y),
  λ (x, y). rw ((str_eq_iff a alias).1 x, (prefix_iff p sub).1 y),
)

-- The filter of a search lets exactly the chunks in scope through: those of the bundle, and for a
-- path scope those whose path is the sub-path or lies below it.
pub chunk_matches_scope_iff :
    {F : Type 0} (c : EmbeddingChunk F) (scope : Scope)
    → (chunk_matches_scope c scope ≡ true) ↔ InScope c scope
unfolding chunk_matches_scope
chunk_matches_scope_iff c scope = kind_iff scope.kind _ _ _ _
