-- ===== src/Command/Listed.antt =====
-- What `bundle list` shows of a registry.
use go_tahu_okf_semantic_mcp.Prelude.{◌≡◌, refl, sym, ap, subst, map, [], ◌∷◌, List, All, Bytes}
use go_tahu_okf_semantic_mcp.Exec.{
  Result, ok, Exec, ok_injective, continue-ok, bind-ok, pure, ◌>>=◌,
}
use go_tahu_okf_semantic_mcp.Domain.Types.{BundleEntry}
use go_tahu_okf_semantic_mcp.Domain.Interfaces.{BundleRepository}
use go_tahu_okf_semantic_mcp.Config.{Config, Environment, load_default}
use go_tahu_okf_semantic_mcp.Registry.{YamlFile, Yaml, Os, from_yaml, load, list}
use go_tahu_okf_semantic_mcp.Command.{bundle_list_command}
use go_tahu_okf_semantic_mcp.Command.Printed.{Format, printed_bundles}
use go_tahu_okf_semantic_mcp.Command.State.{Platform, Process, bundle_repository}

abbrev pub IsUncounted : BundleEntry → Type 0
IsUncounted b = b.concept_count ≡ 0

from_yaml-IsUncounted : (es : YamlFile) → All IsUncounted (map from_yaml es)
unfolding from_yaml
from_yaml-IsUncounted [] = tt
from_yaml-IsUncounted (e ∷ es) = (refl, from_yaml-IsUncounted es)

-- The registry keeps no counts.
list-IsUncounted :
    {S : Type 0} (os : Os S) (yaml : Yaml) (path : Bytes) (s : S) (bs : List BundleEntry)
    → (list os yaml path s).0 ≡ ok bs
    → All IsUncounted bs
unfolding list
list-IsUncounted {S = S} os yaml path s bs h =
    let (es, s₁, _, shown) =
      bind-ok (load os yaml path) (λ reg. pure (map from_yaml reg)) s (list os yaml path s).1 bs
        (ap (λ (r : Result (List BundleEntry)). (r, (list os yaml path s).1)) h) in
    subst (All IsUncounted)
      (ok_injective (map from_yaml es) bs (ap (λ (m : Result (List BundleEntry) × S). m.0) shown))
      (from_yaml-IsUncounted es)

module _ {T G F D N : Type 0} (platform : Platform T G F D N) (env : Environment) where
  -- What a success of `bundle list` prints: the entries of the registry that the configuration names, each with the
  -- count 0, whatever the number of its concepts.
  pub bundle_list_command-IsUncounted :
      (format : Format) (p p' : Process T G F D) (text : Bytes)
      → bundle_list_command platform env format p ≡ (ok text, p')
      → (cfg : Config) × (bs : List BundleEntry) × (load_default env ≡ ok cfg)
        × ((bundle_repository platform cfg.bundle_registry).list p ≡ (ok bs, p'))
        × (text ≡ printed_bundles format bs)
        × All IsUncounted bs
  unfolding bundle_list_command
  bundle_list_command-IsUncounted format p p' text h =
      let repo : Config → BundleRepository (Process T G F D) =
        λ cfg. bundle_repository platform cfg.bundle_registry in
      let print : List BundleEntry → Exec (Process T G F D) Bytes =
        λ bs. pure (printed_bundles format bs) in
      let (cfg, loaded, h₁) =
        continue-ok (load_default env) (λ c. (repo c).list >>= print) p text p' h in
      let (bs, p₁, ran, shown) = bind-ok (repo cfg).list print p p' text h₁ in
      let same : p₁ ≡ p' = ap (λ (m : Result Bytes × Process T G F D). m.1) shown in
      (
        cfg,
        bs,
        loaded,
        subst (λ q. (repo cfg).list p ≡ (ok bs, q)) same ran,
        ok_injective text (printed_bundles format bs)
            (sym (ap (λ (m : Result Bytes × Process T G F D). m.0) shown)),
        list-IsUncounted platform.os platform.registry_yaml cfg.bundle_registry p.files bs
            (ap (λ (m : Result (List BundleEntry) × Process T G F D). m.0) ran),
      )
