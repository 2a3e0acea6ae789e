-- ===== src/Tests/Bundles.antt =====
-- The theorems on AddBundle, over a registry that is a list of entries.
use go_tahu_okf_semantic_mcp.Prelude.{
  ◌≡◌, ◌≢◌, refl, sym, [], ◌∷◌, ◌++◌, List, arith, Bytes, codes, All, str_eq, str_eq_iff,
  if◌then◌else◌,
}
use go_tahu_okf_semantic_mcp.Exec.{not_found, Result, ok, err, ok_injective}
use go_tahu_okf_semantic_mcp.Domain.Types.{BundleEntry}
use go_tahu_okf_semantic_mcp.Domain.Interfaces.{BundleRepository}
use go_tahu_okf_semantic_mcp.UseCase.Bundle.{BundleService, add_bundle}
use go_tahu_okf_semantic_mcp.UseCase.Bundle.Uniqueness.{
  IsBundleStore, IsUnique, Added, add_bundle-Added, add_bundle-IsUnique,
}
use go_tahu_okf_semantic_mcp.Tests.Services.{bundle_service}

abbrev Entries : Type 0
Entries = List BundleEntry

find : Bytes → Entries → Result BundleEntry
find a [] = err not_found
find a (e ∷ es) = let rest = find a es in if str_eq e.alias a then ok e else rest

abbrev listed_bundles : BundleRepository Entries
listed_bundles = record {
  get = λ a t. (find a t, t);
  put = λ e t. (ok tt, t ++ e ∷ []);
  delete = λ a t. (ok tt, t);
  list = λ t. (ok t, t);
}

find-missing :
    (a : Bytes) (t : Entries) → find a t ≡ err not_found → All (λ (b : BundleEntry). b.alias ≢ a) t
unfolding find
find-missing a [] h = tt
find-missing a (e ∷ t) h = ground (arith, str_eq_iff e.alias a, find-missing a t)

abbrev bundle_list : BundleService Entries
bundle_list = bundle_service listed_bundles

abbrev same : Entries → Entries
same t = t

bundle_list-IsBundleStore : IsBundleStore bundle_list same
bundle_list-IsBundleStore = record {
  get_missing = λ t a h. find-missing a t h;
  get_keeps = λ t a. refl;
  list_all = λ t es h. sym (ok_injective t es h);
  list_keeps = λ t. refl;
  put_adds = λ t e new absent h. refl;
  put_fails = λ t e x h. absurd (cc h);
  stat_keeps = λ t p. refl;
  walk_keeps = λ t p. refl;
  now_keeps = λ t. refl;
}

abbrev kb : BundleEntry
kb = record {
  alias = codes "kb";
  root_path = codes "/srv/kb";
  description = [];
  tags = [];
  created_at = 1;
  last_indexed_at = 0;
  chunk_ids = [];
  concept_count = 0;
}

add_bundle-Added_example :
    Added bundle_list same bundle_list-IsBundleStore
      (codes "n")
      (codes "/srv/n")
      (kb ∷ [])
      (add_bundle bundle_list (codes "n") (codes "/srv/n") [] [] (kb ∷ []))
add_bundle-Added_example =
    add_bundle-Added bundle_list same bundle_list-IsBundleStore (codes "n") (codes "/srv/n") [] []
      (kb ∷ [])

add_bundle-IsUnique_example :
    IsUnique (add_bundle bundle_list (codes "n") (codes "/srv/n") [] [] (kb ∷ [])).1
add_bundle-IsUnique_example =
    add_bundle-IsUnique bundle_list same bundle_list-IsBundleStore (codes "n") (codes "/srv/n") []
      [] (kb ∷ []) (tt, tt)
