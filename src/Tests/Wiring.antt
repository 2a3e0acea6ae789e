-- ===== src/Tests/Wiring.antt =====
-- The theorems on the embedder, alone and in the process, over maps of files and whole numbers for floats.
use go_tahu_okf_semantic_mcp.Prelude.{
  ◌≡◌, refl, ◌+◌, ◌-◌, ◌*◌, ltb, ℕ, [], ◌∷◌, List, Bytes, codes, length, natural, All, pos,
}
use go_tahu_okf_semantic_mcp.Exec.{ok}
use go_tahu_okf_semantic_mcp.Go.Float.{Arithmetic}
use go_tahu_okf_semantic_mcp.Go.Map.{Map, lookup}
use go_tahu_okf_semantic_mcp.Embedding.Bm25.{Bm25, new_bm25, index, ready}
use go_tahu_okf_semantic_mcp.Embedding.Bm25.Scores.{embed}
use go_tahu_okf_semantic_mcp.Embedding.Bm25.Counts.{
  documents_with, tokens_in, IsCounted, index-IsCounted,
}
use go_tahu_okf_semantic_mcp.Embedding.Bm25.Vectors.{embed-total}
use go_tahu_okf_semantic_mcp.Command.State.{Platform}
use go_tahu_okf_semantic_mcp.Tests.Store.{whole_floats}
use go_tahu_okf_semantic_mcp.Tests.Disk.{plain_disk}
use go_tahu_okf_semantic_mcp.Tests.Frontmatter.{one_document}
use go_tahu_okf_semantic_mcp.Tests.Storage.{one_link}
use go_tahu_okf_semantic_mcp.Tests.Files.{in_memory}
use go_tahu_okf_semantic_mcp.Tests.Codec.{yaml_of_lists}
use go_tahu_okf_semantic_mcp.Tests.Index.{map_files, one_node, one_decoder}

abbrev pub whole_arithmetic : Arithmetic ℕ ℕ
whole_arithmetic = record {
  of_int = natural;
  add = ◌+◌;
  sub = ◌-◌;
  mul = ◌*◌;
  div = λ x y. x;
  log = λ x. x;
  greater = λ x y. ltb y x;
  zero = 0;
  half = 0;
  one = 1;
  three_halves = 1;
  three_quarters = 1;
  zero32 = 0;
}

abbrev pub in_maps : Platform (Map Bytes) Bytes ℕ ℕ Bytes
in_maps = record {
  floats = whole_floats;
  arithmetic = whole_arithmetic;
  graph = one_node;
  parametrized = λ m ef. [];
  index_files = map_files;
  decoders = one_decoder;
  os = in_memory;
  registry_yaml = yaml_of_lists;
  file_system = plain_disk;
  frontmatter_yaml = one_document;
  markdown = one_link;
  disk = record { stat = λ p t. (ok tt, t); walk = λ p t. (ok [], t) };
  now = λ t. (ok 1, t);
  format_time = λ t. codes "1970-01-01T00:00:01Z";
}

abbrev pub small : Bm25 ℕ
small = new_bm25 whole_floats whole_arithmetic (record { k1 = 1; b = 1 }) (pos 2)

small-IsCounted : IsCounted small
unfolding lookup documents_with tokens_in
small-IsCounted = record { frequency = λ t. refl; total = refl }

index-IsCounted_example : IsCounted (index (codes "a") (codes "One two, one!") small)
index-IsCounted_example = index-IsCounted (codes "a") (codes "One two, one!") small small-IsCounted

abbrev indexed : Bm25 ℕ
indexed = index (codes "a") (codes "One two, one!") small

embed-total_example :
    (vs : List (List ℕ)) × (embed whole_floats whole_arithmetic (codes "two" ∷ []) indexed
      ≡ (ok vs, ready whole_floats whole_arithmetic indexed))
    × (length vs ≡ 1)
    × All (λ v. length v ≡ 2) vs
unfolding index lookup
embed-total_example =
    embed-total whole_floats whole_arithmetic (codes "two" ∷ []) indexed (λ d. absurd (cc d))
