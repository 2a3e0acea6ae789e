-- ===== src/Tests/Index.antt =====
-- The reload of the index, over a map of files and a graph that holds one vector, which is its own text.
use go_tahu_okf_semantic_mcp.Prelude.{
  ◌≡◌, refl, ap, sym, false, Bool-cases, inl, inr, Option, none, some, ℕ, [], ◌∷◌, List, Bytes,
  codes, length, str_eq, str_eq_refl, subst, if◌then◌else◌,
}
use go_tahu_okf_semantic_mcp.Exec.{not_exist, other, Result, ok, err, ok_injective}
use go_tahu_okf_semantic_mcp.Go.Map.{Map, lookup, insert, remove, lookup-insert, lookup-remove}
use go_tahu_okf_semantic_mcp.Domain.Types.{EmbeddingChunk}
use go_tahu_okf_semantic_mcp.VectorStore.{Hnsw, HnswStore, is_zero_norm}
use go_tahu_okf_semantic_mcp.VectorStore.Consistency.{IsConsistent}
use go_tahu_okf_semantic_mcp.VectorStore.Files.{IndexFiles, Decoders, persist, load}
use go_tahu_okf_semantic_mcp.VectorStore.Files.Replacement.{IsIndexDisk}
use go_tahu_okf_semantic_mcp.VectorStore.Files.Reload.{IsDecoder, load-persist}
use go_tahu_okf_semantic_mcp.Tests.Store.{whole_floats, intro_chunk}

abbrev temp_file : Bytes
temp_file = codes "/x/tmp"

abbrev index_file : Bytes
index_file = codes "/x/hnsw.index"

abbrev created : Option Bytes → Map Bytes → Result Bytes × Map Bytes
created none t = (ok temp_file, t)
created (some x) t = (err (other "exists"), t)

abbrev moved : Bytes → Bytes → Option Bytes → Map Bytes → Result (Unit {0}) × Map Bytes
moved a b none t = (err not_exist, t)
moved a b (some x) t = (ok tt, insert b x (remove a t))

abbrev opened : Option Bytes → Map Bytes → Result Bytes × Map Bytes
opened none t = (err not_exist, t)
opened (some x) t = (ok x, t)

abbrev seen : Option Bytes → Map Bytes → Result (Unit {0}) × Map Bytes
seen none t = (err not_exist, t)
seen (some x) t = (ok tt, t)

abbrev some_json : Bytes
some_json = codes "{}"

abbrev pub map_files : IndexFiles (Map Bytes) Bytes ℕ
map_files = record {
  stat = λ p t. seen (lookup p t) t;
  open_file = λ p t. opened (lookup p t) t;
  create_temp = λ d pattern t. created (lookup temp_file t) t;
  export = λ g tmp t. (ok tt, insert tmp g t);
  flush = λ tmp t. (ok tt, t);
  encode = λ m tmp t. (ok tt, insert tmp some_json t);
  close = λ tmp t. (ok tt, t);
  rename = λ a b t. moved a b (lookup a t) t;
  remove = λ tmp t. (ok tt, remove tmp t);
}

abbrev file_in : Map Bytes → Bytes → Option Bytes
file_in t p = lookup p t

abbrev own_text : Bytes → Bytes
own_text g = g

abbrev json_text : Map (EmbeddingChunk ℕ) → Bytes
json_text m = some_json

moved-keeps :
    (a b q : Bytes) (o : Option Bytes) (t : Map Bytes)
    → str_eq a q ≡ false
    → str_eq b q ≡ false
    → lookup q (moved a b o t).1 ≡ lookup q t
moved-keeps a b q none t h k = refl
moved-keeps a b q (some x) t h k = rw (lookup-insert, k, lookup-remove, h) refl

inserted-there :
    (k x : Bytes) (t t' : Map Bytes)
    → ◌≡◌ {A = Result (Unit {0}) × Map Bytes} (ok tt, insert k x t) (ok tt, t')
    → lookup k t' ≡ some x
inserted-there k x t t' h =
    subst (λ u. lookup k u ≡ some x) (ap (λ (m : Result (Unit {0}) × Map Bytes). m.1) h)
      (rw (lookup-insert, str_eq_refl) refl)

moved-there :
    (a b : Bytes) (o : Option Bytes) (t t' : Map Bytes)
    → moved a b o t ≡ (ok tt, t')
    → lookup b t' ≡ o
moved-there a b none t t' h = absurd (cc h)
moved-there a b (some x) t t' h = inserted-there b x (remove a t) t' h

created-fresh :
    (tmp : Bytes) (o : Option Bytes) (t t' : Map Bytes)
    → created o t ≡ (ok tmp, t')
    → o ≡ lookup temp_file t
    → lookup tmp t ≡ none
created-fresh tmp none t t' h e =
    subst (λ x. lookup x t ≡ none)
      (ok_injective temp_file tmp (ap (λ (m : Result Bytes × Map Bytes). m.0) h)) (sym e)
created-fresh tmp (some x) t t' h e = absurd (cc h)

created-keeps : (o : Option Bytes) (t : Map Bytes) → (created o t).1 ≡ t
created-keeps none t = refl
created-keeps (some x) t = refl

map_files-IsIndexDisk : IsIndexDisk map_files file_in own_text json_text
map_files-IsIndexDisk = record {
  stat_of = λ t p x h. rw h refl;
  open_of = λ t p x h. rw h refl;
  create_fresh = λ t t' d pattern tmp h. created-fresh tmp (lookup temp_file t) t t' h refl;
  create_keeps = λ t d pattern q x h. rw (created-keeps (lookup temp_file t) t, h) refl;
  export_keeps = λ t g tmp q n. rw (lookup-insert, n) refl;
  flush_keeps = λ t tmp q n. refl;
  encode_keeps = λ t m tmp q n. rw (lookup-insert, n) refl;
  flushed = λ t t' g tmp h. inserted-there tmp g t t' h;
  encoded = λ t t' m tmp h. inserted-there tmp some_json t t' h;
  close_keeps = λ t tmp q. refl;
  rename_moves = λ t t' tmp p h. moved-there tmp p (lookup tmp t) t t' h;
  rename_keeps = λ t tmp p q h k. moved-keeps tmp p q (lookup tmp t) t h k;
}

abbrev pub one_node : Hnsw Bytes ℕ
one_node = record {
  reset = λ g. [];
  add = λ k v g. v;
  len = λ g. length g;
  search = λ g q k. [];
  distance = λ u v. 0;
}

abbrev nonempty : Bytes → Option (List ℕ)
nonempty [] = none
nonempty (x ∷ xs) = some (x ∷ xs)

abbrev vector_at : Bytes → Bytes → Option (List ℕ)
vector_at g k = if str_eq intro_chunk.id k then nonempty g else none

abbrev intro_map : Map (EmbeddingChunk ℕ)
intro_map = (intro_chunk.id, intro_chunk) ∷ []

abbrev pub one_decoder : Decoders Bytes ℕ
one_decoder = record { import = λ text g. (ok tt, text); decode = λ text m. (ok tt, intro_map) }

abbrev IsIntro : Map (EmbeddingChunk ℕ) → Type 0
IsIntro m = intro_map ≡ m

one_decoder-IsDecoder :
    IsDecoder map_files file_in own_text json_text map_files-IsIndexDisk whole_floats one_node
      one_decoder vector_at IsIntro
one_decoder-IsDecoder = record {
  imports = λ g g₀. refl;
  vectors = λ g g₀ k. refl;
  decodes = λ m h. ap (λ x. (ok tt, x)) h;
}

abbrev intro_store : HnswStore Bytes ℕ
intro_store = record { graph = intro_chunk.embedding; chunks = intro_map; dims = 2 }

intro_store-IsConsistent : IsConsistent whole_floats one_node vector_at intro_store
unfolding lookup is_zero_norm
intro_store-IsConsistent = record {
  entries = (record { own_id = refl; sized = refl; nonzero = refl }, tt);
  agree =
      λ k. elim (Bool-cases (str_eq intro_chunk.id k)) [ inl e ↦ rw e refl | inr n ↦ rw n refl ];
}

abbrev written : Map Bytes
written = (codes "/x/hnsw.index", 3 ∷ 4 ∷ []) ∷ (codes "/x/hnsw.index.meta", some_json) ∷ []

load-persist_example :
    (s' : HnswStore Bytes ℕ) × (load map_files one_node one_decoder index_file
        (record { graph = 9 ∷ []; chunks = []; dims = 2 }, written)
      ≡ (ok tt, (s', written)))
    × (s'.chunks ≡ intro_map)
    × ((k : Bytes) → vector_at s'.graph k ≡ vector_at (3 ∷ 4 ∷ []) k)
    × IsConsistent whole_floats one_node vector_at s'
unfolding persist lookup insert remove str_eq
load-persist_example =
    load-persist map_files file_in own_text json_text map_files-IsIndexDisk whole_floats one_node
      one_decoder vector_at IsIntro index_file intro_store
      (record { graph = 9 ∷ []; chunks = []; dims = 2 }) [] written one_decoder-IsDecoder
      intro_store-IsConsistent refl refl refl
