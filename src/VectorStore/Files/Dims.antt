-- ===== src/VectorStore/Files/Dims.antt =====
-- The dimension of a store in New and Load.
use go_tahu_okf_semantic_mcp.Prelude.{
  ◌≡◌, refl, sym, ap, Bool-cases, inl, inr, ℕ, pos, ℤ, int_gt, ◌++◌, Bytes,
}
use go_tahu_okf_semantic_mcp.Exec.{ok_injective, Result, ok, err, not_exist, ◌>>◌}
use go_tahu_okf_semantic_mcp.Exec.Keeps.{Keeps, Keeps-bind}
use go_tahu_okf_semantic_mcp.VectorStore.{Hnsw, HnswStore}
use go_tahu_okf_semantic_mcp.VectorStore.Files.{
  IndexFiles, Decoders, meta_suffix, new_store, load, read_graph, read_meta, check_dims, loaded,
  imported, decoded, cleared,
}

module _ {G F : Type 0} (parametrized : ℤ → ℤ → G) where
  pub new_store-dims :
      (ef m : ℤ) (s : HnswStore G F) → new_store parametrized (pos 4096) ef m ≡ ok s → s.dims ≡ 4096
  unfolding new_store
  new_store-dims ef m s h = elim (Bool-cases (int_gt ef 0)) [
    | inl a ↦ elim (Bool-cases (int_gt m 0)) [
      | inl b ↦ sym (ap (λ (x : HnswStore G F). x.dims) (ok_injective _ s (rw (a, b) at h)))
      | inr b ↦ absurd (cc (rw (a, b) at h))
    ]
    | inr a ↦ absurd (cc (rw a at h))
  ]

module _ {T G F : Type 0} (files : IndexFiles T G F) (lib : Hnsw G F)
    (decoders : Decoders G F) where
  abbrev Index : Type 0
  Index = HnswStore G F × T

  abbrev dims_of : Index → ℕ
  dims_of st = st.0.dims

  imported-dims :
      (s : HnswStore G F) (r : Result Bytes) (t : T)
      → dims_of (imported files lib decoders s r t).1 ≡ s.dims
  imported-dims s (ok text) t = refl
  imported-dims s (err e) t = refl

  decoded-dims :
      (s : HnswStore G F) (r : Result Bytes) (t : T)
      → dims_of (decoded files lib decoders s r t).1 ≡ s.dims
  decoded-dims s (ok text) t = refl
  decoded-dims s (err not_exist) t = refl
  decoded-dims s (err _) t = refl

  read_graph-dims : (path : Bytes) → Keeps dims_of (read_graph files lib decoders path)
  unfolding read_graph
  read_graph-dims path (s, t) =
      imported-dims s (files.open_file path t).0 (files.open_file path t).1

  read_meta-dims : (path : Bytes) → Keeps dims_of (read_meta files lib decoders path)
  unfolding read_meta
  read_meta-dims path (s, t) =
      decoded-dims s (files.open_file (path ++ meta_suffix) t).0
        (files.open_file (path ++ meta_suffix) t).1

  check_dims-dims : Keeps dims_of (check_dims files lib decoders)
  unfolding check_dims
  check_dims-dims (s, t) = refl

  loaded-dims :
      (path : Bytes) (r : Result (Unit {0})) (st : Index)
      → dims_of (loaded files lib decoders path r st).1 ≡ dims_of st
  loaded-dims path (ok u) (s, t) =
      let graph = read_graph files lib decoders path in
      let meta = read_meta files lib decoders path in
      let check = check_dims files lib decoders in
      Keeps-bind dims_of (graph >> meta) (λ _. check)
        (Keeps-bind dims_of graph (λ _. meta) (read_graph-dims path) λ _. read_meta-dims path)
        (λ _. check_dims-dims) (cleared files lib decoders s, t)
  loaded-dims path (err not_exist) (s, t) = refl
  loaded-dims path (err _) (s, t) = refl

  -- Load keeps the dimension of the store.
  pub load-dims : (path : Bytes) → Keeps dims_of (load files lib decoders path)
  unfolding load
  load-dims path (s, t) = loaded-dims path (files.stat path t).0 (s, (files.stat path t).1)
