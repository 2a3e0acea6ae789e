-- ===== src/VectorStore/Files/Replacement.antt =====
-- The replacement of a file of the index: a temporary file is written and renamed.
use go_tahu_okf_semantic_mcp.Prelude.{
  ◌≡◌, refl, ap, sym, ◌∙◌, false, Bool-cases, inl, inr, Option, none, some, Bytes, str_eq,
  str_eq_sound,
}
use go_tahu_okf_semantic_mcp.Exec.{Result, ok, err, Exec, ◌>>◌, bind-ok, then-ok}
use go_tahu_okf_semantic_mcp.Go.Path.{dir}
use go_tahu_okf_semantic_mcp.Go.Map.{Map}
use go_tahu_okf_semantic_mcp.Domain.Types.{EmbeddingChunk}
use go_tahu_okf_semantic_mcp.VectorStore.Files.{IndexFiles, deferred, filled, replace_index_file}

-- What Persist and Load rely on of the files: `content t p` is the content of the file `p`. A file that
-- is there can be looked at and read without a change. A temporary file has a new name. A graph that
-- was exported and flushed, and chunks that were encoded, are the content of their file, as `graph_text`
-- and `meta_text` give it. A rename that succeeds moves the content, and no call changes another file.
pub record IsIndexDisk {T G F : Type 0} (files : IndexFiles T G F)
    (content : T → Bytes → Option Bytes) (graph_text : G → Bytes)
    (meta_text : Map (EmbeddingChunk F) → Bytes) : Type 0 where
  pub stat_of : (t : T) (p x : Bytes) → content t p ≡ some x → files.stat p t ≡ (ok tt, t)
  pub open_of : (t : T) (p x : Bytes) → content t p ≡ some x → files.open_file p t ≡ (ok x, t)
  pub create_fresh :
      (t t' : T) (d pattern tmp : Bytes)
      → files.create_temp d pattern t ≡ (ok tmp, t')
      → content t tmp ≡ none
  pub create_keeps :
      (t : T) (d pattern q x : Bytes)
      → content t q ≡ some x
      → content (files.create_temp d pattern t).1 q ≡ some x
  pub export_keeps :
      (t : T) (g : G) (tmp q : Bytes)
      → str_eq tmp q ≡ false
      → content (files.export g tmp t).1 q ≡ content t q
  pub flush_keeps :
      (t : T) (tmp q : Bytes) → str_eq tmp q ≡ false → content (files.flush tmp t).1 q ≡ content t q
  pub encode_keeps :
      (t : T) (m : Map (EmbeddingChunk F)) (tmp q : Bytes)
      → str_eq tmp q ≡ false
      → content (files.encode m tmp t).1 q ≡ content t q
  pub flushed :
      (t t' : T) (g : G) (tmp : Bytes)
      → (files.export g tmp >> files.flush tmp) t ≡ (ok tt, t')
      → content t' tmp ≡ some (graph_text g)
  pub encoded :
      (t t' : T) (m : Map (EmbeddingChunk F)) (tmp : Bytes)
      → files.encode m tmp t ≡ (ok tt, t')
      → content t' tmp ≡ some (meta_text m)
  pub close_keeps : (t : T) (tmp q : Bytes) → content (files.close tmp t).1 q ≡ content t q
  pub rename_moves :
      (t t' : T) (tmp p : Bytes) → files.rename tmp p t ≡ (ok tt, t') → content t' p ≡ content t tmp
  pub rename_keeps :
      (t : T) (tmp p q : Bytes)
      → str_eq tmp q ≡ false
      → str_eq p q ≡ false
      → content (files.rename tmp p t).1 q ≡ content t q

module _ {T G F : Type 0} (files : IndexFiles T G F) (content : T → Bytes → Option Bytes)
    (graph_text : G → Bytes) (meta_text : Map (EmbeddingChunk F) → Bytes)
    (disk : IsIndexDisk files content graph_text meta_text) where
  -- Code that, where it succeeds, has written a text to a file, and leaves the others.
  pub record IsFill (fill : Bytes → Exec T (Unit {0})) (text : Bytes) : Type 0 where
    pub fills : (t t' : T) (tmp : Bytes) → fill tmp t ≡ (ok tt, t') → content t' tmp ≡ some text
    pub keeps :
        (t t' : T) (tmp q : Bytes)
        → str_eq tmp q ≡ false
        → fill tmp t ≡ (ok tt, t')
        → content t' q ≡ content t q

  deferred-ok :
      (tmp : Bytes) (r : Result (Unit {0})) (t t' : T)
      → deferred files tmp r t ≡ (ok tt, t')
      → (r ≡ ok tt) × ((files.close tmp t).1 ≡ t')
  deferred-ok tmp (ok u) t t' h = (refl, ap (λ (m : Result (Unit {0}) × T). m.1) h)
  deferred-ok tmp (err e) t t' h = absurd (cc h)

  -- A file that is there is not the new one.
  fresh-differs :
      (t t' : T) (d pattern tmp q x : Bytes)
      → files.create_temp d pattern t ≡ (ok tmp, t')
      → content t q ≡ some x
      → str_eq tmp q ≡ false
  fresh-differs t t' d pattern tmp q x made h = elim (Bool-cases (str_eq tmp q)) [
    | inr n ↦ n
    | inl e ↦
        let gone = disk.create_fresh t t' d pattern tmp made in
        absurd (cc (gone, h, str_eq_sound tmp q e))
  ]

  -- A replacement that succeeds has the text in its file and leaves the other files that were there.
  pub replace_index_file-content :
      (path pattern text : Bytes) (fill : Bytes → Exec T (Unit {0})) (t t' : T)
      → IsFill fill text
      → replace_index_file files path pattern fill t ≡ (ok tt, t')
      → (content t' path ≡ some text)
        × ((q x : Bytes) → str_eq path q ≡ false → content t q ≡ some x → content t' q ≡ some x)
  unfolding replace_index_file
  replace_index_file-content path pattern text fill t t' is h =
      let (tmp, t₁, created, h₁) =
        bind-ok (files.create_temp (dir path) pattern) (filled files path fill) t t' tt h in
      let chain = fill tmp >> files.close tmp >> files.rename tmp path in
      let (went, closed) = deferred-ok tmp (chain t₁).0 (chain t₁).1 t' h₁ in
      let t₄ = (chain t₁).1 in
      let whole : chain t₁ ≡ (ok tt, t₄) = ap (λ (r : Result (Unit {0})). (r, t₄)) went in
      let (_, t₃, h₂, renamed) =
        then-ok (fill tmp >> files.close tmp) (files.rename tmp path) t₁ t₄ tt whole in
      let (_, t₂, written, closing) = then-ok (fill tmp) (files.close tmp) t₁ t₃ tt h₂ in
      let after_close = λ (q : Bytes).
        ap (λ (m : Result (Unit {0}) × T). content m.1 q) (sym closing)
        ∙ disk.close_keeps t₂ tmp q in
      let at_end = λ (q : Bytes). ap (λ u. content u q) (sym closed) ∙ disk.close_keeps t₄ tmp q in
      (
        at_end path
            ∙ disk.rename_moves t₃ t₄ tmp path renamed
            ∙ after_close tmp
            ∙ is.fills t₁ t₂ tmp written,
        λ q x n there.
            let apart = fresh-differs t t₁ (dir path) pattern tmp q x created there in
            at_end q
            ∙ ap (λ (m : Result (Unit {0}) × T). content m.1 q) (sym renamed)
            ∙ disk.rename_keeps t₃ tmp path q apart n
            ∙ after_close q
            ∙ is.keeps t₁ t₂ tmp q apart written
            ∙ ap (λ (m : Result Bytes × T). content m.1 q) (sym created)
            ∙ disk.create_keeps t (dir path) pattern q x there,
      )
