-- ===== src/Embedding/Bm25/Scores.antt =====
-- Embed of internal/adapter/embedder/bm25.go: the BM25 weights of a text.
use go_tahu_okf_semantic_mcp.Prelude.{
  ℕ, zero, suc, [], ◌∷◌, List, Bytes, if◌then◌else◌, length, ℤ, pos, int_minus,
}
use go_tahu_okf_semantic_mcp.Exec.{Result, ok, Exec}
use go_tahu_okf_semantic_mcp.Exec.Try.{◌>>=◌}
use go_tahu_okf_semantic_mcp.Go.Float.{Floats, Arithmetic}
use go_tahu_okf_semantic_mcp.Go.Map.{Map, lookup}
use go_tahu_okf_semantic_mcp.Embedding.Tokens.{tokenize}
use go_tahu_okf_semantic_mcp.Embedding.Bm25.{
  Parameters, Bm25, value, count_term, set_elem, zeros, build_vocab, ready,
}

module _ {F D : Type 0} (fl : Floats F D) (ar : Arithmetic F D) where
  open ar use {of_int, add, sub, mul, div, log, greater, half, one}

  -- What Embed takes of the corpus: the parameters, the number of documents, their mean length, and
  -- the document frequencies.
  pub record Corpus : Type 0 where
    pub params : Parameters D
    pub documents : ℕ
    pub mean_length : D
    pub frequencies : Map ℤ

  abbrev mean : ℤ → ℕ → D
  mean total zero = fl.zero64
  mean total (suc n) = div (of_int total) (of_int (pos (suc n)))

  abbrev pub corpus_of : Bm25 D → Corpus
  corpus_of e = record {
    params = e.params;
    documents = length e.docs;
    mean_length = mean e.total_len (length e.docs);
    frequencies = e.df;
  }

  -- ln((N - df + 0.5) / (df + 0.5) + 1), and 0 where it is negative
  abbrev inverse_frequency : Corpus → Bytes → D
  inverse_frequency c term =
      let df = value (lookup term c.frequencies) in
      let idf = log (
        add (div (add (of_int (int_minus (pos c.documents) df)) half) (add (of_int df) half))
          one) in
      if greater ar.zero idf then ar.zero else idf

  -- The frequency `tf` of a term in a text of `doc_len` tokens, normalised.
  abbrev normal_frequency : Corpus → ℕ → ℕ → D
  normal_frequency c doc_len tf =
      let f = of_int (pos tf) in
      let k1 = c.params.k1 in
      let b = c.params.b in
      if greater c.mean_length ar.zero
      then div (mul f (add k1 one))
          (add f (mul k1 (add (sub one b) (div (mul b (of_int (pos doc_len))) c.mean_length))))
      else div (mul f (add k1 one)) (add f k1)

  -- One round of the loop over the vocabulary: a term that the text has not is passed over.
  abbrev pub weigh_at : Corpus → ℕ → Bytes → ℕ → ℕ → List F → Result (List F)
  weigh_at c doc_len term i zero vec = ok vec
  weigh_at c doc_len term i (suc k) vec =
      set_elem i
        (fl.to_float32 (mul (inverse_frequency c term) (normal_frequency c doc_len (suc k)))) vec

  unfoldable pub fill : Corpus → List Bytes → Map ℕ → List F → Result (List F)
  unfolding count_term
  fill c tokens [] vec = ok vec
  fill c tokens ((term, i) ∷ idx) vec = do
    v ← weigh_at c (length tokens) term i (count_term tokens term) vec
    fill c tokens idx v

  unfoldable pub vector_of : Bm25 D → Bytes → Result (List F)
  unfolding fill
  vector_of e text = fill (corpus_of e) (tokenize text) e.vocab_idx (zeros ar.zero32 e.max_dims)

  unfoldable pub vectors_of : Bm25 D → List Bytes → Result (List (List F))
  unfolding vector_of
  vectors_of e [] = ok []
  vectors_of e (text ∷ texts) = do v ← vector_of e text; vs ← vectors_of e texts; ok (v ∷ vs)

  unfoldable pub embed : List Bytes → Exec (Bm25 D) (List (List F))
  unfolding build_vocab vectors_of
  embed texts e = (vectors_of (ready fl ar e) texts, ready fl ar e)
