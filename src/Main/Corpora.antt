-- ===== src/Main/Corpora.antt =====
-- The recommender that is started does not refuse for the dimension of its vectors (main.py).
use mas_research.Base.{
  String, ℕ, ◌≡◌, refl, ap, sym, ◌∙◌, Bool, true, false, not, ◌&&◌, List, [], ◌∷◌, string_key,
  is_empty, length, arith, or_else, if◌then◌else◌, Bool-cases, inl, inr, all,
}
use mas_research.Values.{Fields, Float, get, as_dict, end}
use mas_research.Text.Joined.{is_blank}
use mas_research.Recommend.Query.{query_parts, build_query, build_query-is_empty}
use mas_research.Recommend.{
  Engine, CorpusEntry, refuses, informs, recommend, recommender_handle, dimension,
}
use mas_research.Main.{
  Settings, Disk, Embedding, sentence_transformer, has_corpus, build_embedding, build_recommender,
  demo_corpus, load_corpus,
}

module _ (embed : Embedding → String → List Float) (dim : Embedding → ℕ)
    (sized : (embedding : Embedding) (text : String)
      → length (embed embedding text) ≡ dim embedding)
    (disk : Disk) where
  -- The vectors of the corpus files are of the model of the settings.
  abbrev IsOfModel : Settings → Type 0
  IsOfModel settings =
      has_corpus disk settings.corpus_path ≡ true
      → is_empty (disk.entries settings.corpus_path) ≡ false
      → dimension (disk.entries settings.corpus_path)
        ≡ dim (sentence_transformer settings.embedding_model)

  demo_corpus-dimension :
      (embedding : Embedding) → dimension (demo_corpus embed embedding) ≡ dim embedding
  unfolding demo_corpus
  demo_corpus-dimension embedding = sized embedding "Graph algorithms and data structures"

  -- The corpus of the recommender where `corpus` was loaded.
  abbrev chosen : Embedding → List CorpusEntry → Bool → List CorpusEntry
  chosen embedding corpus demo_mode =
      if is_empty corpus && demo_mode then demo_corpus embed embedding else corpus

  chosen-dimension :
      (embedding : Embedding) (corpus : List CorpusEntry) (demo_mode : Bool)
      → (is_empty corpus ≡ false → dimension corpus ≡ dim embedding)
      → is_empty (chosen embedding corpus demo_mode) ≡ false
      → dimension (chosen embedding corpus demo_mode) ≡ dim embedding
  chosen-dimension embedding [] true real there = demo_corpus-dimension embedding
  chosen-dimension embedding [] false real there = absurd (cc there)
  chosen-dimension embedding (entry ∷ corpus) demo_mode real there = real refl

  chosen-is_empty :
      (embedding : Embedding) (corpus : List CorpusEntry) (demo_mode : Bool)
      → is_empty (chosen embedding corpus demo_mode) ≡ (is_empty corpus && not demo_mode)
  unfolding demo_corpus
  chosen-is_empty embedding [] true = refl
  chosen-is_empty embedding [] false = refl
  chosen-is_empty embedding (entry ∷ corpus) demo_mode = refl

  loaded-dimension :
      (settings : Settings)
      → IsOfModel settings
      → is_empty (load_corpus disk settings.corpus_path) ≡ false
      → dimension (load_corpus disk settings.corpus_path) ≡ dim (build_embedding disk settings)
  unfolding load_corpus build_embedding
  loaded-dimension settings real there = elim (Bool-cases (has_corpus disk settings.corpus_path)) [
    | inl e ↦ rw e (real e (rw e at there))
    | inr e ↦ absurd (cc (rw e at there))
  ]

  -- Where the corpus files have vectors of the configured model, the recommender that is started refuses
  -- only for a corpus that is empty, which is so only outside of the demo mode, or where the
  -- introduction of the summary and each of the first five terms are blank. It informs of citations
  -- otherwise.
  pub recommender_handle-build_recommender :
      (settings : Settings) (engine : Engine) (content : Fields)
      → IsOfModel settings
      → engine.encode ≡ embed (build_recommender embed disk settings).0
      → let corpus = (build_recommender embed disk settings).1 in
        let summary = get content "summary" in
        let terms = get content "terms" in
        (is_empty corpus
          ≡ (is_empty (load_corpus disk settings.corpus_path) && not settings.demo_mode))
        × (recommender_handle engine corpus content ≡ (
            if is_empty corpus
            then refuses "corpus not loaded"
            else if all is_blank (query_parts engine.conv engine.to_text summary terms)
            then refuses "no summary or terms for recommendation"
            else informs (
                recommend engine corpus
                  (engine.encode
                    (engine.of_text (build_query engine.conv engine.to_text summary terms)))
                  (or_else (as_dict (get content "filters")) end)
                  (get content "n"))))
  unfolding build_recommender recommender_handle
  recommender_handle-build_recommender settings engine content real e =
      let embedding = build_embedding disk settings in
      let loaded = load_corpus disk settings.corpus_path in
      let summary = get content "summary" in
      let terms = get content "terms" in
      let query = engine.of_text (build_query engine.conv engine.to_text summary terms) in
      let fits : is_empty (chosen embedding loaded settings.demo_mode) ≡ false
          → length (engine.encode query) ≡ dimension (chosen embedding loaded settings.demo_mode) =
        λ there.
          ap (λ f. length (f query)) e
          ∙ sized embedding query
          ∙ sym (
              chosen-dimension embedding loaded settings.demo_mode (loaded-dimension settings real)
                there) in
      (
        chosen-is_empty embedding loaded settings.demo_mode,
        ground (arith, fits, build_query-is_empty engine.conv engine.to_text summary terms),
      )
