-- ===== src/Tests/Main.antt =====
-- The theorems on the wiring at concrete inputs (main.py).
use mas_research.Base.{
  none, ◌*◌, ◌≡◌, refl, true, false, not, ◌&&◌, String, List, [], ◌∷◌, is_empty, same, string_key,
  or_else, if◌then◌else◌, all,
}
use mas_research.Schemas.{f4_test}
use mas_research.Values.{end, Float, get, as_dict, field, str, dict, list_of, Fields}
use mas_research.Plan.{operation_to_agent, agent_value, agent_class_name}
use mas_research.Core.Messages.{channel_for_agent}
use mas_research.Coordinator.Handlers.{Config, timeout_for}
use mas_research.Text.Joined.{is_blank}
use mas_research.Recommend.Query.{query_parts}
use mas_research.Recommend.{Engine, refuses, informs, recommend, recommender_handle}
use mas_research.Main.{Settings, Disk, Embedding, agent_timeouts, build_recommender, load_corpus}
use mas_research.Main.Wiring.{readers, IsOnly, readers-channel_for_agent}
use mas_research.Main.Corpora.{recommender_handle-build_recommender}

abbrev settings : Settings
settings = record {
  gigachat_credentials = "";
  coord_timeout_transcriber = 600;
  coord_timeout_ocr = 120;
  coord_timeout_summarizer = 90;
  coord_timeout_test_generator = 60;
  coord_timeout_terminology = 30;
  coord_timeout_recommender = 15;
  embedding_model = "intfloat/multilingual-e5-base";
  corpus_path = "corpus";
  transcriber_backend = "fake";
  whisper_model = "large-v3";
  whisper_device = "cuda";
  whisper_compute_type = "float16";
  whisper_batch_size = 8;
  ocr_backend = "fake";
  ocr_languages = [];
  ner_backend = "fake";
  spacy_model = "ru_core_news_lg";
  demo_mode = true;
}

abbrev config : Config
config = record {
  timeouts = agent_timeouts settings;
  global_deadline_sec = 1_800_000;
  validators = record {
    summary = λ c. none;
    term = λ v. none;
    question = λ v. none;
    citation = λ v. none;
  };
}

readers-channel_for_agent_example :
    IsOnly
      (agent_class_name (operation_to_agent f4_test))
      f4_test
      (readers (channel_for_agent (agent_value (operation_to_agent f4_test))))
    × (timeout_for config (operation_to_agent f4_test) ≡ 60 * 1_000)
readers-channel_for_agent_example = readers-channel_for_agent settings config refl f4_test

-- Without corpus files the demo corpus is taken.
abbrev disk : Disk
disk = record { has_jsonl = λ path. false; has_npy = λ path. false; entries = λ path. [] }

abbrev embed : Embedding → String → List Float
embed embedding text = 0 ∷ 1 ∷ []

abbrev engine : Engine
engine = record {
  conv = record { print = λ v. "value"; parse = λ v. none };
  to_text = λ s. if same s "" then [] else 103 ∷ [];
  of_text = λ t. "graphs";
  encode = λ query. 0 ∷ 1 ∷ [];
  cosine = λ left right. 0;
  before = λ a b. false;
  rounded = λ score. score;
}

abbrev with_terms : Fields
with_terms = field "terms" (list_of (dict (field "term" (str "graph") end) ∷ [])) end

recommender_handle-build_recommender_example :
    let corpus = (build_recommender embed disk settings).1 in
    let summary = get with_terms "summary" in
    let terms = get with_terms "terms" in
    (is_empty corpus ≡ (is_empty (load_corpus disk "corpus") && not true))
    × (recommender_handle engine corpus with_terms ≡ (
        if is_empty corpus
        then refuses "corpus not loaded"
        else if all is_blank (query_parts engine.conv engine.to_text summary terms)
        then refuses "no summary or terms for recommendation"
        else informs (
            recommend engine corpus
              (0 ∷ 1 ∷ [])
              (or_else (as_dict (get with_terms "filters")) end)
              (get with_terms "n"))))
recommender_handle-build_recommender_example =
    recommender_handle-build_recommender embed (λ embedding. 2) (λ embedding text. refl) disk
      settings engine with_terms (λ there full. absurd (cc there)) refl
