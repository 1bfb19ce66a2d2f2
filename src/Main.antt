-- ===== src/Main.antt =====
-- Wiring the program (main.py, config.py): the adapters that the settings choose, the recommender's
-- corpus, the agents with their channels and timeouts, and the shutdown. Times are milliseconds.
pub mod Wiring
pub mod Corpora
use mas_research.Text.{Text, strip}
use mas_research.Base.{
  String, ℕ, zero, suc, ◌+◌, ◌*◌, ◌==◌, Bool, true, false, not, ◌&&◌, ◌||◌, Option, none, some,
  List, [], ◌∷◌, ◌++◌, map, select, is_empty, if◌then◌else◌, string_key, same,
}
use mas_research.Base.Int.{ℤ, pos}
use mas_research.Base.Dict.{Dict}
use mas_research.Schemas.{
  Operation, f1_transcribe, f2_ocr, f3_summarize, f4_test, f5_terms, f6_recommend,
}
use mas_research.Values.{Float}
use mas_research.Recommend.{CorpusEntry}

-- The settings that choose and wire.
pub record Settings : Type 0 where
  pub gigachat_credentials : String
  pub coord_timeout_transcriber : ℕ
  pub coord_timeout_ocr : ℕ
  pub coord_timeout_summarizer : ℕ
  pub coord_timeout_test_generator : ℕ
  pub coord_timeout_terminology : ℕ
  pub coord_timeout_recommender : ℕ
  pub embedding_model : String
  pub corpus_path : String
  pub transcriber_backend : String
  pub whisper_model : String
  pub whisper_device : String
  pub whisper_compute_type : String
  pub whisper_batch_size : ℕ
  pub ocr_backend : String
  pub ocr_languages : Text
  pub ner_backend : String
  pub spacy_model : String
  pub demo_mode : Bool

pub data Llm : Type 0 where
  gigachat : Llm
  fake_llm : Llm

pub data Embedding : Type 0 where
  sentence_transformer : String → Embedding
  fake_embedding : Embedding

pub data Transcriber : Type 0 where
  whisper : String → String → String → ℕ → Transcriber
  fake_transcriber : Transcriber

pub data Ocr : Type 0 where
  pymupdf : List Text → Ocr
  fake_ocr : Ocr

pub data Ner : Type 0 where
  spacy : String → Ner
  fake_ner : Ner

-- What is at a path: whether papers.jsonl and papers.npy exist, and their entries.
pub record Disk : Type 0 where
  pub has_jsonl : String → Bool
  pub has_npy : String → Bool
  pub entries : String → List CorpusEntry

-- `_build_llm`
unfoldable pub build_llm : Settings → Llm
build_llm settings = if same settings.gigachat_credentials "" then fake_llm else gigachat

abbrev pub has_corpus : Disk → String → Bool
has_corpus disk path = disk.has_jsonl path && disk.has_npy path

-- `_build_embedding`
unfoldable pub build_embedding : Disk → Settings → Embedding
build_embedding disk settings =
    if has_corpus disk settings.corpus_path
    then sentence_transformer settings.embedding_model
    else fake_embedding

-- `_build_transcriber`
unfoldable pub build_transcriber : Settings → Transcriber
build_transcriber settings =
    if same settings.transcriber_backend "whisper"
    then whisper settings.whisper_model settings.whisper_device settings.whisper_compute_type
        settings.whisper_batch_size
    else fake_transcriber

-- `text.split(",")`, where `part` is the part that is open.
unfoldable pub split_comma : Text → Text → List Text
split_comma part [] = part ∷ []
split_comma part (c ∷ cs) =
    let next = split_comma [] cs in
    let inside = split_comma (part ++ c ∷ []) cs in if c == 44 then part ∷ next else inside

unfoldable pub languages_of : Text → List Text
unfolding split_comma strip
languages_of text = map strip (select (λ s. not (is_empty (strip s))) (split_comma [] text))

-- `_build_ocr`
unfoldable pub build_ocr : Settings → Ocr
unfolding languages_of
build_ocr settings =
    if same settings.ocr_backend "pymupdf"
    then pymupdf (languages_of settings.ocr_languages)
    else fake_ocr

-- `_build_ner`
unfoldable pub build_ner : Settings → Ner
build_ner settings =
    if same settings.ner_backend "spacy" then spacy settings.spacy_model else fake_ner

-- `_DEMO_PAPERS`
abbrev pub demo_papers : List (String × ℕ × String)
demo_papers =
    ("Graph algorithms and data structures", 2021, "https://example.org/graphs")
    ∷ ("An introduction to machine learning", 2020, "https://example.org/ml")
    ∷ ("Methods in natural language processing", 2022, "https://example.org/nlp")
    ∷ ("Information retrieval foundations", 2019, "https://example.org/ir")
    ∷ []

-- `load_corpus`
unfoldable pub load_corpus : Disk → String → List CorpusEntry
load_corpus disk path = if has_corpus disk path then disk.entries path else []

-- What `encode` makes of a text; it returns one vector for each text.
module _ (embed : Embedding → String → List Float) where
  abbrev with_vectors : List (String × ℕ × String) → List (List Float) → List CorpusEntry
  with_vectors ((title, year, url) ∷ papers) (vector ∷ vectors) =
      record {
        title = title;
        authors = none;
        year = some (pos year);
        url = some url;
        embedding = vector;
      }
      ∷ with_vectors papers vectors
  with_vectors _ _ = []

  -- `_demo_corpus`
  unfoldable pub demo_corpus : Embedding → List CorpusEntry
  demo_corpus embedding =
      with_vectors demo_papers (map (λ paper. embed embedding paper.0) demo_papers)

  -- `_build_recommender`: the embedding and the corpus of the agent.
  unfoldable pub build_recommender : Disk → Settings → Embedding × List CorpusEntry
  unfolding build_embedding demo_corpus load_corpus
  build_recommender disk settings =
      let embedding = build_embedding disk settings in
      let corpus = load_corpus disk settings.corpus_path in
      (embedding, if is_empty corpus && settings.demo_mode then demo_corpus embedding else corpus)

-- `_agent_timeouts`
unfoldable pub agent_timeouts : Settings → Dict String ℕ
agent_timeouts settings =
    ("transcriber", settings.coord_timeout_transcriber * 1_000)
    ∷ ("ocr", settings.coord_timeout_ocr * 1_000)
    ∷ ("summarizer", settings.coord_timeout_summarizer * 1_000)
    ∷ ("test_generator", settings.coord_timeout_test_generator * 1_000)
    ∷ ("terminology", settings.coord_timeout_terminology * 1_000)
    ∷ ("recommender", settings.coord_timeout_recommender * 1_000)
    ∷ []

-- What an agent hands to `AgentBase`.
pub record Wired : Type 0 where
  pub name : String
  pub channel : String
  pub group : String
  pub operation : Operation

-- `agents` of `lifespan`
unfoldable pub wired_agents : List Wired
wired_agents =
    record {
      name = "TranscriberAgent";
      channel = "agent.transcriber";
      group = "worker-transcriber";
      operation = f1_transcribe;
    }
    ∷ record { name = "OCRAgent"; channel = "agent.ocr"; group = "worker-ocr"; operation = f2_ocr }
    ∷ record {
      name = "SummarizerAgent";
      channel = "agent.summarizer";
      group = "worker-summarizer";
      operation = f3_summarize;
    }
    ∷ record {
      name = "TestGeneratorAgent";
      channel = "agent.test_generator";
      group = "worker-test_generator";
      operation = f4_test;
    }
    ∷ record {
      name = "TerminologyAgent";
      channel = "agent.terminology";
      group = "worker-terminology";
      operation = f5_terms;
    }
    ∷ record {
      name = "RecommenderAgent";
      channel = "agent.recommender";
      group = "worker-recommender";
      operation = f6_recommend;
    }
    ∷ []

-- How a task of asyncio ends when it is cancelled, in the order in which `gather` sees the ends.
pub data Ending : Type 0 where
  returned : Ending
  cancelled : Ending
  raised : Ending

-- Whether `gather` passes on a raise that `suppress(CancelledError)` does not hold back.
unfoldable pub gather_raises : List Ending → Bool
gather_raises [] = false
gather_raises (returned ∷ endings) = gather_raises endings
gather_raises (cancelled ∷ endings) = false
gather_raises (raised ∷ endings) = true

pub data Step : Type 0 where
  coordinator_shutdown : Step
  agent_shutdown : String → Step
  task_cancel : String → Step
  redis_aclose : Step
  engine_dispose : Step

-- `_teardown`, and the end of `lifespan` after it.
unfoldable pub teardown : List Wired → List Ending → List Step
unfolding gather_raises
teardown agents endings =
    coordinator_shutdown ∷ map (λ a. agent_shutdown a.name) agents
    ++ task_cancel "Coordinator" ∷ map (λ a. task_cancel a.name) agents
    ++ (if gather_raises endings then [] else redis_aclose ∷ [])

unfoldable pub lifespan_exit : List Wired → List Ending → List Step
unfolding teardown gather_raises
lifespan_exit agents endings =
    teardown agents endings ++ (if gather_raises endings then [] else engine_dispose ∷ [])
