-- ===== src/Tests/Adapters.antt =====
-- The adapters at concrete inputs (adapters/).
use mas_research.Adapters.Spacy.{Spacy, SpacyNerAdapter, extract_many}
use mas_research.Adapters.Spacy.Batches.{extract_each, extract_many-each}
use mas_research.Text.{Text}
use mas_research.Base.{
  ℕ, ◌≡◌, refl, none, some, List, [], ◌∷◌, map, same, if◌then◌else◌, string_key,
}
use mas_research.Adapters.Whisper.{Segment, join_space, segments_to_chunks}
use mas_research.Adapters.Whisper.Bounds.{AllFair, contents, texts_of, segments_to_chunks-texts}

abbrev segment : List ℕ → Segment
segment text = record { text = some text; start = some 0; end_time = some 1 }

-- " ab", "cde", " ", "f"
abbrev segments : List Segment
segments =
    segment (32 ∷ 97 ∷ 98 ∷ [])
    ∷ segment (99 ∷ 100 ∷ 101 ∷ [])
    ∷ segment (32 ∷ [])
    ∷ segment (102 ∷ [])
    ∷ []

segments_to_chunks-texts_example :
    AllFair 5 segments (segments_to_chunks 5 segments)
    × (join_space (contents (segments_to_chunks 5 segments)) ≡ join_space (texts_of segments))
segments_to_chunks-texts_example = segments_to_chunks-texts 5 segments

two_chunks :
    contents (segments_to_chunks 5 segments)
    ≡ (97 ∷ 98 ∷ []) ∷ (99 ∷ 100 ∷ 101 ∷ 32 ∷ 102 ∷ []) ∷ []
unfolding segments_to_chunks
two_chunks = refl

-- There is no English model, so its texts go to the Russian one.
abbrev spacy : Spacy ℕ
spacy = record {
  load = λ n name. if same name "en_core_web_sm" then none else some n;
  run = λ nlp text. record {
    ents = record { text = text; lemma = text; label = [] } ∷ [];
    tokens = [];
  };
  pipe = λ nlp texts.
      map
        (λ text. record {
          ents = record { text = text; lemma = text; label = [] } ∷ [];
          tokens = [];
        })
        texts;
  lower = λ text. text;
}

abbrev adapter : SpacyNerAdapter ℕ
adapter = record {
  model_name = "ru_core_news_lg";
  en_model_name = "en_core_web_sm";
  pipelines = [];
  by_model = [];
  loads = 0;
}

abbrev mixed_texts : List Text
mixed_texts = (97 ∷ []) ∷ (1072 ∷ []) ∷ (98 ∷ 99 ∷ []) ∷ []

extract_many-each_example :
    extract_many spacy mixed_texts adapter ≡ extract_each spacy mixed_texts adapter
extract_many-each_example = extract_many-each spacy (λ nlp texts. refl) mixed_texts adapter
