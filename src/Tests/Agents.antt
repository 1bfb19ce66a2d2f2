-- ===== src/Tests/Agents.antt =====
-- The theorems on the agents at concrete inputs (agents/).
use mas_research.Base.{
  string_dec, ℕ, arith, false, true, ◌≡◌, refl, some, none, [], ◌∷◌, leb, map, take, all, length,
  text_key, nat_key, string_key, String, same, if◌then◌else◌,
}
use mas_research.Base.Int.{pos}
use mathlib.Core.List.{Memᴰ}
use mas_research.Text.{Text, strip, lstrip, rstrip}
use mas_research.Values.{int, end, Conversions, get, Fields, field, dict, list_of, str}
use mas_research.Schemas.{QuizQuestion, single_choice, f4_test, TextChunk, Citation}
use mas_research.Core.Messages.{Message, request, make_message}
use mas_research.Quiz.{dedup_choices}
use mas_research.Quiz.Dedup.{normal_at}
use mas_research.Quiz.Answers.{dedup_choices-answer}
use mas_research.Quiz.Filter.{Fair}
use mas_research.Quiz.Handling.{
  lacks_summary, summary_to_text, sections_asked, test_generator_handle, test_generator_handle-Fair,
}
use mas_research.Text.Contents.{field_texts}
use mas_research.Text.Joined.{is_blank}
use mas_research.Recommend.{
  CorpusEntry, Engine, recommend, year_ok, year_bounds, top_n_of, sort_scored, insert_scored,
  citation_of,
}
use mas_research.Recommend.Years.{IsAllowed, recommend-IsAllowed}
use mas_research.Summary.{RawSummary, Model, step_size, split_blocks}
use mas_research.Summary.Blocks.{join, split_blocks-join}
use mas_research.Ingestion.{chunks_content}
use mas_research.Db.Rows.{chunk_rows}
use mas_research.Ingestion.Persisted.{rows_at, chunk_rows-chunks_content}
use mas_research.Agent.{Agent, Desk, replies, read_once}
use mas_research.Agent.Reading.{OnDone, HasAcks, acks, entries_onto, read_once-HasAcks}

-- The model's own question has a choice twice, and the answer at the second of them.
abbrev question : QuizQuestion
question = record {
  question = 119 ∷ 104 ∷ 121 ∷ [];
  type = single_choice;
  choices = (97 ∷ []) ∷ (98 ∷ []) ∷ (98 ∷ []) ∷ (99 ∷ []) ∷ [];
  answer_idx = some (pos 2);
  answer_indices = none;
  source_chunk_id = none;
}

abbrev id_lower : Text → Text
id_lower t = t

repeated_choice : normal_at id_lower question.choices 2 ≡ some (98 ∷ [])
unfolding normal_at strip lstrip rstrip
repeated_choice = refl

dedup_choices-answer_example :
    (j : ℕ) × ((dedup_choices id_lower question).answer_idx ≡ some (pos j))
    × (normal_at id_lower (dedup_choices id_lower question).choices j ≡ some (98 ∷ []))
dedup_choices-answer_example =
    dedup_choices-answer id_lower question refl refl 2 (98 ∷ []) refl repeated_choice

abbrev conv : Conversions
conv = record { print = λ v. "value"; parse = λ v. none }

abbrev quiz_request : Fields
quiz_request =
    field "summary" (dict (field "sections" (list_of (dict (field "text" (str "a") end) ∷ [])) end))
      end

abbrev letter : String → Text
letter s = if same s "" then [] else 97 ∷ []

test_generator_handle-Fair_example :
    let summary = summary_to_text conv letter quiz_request in
    (lacks_summary
        (test_generator_handle conv letter id_lower (λ s. some (question ∷ [])) quiz_request)
      ≡ all is_blank (field_texts conv letter "text" (sections_asked quiz_request)))
    × Fair id_lower summary
        (question ∷ [])
        (test_generator_handle conv letter id_lower (λ s. some (question ∷ [])) quiz_request)
test_generator_handle-Fair_example =
    test_generator_handle-Fair conv letter id_lower (λ s. some (question ∷ [])) quiz_request

abbrev raw : RawSummary
raw = record { introduction = []; key_points = []; conclusions = [] }

abbrev model : Model
model = record { answer = λ n prompt. some raw; retry_hint = []; reduce_prompt = λ parts. [] }

abbrev long_text : Text
long_text = 97 ∷ 98 ∷ 99 ∷ 100 ∷ 101 ∷ []

split_blocks-join_example :
    (join (map (take (step_size 3 1)) (split_blocks 3 1 long_text)) ≡ long_text)
    × (all (λ b. leb (length b) 3) (split_blocks 3 1 long_text) ≡ true)
split_blocks-join_example = split_blocks-join 3 1 long_text (omega arith)

abbrev heard : TextChunk
heard = record {
  id = "raw";
  task_id = "";
  document_id = "";
  source_type = "audio";
  content = "words";
  chunk_index = pos 0;
  confidence = none;
  meta = end;
}

chunk_rows-chunks_content_example :
    chunk_rows conv "t1" (chunks_content "t1" "d1" (heard ∷ []) end)
    ≡ some (rows_at "t1" "d1" 0 (heard ∷ []))
chunk_rows-chunks_content_example = chunk_rows-chunks_content conv "t1" "d1" (heard ∷ []) end

abbrev agent : Agent
agent = record {
  name = "SummarizerAgent";
  operation = f4_test;
  handle = λ m. replies (some m);
  force_refuse = "";
  hang_agent = "";
  hex = λ n. "hex";
  utc = λ n. "utc";
  fails = λ n. false;
}

abbrev desk : Desk
desk = record {
  idempotency = record { cache_size = 1000; seen = [] };
  made = 0;
  calls = 0;
  log = [];
}

abbrev asked : Message
asked = make_message "hex" "utc" (record {
  performative = request;
  sender = "CoordinatorAgent";
  receiver = "test_generator";
  task_id = "t1";
  conversation_id = "conv-t1-F4";
  content = end;
  in_reply_to = none;
  subtask_id = some "st-t1-F4";
})

read_once-HasAcks_example :
    OnDone
      (HasAcks (entries_onto (("1-0", asked) ∷ ("2-0", asked) ∷ []) (acks desk.log)))
      (read_once agent (("1-0", asked) ∷ ("2-0", asked) ∷ []) desk)
read_once-HasAcks_example = read_once-HasAcks agent (("1-0", asked) ∷ ("2-0", asked) ∷ []) desk

abbrev engine : Engine
engine = record {
  conv = record { print = λ v. "value"; parse = λ v. none };
  to_text = λ s. [];
  of_text = λ t. "query";
  encode = λ q. [];
  cosine = λ v w. 0;
  before = λ x y. false;
  rounded = λ x. x;
}

abbrev paper : CorpusEntry
paper = record {
  title = "A paper";
  authors = none;
  year = some (pos 2020);
  url = none;
  embedding = [];
}

abbrev cited : Citation
cited = record {
  title = "A paper";
  authors = none;
  year = some (pos 2020);
  url = none;
  relevance_score = 0;
}

abbrev since_2019 : Fields
since_2019 = field "year_min" (int (pos 2019)) end

cited-Memᴰ : Memᴰ cited (recommend engine (paper ∷ []) [] since_2019 none)
unfolding recommend year_ok year_bounds get string_dec top_n_of sort_scored insert_scored
    citation_of
cited-Memᴰ = Memᴰ.head refl

recommend-IsAllowed_example : IsAllowed (paper ∷ []) since_2019 cited
recommend-IsAllowed_example =
    recommend-IsAllowed engine (paper ∷ []) [] since_2019 none cited cited-Memᴰ
