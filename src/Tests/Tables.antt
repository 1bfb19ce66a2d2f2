-- ===== src/Tests/Tables.antt =====
-- Saving results at a concrete database (agents/store.py, db/repos.py).
use mas_research.Base.{
  String, Bool, true, false, ◌≡◌, ◌≢◌, refl, some, none, [], ◌∷◌, string_key, string_dec,
}
use mas_research.Base.Int.{pos}
use mas_research.Base.Dict.{contains}
use mas_research.Values.{Fields, end, field, str, null, list_of, dict, Conversions, get}
use mas_research.Schemas.{f5_terms}
use mas_research.Db.Rows.{TaskRow, TextChunkRow, TermRow}
use mas_research.Db.Tables.{Database, Driver}
use mas_research.Db.Repos.{
  list_chunk_rows, list_term_rows, list_citation_rows, get_summary_row, get_quiz_row,
}
use Prim.Native.String.{compare}
use Prim.Native.Nat.{lt}
use mas_research.Base.Decimal.{decimal, digit}
use mas_research.Db.Recovery.{ResultRows}
use mas_research.Db.Store.{save_result, result_rows}
use mas_research.Db.Inserted.{distinct}
use mas_research.Db.Sound.{IsSound}
use mas_research.Db.Found.{IsNamed}
use mas_research.Db.Saved.{save_result-IsSound}
use mas_research.Db.Twice.{save_result-twice}
use mas_research.Db.Spec.{with_content}
use mas_research.Db.Refinement.{save_result-refines}

abbrev conv : Conversions
conv = record { print = λ v. "value"; parse = λ v. none }

abbrev driver : Driver
driver = record {
  takes_task = λ r. true;
  takes_document = λ r. true;
  takes_chunk = λ r. true;
  takes_summary = λ r. true;
  takes_term = λ r. true;
  takes_quiz = λ r. true;
  takes_citation = λ r. true;
}

abbrev task_row : String → TaskRow
task_row id = record {
  id = id;
  user_id = "demo-user";
  status = "running";
  requested_outputs = "F5" ∷ [];
  final_artifact = none;
  stats = none;
}

abbrev chunk : String → TextChunkRow
chunk id = record {
  id = id;
  task_id = "t1";
  document_id = "d1";
  source_type = "audio";
  content = "text";
  chunk_index = pos 0;
  confidence = null;
  meta = none;
}

abbrev db : Database
db = record {
  tasks = task_row "t1" ∷ task_row "t2" ∷ [];
  documents =
      record {
        id = "d1";
        task_id = "t1";
        document_type = "audio";
        file_path = "a.mp3";
        original_name = none;
      }
      ∷ [];
  text_chunks = chunk "c1" ∷ [];
  summaries = [];
  terms = [];
  quizzes = [];
  citations = [];
}

abbrev content : Fields
content =
    field "terms"
      (list_of (dict (field "term" (str "net") (field "source_chunk_id" (str "c1") end)) ∷ [])) end

abbrev term : TermRow
term = record {
  id = "term-t1-0";
  task_id = "t1";
  text_chunk_id = str "c1";
  term = "net";
  lemma = null;
  frequency = null;
  category = null;
}

abbrev out : Database
out = record db { terms = term ∷ [] }

abbrev rows : ResultRows
rows = record { chunks = chunk "c1" ∷ []; summary = none; terms = []; quiz = none; citations = [] }

db-IsSound : IsSound db
unfolding distinct contains string_dec
db-IsSound = record {
  tasks = refl;
  documents = record { keys = refl; references = refl };
  text_chunks = record { keys = refl; references = refl };
  summaries = record { keys = refl; references = refl };
  terms = record { keys = refl; references = refl };
  quizzes = record { keys = refl; references = refl };
  citations = record { keys = refl; references = refl };
}

db-IsNamed : IsNamed db
db-IsNamed = record { summaries = tt; quizzes = tt }

saved : save_result conv driver "t1" f5_terms content db ≡ some out
unfolding save_result contains string_dec get decimal digit
saved = refl

-- By code points.
before : String → String → Bool
before a b = elim (compare a b) [ lt ↦ true | _ ↦ false ]

-- The ids order the third chunk of a document after its eleventh.
out_of_order :
    list_chunk_rows before "t1"
      (record db { text_chunks = chunk "chunk-d1-2" ∷ chunk "chunk-d1-10" ∷ [] })
    ≡ chunk "chunk-d1-10" ∷ chunk "chunk-d1-2" ∷ []
unfolding list_chunk_rows before string_dec
out_of_order = refl

rows_found : result_rows before "t1" db ≡ some rows
unfolding result_rows list_chunk_rows list_term_rows list_citation_rows get_summary_row get_quiz_row
    before string_dec
rows_found = refl

save_result-IsSound_example : IsSound out
save_result-IsSound_example =
    save_result-IsSound conv driver "t1" content f5_terms db out db-IsSound saved

save_result-twice_example : save_result conv driver "t1" f5_terms content out ≡ some out
save_result-twice_example =
    save_result-twice conv driver "t1" f5_terms content db out db-IsSound saved

save_result-refines_example :
    (result_rows before "t1" out
      ≡ some (with_content before conv driver "t1" content f5_terms rows))
    × ((u : String) → u ≢ "t1" → result_rows before u out ≡ result_rows before u db)
    × IsNamed out
save_result-refines_example =
    save_result-refines before conv driver "t1" content f5_terms db out rows db-IsSound db-IsNamed
      tt rows_found saved
