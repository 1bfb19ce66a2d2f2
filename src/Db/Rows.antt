-- ===== src/Db/Rows.antt =====
-- From an inform's content to rows (db/result_mapping.py). A column that the code fills with whatever
-- the content holds is a `Value`, with `null` for None.
use Prim.Native.String.{◌++◌ as concat}
use mas_research.Base.{
  or_else, ℕ, ◌+◌, String, Option, none, some, List, [], ◌∷◌, string_key, same, if◌then◌else◌,
}
use mas_research.Base.Int.{ℤ, pos}
use mas_research.Base.Decimal.{show}
use mas_research.Values.{
  Value, null, str, dict, int, Fields, get, get_or, either, as_list, as_dict, Conversions, text_of,
  int_of,
}

pub record TaskRow : Type 0 where
  pub id : String
  pub user_id : String
  pub status : String
  pub requested_outputs : List String
  pub final_artifact : Option Fields
  pub stats : Option Fields

pub record DocumentRow : Type 0 where
  pub id : String
  pub task_id : String
  pub document_type : String
  pub file_path : String
  pub original_name : Option String

pub record SummaryRow : Type 0 where
  pub id : String
  pub task_id : String
  pub introduction : Value
  pub key_points : Value
  pub conclusions : Value
  pub source_chunk_ids : Value

pub record TermRow : Type 0 where
  pub id : String
  pub task_id : String
  pub text_chunk_id : Value
  pub term : String
  pub lemma : Value
  pub frequency : Value
  pub category : Value

pub record QuizRow : Type 0 where
  pub id : String
  pub task_id : String
  pub questions : List Value
  pub difficulty : Value

pub record CitationRow : Type 0 where
  pub id : String
  pub task_id : String
  pub title : String
  pub authors : Value
  pub year : Value
  pub url : Value
  pub relevance_score : Value

pub record TextChunkRow : Type 0 where
  pub id : String
  pub task_id : String
  pub document_id : String
  pub source_type : String
  pub content : String
  pub chunk_index : ℤ
  pub confidence : Value
  pub meta : Option Fields

-- The columns that the loop of `summary_row` fills.
pub record Columns : Type 0 where
  pub introduction : Value
  pub key_points : Value
  pub conclusions : Value

abbrev pub no_columns : Columns
no_columns = record { introduction = null; key_points = null; conclusions = null }

-- `columns[_SECTION_TO_COLUMN[kind]] = text`, where the kind has a column.
unfoldable pub set_column : String → Value → Columns → Columns
set_column kind text c =
    if same kind "introduction"
    then record c { introduction = text }
    else if same kind "thesis"
    then record c { key_points = text }
    else if same kind "conclusion"
    then record c { conclusions = text }
    else c

unfoldable pub place_section : Conversions → Value → Columns → Columns
unfolding set_column text_of
place_section conv (dict section) c =
    set_column (text_of conv (get_or section "type" null)) (get_or section "text" null) c
place_section conv _ c = c

unfoldable pub place_sections : Conversions → List Value → Columns → Columns
unfolding place_section
place_sections conv [] c = c
place_sections conv (v ∷ vs) c = place_sections conv vs (place_section conv v c)

-- The items of a list in the content; none where it is not a list.
abbrev pub items_at : Fields → String → List Value
items_at content k = or_else (as_list (get content k)) []

unfoldable pub summary_row : Conversions → String → Fields → SummaryRow
unfolding place_sections
summary_row conv task_id content =
    let c = place_sections conv (items_at content "sections") no_columns in
    record {
      id = text_of conv (either (get_or content "summary_id" null) (str (concat "sum-" task_id)));
      task_id = task_id;
      introduction = c.introduction;
      key_points = c.key_points;
      conclusions = c.conclusions;
      source_chunk_ids = get_or content "source_chunk_ids" null;
    }

-- `f"{prefix}-{task_id}-{index}"`
unfoldable pub row_id : String → String → ℕ → String
unfolding show
row_id prefix task_id index = concat prefix (concat "-" (concat task_id (concat "-" (show index))))

unfoldable pub term_row : Conversions → String → ℕ → Fields → TermRow
unfolding row_id text_of
term_row conv task_id index term = record {
  id = row_id "term" task_id index;
  task_id = task_id;
  text_chunk_id = get_or term "source_chunk_id" null;
  term = text_of conv (get_or term "term" (str ""));
  lemma = get_or term "lemma" null;
  frequency = get_or term "frequency" null;
  category = get_or term "category" null;
}

unfoldable pub citation_row : Conversions → String → ℕ → Fields → CitationRow
unfolding row_id text_of
citation_row conv task_id index citation = record {
  id = row_id "cit" task_id index;
  task_id = task_id;
  title = text_of conv (get_or citation "title" (str ""));
  authors = get_or citation "authors" null;
  year = get_or citation "year" null;
  url = get_or citation "url" null;
  relevance_score = get_or citation "relevance_score" null;
}

-- `for index, item in enumerate(items)`, where an item that is no dict is passed over.
unfoldable pub rows_from : {R : Type 0} → (ℕ → Fields → R) → ℕ → List Value → List R
rows_from row index [] = []
rows_from row index (dict item ∷ items) = row index item ∷ rows_from row (index + 1) items
rows_from row index (_ ∷ items) = rows_from row (index + 1) items

unfoldable pub term_rows : Conversions → String → Fields → List TermRow
unfolding rows_from term_row
term_rows conv task_id content = rows_from (term_row conv task_id) 0 (items_at content "terms")

unfoldable pub citation_rows : Conversions → String → Fields → List CitationRow
unfolding rows_from citation_row
citation_rows conv task_id content =
    rows_from (citation_row conv task_id) 0 (items_at content "citations")

unfoldable pub quiz_row : Conversions → String → Fields → QuizRow
unfolding text_of
quiz_row conv task_id content = record {
  id = text_of conv (either (get_or content "quiz_id" null) (str (concat "quiz-" task_id)));
  task_id = task_id;
  questions = items_at content "questions";
  difficulty = get_or content "difficulty" null;
}

-- One chunk; `none` is the raise of `int(...)`.
unfoldable pub chunk_row : Conversions → String → Fields → Option TextChunkRow
unfolding text_of int_of
chunk_row conv task_id chunk = elim (int_of conv (get_or chunk "chunk_index" (int (pos 0)))) [
  | none ↦ none
  | some index ↦ some (record {
    id = text_of conv (get_or chunk "id" null);
    task_id = task_id;
    document_id = text_of conv (get_or chunk "document_id" null);
    source_type = text_of conv (get_or chunk "source_type" null);
    content = text_of conv (get_or chunk "content" (str ""));
    chunk_index = index;
    confidence = get_or chunk "confidence" null;
    meta = as_dict (get chunk "meta");
  })
]

unfoldable pub chunk_rows_from : Conversions → String → List Value → Option (List TextChunkRow)
unfolding chunk_row
chunk_rows_from conv task_id [] = some []
chunk_rows_from conv task_id (dict chunk ∷ chunks) = elim (chunk_row conv task_id chunk) [
  | none ↦ none
  | some row ↦ elim (chunk_rows_from conv task_id chunks) [
    | none ↦ none
    | some rows ↦ some (row ∷ rows)
  ]
]
chunk_rows_from conv task_id (_ ∷ chunks) = chunk_rows_from conv task_id chunks

unfoldable pub chunk_rows : Conversions → String → Fields → Option (List TextChunkRow)
unfolding chunk_rows_from
chunk_rows conv task_id content = chunk_rows_from conv task_id (items_at content "chunks")
