-- ===== src/Db/Tables.antt =====
-- The tables of the database (db/models.py) as lists of rows, with what a flush checks of them: primary
-- keys, foreign keys, and whether the driver takes a row's values for its columns, which is given.
use mas_research.Base.{
  ◌&&◌, not, String, Bool, true, false, Option, none, some, List, [], ◌∷◌, ◌++◌, map, string_key,
  same, if◌then◌else◌,
}
use mas_research.Base.Dict.{contains}
use mas_research.Values.{Value, null, str}
use mas_research.Db.Rows.{
  TaskRow, DocumentRow, TextChunkRow, SummaryRow, TermRow, QuizRow, CitationRow,
}

pub record Database : Type 0 where
  pub tasks : List TaskRow
  pub documents : List DocumentRow
  pub text_chunks : List TextChunkRow
  pub summaries : List SummaryRow
  pub terms : List TermRow
  pub quizzes : List QuizRow
  pub citations : List CitationRow

-- Whether the values of a row fit the types and lengths of its columns.
pub record Driver : Type 0 where
  pub takes_task : TaskRow → Bool
  pub takes_document : DocumentRow → Bool
  pub takes_chunk : TextChunkRow → Bool
  pub takes_summary : SummaryRow → Bool
  pub takes_term : TermRow → Bool
  pub takes_quiz : QuizRow → Bool
  pub takes_citation : CitationRow → Bool

-- A table by its primary key.
module _ {R : Type 0} (id_of : R → String) where
  abbrev pub ids : List R → List String
  ids = map id_of

  -- INSERT of new rows, each checked; `none` is an IntegrityError or an error of the driver.
  unfoldable pub insert_rows : (R → Bool) → List R → List R → Option (List R)
  insert_rows ok [] rows = some rows
  insert_rows ok (r ∷ new) rows = elim (ok r && not (contains (id_of r) (ids rows))) [
    | true ↦ insert_rows ok new (rows ++ r ∷ [])
    | false ↦ none
  ]

  -- The row with the key is replaced.
  unfoldable pub replace_row : R → List R → List R
  replace_row r [] = []
  replace_row r (q ∷ rows) =
      if same (id_of q) (id_of r) then r ∷ replace_row r rows else q ∷ replace_row r rows

  -- `session.merge(row)`: UPDATE where the key is there, else INSERT.
  unfoldable pub merge_row : (R → Bool) → R → List R → Option (List R)
  unfolding replace_row
  merge_row ok r rows =
      if ok r
      then if contains (id_of r) (ids rows)
        then some (replace_row r rows)
        else some (rows ++ r ∷ [])
      else none

abbrev pub task_ids : Database → List String
task_ids db = ids (λ t. t.id) db.tasks

abbrev pub document_ids : Database → List String
document_ids db = ids (λ d. d.id) db.documents

abbrev pub chunk_ids : Database → List String
chunk_ids db = ids (λ c. c.id) db.text_chunks

-- A nullable foreign key.
unfoldable pub refers_to : List String → Value → Bool
refers_to keys null = true
refers_to keys (str s) = contains s keys
refers_to keys _ = false

-- What a flush asks of a row.
module _ (driver : Driver) (db : Database) where
  unfoldable pub accepts_document : DocumentRow → Bool
  accepts_document r = driver.takes_document r && contains r.task_id (task_ids db)

  unfoldable pub accepts_chunk : TextChunkRow → Bool
  accepts_chunk r =
      driver.takes_chunk r
      && contains r.task_id (task_ids db)
      && contains r.document_id (document_ids db)

  unfoldable pub accepts_summary : SummaryRow → Bool
  accepts_summary r = driver.takes_summary r && contains r.task_id (task_ids db)

  unfoldable pub accepts_term : TermRow → Bool
  unfolding refers_to
  accepts_term r =
      driver.takes_term r
      && contains r.task_id (task_ids db)
      && refers_to (chunk_ids db) r.text_chunk_id

  unfoldable pub accepts_quiz : QuizRow → Bool
  accepts_quiz r = driver.takes_quiz r && contains r.task_id (task_ids db)

  unfoldable pub accepts_citation : CitationRow → Bool
  accepts_citation r = driver.takes_citation r && contains r.task_id (task_ids db)
