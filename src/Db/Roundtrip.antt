-- ===== src/Db/Roundtrip.antt =====
-- Rows survive the way to an inform's content and back (db/result_mapping.py).
use mas_research.Base.{
  ◌∙◌, ℕ, ◌+◌, String, false, ◌≡◌, refl, ap, some, or_else, List, [], ◌∷◌, ◌++◌, map, string_key,
  string_dec, same,
}
use mas_research.Values.{
  int_of, end, list_of, text_of, get, Value, null, bool, int, float, str, list, dict, to_list,
  of_list, either, truthy, Conversions,
}
use mas_research.Db.Rows.{
  chunk_row, set_column, no_columns, place_section, SummaryRow, TermRow, QuizRow, CitationRow,
  TextChunkRow, place_sections, summary_row, row_id, rows_from, term_row, term_rows, quiz_row,
  citation_row, citation_rows, chunk_rows_from, chunk_rows,
}
use mas_research.Db.Contents.{
  sections_of, section_of, content_from_summary_row, term_content, content_from_term_rows,
  content_from_quiz_row, citation_content, content_from_citation_rows, chunk_content,
  content_from_chunk_rows,
}

to_list-of_list : (vs : List Value) → to_list (of_list vs) ≡ vs
to_list-of_list [] = refl
to_list-of_list (v ∷ vs) = ap (◌∷◌ v) (to_list-of_list vs)

-- The rows with the ids that belong to their places, from `index` on.
pub numbered_terms : String → ℕ → List TermRow → List TermRow
numbered_terms task_id index [] = []
numbered_terms task_id index (row ∷ rows) =
    record row { id = row_id "term" task_id index; task_id = task_id }
    ∷ numbered_terms task_id (index + 1) rows

pub numbered_citations : String → ℕ → List CitationRow → List CitationRow
numbered_citations task_id index [] = []
numbered_citations task_id index (row ∷ rows) =
    record row { id = row_id "cit" task_id index; task_id = task_id }
    ∷ numbered_citations task_id (index + 1) rows

abbrev pub stored_again : String → TextChunkRow → TextChunkRow
stored_again task_id row = record row { task_id = task_id; meta = some (or_else row.meta end) }

module _ (conv : Conversions) where
  section-introduction :
      (v k d : Value) (rest : List Value)
      → place_sections conv
          (section_of "introduction" v ++ rest)
          (record { introduction = null; key_points = k; conclusions = d })
        ≡ place_sections conv rest (record { introduction = v; key_points = k; conclusions = d })
  unfolding place_sections place_section set_column section_of text_of get string_dec
  section-introduction null k d rest = refl
  section-introduction (bool b) k d rest = refl
  section-introduction (int n) k d rest = refl
  section-introduction (float n) k d rest = refl
  section-introduction (str s) k d rest = refl
  section-introduction (list vs) k d rest = refl
  section-introduction (dict fs) k d rest = refl

  section-thesis :
      (i v d : Value) (rest : List Value)
      → place_sections conv
          (section_of "thesis" v ++ rest)
          (record { introduction = i; key_points = null; conclusions = d })
        ≡ place_sections conv rest (record { introduction = i; key_points = v; conclusions = d })
  unfolding place_sections place_section set_column section_of text_of get string_dec
  section-thesis i null d rest = refl
  section-thesis i (bool b) d rest = refl
  section-thesis i (int n) d rest = refl
  section-thesis i (float n) d rest = refl
  section-thesis i (str s) d rest = refl
  section-thesis i (list vs) d rest = refl
  section-thesis i (dict fs) d rest = refl

  section-conclusion :
      (i k v : Value)
      → place_sections conv
          (section_of "conclusion" v)
          (record { introduction = i; key_points = k; conclusions = null })
        ≡ record { introduction = i; key_points = k; conclusions = v }
  unfolding place_sections place_section set_column section_of text_of get string_dec
  section-conclusion i k null = refl
  section-conclusion i k (bool b) = refl
  section-conclusion i k (int n) = refl
  section-conclusion i k (float n) = refl
  section-conclusion i k (str s) = refl
  section-conclusion i k (list vs) = refl
  section-conclusion i k (dict fs) = refl

  sections-columns :
      (row : SummaryRow)
      → place_sections conv (to_list (of_list (sections_of row))) no_columns ≡ record {
        introduction = row.introduction;
        key_points = row.key_points;
        conclusions = row.conclusions;
      }
  unfolding sections_of
  sections-columns row = rw (to_list-of_list (sections_of row)) (
      section-introduction row.introduction null null _
      ∙ section-thesis row.introduction row.key_points null _
      ∙ section-conclusion row.introduction row.key_points row.conclusions)

  -- A summary row with an id that is not empty comes back from its content as it was, but for a
  -- missing list of chunk ids, which comes back as the empty list.
  pub summary_row-content :
      (row : SummaryRow)
      → same row.id "" ≡ false
      → summary_row conv row.task_id (content_from_summary_row row)
        ≡ record row { source_chunk_ids = either row.source_chunk_ids (list_of []) }
  unfolding summary_row content_from_summary_row sections_of get text_of truthy string_dec
  summary_row-content row named = rw (named, sections-columns row) refl

  -- A quiz row with an id that is not empty comes back from its content as it was.
  pub quiz_row-content :
      (row : QuizRow)
      → same row.id "" ≡ false
      → quiz_row conv row.task_id (content_from_quiz_row row) ≡ row
  unfolding quiz_row content_from_quiz_row get text_of truthy string_dec
  quiz_row-content row named = rw (named, to_list-of_list row.questions) refl

  rows_from-terms :
      (task_id : String) (index : ℕ) (rows : List TermRow)
      → rows_from (term_row conv task_id) index (map term_content rows)
        ≡ numbered_terms task_id index rows
  unfolding rows_from term_row term_content numbered_terms get text_of string_dec
  rows_from-terms task_id index [] = refl
  rows_from-terms task_id index (row ∷ rows) =
      ap (◌∷◌ (record row { id = row_id "term" task_id index; task_id = task_id }))
        (rows_from-terms task_id (index + 1) rows)

  rows_from-citations :
      (task_id : String) (index : ℕ) (rows : List CitationRow)
      → rows_from (citation_row conv task_id) index (map citation_content rows)
        ≡ numbered_citations task_id index rows
  unfolding rows_from citation_row citation_content numbered_citations get text_of string_dec
  rows_from-citations task_id index [] = refl
  rows_from-citations task_id index (row ∷ rows) =
      ap (◌∷◌ (record row { id = row_id "cit" task_id index; task_id = task_id }))
        (rows_from-citations task_id (index + 1) rows)

  -- Term rows come back from their content in the same order with all of their columns but the ids,
  -- which are those of their places; so storing the result of a task again gives the same ids.
  pub term_rows-content :
      (task_id : String) (rows : List TermRow)
      → term_rows conv task_id (content_from_term_rows rows) ≡ numbered_terms task_id 0 rows
  unfolding term_rows content_from_term_rows get string_dec
  term_rows-content task_id rows =
      rw (to_list-of_list (map term_content rows)) (rows_from-terms task_id 0 rows)

  -- Citation rows come back from their content in the same order with all of their columns but the
  -- ids, which are those of their places.
  pub citation_rows-content :
      (task_id : String) (rows : List CitationRow)
      → citation_rows conv task_id (content_from_citation_rows rows)
        ≡ numbered_citations task_id 0 rows
  unfolding citation_rows content_from_citation_rows get string_dec
  citation_rows-content task_id rows =
      rw (to_list-of_list (map citation_content rows)) (rows_from-citations task_id 0 rows)

  chunk_rows_from-contents :
      (task_id : String) (rows : List TextChunkRow)
      → chunk_rows_from conv task_id (map chunk_content rows)
        ≡ some (map (stored_again task_id) rows)
  unfolding chunk_rows_from chunk_row chunk_content get text_of int_of string_dec
  chunk_rows_from-contents task_id [] = refl
  chunk_rows_from-contents task_id (row ∷ rows) = rw (chunk_rows_from-contents task_id rows) refl

  -- Chunk rows come back from their content, with no raise, in the same order and with all of their
  -- columns, but for a missing meta, which comes back as the empty dict.
  pub chunk_rows-content :
      (task_id : String) (rows : List TextChunkRow)
      → chunk_rows conv task_id (content_from_chunk_rows rows)
        ≡ some (map (stored_again task_id) rows)
  unfolding chunk_rows content_from_chunk_rows get string_dec
  chunk_rows-content task_id rows =
      rw (to_list-of_list (map chunk_content rows)) (chunk_rows_from-contents task_id rows)
