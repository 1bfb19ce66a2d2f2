-- ===== src/Db/Contents.antt =====
-- From rows back to an inform's content (db/result_mapping.py).
use mas_research.Base.{String, List, [], ◌∷◌, ◌++◌, map, or_else}
use mas_research.Values.{Value, null, str, int, dict, list_of, Fields, end, field, either}
use mas_research.Db.Rows.{SummaryRow, TermRow, QuizRow, CitationRow, TextChunkRow}

-- One item of the list of sections: a column that is not None.
unfoldable pub section_of : String → Value → List Value
section_of kind null = []
section_of kind text = dict (field "type" (str kind) (field "text" text end)) ∷ []

unfoldable pub sections_of : SummaryRow → List Value
unfolding section_of
sections_of row =
    section_of "introduction" row.introduction
    ++ (section_of "thesis" row.key_points ++ section_of "conclusion" row.conclusions)

unfoldable pub content_from_summary_row : SummaryRow → Fields
unfolding sections_of
content_from_summary_row row = field "summary_id" (str row.id) (
    field "sections" (list_of (sections_of row))
      (field "source_chunk_ids" (either row.source_chunk_ids (list_of [])) end))

unfoldable pub term_content : TermRow → Value
term_content row = dict (
    field "term" (str row.term) (
      field "lemma" row.lemma (
        field "frequency" row.frequency (
          field "category" row.category
            (field "context" null (field "source_chunk_id" row.text_chunk_id end))))))

unfoldable pub content_from_term_rows : List TermRow → Fields
unfolding term_content
content_from_term_rows rows = field "terms" (list_of (map term_content rows)) end

unfoldable pub content_from_quiz_row : QuizRow → Fields
content_from_quiz_row row =
    field "quiz_id" (str row.id)
      (field "questions" (list_of row.questions) (field "difficulty" row.difficulty end))

unfoldable pub citation_content : CitationRow → Value
citation_content row = dict (
    field "title" (str row.title) (
      field "authors" row.authors (
        field "year" row.year
          (field "url" row.url (field "relevance_score" row.relevance_score end)))))

unfoldable pub content_from_citation_rows : List CitationRow → Fields
unfolding citation_content
content_from_citation_rows rows = field "citations" (list_of (map citation_content rows)) end

unfoldable pub chunk_content : TextChunkRow → Value
chunk_content row = dict (
    field "id" (str row.id) (
      field "task_id" (str row.task_id) (
        field "document_id" (str row.document_id) (
          field "source_type" (str row.source_type) (
            field "content" (str row.content) (
              field "chunk_index" (int row.chunk_index) (
                field "confidence" row.confidence
                  (field "meta" (dict (or_else row.meta end)) end))))))))

unfoldable pub content_from_chunk_rows : List TextChunkRow → Fields
unfolding chunk_content
content_from_chunk_rows rows = field "chunks" (list_of (map chunk_content rows)) end
