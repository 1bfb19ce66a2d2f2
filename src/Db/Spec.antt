-- ===== src/Db/Spec.antt =====
-- What saving a result means for the rows that recovery finds (agents/store.py).
use mas_research.Base.{Bool, ◌≡◌, some, String, string_key}
use mas_research.Base.Sorting.{sort_by}
use mas_research.Values.{Fields, Conversions}
use mas_research.Schemas.{Operation, f3_summarize, f4_test, f5_terms, f6_recommend}
use mas_research.Db.Rows.{summary_row, quiz_row, term_rows, citation_rows}
use mas_research.Db.Tables.{Driver}
use mas_research.Db.Recovery.{ResultRows}
use mas_research.Db.Found.{summary_key, quiz_key}

module _ (before : String → String → Bool) (conv : Conversions) (driver : Driver) (task_id : String)
    (content : Fields) where
  -- The specification: the rows of one operation are those of the content.
  unfoldable pub with_content : Operation → ResultRows → ResultRows
  with_content f3_summarize r = record r { summary = some (summary_row conv task_id content) }
  with_content f4_test r = record r { quiz = some (quiz_row conv task_id content) }
  with_content f5_terms r = record r {
    terms = sort_by (λ a b. before a.id b.id) (term_rows conv task_id content);
  }
  with_content f6_recommend r = record r {
    citations = sort_by (λ a b. before a.id b.id) (citation_rows conv task_id content);
  }
  with_content _ r = r

  -- What is assumed of the content: a summary's or a quiz's id is made of the task. Chunks are not
  -- spoken of.
  abbrev pub HasOwnId : Operation → Type 0
  HasOwnId f3_summarize = (summary_row conv task_id content).id ≡ summary_key task_id
  HasOwnId f4_test = (quiz_row conv task_id content).id ≡ quiz_key task_id
  HasOwnId f5_terms = Unit
  HasOwnId f6_recommend = Unit
  HasOwnId _ = ⊥
