-- ===== src/Db/Refinement.antt =====
-- The rows that recovery finds are what was saved last (agents/store.py, agents/recovery.py, db/repos.py).
use mas_research.Base.{Bool, ◌≡◌, ◌≢◌, some, String, string_key}
use mas_research.Values.{Fields, Conversions}
use mas_research.Schemas.{Operation}
use mas_research.Db.Tables.{Database, Driver}
use mas_research.Db.Recovery.{ResultRows}
use mas_research.Db.Store.{save_result, result_rows}
use mas_research.Db.Sound.{IsSound}
use mas_research.Db.Found.{IsNamed, Found-result_rows, result_rows-Found, SameRows-result_rows}
use mas_research.Db.Spec.{with_content, HasOwnId}
use mas_research.Db.Own.{saved-Found}
use mas_research.Db.Others.{saved-SameRows, saved-IsNamed}

module _ (before : String → String → Bool) (conv : Conversions) (driver : Driver) (task_id : String)
    (content : Fields) where
  -- In a sound database whose summaries and quizzes have the ids of their tasks, saving the content of an
  -- operation other than F1 and F2, with such an id too, means for the five queries of recovery that they
  -- find for the task the rows of the content in place of the operation's, ordered by id, and all other
  -- rows as before, and for every other task what they found before, a raise included. The ids are then
  -- those of the tasks again.
  pub save_result-refines :
      (operation : Operation) (db out : Database) (r : ResultRows)
      → IsSound db
      → IsNamed db
      → HasOwnId before conv driver task_id content operation
      → result_rows before task_id db ≡ some r
      → save_result conv driver task_id operation content db ≡ some out
      → (result_rows before task_id out
          ≡ some (with_content before conv driver task_id content operation r))
        × ((u : String) → u ≢ task_id → result_rows before u out ≡ result_rows before u db)
        × IsNamed out
  save_result-refines operation db out r h n k q e = (
    Found-result_rows before task_id out
        (with_content before conv driver task_id content operation r)
        (saved-Found before conv driver task_id content operation db out r h n k
          (result_rows-Found before task_id db r q) e),
    λ u o.
        SameRows-result_rows before u out db
          (saved-SameRows before conv driver task_id content operation u db out o n k e),
    saved-IsNamed before conv driver task_id content operation db out n k e,
  )
