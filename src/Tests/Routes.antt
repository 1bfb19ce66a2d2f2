-- ===== src/Tests/Routes.antt =====
-- An upload and the task that is made of it (api/routes.py).
use mas_research.Base.{ℕ, string_dec, false, ◌≡◌, refl, some, map, any, is_empty, [], ◌∷◌, Option}
use mas_research.Schemas.{DocumentType-discrete, f3_summarize, operation_of, audio, Task}
use mas_research.Db.Recovery.{all_of_them}
use mas_research.Api.{Upload, create_task, is_text, document_of, task_of}
use mas_research.Text.{Text}
use mas_research.Api.Files.{destination_name}
use mas_research.Api.Names.{IsChild, destination_name-IsChild}
use mas_research.Api.Accepted.{kind_of, type_of, create_task-accepts}

abbrev lecture : Upload
lecture = record {
  filename = some "lecture.mp3";
  kind = audio;
  destination = some "data/uploads/t1/00-lecture.mp3";
  parts = 1_048_576 ∷ 300 ∷ [];
}

abbrev accepted : Task
unfolding document_of task_of
accepted =
    task_of "t1" (f3_summarize ∷ [])
      (document_of "t1" 0 "data/uploads/t1/00-lecture.mp3" lecture ∷ [])

create_task-accepts_example :
    (is_empty (lecture ∷ []) ≡ false)
    × (all_of_them operation_of ("F3" ∷ []) ≡ some accepted.requested_outputs)
    × (any is_text (lecture ∷ []) ≡ false)
    × (map type_of accepted.documents ≡ map kind_of (lecture ∷ []))
unfolding create_task task_of string_dec DocumentType-discrete
create_task-accepts_example = create_task-accepts "t1" (lecture ∷ []) ("F3" ∷ []) accepted refl

-- "../a"
abbrev outside : Option Text
outside = some (46 ∷ 46 ∷ 47 ∷ 97 ∷ [])

destination_name-IsChild_example :
    IsChild (destination_name outside 3)
    × (destination_name outside 3 ≡ destination_name outside 12 → ◌≡◌ {A = ℕ} 3 12)
destination_name-IsChild_example = destination_name-IsChild outside outside 3 12
