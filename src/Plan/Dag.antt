-- ===== src/Plan/Dag.antt =====
-- The plan is a graph without cycles whose edges stay inside it (plan.py, `build_plan`).
use mas_research.Base.{ℕ, ◌<◌, ◌≡◌, String, arith, string_key}
use mas_research.Base.Dict.{contains}
use mas_research.Base.Members.{select-mem, mem-map, map-mem, contains-mem}
use mathlib.Core.List.{Memᴰ}
use mas_research.Schemas.{
  Operation, f1_transcribe, f2_ocr, f3_summarize, f4_test, f5_terms, f6_recommend, operation_key,
  Task,
}
use mas_research.Plan.{
  Subtask, dependency_map, subtask_id_for, eligible_operations, subtask_for, build_plan,
}

-- Sources come first, then what reads their chunks, then what reads summaries and terms.
pub rank : Operation → ℕ
rank f1_transcribe = 0
rank f2_ocr = 0
rank f3_summarize = 1
rank f5_terms = 1
rank f4_test = 2
rank f6_recommend = 2

dependency_map-rank : (o u : Operation) → Memᴰ u (dependency_map o) → rank u < rank o
unfolding dependency_map rank
dependency_map-rank f1_transcribe u m = elim m [ ]
dependency_map-rank f2_ocr u m = elim m [ ]
dependency_map-rank f3_summarize u (Memᴰ.head e) = rw e (omega arith)
dependency_map-rank f3_summarize u (Memᴰ.tail (Memᴰ.head e)) = rw e (omega arith)
dependency_map-rank f3_summarize u (Memᴰ.tail (Memᴰ.tail m)) = elim m [ ]
dependency_map-rank f4_test u (Memᴰ.tail m) = elim m [ ]
dependency_map-rank f5_terms u (Memᴰ.tail (Memᴰ.tail m)) = elim m [ ]
dependency_map-rank f6_recommend u (Memᴰ.tail (Memᴰ.tail m)) = elim m [ ]
dependency_map-rank f4_test u (Memᴰ.head e) = rw e (omega arith)
dependency_map-rank f5_terms u (Memᴰ.head e) = rw e (omega arith)
dependency_map-rank f5_terms u (Memᴰ.tail (Memᴰ.head e)) = rw e (omega arith)
dependency_map-rank f6_recommend u (Memᴰ.head e) = rw e (omega arith)
dependency_map-rank f6_recommend u (Memᴰ.tail (Memᴰ.head e)) = rw e (omega arith)

module _ (task : Task) where
  abbrev pub InPlan : Subtask → Type 0
  InPlan x = Memᴰ x (build_plan task).subtasks

  -- Every subtask that a subtask of the plan depends on is a subtask of the plan, of a lower rank.
  pub build_plan-depends_on :
      (x : Subtask) (dep : String)
      → InPlan x
      → Memᴰ dep x.depends_on
      → (y : Subtask) × InPlan y × (y.id ≡ dep) × (rank y.operation < rank x.operation)
  unfolding build_plan subtask_for
  build_plan-depends_on x dep m d =
      let eligible = eligible_operations task in
      let (o, _, e) = mem-map (subtask_for task eligible) x eligible m in
      let (u, n, f) = mem-map (subtask_id_for task.id) dep _ (rw e at d) in
      let (v, g) = select-mem (λ up. contains up eligible) u (dependency_map o) n in
      (
        subtask_for task eligible u,
        map-mem (subtask_for task eligible) u eligible (contains-mem u eligible g),
        cc f,
        rw e (dependency_map-rank o u v),
      )
