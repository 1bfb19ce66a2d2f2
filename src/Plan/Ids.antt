-- ===== src/Plan/Ids.antt =====
-- Subtask ids (plan.py, `subtask_id_for`) name their task and operation.
use Prim.Native.String.{◌++◌ as concat, count}
use text.Mathlib.TextLemmas.{append_cancel_left, append_inj, length-append}
use mas_research.Base.{String, ◌≡◌, refl, arith, ap}
use mas_research.Schemas.{
  Operation, f1_transcribe, operation_value, operation_of, operation_of-operation_value,
}
use mas_research.Plan.{subtask_id_for}

abbrev suffix : Operation → String
suffix o = concat "-" (operation_value o)

count-suffix : (o : Operation) → count (suffix o) ≡ 3
unfolding operation_value
count-suffix f1_transcribe = refl
count-suffix _ = refl

operation_value_injective : (o p : Operation) → operation_value o ≡ operation_value p → o ≡ p
operation_value_injective o p e =
    cc (ap operation_of e, operation_of-operation_value o, operation_of-operation_value p)

same_count :
    (t u : String) (o p : Operation) → concat t (suffix o) ≡ concat u (suffix p) → count t ≡ count u
same_count t u o p e = omega (
  arith,
  ap count e,
  length-append t (suffix o),
  length-append u (suffix p),
  count-suffix o,
  count-suffix p,
)

-- Two subtask ids are equal only if they are of the same task and the same operation.
pub subtask_id_for_injective :
    (t u : String) (o p : Operation) → subtask_id_for t o ≡ subtask_id_for u p → (t ≡ u) × (o ≡ p)
unfolding subtask_id_for
subtask_id_for_injective t u o p e =
    let tail : concat t (suffix o) ≡ concat u (suffix p) = append_cancel_left "st-" _ _ e in
    let (left, right) = append_inj tail (same_count t u o p tail) in
    (left, operation_value_injective o p (append_cancel_left "-" _ _ right))
