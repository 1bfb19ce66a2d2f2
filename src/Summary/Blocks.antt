-- ===== src/Summary/Blocks.antt =====
-- The blocks of a text cover it (agents/summarizer.py, `_split`).
use mas_research.Text.{Text}
use mas_research.Base.{
  all, true, ℕ, zero, suc, ◌-◌, ◌≤◌, ◌≡◌, refl, ap, List, [], ◌∷◌, ◌++◌, map, length, take, drop,
  leb, arith,
}
use mas_research.Summary.{step_size, split_from, split_blocks}

pub join : List Text → Text
join [] = []
join (t ∷ ts) = t ++ join ts

take-drop : (n : ℕ) (t : Text) → take n t ++ drop n t ≡ t
take-drop zero t = refl
take-drop (suc n) [] = refl
take-drop (suc n) (c ∷ cs) = ap (◌∷◌ c) (take-drop n cs)

take-take : (m n : ℕ) (t : Text) → m ≤ n → take m (take n t) ≡ take m t
take-take zero n t h = refl
take-take (suc m) zero t h = elim h [ ]
take-take (suc m) (suc n) [] h = refl
take-take (suc m) (suc n) (c ∷ cs) h = ap (◌∷◌ c) (take-take m n cs (omega arith))

length-drop : (n : ℕ) (t : Text) → length (drop n t) ≡ length t - n
length-drop zero t = omega arith
length-drop (suc n) [] = omega arith
length-drop (suc n) (c ∷ cs) = omega (arith, length-drop n cs)

length-take : (n : ℕ) (t : Text) → length (take n t) ≤ n
length-take zero t = omega arith
length-take (suc n) [] = omega arith
length-take (suc n) (c ∷ cs) = omega (arith, length-take n cs)

split_from-join :
    (fuel block step : ℕ) (t : Text)
    → length t ≤ fuel
    → 1 ≤ step
    → step ≤ block
    → join (map (take step) (split_from fuel block step t)) ≡ t
unfolding split_from join
split_from-join zero block step [] h p q = refl
split_from-join zero block step (c ∷ cs) h p q = absurd (omega arith)
split_from-join (suc fuel) block step [] h p q = refl
split_from-join (suc fuel) block step (c ∷ cs) h p q =
    let left : length (drop step (c ∷ cs)) ≤ fuel = omega (arith, length-drop step (c ∷ cs)) in
    rw
      (
        take-take step block (c ∷ cs) q,
        split_from-join fuel block step (drop step (c ∷ cs)) left p q,
      )
      (take-drop step (c ∷ cs))

split_from-bound :
    (fuel block step : ℕ) (t : Text)
    → all (λ b. leb (length b) block) (split_from fuel block step t) ≡ true
unfolding split_from
split_from-bound zero block step t = refl
split_from-bound (suc fuel) block step [] = refl
split_from-bound (suc fuel) block step (c ∷ cs) =
    ground
      (arith, length-take block (c ∷ cs), split_from-bound fuel block step (drop step (c ∷ cs)))

-- Blocks of a positive size lose nothing, whatever the overlap: their first parts, as long as the step
-- is, give the whole text, and no block is longer than `block_chars`.
pub split_blocks-join :
    (block_chars overlap : ℕ) (text : Text)
    → 1 ≤ block_chars
    → (join (map (take (step_size block_chars overlap)) (split_blocks block_chars overlap text))
        ≡ text)
      × (all (λ b. leb (length b) block_chars) (split_blocks block_chars overlap text) ≡ true)
unfolding split_blocks
split_blocks-join block_chars overlap text h = (
  split_from-join (length text) block_chars (step_size block_chars overlap) text (omega arith)
      (ground arith) (ground arith),
  split_from-bound (length text) block_chars (step_size block_chars overlap) text,
)
