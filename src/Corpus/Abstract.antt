-- ===== src/Corpus/Abstract.antt =====
-- The abstract of an inverted index (corpus_builder/build.py, `_reconstruct_abstract`).
use mas_research.Text.{Text}
use mas_research.Base.{
  ℕ, suc, ◌+◌, ◌≤◌, ◌≡◌, refl, ap, ◌∙◌, true, false, not, List, [], ◌∷◌, arith, all,
}
use mas_research.Base.Sorting.{in_order, sort_by-in_order}
use mas_research.Text.{join_with}
use mas_research.Corpus.{
  Position, InvertedIndex, position_less, positions_of, words_of, space, reconstruct_abstract,
}
use mathlib.Core.List.{Permᴰ}
use mas_research.Base.Permuted.{sort_by-perm}
use mas_research.Text.Order.{text_less_asym, text_less_total, text_less_trans}

position_less_asym : (a b : Position) → position_less a b ≡ true → position_less b a ≡ false
unfolding position_less
position_less_asym (p, v) (q, w) e = ground (arith, text_less_asym v w)

position_less_total :
    (a b : Position) → position_less a b ≡ false → position_less b a ≡ false → a ≡ b
unfolding position_less
position_less_total (p, v) (q, w) e k =
    let first : p ≡ q = ground arith in
    let second = text_less_total v w (ground arith) (ground arith) in cc (first, second)

position_less_trans :
    (a b c : Position)
    → position_less a b ≡ true
    → position_less b c ≡ true
    → position_less a c ≡ true
unfolding position_less
position_less_trans (p, u) (q, v) (r, w) e k = ground (arith, text_less_trans u v w)

-- The words of a text, each at its position, from the `n`-th on.
abbrev pub enumerate : ℕ → List Text → List Position
enumerate n [] = []
enumerate n (word ∷ words) = (n, word) ∷ enumerate (n + 1) words

enumerate-after :
    (m n : ℕ) (v : Text) (words : List Text)
    → suc m ≤ n
    → all (λ y. not (position_less y (m, v))) (enumerate n words) ≡ true
unfolding position_less
enumerate-after m n v [] h = refl
enumerate-after m n v (word ∷ words) h = ground (arith, enumerate-after m (n + 1) v words)

enumerate-in_order : (n : ℕ) (words : List Text) → in_order position_less (enumerate n words) ≡ true
enumerate-in_order n [] = refl
enumerate-in_order n (word ∷ words) =
    rw (enumerate-after n (n + 1) word words (omega arith)) (enumerate-in_order (n + 1) words)

words-enumerate : (n : ℕ) (words : List Text) → words_of (enumerate n words) ≡ words
words-enumerate n [] = refl
words-enumerate n (word ∷ words) = ap (λ ws. word ∷ ws) (words-enumerate (n + 1) words)

-- An index that has the words of a text at their positions, each once and in whatever order, gives
-- the text back: the words with a space between them.
pub reconstruct_abstract-words :
    (index : InvertedIndex) (words : List Text)
    → Permᴰ (positions_of index) (enumerate 0 words)
    → reconstruct_abstract index ≡ join_with space words
unfolding reconstruct_abstract
reconstruct_abstract-words index words h =
    let sorted =
      sort_by-perm position_less position_less_asym position_less_total position_less_trans
        (positions_of index) (enumerate 0 words) h
      ∙ sort_by-in_order position_less (enumerate 0 words) (enumerate-in_order 0 words) in
    ap (λ ps. join_with space (words_of ps)) sorted ∙ ap (join_with space) (words-enumerate 0 words)
