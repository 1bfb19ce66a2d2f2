-- ===== src/Terms.antt =====
-- The term candidates of the terminology agent: filtering, counting and merging
-- (agents/terminology.py). Texts are lists of code points. Python's `lower` is a parameter.
pub mod Near
pub mod Merge
pub mod Sums
pub mod Groups
pub mod Total
pub mod Ranking
pub mod Present
pub mod Extracted
pub mod Handling
use mas_research.Text.{Text, strip, split, starts_with, text_less}
use mas_research.Base.{
  nat_key, ◌==◌, ℕ, zero, suc, ◌+◌, ◌-◌, Bool, true, false, not, ◌&&◌, ◌||◌, Option, none, some,
  or_else, List, [], ◌∷◌, ◌++◌, all, any, length, drop, is_empty, ltb, leb, if◌then◌else◌, text_key,
  same,
}
use mas_research.Base.Dict.{Dict, lookup, insert, contains, add, has, keys}

-- а я о ё е у ю и ы э ь ъ
abbrev pub ru_inflection_endings : List ℕ
ru_inflection_endings =
    1072 ∷ 1103 ∷ 1086 ∷ 1105 ∷ 1077 ∷ 1091 ∷ 1102 ∷ 1080 ∷ 1099 ∷ 1101 ∷ 1100 ∷ 1098 ∷ []

abbrev pub is_ending : ℕ → Bool
is_ending c = contains c ru_inflection_endings

-- A single character and a period.
abbrev is_initial : Text → Bool
is_initial (c ∷ d ∷ []) = d == 46
is_initial _ = false

-- `_is_noise_lemma`
unfoldable pub is_noise_lemma : Text → Bool
unfolding split
is_noise_lemma lemma = any is_initial (split lemma)

-- `xs[:-1]` and `xs[-1]`; `none` is the IndexError of the latter.
unfoldable pub init_of : {A : Type 0} → List A → List A
init_of [] = []
init_of (x ∷ []) = []
init_of (x ∷ y ∷ xs) = x ∷ init_of (y ∷ xs)

unfoldable pub last_of : {A : Type 0} → List A → Option A
last_of [] = none
last_of (x ∷ []) = some x
last_of (x ∷ y ∷ xs) = last_of (y ∷ xs)

abbrev pub ends_inflected : Option ℕ → Bool
ends_inflected none = false
ends_inflected (some c) = is_ending c

-- `_rule1_same_length`
unfoldable pub rule1_same_length : Text → Text → Bool
unfolding init_of last_of contains
rule1_same_length a b =
    same (init_of a) (init_of b)
    && leb 4 (length (init_of a))
    && ends_inflected (last_of a)
    && ends_inflected (last_of b)

-- What `_rule2_prefix_relationship` asks of the shorter and the longer token.
unfoldable pub is_inflection_of : Text → Text → Bool
unfolding contains starts_with
is_inflection_of shorter longer =
    leb (length longer - length shorter) 2
    && leb 4 (length shorter)
    && starts_with longer shorter
    && all is_ending (drop (length shorter) longer)

-- `_rule2_prefix_relationship`
unfoldable pub rule2_prefix_relationship : Text → Text → Bool
unfolding is_inflection_of
rule2_prefix_relationship a b =
    if ltb (length a) (length b) then is_inflection_of a b else is_inflection_of b a

abbrev pub last_tokens_near : Text → Text → Bool
last_tokens_near last_a last_b =
    if same last_a last_b
    then true
    else if length last_a == length last_b
    then rule1_same_length last_a last_b
    else rule2_prefix_relationship last_a last_b

abbrev pub both_last : Option Text → Option Text → Option Bool
both_last (some a) (some b) = some (last_tokens_near a b)
both_last _ _ = none

-- Equality of token lists.
unfoldable pub same_tokens : List Text → List Text → Bool
same_tokens [] [] = true
same_tokens (a ∷ ts) (b ∷ us) = same a b && same_tokens ts us
same_tokens _ _ = false

-- `_are_near_duplicate_lemmas`; `none` is the IndexError of two lemmas without a token.
unfoldable pub are_near_duplicate_lemmas : Text → Text → Option Bool
unfolding same_tokens split init_of last_of rule1_same_length rule2_prefix_relationship
are_near_duplicate_lemmas a b =
    if not (length (split a) == length (split b))
      || not (same_tokens (init_of (split a)) (init_of (split b)))
    then some false
    else both_last (last_of (split a)) (last_of (split b))

-- `NerAdapter.extract`'s candidates.
pub record Candidate : Type 0 where
  pub text : Text
  pub lemma : Text
  pub label : Text

-- What `_extract_terms` counts: by lemma, the frequency, the chunks and the first occurrence.
pub record Counts : Type 0 where
  pub frequency : Dict Text ℕ
  pub chunk_ids : Dict Text (List Text)
  pub first_seen : Dict Text (Text × Text × Text)

module _ (lower : Text → Text) (stopwords : List Text) where
  unfoldable pub is_dropped : Text → Bool
  unfolding is_noise_lemma
  is_dropped lemma = ltb (length lemma) 2 || contains lemma stopwords || is_noise_lemma lemma

  unfoldable pub count_candidate : Text → Candidate → Counts → Counts
  unfolding is_dropped
  count_candidate chunk_id c counts =
      let lemma = strip (lower c.lemma) in
      if is_dropped lemma then counts else record {
        frequency = insert lemma (or_else (lookup lemma counts.frequency) 0 + 1) counts.frequency;
        chunk_ids =
            insert lemma (add chunk_id (or_else (lookup lemma counts.chunk_ids) []))
              counts.chunk_ids;
        first_seen =
            if has lemma counts.first_seen
            then counts.first_seen
            else insert lemma (c.text, c.label, chunk_id) counts.first_seen;
      }

  unfoldable pub count_candidates : Text → List Candidate → Counts → Counts
  unfolding count_candidate
  count_candidates chunk_id [] counts = counts
  count_candidates chunk_id (c ∷ cs) counts =
      count_candidates chunk_id cs (count_candidate chunk_id c counts)

  -- The loop over the chunks, each with its candidates.
  unfoldable pub count_chunks : List (Text × List Candidate) → Counts → Counts
  unfolding count_candidates
  count_chunks [] counts = counts
  count_chunks ((chunk_id, candidates) ∷ rest) counts =
      count_chunks rest (count_candidates chunk_id candidates counts)

-- "general"
abbrev pub general : Text
general = 103 ∷ 101 ∷ 110 ∷ 101 ∷ 114 ∷ 97 ∷ 108 ∷ []

-- `_categorize`
unfoldable pub category_in : Dict Text (List Text) → Text → Text
category_in [] lemma = general
category_in ((category, lemmas) ∷ rest) lemma =
    let later = category_in rest lemma in if contains lemma lemmas then category else later

unfoldable pub categorize : Dict Text (List Text) → Text → Text → Text
unfolding category_in
categorize domain lemma label = if is_empty label then category_in domain lemma else label
