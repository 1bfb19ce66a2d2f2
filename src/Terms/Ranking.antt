-- ===== src/Terms/Ranking.antt =====
-- Ranking the merged lemmas and making the terms of the first ones (agents/terminology.py,
-- `_extract_terms`). The order of the scores, which are floating-point logarithms, is a parameter: that
-- of the keys of a frequency, a number of chunks and a lemma.
use mas_research.Text.{Text}
use mas_research.Base.{ℕ, Bool, Option, none, some, List, [], ◌∷◌, take, length, text_key}
use mas_research.Base.Dict.{Dict, lookup, keys}
use mas_research.Base.Sorting.{sort_by}
use mas_research.Terms.{Candidate, Counts, count_chunks, categorize}
use mas_research.Terms.Merge.{merge_near_duplicates}

pub record RankedTerm : Type 0 where
  pub term : Text
  pub lemma : Text
  pub frequency : ℕ
  pub category : Text
  pub source_chunk_id : Text

-- What the score of a lemma is computed from, with the lemma.
abbrev pub Ranked : Type 0
Ranked = ℕ × ℕ × Text

abbrev pub cons_some : {A : Type 0} → Option A → Option (List A) → Option (List A)
cons_some none rest = none
cons_some (some x) none = none
cons_some (some x) (some xs) = some (x ∷ xs)

-- The key of a lemma in `merged`; `none` is the KeyError, or the ZeroDivisionError of no chunks.
unfoldable pub ranked : Counts → Text → Option Ranked
unfolding lookup
ranked merged lemma = of (lookup lemma merged.frequency) (lookup lemma merged.chunk_ids)
  where
    of : Option ℕ → Option (List Text) → Option Ranked
    of (some frequency) (some (chunk_id ∷ chunk_ids)) =
        some (frequency, length (chunk_id ∷ chunk_ids), lemma)
    of _ _ = none

unfoldable pub ranked_all : Counts → List Text → Option (List Ranked)
unfolding ranked
ranked_all merged [] = some []
ranked_all merged (lemma ∷ lemmas) = cons_some (ranked merged lemma) (ranked_all merged lemmas)

-- The term of a lemma; `none` is the KeyError of a lemma with no first occurrence.
unfoldable pub term_of : Dict Text (List Text) → Counts → Ranked → Option RankedTerm
unfolding lookup categorize
term_of domain merged (frequency, chunks, lemma) = of (lookup lemma merged.first_seen)
  where
    of : Option (Text × Text × Text) → Option RankedTerm
    of none = none
    of (some (surface, label, chunk_id)) = some (record {
      term = surface;
      lemma = lemma;
      frequency = frequency;
      category = categorize domain lemma label;
      source_chunk_id = chunk_id;
    })

unfoldable pub terms_of : Dict Text (List Text) → Counts → List Ranked → Option (List RankedTerm)
unfolding term_of
terms_of domain merged [] = some []
terms_of domain merged (r ∷ rs) = cons_some (term_of domain merged r) (terms_of domain merged rs)

module _ (lower : Text → Text) (stopwords : List Text) (domain : Dict Text (List Text))
    (before : ℕ → Ranked → Ranked → Bool) where
  abbrev pub top_terms : Counts → ℕ → ℕ → Option (List Ranked) → Option (List RankedTerm)
  top_terms merged n_chunks top_n none = none
  top_terms merged n_chunks top_n (some rs) =
      terms_of domain merged (take top_n (sort_by (before n_chunks) rs))

  -- `_extract_terms` after the adapter, with the chunks and their candidates.
  unfoldable pub extract_terms : List (Text × List Candidate) → ℕ → Option (List RankedTerm)
  unfolding count_chunks merge_near_duplicates ranked_all terms_of sort_by
  extract_terms chunks top_n =
      let merged = merge_near_duplicates (
        count_chunks lower stopwords chunks
          (record { frequency = []; chunk_ids = []; first_seen = [] })) in
      top_terms merged (length chunks) top_n (ranked_all merged (keys merged.frequency))
