-- ===== src/Recommend.antt =====
-- Choosing papers of the corpus for a summary (agents/recommender.py). The embedding and the cosine are
-- parameters, as is the order of the floating-point scores.
pub mod Query
pub mod Years
use mas_research.Base.{
  String, ℕ, zero, suc, Bool, true, false, not, ◌&&◌, ◌||◌, Option, none, some, or_else, List, [],
  ◌∷◌, map, select, take, length, is_empty, leb, string_key, same, if◌then◌else◌, ◌==◌,
}
use mas_research.Base.Int.{ℤ, pos, negsuc}
use mas_research.Schemas.{Citation}
use mas_research.Text.{Text}
use mas_research.Recommend.Query.{build_query}
use mas_research.Values.{Conversions, Value, int, bool, Fields, end, get, as_dict, as_int, Float}

pub record CorpusEntry : Type 0 where
  pub title : String
  pub authors : Option String
  pub year : Option ℤ
  pub url : Option String
  pub embedding : List Float

-- a < b
abbrev pub less : ℤ → ℤ → Bool
less (pos m) (pos n) = not (leb n m)
less (pos m) (negsuc n) = false
less (negsuc m) (pos n) = true
less (negsuc m) (negsuc n) = not (leb m n)

abbrev too_early : ℤ → Option ℤ → Bool
too_early year none = false
too_early year (some year_min) = less year year_min

abbrev too_late : ℤ → Option ℤ → Bool
too_late year none = false
too_late year (some year_max) = less year_max year

-- `_year_ok`
unfoldable pub year_ok : Option ℤ → Option ℤ → Option ℤ → Bool
year_ok none year_min year_max = true
year_ok (some year) year_min year_max =
    if too_early year year_min then false else not (too_late year year_max)

-- `_year_bounds`
unfoldable pub year_bounds : Fields → Option ℤ × Option ℤ
unfolding get
year_bounds filters = (as_int (get filters "year_min"), as_int (get filters "year_max"))

-- `raw_n if isinstance(raw_n, int) and not isinstance(raw_n, bool) and raw_n > 0 else 3`
unfoldable pub top_n_of : Option Value → ℕ
top_n_of (some (int (pos zero))) = 3
top_n_of (some (int (pos (suc n)))) = suc n
top_n_of _ = 3

abbrev pub Scored : Type 0
Scored = CorpusEntry × Float

module _ (before : Scored → Scored → Bool) where
  -- `scored.sort(key=...)`: a stable insertion sort by the order of the keys.
  unfoldable pub insert_scored : Scored → List Scored → List Scored
  insert_scored x [] = x ∷ []
  insert_scored x (y ∷ ys) =
      let rest = insert_scored x ys in if before y x then y ∷ rest else x ∷ y ∷ ys

  unfoldable pub sort_scored : List Scored → List Scored
  unfolding insert_scored
  sort_scored [] = []
  sort_scored (x ∷ xs) = insert_scored x (sort_scored xs)

-- What the agent does not compute itself: strings and their code points, the vector of a query, the
-- cosine, the order of the scores and `round(score, 4)`.
pub record Engine : Type 0 where
  pub conv : Conversions
  pub to_text : String → Text
  pub of_text : Text → String
  pub encode : String → List Float
  pub cosine : List Float → List Float → Float
  pub before : Scored → Scored → Bool
  pub rounded : Float → Float

unfoldable pub citation_of : (Float → Float) → Scored → Citation
citation_of rounded (entry, score) = record {
  title = entry.title;
  authors = entry.authors;
  year = entry.year;
  url = entry.url;
  relevance_score = rounded score;
}

abbrev pub with_score : (CorpusEntry → Float) → List CorpusEntry → List Scored
with_score score [] = []
with_score score (e ∷ es) = (e, score e) ∷ with_score score es

-- The citations of a query's vector.
unfoldable pub recommend :
    Engine → List CorpusEntry → List Float → Fields → Option Value → List Citation
unfolding year_ok year_bounds top_n_of sort_scored citation_of
recommend engine corpus vector filters raw_n =
    let (year_min, year_max) = year_bounds filters in
    map (citation_of engine.rounded) (
      take (top_n_of raw_n) (
        sort_scored engine.before (
          with_score (λ e. engine.cosine vector e.embedding)
            (select (λ e. year_ok e.year year_min year_max) corpus))))

pub data Answer : Type 0 where
  refuses : String → Answer
  informs : List Citation → Answer

abbrev pub dimension : List CorpusEntry → ℕ
dimension [] = 0
dimension (e ∷ es) = length e.embedding

-- `RecommenderAgent.handle`
unfoldable pub recommender_handle : Engine → List CorpusEntry → Fields → Answer
unfolding recommend get build_query
recommender_handle engine corpus content =
    let query =
      build_query engine.conv engine.to_text (get content "summary") (get content "terms") in
    let vector = engine.encode (engine.of_text query) in
    if is_empty corpus
    then refuses "corpus not loaded"
    else if is_empty query
    then refuses "no summary or terms for recommendation"
    else if not (length vector == dimension corpus)
    then refuses "embedding dimension mismatch"
    else informs (
        recommend engine corpus vector (or_else (as_dict (get content "filters")) end)
          (get content "n"))
