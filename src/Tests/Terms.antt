-- ===== src/Tests/Terms.antt =====
-- The theorems on the terminology agent at concrete inputs (agents/terminology.py).
use mas_research.Values.{Conversions, Fields, field, end, str, int, dict, list_of, get, text_of}
use mas_research.Base.Int.{pos}
use mas_research.Terms.Ranking.{Ranked}
use mas_research.Terms.Handling.{
  InformsAtMost, terminology_handle, terminology_handle-InformsAtMost, sources_of, top_n_in,
}
use mas_research.Base.{
  ◌≡◌, List, [], ◌∷◌, text_key, ℕ, Bool, String, none, some, refl, Option, ltb, same, string_key,
  string_dec, if◌then◌else◌,
}
use mas_research.Text.{Text, strip, lstrip, rstrip}
use mas_research.Terms.{Candidate, count_chunks}
use mas_research.Terms.Merge.{merge_near_duplicates}
use mas_research.Terms.Total.{merge_near_duplicates-count_chunks, no_counts, kept_count}
use mas_research.Terms.Sums.{total}

-- "array" in two forms: the lemmas differ in one inflection ending.
abbrev array : Text
array = 1084 ∷ 1072 ∷ 1089 ∷ 1089 ∷ 1080 ∷ 1074 ∷ []

abbrev arrays : Text
arrays = 1084 ∷ 1072 ∷ 1089 ∷ 1089 ∷ 1080 ∷ 1074 ∷ 1072 ∷ []

abbrev candidate_of : Text → Candidate
candidate_of lemma = record { text = lemma; lemma = lemma; label = [] }

abbrev as_is : Text → Text
as_is t = t

abbrev noted : List (Text × List Candidate)
noted =
    ((49 ∷ []), candidate_of array ∷ candidate_of (120 ∷ []) ∷ candidate_of arrays ∷ [])
    ∷ ((50 ∷ []), candidate_of arrays ∷ [])
    ∷ []

merge_near_duplicates-count_chunks_example :
    total (merge_near_duplicates (count_chunks as_is [] noted no_counts)).frequency
    ≡ kept_count as_is [] noted
merge_near_duplicates-count_chunks_example = merge_near_duplicates-count_chunks as_is [] noted

-- By frequency alone.
abbrev more_frequent : ℕ → Ranked → Ranked → Bool
more_frequent n_chunks (f, c, l) (g, d, m) = ltb g f

abbrev conv : Conversions
conv = record { print = λ v. ""; parse = λ v. none }

-- The code points of the only texts below.
abbrev to_text : String → Text
to_text s = if same s "" then [] else array

abbrev content : Fields
content =
    field "chunks" (list_of (dict (field "id" (str "1") (field "content" (str "array") end)) ∷ []))
      (field "top_n" (int (pos 1)) end)

abbrev extract_many : List Text → Option (List (List Candidate))
extract_many texts = some ((candidate_of array ∷ []) ∷ [])

terminology_handle-InformsAtMost_example :
    InformsAtMost
      (top_n_in 10 content)
      (terminology_handle conv to_text as_is [] [] more_frequent extract_many 10 content)
unfolding sources_of get text_of strip lstrip rstrip string_dec
terminology_handle-InformsAtMost_example =
    terminology_handle-InformsAtMost conv to_text as_is [] [] more_frequent extract_many 10 content
      ((candidate_of array ∷ []) ∷ []) refl refl refl
