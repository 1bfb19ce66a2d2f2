-- ===== src/Recommend/Query.antt =====
-- The query of a summary and terms (agents/recommender.py, `_build_query`). The code points of a string
-- and Python's printing are parameters.
use mas_research.Text.{Text, strip, join_with, non_empty}
use mas_research.Text.Joined.{is_blank, joined-is_empty}
use mas_research.Values.{
  sections_in, Value, str, Fields, Conversions, text_of, get, get_or, as_dict, as_list, as_str,
  dicts_of,
}
use mas_research.Base.{
  refl, false, String, ℕ, ◌≡◌, Bool, Option, none, some, or_else, List, [], ◌∷◌, all, is_empty,
  take, string_key, same, if◌then◌else◌,
}

abbrev pub intro_chars : ℕ
intro_chars = 200

abbrev pub terms_at_most : ℕ
terms_at_most = 5

-- " "
abbrev blank : Text
blank = 32 ∷ []

-- `v == "introduction"`
abbrev is_introduction : Option String → Bool
is_introduction none = false
is_introduction (some s) = same s "introduction"

module _ (conv : Conversions) (to_text : String → Text) where
  -- The loop over the sections, of which the ones that are no dicts are passed over.
  unfoldable pub introduction_of : List Fields → Text
  unfolding text_of get
  introduction_of [] = []
  introduction_of (section ∷ sections) =
      let rest = introduction_of sections in
      if is_introduction (as_str (get section "type"))
      then take intro_chars (to_text (text_of conv (get_or section "text" (str ""))))
      else rest

  -- `str(term.get("term", term.get("lemma", "")))` of each of the terms.
  unfoldable pub term_texts : List Fields → List Text
  unfolding text_of get
  term_texts [] = []
  term_texts (term ∷ terms) =
      to_text (text_of conv (get_or term "term" (get_or term "lemma" (str "")))) ∷ term_texts terms

  -- `[intro, *top_terms]`
  unfoldable pub query_parts : Option Value → Option Value → List Text
  unfolding introduction_of term_texts get
  query_parts summary terms =
      introduction_of (sections_in (as_dict summary))
      ∷ term_texts (dicts_of (take terms_at_most (or_else (as_list terms) [])))

  unfoldable pub build_query : Option Value → Option Value → Text
  unfolding query_parts strip join_with non_empty
  build_query summary terms = strip (join_with blank (non_empty (query_parts summary terms)))

  -- The query is empty exactly if the introduction and each of the terms are blank.
  pub build_query-is_empty :
      (summary terms : Option Value)
      → is_empty (build_query summary terms) ≡ all is_blank (query_parts summary terms)
  unfolding build_query
  build_query-is_empty summary terms = joined-is_empty blank (query_parts summary terms) refl
