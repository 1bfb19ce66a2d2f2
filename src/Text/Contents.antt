-- ===== src/Text/Contents.antt =====
-- The texts that the agents take from the dicts of a request (agents/summarizer.py,
-- agents/test_generator.py). The code points of a string and Python's printing are parameters.
use mas_research.Text.{Text, strip, join_with, non_empty}
use mas_research.Text.Joined.{is_blank, joined-is_empty}
use mas_research.Values.{str, Fields, Conversions, text_of, get, get_or}
use mas_research.Base.{String, ◌≡◌, refl, List, [], ◌∷◌, all, is_empty, string_key}

abbrev pub newline : Text
newline = 10 ∷ []

module _ (conv : Conversions) (to_text : String → Text) (key : String) where
  -- `[str(d.get(key, "")) for d in dicts]`
  unfoldable pub field_texts : List Fields → List Text
  unfolding text_of get
  field_texts [] = []
  field_texts (d ∷ dicts) = to_text (text_of conv (get_or d key (str ""))) ∷ field_texts dicts

  -- `"\n".join(text for text in texts if text).strip()`
  unfoldable pub joined_lines : List Fields → Text
  unfolding field_texts strip join_with non_empty
  joined_lines dicts = strip (join_with newline (non_empty (field_texts dicts)))

  pub joined_lines-is_empty :
      (dicts : List Fields) → is_empty (joined_lines dicts) ≡ all is_blank (field_texts dicts)
  unfolding joined_lines
  joined_lines-is_empty dicts = joined-is_empty newline (field_texts dicts) refl
