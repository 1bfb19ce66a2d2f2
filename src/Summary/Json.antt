-- ===== src/Summary/Json.antt =====
-- Taking the JSON object out of an answer (agents/_llm_json.py, `_extract_json`). Texts are lists of
-- code points; `isalpha` is a parameter.
use mas_research.Text.{Text, strip, starts_with}
use mas_research.Base.{ℕ, ◌==◌, Bool, Option, none, some, [], ◌∷◌, drop, if◌then◌else◌}

-- Three backquotes.
abbrev pub fence : Text
fence = 96 ∷ 96 ∷ 96 ∷ []

-- `text[text.find(fence) + 3 :]`; `none` where there is no fence.
unfoldable pub after_fence : Text → Option Text
unfolding starts_with
after_fence [] = none
after_fence (c ∷ cs) =
    let later = after_fence cs in
    if starts_with (c ∷ cs) fence then some (drop 3 (c ∷ cs)) else later

abbrev pub onto : ℕ → Option Text → Option Text
onto c none = none
onto c (some cs) = some (c ∷ cs)

-- `text[: text.find(fence)]`
unfoldable pub before_fence : Text → Option Text
unfolding starts_with
before_fence [] = none
before_fence (c ∷ cs) =
    let later = onto c (before_fence cs) in if starts_with (c ∷ cs) fence then some [] else later

abbrev pub onto_first : ℕ → Option (Text × Text) → Option (Text × Text)
onto_first c none = none
onto_first c (some (line, rest)) = some (c ∷ line, rest)

-- `inner[:newline]` and `inner[newline + 1 :]`
unfoldable pub first_line : Text → Option (Text × Text)
first_line [] = none
first_line (c ∷ cs) =
    let later = onto_first c (first_line cs) in if c == 10 then some ([], cs) else later

-- `text[text.find("{") :]`
unfoldable pub from_brace : Text → Option Text
from_brace [] = none
from_brace (c ∷ cs) = let later = from_brace cs in if c == 123 then some (c ∷ cs) else later

abbrev pub or_last : ℕ → Option Text → Option Text
or_last c none = if c == 125 then some (c ∷ []) else none
or_last c (some cs) = some (c ∷ cs)

-- `text[: text.rfind("}") + 1]`
unfoldable pub through_brace : Text → Option Text
through_brace [] = none
through_brace (c ∷ cs) = or_last c (through_brace cs)

-- The text from the first opening brace through the last closing brace behind it, or all of it.
abbrev pub closed_or : Text → Option Text → Text
closed_or text none = text
closed_or text (some object) = object

abbrev pub opened_or : Text → Option Text → Text
opened_or text none = text
opened_or text (some rest) = closed_or text (through_brace rest)

unfoldable pub outermost : Text → Text
unfolding from_brace through_brace
outermost text = opened_or text (from_brace text)

module _ (is_alpha : Text → Bool) where
  -- `inner` without a first line that is a language tag.
  abbrev pub without_tag : Text → Option (Text × Text) → Text
  without_tag inner none = inner
  without_tag inner (some (line, rest)) = if is_alpha (strip line) then rest else inner

  unfoldable pub untagged : Text → Text
  unfolding first_line strip
  untagged inner = without_tag inner (first_line inner)

  abbrev pub block_or : Text → Option Text → Text
  block_or text none = text
  block_or text (some block) = strip (untagged (strip block))

  abbrev pub fenced_or : Text → Option Text → Text
  fenced_or text none = text
  fenced_or text (some after) = block_or text (before_fence after)

  -- `_extract_json`
  unfoldable pub extract_json : Text → Text
  unfolding after_fence before_fence untagged outermost strip
  extract_json response = let text = strip response in outermost (fenced_or text (after_fence text))
