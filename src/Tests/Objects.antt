-- ===== src/Tests/Objects.antt =====
-- Taking objects out of answers, at concrete inputs (agents/_llm_json.py).
use mas_research.Base.{
  ◌≡◌, refl, true, Bool, [], ◌∷◌, ◌++◌, ℕ_discrete, String, same, string_key, if◌then◌else◌, not,
  ◌&&◌, all, some, none,
}
use mas_research.Base.Dict.{contains}
use mas_research.Values.{
  Value, str, list, dict, nil, cons, Fields, field, end, Conversions, dicts_in, list_of,
}
use mas_research.Text.{Text, join_with}
use mas_research.Text.Contents.{field_texts}
use mas_research.Text.Joined.{is_blank, AllFull}
use mas_research.Summary.{RawSummary, Model}
use mas_research.Summary.Flatten.{semicolon, flatten_to_text, leaves, flatten_to_text-leaves}
use mas_research.Summary.Handling.{
  is_informs, combined, is_answered, summarizer_handle, summarizer_handle-is_informs,
}
use mas_research.Summary.Json.{fence, extract_json}
use mas_research.Summary.Wrapped.{braced, block, extract_json-prose, extract_json-fenced}

abbrev word : Text → Bool
word t = true

-- Ok: {1}!
extract_json-prose_example :
    extract_json word ((79 ∷ 107 ∷ 58 ∷ 32 ∷ []) ++ 123 ∷ ((49 ∷ []) ++ 125 ∷ 33 ∷ []))
    ≡ braced (49 ∷ [])
unfolding contains ℕ_discrete
extract_json-prose_example =
    extract_json-prose word (79 ∷ 107 ∷ 58 ∷ 32 ∷ []) (49 ∷ []) (33 ∷ []) refl refl refl

-- A block with the tag "json", and two characters around it.
extract_json-fenced_example :
    extract_json word
      ((58 ∷ []) ++ (fence ++ (block (106 ∷ 115 ∷ 111 ∷ 110 ∷ []) (49 ∷ []) ++ (fence ++ 33 ∷ []))))
    ≡ braced (49 ∷ [])
unfolding contains ℕ_discrete
extract_json-fenced_example =
    extract_json-fenced word (58 ∷ []) 106 (115 ∷ 111 ∷ 110 ∷ []) (49 ∷ []) (33 ∷ []) refl refl refl
      refl refl

abbrev conv : Conversions
conv = record { print = λ v. "value"; parse = λ v. none }

-- The code point of a text of one letter.
abbrev to_text : String → Text
to_text s = if same s "" then [] else if same s " " then 32 ∷ [] else 97 ∷ []

-- ["a", [""], {"k": " a"}]
abbrev nested : Value
nested =
    list
      (cons (str "a") (cons (list (cons (str "") nil)) (cons (dict (field "k" (str "b") end)) nil)))

flatten_to_text-leaves_example :
    (flatten_to_text conv to_text nested ≡ join_with semicolon (leaves conv to_text nested))
    × AllFull (leaves conv to_text nested)
flatten_to_text-leaves_example = flatten_to_text-leaves conv to_text nested

abbrev raw : RawSummary
raw = record { introduction = 97 ∷ []; key_points = 98 ∷ []; conclusions = 99 ∷ [] }

abbrev model : Model
model = record { answer = λ n prompt. some raw; retry_hint = []; reduce_prompt = λ parts. [] }

abbrev two_chunks : Fields
two_chunks =
    field "chunks"
      (list_of (dict (field "content" (str "a") end) ∷ dict (field "content" (str " ") end) ∷ []))
      end

summarizer_handle-is_informs_example :
    let chunks = dicts_in two_chunks "chunks" in
    is_informs (summarizer_handle conv to_text model 6000 500 "t1" two_chunks 0) ≡ (
      not (all is_blank (field_texts conv to_text "content" chunks))
      && is_answered model 6000 500 (combined conv to_text chunks) 0)
summarizer_handle-is_informs_example =
    summarizer_handle-is_informs conv to_text model 6000 500 "t1" two_chunks 0
