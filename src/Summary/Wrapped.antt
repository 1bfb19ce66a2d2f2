-- ===== src/Summary/Wrapped.antt =====
-- An object comes out of the prose or the code fence around it (agents/_llm_json.py).
use mas_research.Text.{Text, strip, lstrip, rstrip, starts_with, is_space}
use mas_research.Text.Trim.{is_empty-append}
use mas_research.Base.{
  ℕ, ◌≡◌, refl, ap, ◌∙◌, Bool, true, false, none, some, [], ◌∷◌, ◌++◌, is_empty, arith, nat_key,
  Bool-cases, inl, inr,
}
use mas_research.Base.Dict.{contains}
use mas_research.Summary.Json.{
  fence, after_fence, before_fence, first_line, from_brace, through_brace, outermost, untagged,
  extract_json,
}

after_fence-append :
    (before rest : Text)
    → contains 96 before ≡ false
    → after_fence (before ++ (fence ++ rest)) ≡ some rest
unfolding after_fence starts_with contains
after_fence-append [] rest h = refl
after_fence-append (c ∷ cs) rest h = ground (arith, after_fence-append cs rest)

before_fence-append :
    (before rest : Text)
    → contains 96 before ≡ false
    → before_fence (before ++ (fence ++ rest)) ≡ some before
unfolding before_fence starts_with contains
before_fence-append [] rest h = refl
before_fence-append (c ∷ cs) rest h = ground (arith, before_fence-append cs rest)

after_fence-none : (text : Text) → contains 96 text ≡ false → after_fence text ≡ none
unfolding after_fence starts_with contains
after_fence-none [] h = refl
after_fence-none (c ∷ cs) h = ground (arith, after_fence-none cs)

first_line-append :
    (line rest : Text)
    → contains 10 line ≡ false
    → first_line (line ++ 10 ∷ rest) ≡ some (line, rest)
unfolding first_line contains
first_line-append [] rest h = refl
first_line-append (c ∷ cs) rest h = ground (arith, first_line-append cs rest)

from_brace-append :
    (before rest : Text)
    → contains 123 before ≡ false
    → from_brace (before ++ 123 ∷ rest) ≡ some (123 ∷ rest)
unfolding from_brace contains
from_brace-append [] rest h = refl
from_brace-append (c ∷ cs) rest h = ground (arith, from_brace-append cs rest)

through_brace-none : (text : Text) → contains 125 text ≡ false → through_brace text ≡ none
unfolding through_brace contains
through_brace-none [] h = refl
through_brace-none (c ∷ cs) h = ground (arith, through_brace-none cs)

through_brace-append :
    (text after : Text)
    → contains 125 after ≡ false
    → through_brace (text ++ 125 ∷ after) ≡ some (text ++ 125 ∷ [])
unfolding through_brace
through_brace-append [] after h = rw (through_brace-none after h) refl
through_brace-append (c ∷ cs) after h = rw (through_brace-append cs after h) refl

contains-lstrip : (j : ℕ) (t : Text) → contains j t ≡ false → contains j (lstrip t) ≡ false
unfolding lstrip contains
contains-lstrip j [] h = h
contains-lstrip j (c ∷ cs) h = ground (arith, contains-lstrip j cs)

contains-rstrip : (j : ℕ) (t : Text) → contains j t ≡ false → contains j (rstrip t) ≡ false
unfolding rstrip contains
contains-rstrip j [] h = h
contains-rstrip j (c ∷ cs) h = ground (arith, contains-rstrip j cs)

lstrip-before :
    (before rest : Text) (c : ℕ)
    → is_space c ≡ false
    → lstrip (before ++ c ∷ rest) ≡ lstrip before ++ c ∷ rest
unfolding lstrip
lstrip-before [] rest c h = rw h refl
lstrip-before (b ∷ before) rest c h = elim (Bool-cases (is_space b)) [
  | inl e ↦ rw e (lstrip-before before rest c h)
  | inr e ↦ rw e refl
]

rstrip-solid : (c : ℕ) (t : Text) → is_space c ≡ false → rstrip (c ∷ t) ≡ c ∷ rstrip t
unfolding rstrip
rstrip-solid c t h = elim (Bool-cases (is_empty (rstrip t))) [
  | inl e ↦ rw (e, h) refl
  | inr e ↦ rw e refl
]

rstrip-after : (xs t : Text) → is_empty (rstrip t) ≡ false → rstrip (xs ++ t) ≡ xs ++ rstrip t
unfolding rstrip
rstrip-after [] t h = refl
rstrip-after (x ∷ xs) t h = rw (rstrip-after xs t h, is_empty-append xs (rstrip t) h) refl

abbrev pub braced : Text → Text
braced body = 123 ∷ (body ++ 125 ∷ [])

-- A code block with a language tag.
abbrev pub block : Text → Text → Text
block tag body = tag ++ 10 ∷ 123 ∷ (body ++ 125 ∷ 10 ∷ [])

strip-prose :
    (prose body after : Text)
    → strip (prose ++ 123 ∷ (body ++ 125 ∷ after))
      ≡ lstrip prose ++ 123 ∷ (body ++ 125 ∷ rstrip after)
unfolding strip
strip-prose prose body after =
    let closed = rstrip-solid 125 after refl in
    let opened = rstrip-after (123 ∷ body) (125 ∷ after) (ap is_empty closed) in
    ap rstrip (lstrip-before prose (body ++ 125 ∷ after) 123 refl)
    ∙ rstrip-after (lstrip prose) (123 ∷ (body ++ 125 ∷ after)) (ap is_empty opened)
    ∙ ap (λ t. lstrip prose ++ t) (opened ∙ ap (λ t. 123 ∷ (body ++ t)) closed)

outermost-braced :
    (prose body after : Text)
    → contains 123 prose ≡ false
    → contains 125 after ≡ false
    → outermost (prose ++ 123 ∷ (body ++ 125 ∷ after)) ≡ braced body
unfolding outermost
outermost-braced prose body after h k =
    rw (from_brace-append prose (body ++ 125 ∷ after) h, through_brace-append (123 ∷ body) after k)
      refl

module _ (is_alpha : Text → Bool) where
  -- An object in prose that has no backquote, no opening brace before it and no closing brace behind it
  -- is what is taken out of the answer.
  pub extract_json-prose :
      (prose body after : Text)
      → contains 96 (prose ++ 123 ∷ (body ++ 125 ∷ after)) ≡ false
      → contains 123 prose ≡ false
      → contains 125 after ≡ false
      → extract_json is_alpha (prose ++ 123 ∷ (body ++ 125 ∷ after)) ≡ braced body
  unfolding extract_json strip
  extract_json-prose prose body after plain h k =
      let response = prose ++ 123 ∷ (body ++ 125 ∷ after) in
      let bare =
        after_fence-none (rstrip (lstrip response))
          (contains-rstrip 96 (lstrip response) (contains-lstrip 96 response plain)) in
      rw bare (
        ap outermost (strip-prose prose body after)
        ∙ outermost-braced (lstrip prose) body (rstrip after) (contains-lstrip 123 prose h)
            (contains-rstrip 125 after k))

  strip-fenced :
      (before inside after : Text)
      → strip (before ++ (fence ++ (inside ++ (fence ++ after))))
        ≡ lstrip before ++ (fence ++ (inside ++ (fence ++ rstrip after)))
  unfolding strip
  strip-fenced before inside after =
      let closing : rstrip (fence ++ after) ≡ fence ++ rstrip after = solid after in
      let within : rstrip (fence ++ (inside ++ (fence ++ after)))
          ≡ fence ++ (inside ++ rstrip (fence ++ after)) =
        rstrip-after (fence ++ inside) (fence ++ after) (ap is_empty closing) in
      ap rstrip (lstrip-before before (96 ∷ 96 ∷ (inside ++ (fence ++ after))) 96 refl)
      ∙ rstrip-after (lstrip before) (fence ++ (inside ++ (fence ++ after))) (ap is_empty within)
      ∙ ap (λ t. lstrip before ++ t) (within ∙ ap (λ t. fence ++ (inside ++ t)) closing)
    where
      solid : (t : Text) → rstrip (fence ++ t) ≡ fence ++ rstrip t
      solid t =
          rstrip-solid 96 (96 ∷ 96 ∷ t) refl
          ∙ ap (λ u. 96 ∷ u)
              (rstrip-solid 96 (96 ∷ t) refl ∙ ap (λ u. 96 ∷ u) (rstrip-solid 96 t refl))

  strip-block :
      (t : ℕ) (tag body : Text)
      → is_space t ≡ false
      → strip (block (t ∷ tag) body) ≡ (t ∷ tag) ++ 10 ∷ braced body
  unfolding strip
  strip-block t tag body h =
      let closed : rstrip (125 ∷ 10 ∷ []) ≡ 125 ∷ [] = rstrip-solid 125 (10 ∷ []) refl in
      let opened = rstrip-after (10 ∷ 123 ∷ body) (125 ∷ 10 ∷ []) (ap is_empty closed) in
      ap rstrip (lstrip-before [] (tag ++ 10 ∷ 123 ∷ (body ++ 125 ∷ 10 ∷ [])) t h)
      ∙ rstrip-after (t ∷ tag) (10 ∷ 123 ∷ (body ++ 125 ∷ 10 ∷ [])) (ap is_empty opened)
      ∙ ap (λ u. (t ∷ tag) ++ u) (opened ∙ ap (λ u. 10 ∷ 123 ∷ (body ++ u)) closed)

  -- The object of a code block with a language tag is what is taken out of the answer, whatever is
  -- around the block, where no backquote is before it or in it.
  pub extract_json-fenced :
      (before : Text) (t : ℕ) (tag body after : Text)
      → contains 96 before ≡ false
      → contains 96 (block (t ∷ tag) body) ≡ false
      → is_space t ≡ false
      → contains 10 (t ∷ tag) ≡ false
      → is_alpha (strip (t ∷ tag)) ≡ true
      → extract_json is_alpha (before ++ (fence ++ (block (t ∷ tag) body ++ (fence ++ after))))
        ≡ braced body
  unfolding extract_json untagged contains
  extract_json-fenced before t tag body after h k solid line alpha =
      let inside = block (t ∷ tag) body in
      rw
        (
          strip-fenced before inside after,
          after_fence-append (lstrip before) (inside ++ (fence ++ rstrip after))
              (contains-lstrip 96 before h),
          before_fence-append inside (rstrip after) k,
          strip-block t tag body solid,
          first_line-append (t ∷ tag) (braced body) line,
          alpha,
          strip-prose [] body [],
          outermost-braced [] body [] refl refl,
        )
        refl
