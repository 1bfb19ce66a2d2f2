-- ===== src/Terms/Handling.antt =====
-- The handler of the terminology agent (agents/terminology.py, `handle`). The adapter is a parameter:
-- what `extract_many` makes of the texts of the chunks, and the code points of a string.
use mas_research.Text.{Text, strip}
use mas_research.Base.{
  ℕ, suc, String, ◌≡◌, ◌≤◌, refl, Bool, false, Option, none, some, List, [], ◌∷◌, is_empty, length,
  if◌then◌else◌, arith, string_key,
}
use mas_research.Base.Int.{ℤ, pos}
use mas_research.Base.Dict.{Dict}
use mas_research.Values.{dicts_in, str, Fields, Conversions, text_of, get, get_or, as_int}
use mas_research.Terms.{Candidate}
use mas_research.Terms.Ranking.{RankedTerm, Ranked, extract_terms}
use mas_research.Terms.Extracted.{AtMost, extract_terms-AtMost}

pub data TermsAnswer : Type 0 where
  refuses : String → TermsAnswer
  informs : List RankedTerm → TermsAnswer
  fails : TermsAnswer

-- `top_n`: a positive int of the message, or the default.
unfoldable pub top_n_or : ℕ → Option ℤ → ℕ
top_n_or default (some (pos (suc n))) = suc n
top_n_or default _ = default

abbrev pub contents_of : List (Text × Text) → List Text
contents_of [] = []
contents_of ((id, content) ∷ sources) = content ∷ contents_of sources

-- `zip(ids, candidates, strict=True)`; `none` is the ValueError of two lengths.
unfoldable pub zip_strict :
    List (Text × Text) → List (List Candidate) → Option (List (Text × List Candidate))
zip_strict [] [] = some []
zip_strict ((id, content) ∷ sources) (candidates ∷ rest) = onto (zip_strict sources rest)
  where
    onto : Option (List (Text × List Candidate)) → Option (List (Text × List Candidate))
    onto none = none
    onto (some zipped) = some ((id, candidates) ∷ zipped)
zip_strict _ _ = none

abbrev pub top_n_in : ℕ → Fields → ℕ
top_n_in default content = top_n_or default (as_int (get content "top_n"))

abbrev answer_of : Option (List RankedTerm) → TermsAnswer
answer_of none = fails
answer_of (some terms) = informs terms

-- An answer with at most `n` terms.
abbrev pub InformsAtMost : ℕ → TermsAnswer → Type 0
InformsAtMost n (informs terms) = length terms ≤ n
InformsAtMost n _ = ⊥

answer-AtMost :
    (n : ℕ) (terms : Option (List RankedTerm)) → AtMost n terms → InformsAtMost n (answer_of terms)
answer-AtMost n none h = h
answer-AtMost n (some terms) h = h

zip_strict-length :
    (sources : List (Text × Text)) (candidates : List (List Candidate))
    → length candidates ≡ length (contents_of sources)
    → (zipped : List (Text × List Candidate)) × (zip_strict sources candidates ≡ some zipped)
unfolding zip_strict
zip_strict-length [] [] e = ([], refl)
zip_strict-length [] (c ∷ cs) e = absurd (omega (arith, e))
zip_strict-length (s ∷ sources) [] e = absurd (omega (arith, e))
zip_strict-length ((id, content) ∷ sources) (c ∷ cs) e =
    let (zipped, k) = zip_strict-length sources cs (omega (arith, e)) in
    ((id, c) ∷ zipped, rw k refl)

module _ (conv : Conversions) (to_text : String → Text) where
  abbrev chunk_text : Fields → String → Text
  chunk_text chunk key = to_text (text_of conv (get_or chunk key (str "")))

  -- `sources`: the ids and contents of the chunks whose content is not blank.
  unfoldable pub sources_of : List Fields → List (Text × Text)
  unfolding text_of get strip
  sources_of [] = []
  sources_of (chunk ∷ chunks) =
      let rest = sources_of chunks in
      if is_empty (strip (chunk_text chunk "content"))
      then rest
      else (chunk_text chunk "id", chunk_text chunk "content") ∷ rest

  abbrev pub sources_in : Fields → List (Text × Text)
  sources_in content = sources_of (dicts_in content "chunks")

  module _ (lower : Text → Text) (stopwords : List Text) (domain : Dict Text (List Text))
      (before : ℕ → Ranked → Ranked → Bool)
      (extract_many : List Text → Option (List (List Candidate))) (top_n_default : ℕ) where
    abbrev zipped_terms : ℕ → Option (List (Text × List Candidate)) → TermsAnswer
    zipped_terms top_n none = fails
    zipped_terms top_n (some chunks) =
        answer_of (extract_terms lower stopwords domain before chunks top_n)

    abbrev terms_answer : List (Text × Text) → ℕ → Option (List (List Candidate)) → TermsAnswer
    terms_answer sources top_n none = fails
    terms_answer sources top_n (some candidates) =
        zipped_terms top_n (zip_strict sources candidates)

    -- `handle`
    unfoldable pub terminology_handle : Fields → TermsAnswer
    unfolding sources_of get top_n_or zip_strict extract_terms
    terminology_handle content =
        if is_empty (sources_in content)
        then refuses "no chunk content for terminology extraction"
        else terms_answer (sources_in content) (top_n_in top_n_default content)
            (extract_many (contents_of (sources_in content)))

    -- Where the content has a chunk with text, and the adapter has a list of candidates for each text,
    -- the agent informs of terms, as many as the request asks for at most: it neither refuses nor
    -- raises.
    pub terminology_handle-InformsAtMost :
        (content : Fields) (candidates : List (List Candidate))
        → is_empty (sources_in content) ≡ false
        → extract_many (contents_of (sources_in content)) ≡ some candidates
        → length candidates ≡ length (contents_of (sources_in content))
        → InformsAtMost (top_n_in top_n_default content) (terminology_handle content)
    unfolding terminology_handle
    terminology_handle-InformsAtMost content candidates full e same_length =
        let (zipped, k) = zip_strict-length (sources_in content) candidates same_length in
        rw (full, e, k)
          (answer-AtMost (top_n_in top_n_default content)
            (extract_terms lower stopwords domain before zipped (top_n_in top_n_default content))
            (extract_terms-AtMost lower stopwords domain before zipped
              (top_n_in top_n_default content)))
