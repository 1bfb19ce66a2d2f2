-- ===== src/Terms/Extracted.antt =====
-- The extraction of terms does not raise (agents/terminology.py, `_extract_terms`).
use mas_research.Text.{Text}
use mas_research.Base.{
  ℕ, zero, suc, ◌≤◌, ◌≡◌, refl, sym, ap, ◌∙◌, Bool, true, false, Option, none, some, or_else,
  is_some, List, [], ◌∷◌, text_key, arith, Bool-cases, Option-cases, inl, inr, is_empty, length,
  take,
}
use mas_research.Base.Dict.{Dict, lookup, has, keys}
use mas_research.Base.Sorting.{insert_by, sort_by}
use mathlib.Core.List.{Memᴰ}
use mas_research.Terms.{Counts, Candidate, count_chunks}
use mas_research.Terms.Sums.{count}
use mas_research.Terms.Total.{mem-count, count_chunks-Sums, no_counts}
use mas_research.Terms.Merge.{merge_near_duplicates}
use mas_research.Terms.Present.{
  IsComplete, count_chunks-IsComplete, merge_near_duplicates-IsComplete,
}
use mas_research.Terms.Ranking.{
  RankedTerm, Ranked, cons_some, ranked, ranked_all, term_of, terms_of, top_terms, extract_terms,
}

-- The lemmas have a first occurrence.
abbrev AllSeen : Counts → List Ranked → Type 0
AllSeen merged [] = Unit {0}
AllSeen merged ((frequency, chunks, lemma) ∷ rs) =
    (has lemma merged.first_seen ≡ true) × AllSeen merged rs

abbrev SeenOne : Counts → Option Ranked → Type 0
SeenOne merged none = ⊥
SeenOne merged (some (frequency, chunks, lemma)) = has lemma merged.first_seen ≡ true

abbrev SeenAll : Counts → Option (List Ranked) → Type 0
SeenAll merged none = ⊥
SeenAll merged (some rs) = AllSeen merged rs

cons-SeenAll :
    (merged : Counts) (r : Option Ranked) (rs : Option (List Ranked))
    → SeenOne merged r
    → SeenAll merged rs
    → SeenAll merged (cons_some r rs)
cons-SeenAll merged none rs h k = h
cons-SeenAll merged (some r) none h k = k
cons-SeenAll merged (some (frequency, chunks, lemma)) (some rs) h k = (h, k)

ranked-SeenOne :
    (merged : Counts) (lemma : Text)
    → IsComplete merged
    → has lemma merged.frequency ≡ true
    → SeenOne merged (ranked merged lemma)
unfolding ranked
ranked-SeenOne merged lemma c h = elim (Option-cases (lookup lemma merged.frequency)) [
  | inl e ↦ absurd (cc (ap is_some e, h))
  | inr (frequency, e) ↦ elim (Option-cases (lookup lemma merged.chunk_ids)) [
    | inl k ↦ absurd (cc (ap (λ o. is_empty (or_else o [])) k, (c lemma h).1))
    | inr (ids, k) ↦
        found frequency ids e k (ap (λ o. is_empty (or_else o [])) (sym k) ∙ (c lemma h).1)
  ]
]
  where
    found :
        (frequency : ℕ) (ids : List Text)
        → lookup lemma merged.frequency ≡ some frequency
        → lookup lemma merged.chunk_ids ≡ some ids
        → is_empty ids ≡ false
        → SeenOne merged (ranked merged lemma)
    found frequency [] e k l = absurd (cc l)
    found frequency (i ∷ ids) e k l = rw (e, k) (c lemma h).0

ranked_all-SeenAll :
    (merged : Counts) (lemmas : List Text)
    → IsComplete merged
    → ((j : Text) → 1 ≤ count j lemmas → has j merged.frequency ≡ true)
    → SeenAll merged (ranked_all merged lemmas)
unfolding ranked_all
ranked_all-SeenAll merged [] c h = tt
ranked_all-SeenAll merged (lemma ∷ lemmas) c h =
    cons-SeenAll merged (ranked merged lemma) (ranked_all merged lemmas)
      (ranked-SeenOne merged lemma c (h lemma (mem-count lemma (lemma ∷ lemmas) (Memᴰ.head refl))))
      (ranked_all-SeenAll merged lemmas c (λ j l. h j (omega (arith, l))))

module _ (before : Ranked → Ranked → Bool) (merged : Counts) where
  insert_by-AllSeen :
      (r : Ranked) (rs : List Ranked)
      → AllSeen merged (r ∷ rs)
      → AllSeen merged (insert_by before r rs)
  unfolding insert_by
  insert_by-AllSeen r [] h = h
  insert_by-AllSeen r (s ∷ rs) h = elim (Bool-cases (before s r)) [
    | inl e ↦ rw e (h.1.0, insert_by-AllSeen r rs (h.0, h.1.1))
    | inr e ↦ rw e h
  ]

  sort_by-AllSeen : (rs : List Ranked) → AllSeen merged rs → AllSeen merged (sort_by before rs)
  unfolding sort_by
  sort_by-AllSeen [] h = h
  sort_by-AllSeen (r ∷ rs) h = insert_by-AllSeen r (sort_by before rs) (h.0, sort_by-AllSeen rs h.1)

-- At most `n` terms, and no raise.
abbrev pub AtMost : ℕ → Option (List RankedTerm) → Type 0
AtMost n none = ⊥
AtMost n (some terms) = length terms ≤ n

cons-AtMost :
    (n : ℕ) (t : Option RankedTerm) (ts : Option (List RankedTerm))
    → is_some t ≡ true
    → AtMost n ts
    → AtMost (suc n) (cons_some t ts)
cons-AtMost n none ts h k = absurd (cc h)
cons-AtMost n (some t) none h k = k
cons-AtMost n (some t) (some ts) h k = omega (arith, k)

term_of-is_some :
    (domain : Dict Text (List Text)) (merged : Counts) (r : Ranked)
    → has r.2 merged.first_seen ≡ true
    → is_some (term_of domain merged r) ≡ true
unfolding term_of
term_of-is_some domain merged (frequency, chunks, lemma) h =
    elim (Option-cases (lookup lemma merged.first_seen)) [
      | inl e ↦ absurd (cc (ap is_some e, h))
      | inr (first, e) ↦ rw e refl
    ]

terms_of-AtMost :
    (domain : Dict Text (List Text)) (merged : Counts) (n : ℕ) (rs : List Ranked)
    → AllSeen merged rs
    → AtMost n (terms_of domain merged (take n rs))
unfolding terms_of
terms_of-AtMost domain merged zero rs h = omega arith
terms_of-AtMost domain merged (suc n) [] h = omega arith
terms_of-AtMost domain merged (suc n) (r ∷ rs) h =
    cons-AtMost n (term_of domain merged r) (terms_of domain merged (take n rs))
      (term_of-is_some domain merged r h.0) (terms_of-AtMost domain merged n rs h.1)

keys-has : (j : Text) (d : Dict Text ℕ) → 1 ≤ count j (keys d) → has j d ≡ true
unfolding lookup
keys-has j [] l = absurd (omega (arith, l))
keys-has j ((k, v) ∷ d) l = ground (arith, keys-has j d)

module _ (lower : Text → Text) (stopwords : List Text) (domain : Dict Text (List Text))
    (before : ℕ → Ranked → Ranked → Bool) where
  top_terms-AtMost :
      (merged : Counts) (n_chunks top_n : ℕ) (rs : Option (List Ranked))
      → SeenAll merged rs
      → AtMost top_n (top_terms lower stopwords domain before merged n_chunks top_n rs)
  top_terms-AtMost merged n_chunks top_n none h = h
  top_terms-AtMost merged n_chunks top_n (some rs) h =
      terms_of-AtMost domain merged top_n (sort_by (before n_chunks) rs)
        (sort_by-AllSeen (before n_chunks) merged rs h)

  -- Whatever the candidates of the chunks are, the extraction does not raise (each lemma that is ranked
  -- has its chunks, so that no score divides by zero, and its first occurrence), and it gives `top_n`
  -- terms at most.
  pub extract_terms-AtMost :
      (chunks : List (Text × List Candidate)) (top_n : ℕ)
      → AtMost top_n (extract_terms lower stopwords domain before chunks top_n)
  unfolding extract_terms lookup
  extract_terms-AtMost chunks top_n =
      let counts = count_chunks lower stopwords chunks no_counts in
      let merged = merge_near_duplicates counts in
      let d = (count_chunks-Sums lower stopwords chunks 0 no_counts (λ j. refl, refl)).0 in
      let complete =
        merge_near_duplicates-IsComplete counts d
          (count_chunks-IsComplete lower stopwords chunks no_counts (λ j e. absurd (cc e))) in
      top_terms-AtMost merged (length chunks) top_n (ranked_all merged (keys merged.frequency)) (
        ranked_all-SeenAll merged (keys merged.frequency) complete
          (λ j l. keys-has j merged.frequency l))
