-- ===== src/Terms/Near.antt =====
-- Near-duplicate lemmas are so both ways (agents/terminology.py).
use mas_research.Base.{
  ◌==◌, ℕ, true, false, ◌≡◌, refl, ap, Option, none, some, List, [], ◌∷◌, length, ltb, arith,
  Bool-cases, inl, inr, same, text_key, list_dec,
}
use mas_research.Text.{Text, split}
use mas_research.Terms.{
  both_last, last_tokens_near, init_of, last_of, rule1_same_length, rule2_prefix_relationship,
  same_tokens, are_near_duplicate_lemmas,
}

same_comm : (a b : Text) → same a b ≡ same b a
same_comm a b = elim (list_dec a b) [ yes p ↦ ground arith | no p ↦ ground arith ]

same_tokens_comm : (ts us : List Text) → same_tokens ts us ≡ same_tokens us ts
unfolding same_tokens
same_tokens_comm [] [] = refl
same_tokens_comm [] (b ∷ us) = refl
same_tokens_comm (a ∷ ts) [] = refl
same_tokens_comm (a ∷ ts) (b ∷ us) = ground (arith, same_comm a b, same_tokens_comm ts us)

rule1_comm : (a b : Text) → rule1_same_length a b ≡ rule1_same_length b a
unfolding rule1_same_length
rule1_comm a b = elim (list_dec (init_of a) (init_of b)) [
  | yes p ↦
      let same_length : length (init_of a) ≡ length (init_of b) = ap (λ t. length t) p in
      ground (arith, same_comm (init_of a) (init_of b))
  | no p ↦ ground (arith, same_comm (init_of a) (init_of b))
]

rule2_comm :
    (a b : Text)
    → (length a == length b) ≡ false
    → rule2_prefix_relationship a b ≡ rule2_prefix_relationship b a
unfolding rule2_prefix_relationship
rule2_comm a b ne = elim (Bool-cases (ltb (length a) (length b))) [
  | inl e ↦ let f : ltb (length b) (length a) ≡ false = ground arith in rw (e, f) refl
  | inr e ↦ let f : ltb (length b) (length a) ≡ true = ground arith in rw (e, f) refl
]

eq_comm : (m n : ℕ) → (m == n) ≡ (n == m)
eq_comm m n = ground arith

last_tokens_near_comm : (a b : Text) → last_tokens_near a b ≡ last_tokens_near b a
last_tokens_near_comm a b = elim (Bool-cases (same a b)) [
  | inl e ↦ rw (e, same_comm b a, e) refl
  | inr e ↦ elim (Bool-cases (length a == length b)) [
    | inl f ↦ rw (same_comm b a, e, eq_comm (length b) (length a), f) (rule1_comm a b)
    | inr f ↦ rw (same_comm b a, e, eq_comm (length b) (length a), f) (rule2_comm a b f)
  ]
]

both_last_comm : (x y : Option Text) → both_last x y ≡ both_last y x
both_last_comm none none = refl
both_last_comm none (some b) = refl
both_last_comm (some a) none = refl
both_last_comm (some a) (some b) = ap some (last_tokens_near_comm a b)

-- Two lemmas are near-duplicates, or raise, whichever of them comes first: the rules for a changed last
-- letter and for an added ending have no direction.
pub are_near_duplicate_lemmas_comm :
    (a b : Text) → are_near_duplicate_lemmas a b ≡ are_near_duplicate_lemmas b a
unfolding are_near_duplicate_lemmas
are_near_duplicate_lemmas_comm a b =
    rw
      (
        eq_comm (length (split b)) (length (split a)),
        same_tokens_comm (init_of (split b)) (init_of (split a)),
        both_last_comm (last_of (split b)) (last_of (split a)),
      )
      refl
