-- ===== src/Text/Joined.antt =====
-- Texts that are joined with a separator.
use mas_research.Text.{Text, is_space, lstrip, rstrip, strip, join_with, cons_non_empty, non_empty}
use mathlib.Core.List.{append_assoc, append-nil}
use mas_research.Base.{
  ◌≡◌, refl, ap, sym, ◌∙◌, Bool, true, false, not, ◌&&◌, List, [], ◌∷◌, ◌++◌, all, is_empty, arith,
}

abbrev pub is_blank : Text → Bool
is_blank t = all is_space t

lstrip-is_blank : (t : Text) → is_blank (lstrip t) ≡ is_blank t
unfolding lstrip
lstrip-is_blank [] = refl
lstrip-is_blank (c ∷ cs) = ground (arith, lstrip-is_blank cs)

rstrip-is_empty : (t : Text) → is_empty (rstrip t) ≡ is_blank t
unfolding rstrip
rstrip-is_empty [] = refl
rstrip-is_empty (c ∷ cs) = ground (arith, rstrip-is_empty cs)

pub strip-is_empty : (t : Text) → is_empty (strip t) ≡ is_blank t
unfolding strip
strip-is_empty t = rstrip-is_empty (lstrip t) ∙ lstrip-is_blank t

append-is_blank : (a b : Text) → is_blank (a ++ b) ≡ (is_blank a && is_blank b)
append-is_blank [] b = refl
append-is_blank (c ∷ a) b = ground (arith, append-is_blank a b)

join_with-is_blank :
    (separator : Text) (ts : List Text)
    → is_blank separator ≡ true
    → is_blank (join_with separator ts) ≡ all is_blank ts
unfolding join_with
join_with-is_blank separator [] h = refl
join_with-is_blank separator (t ∷ []) h = ground arith
join_with-is_blank separator (t ∷ u ∷ ts) h = ground (
  arith,
  join_with-is_blank separator (u ∷ ts) h,
  append-is_blank t separator,
  append-is_blank (t ++ separator) (join_with separator (u ∷ ts)),
)

non_empty-is_blank : (ts : List Text) → all is_blank (non_empty ts) ≡ all is_blank ts
unfolding non_empty
non_empty-is_blank [] = refl
non_empty-is_blank ([] ∷ ts) = non_empty-is_blank ts
non_empty-is_blank ((c ∷ t) ∷ ts) = ap (λ b. is_blank (c ∷ t) && b) (non_empty-is_blank ts)

-- What is left of joined texts is empty exactly if each of the texts is blank.
pub joined-is_empty :
    (separator : Text) (ts : List Text)
    → is_blank separator ≡ true
    → is_empty (strip (join_with separator (non_empty ts))) ≡ all is_blank ts
joined-is_empty separator ts h =
    strip-is_empty (join_with separator (non_empty ts))
    ∙ join_with-is_blank separator (non_empty ts) h
    ∙ non_empty-is_blank ts

-- A first text in front of others that are joined.
pub join_with-append :
    (separator x : Text) (xs ys : List Text)
    → is_empty ys ≡ false
    → join_with separator (x ∷ xs ++ ys)
      ≡ join_with separator (x ∷ xs) ++ separator ++ join_with separator ys
unfolding join_with
join_with-append separator x [] (y ∷ ys) h = refl
join_with-append separator x [] [] h = absurd (cc h)
join_with-append separator x (u ∷ xs) ys h =
    let first = join_with separator (u ∷ xs) in
    let rest = join_with separator ys in
    rw (join_with-append separator u xs ys h) (
      sym (append_assoc (x ++ separator) (first ++ separator) rest)
      ∙ ap (λ t. t ++ rest) (sym (append_assoc (x ++ separator) first separator)))

-- Texts of which none is empty.
abbrev pub AllFull : List Text → Type 0
AllFull ts = all (λ t. not (is_empty t)) ts ≡ true

pub full-append : (xs ys : List Text) → AllFull xs → AllFull ys → AllFull (xs ++ ys)
full-append [] ys h k = k
full-append (x ∷ xs) ys h k = ground (arith, full-append xs ys)

append-full : (a b : Text) → is_empty a ≡ false → is_empty (a ++ b) ≡ false
append-full [] b h = absurd (cc h)
append-full (c ∷ a) b h = refl

join_with-full :
    (separator x : Text) (xs : List Text)
    → is_empty x ≡ false
    → is_empty (join_with separator (x ∷ xs)) ≡ false
unfolding join_with
join_with-full separator x [] h = h
join_with-full separator x (u ∷ xs) h = append-full _ _ (append-full x separator h)

-- A part that is itself joined of full texts, in front of the others: the same as its texts in front
-- of them.
pub joined_part :
    (separator : Text) (xs qs ys : List Text)
    → AllFull xs
    → join_with separator qs ≡ join_with separator ys
    → is_empty qs ≡ is_empty ys
    → (join_with separator (cons_non_empty (join_with separator xs) qs)
        ≡ join_with separator (xs ++ ys))
      × (is_empty (cons_non_empty (join_with separator xs) qs) ≡ is_empty (xs ++ ys))
unfolding join_with
joined_part separator [] qs ys full e k = (e, k)
joined_part separator (x ∷ xs) [] [] full e k =
    rw (join_with-full separator x xs (ground arith))
      (ap (λ ts. join_with separator (x ∷ ts)) (sym (append-nil xs)), refl)
joined_part separator (x ∷ xs) [] (y ∷ ys) full e k = absurd (cc k)
joined_part separator (x ∷ xs) (q ∷ qs) [] full e k = absurd (cc k)
joined_part separator (x ∷ xs) (q ∷ qs) (y ∷ ys) full e k =
    rw (join_with-full separator x xs (ground arith)) (
      ap (λ t. join_with separator (x ∷ xs) ++ separator ++ t) e
          ∙ sym (join_with-append separator x xs (y ∷ ys) refl),
      refl,
    )
