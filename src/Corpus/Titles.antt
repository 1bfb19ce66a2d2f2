-- ===== src/Corpus/Titles.antt =====
-- The titles of the papers that are kept (corpus_builder/build.py, `fetch_papers`).
use mas_research.Text.{Text}
use mas_research.Base.{
  is_empty, if◌then◌else◌, ◌≡◌, refl, sym, ap, ◌∙◌, Bool, true, false, not, ◌&&◌, ◌||◌, Option,
  none, some, List, [], ◌∷◌, ◌++◌, arith, Bool-cases, inl, inr, text_key, list_dec,
}
use mas_research.Base.Dict.{contains, contains-add}
use mas_research.Corpus.{
  InvertedIndex, Item, Paper, Found, usable, keep, paper_of, take_item, take_items,
}

abbrev pub titles : List Paper → List Text
titles [] = []
titles (paper ∷ papers) = paper.title ∷ titles papers

abbrev is_filled : {A : Type 0} → Option (List A) → Bool
is_filled none = false
is_filled (some xs) = not (is_empty xs)

-- The title of an item whose title and abstract are both there and not empty.
abbrev pub full_title : Item → Option Text
full_title item =
    if is_filled item.title && is_filled item.abstract_inverted_index then item.title else none

abbrev title_of : Option (Text × InvertedIndex) → Option Text
title_of none = none
title_of (some (title, inverted)) = some title

usable-title : (item : Item) → title_of (usable item) ≡ full_title item
usable-title item = by_parts item.title item.abstract_inverted_index
  where
    by_parts :
        (title : Option Text) (inverted : Option InvertedIndex)
        → title_of (usable (record item { title = title; abstract_inverted_index = inverted }))
          ≡ full_title (record item { title = title; abstract_inverted_index = inverted })
    by_parts none inverted = refl
    by_parts (some []) inverted = refl
    by_parts (some (c ∷ cs)) none = refl
    by_parts (some (c ∷ cs)) (some []) = refl
    by_parts (some (c ∷ cs)) (some (entry ∷ index)) = refl

abbrev title_onto : Option Text → List Text → List Text
title_onto none ts = ts
title_onto (some title) ts = title ∷ ts

-- The titles of the items that have a title and an abstract, both not empty.
abbrev pub usable_titles : List Item → List Text
usable_titles [] = []
usable_titles (item ∷ items) = title_onto (full_title item) (usable_titles items)

abbrev pub distinct : List Text → Bool
distinct [] = true
distinct (t ∷ ts) = not (contains t ts) && distinct ts

contains-append :
    (j : Text) (xs ys : List Text) → contains j (xs ++ ys) ≡ (contains j xs || contains j ys)
unfolding contains
contains-append j [] ys = refl
contains-append j (x ∷ xs) ys = ground (arith, contains-append j xs ys)

distinct-append :
    (xs : List Text) (y : Text)
    → contains y xs ≡ false
    → distinct xs ≡ true
    → distinct (xs ++ y ∷ []) ≡ true
unfolding contains
distinct-append [] y e d = refl
distinct-append (x ∷ xs) y e d = elim (list_dec x y) [
  | yes p ↦ absurd (ground arith)
  | no n ↦ ground (arith, contains-append x xs (y ∷ []), distinct-append xs y)
]

titles-append : (ps : List Paper) (p : Paper) → titles (ps ++ p ∷ []) ≡ titles ps ++ p.title ∷ []
titles-append [] p = refl
titles-append (q ∷ ps) p = ap (λ ts. q.title ∷ ts) (titles-append ps p)

-- `found` has the titles of which `f` holds, each once.
abbrev pub Has : (Text → Bool) → Found → Type 0
Has f found =
    (distinct (titles found.papers) ≡ true)
    × ((j : Text) → contains j (titles found.papers) ≡ f j)
    × ((j : Text) → contains j found.seen ≡ f j)

repeated :
    (f : Text → Bool) (title : Text) (xs seen : List Text)
    → contains title seen ≡ true
    → ((i : Text) → contains i xs ≡ f i)
    → ((i : Text) → contains i seen ≡ f i)
    → (j : Text) → contains j xs ≡ (f j || contains j (title ∷ []))
unfolding contains
repeated f title xs seen s e k j = elim (list_dec j title) [
  | yes p ↦ ground (arith, e j, k title, ap f p)
  | no n ↦ ground (arith, e j)
]

keep-Has :
    (f : Text → Bool) (item : Item) (u : Option (Text × InvertedIndex)) (found : Found)
    → Has f found
    → Has (λ j. f j || contains j (title_onto (title_of u) [])) (keep item u found)
unfolding contains
keep-Has f item none found (d, e, k) = (d, λ j. ground (arith, e j), λ j. ground (arith, k j))
keep-Has f item (some (title, inverted)) found (d, e, k) =
    elim (Bool-cases (contains title found.seen)) [
      | inl s ↦ rw s (
        d,
        repeated f title (titles found.papers) found.seen s e k,
        repeated f title found.seen found.seen s k k,
      )
      | inr s ↦
          rw (s, titles-append found.papers (paper_of title inverted item))
            (
              distinct-append (titles found.papers) title (e title ∙ sym (k title) ∙ s) d,
              λ j. ground (arith, contains-append j (titles found.papers) (title ∷ []), e j),
              λ j. ground (arith, contains-add j title found.seen, k j),
            )
    ]

contains-title_onto :
    (j : Text) (u : Option Text) (ts : List Text)
    → contains j (title_onto u ts) ≡ (contains j (title_onto u []) || contains j ts)
unfolding contains
contains-title_onto j none ts = refl
contains-title_onto j (some title) ts = ground arith

Has-same :
    (f g : Text → Bool) (found : Found) → ((j : Text) → f j ≡ g j) → Has f found → Has g found
Has-same f g found h (d, e, k) = (d, λ j. e j ∙ h j, λ j. k j ∙ h j)

pub take_items-Has :
    (f : Text → Bool) (items : List Item) (found : Found)
    → Has f found
    → Has (λ j. f j || contains j (usable_titles items)) (take_items items found)
unfolding take_items take_item contains
take_items-Has f [] found h = Has-same f (λ j. f j || false) found (λ j. ground arith) h
take_items-Has f (item ∷ items) found h =
    let first : Text → Bool = λ j. f j || contains j (title_onto (full_title item) []) in
    Has-same (λ j. first j || contains j (usable_titles items))
      (λ j. f j || contains j (title_onto (full_title item) (usable_titles items)))
      (take_items items (take_item item found))
      (λ j. ground (arith, contains-title_onto j (full_title item) (usable_titles items)))
      (take_items-Has first items (take_item item found)
        (rw (← usable-title item) (keep-Has f item (usable item) found h)))

pub usable_titles-append :
    (j : Text) (xs ys : List Item)
    → contains j (usable_titles (xs ++ ys))
      ≡ (contains j (usable_titles xs) || contains j (usable_titles ys))
unfolding contains
usable_titles-append j [] ys = refl
usable_titles-append j (x ∷ xs) ys = ground (
  arith,
  contains-title_onto j (full_title x) (usable_titles (xs ++ ys)),
  contains-title_onto j (full_title x) (usable_titles xs),
  usable_titles-append j xs ys,
)
