-- ===== src/Text.antt =====
-- Texts that the program walks, as lists of code points: what it uses of Python's `str`.
pub mod Trim
pub mod Order
pub mod Joined
pub mod Contents
use mas_research.Base.{
  ◌==◌, ℕ, Bool, true, false, ◌&&◌, ◌||◌, List, [], ◌∷◌, ◌++◌, is_empty, leb, ltb, if◌then◌else◌,
}

abbrev pub Text : Type 0
Text = List ℕ

-- `str.isspace`, by code point.
abbrev pub is_space : ℕ → Bool
is_space c =
    (leb 9 c && leb c 13)
    || (leb 28 c && leb c 32)
    || c == 133
    || c == 160
    || c == 5760
    || (leb 8192 c && leb c 8202)
    || c == 8232
    || c == 8233
    || c == 8239
    || c == 8287
    || c == 12288

unfoldable pub lstrip : Text → Text
lstrip [] = []
lstrip (c ∷ cs) = if is_space c then lstrip cs else c ∷ cs

unfoldable pub rstrip : Text → Text
rstrip [] = []
rstrip (c ∷ cs) = let rest = rstrip cs in if is_empty rest && is_space c then [] else c ∷ rest

unfoldable pub strip : Text → Text
unfolding lstrip rstrip
strip cs = rstrip (lstrip cs)

-- `split()`, where `word` is the word that is open.
unfoldable pub split_from : Text → Text → List Text
split_from word [] = if is_empty word then [] else word ∷ []
split_from word (c ∷ cs) =
    let inside = split_from (word ++ c ∷ []) cs in
    let outside = split_from [] cs in
    if is_space c then (if is_empty word then outside else word ∷ outside) else inside

unfoldable pub split : Text → List Text
unfolding split_from
split cs = split_from [] cs

-- `longer.startswith(shorter)`
unfoldable pub starts_with : Text → Text → Bool
starts_with longer [] = true
starts_with [] (c ∷ cs) = false
starts_with (d ∷ ds) (c ∷ cs) = (d == c) && starts_with ds cs

-- `a < b`, by code points.
unfoldable pub text_less : Text → Text → Bool
text_less a [] = false
text_less [] (d ∷ ds) = true
text_less (c ∷ cs) (d ∷ ds) = ltb c d || ((c == d) && text_less cs ds)

-- `separator.join(texts)`
unfoldable pub join_with : Text → List Text → Text
join_with separator [] = []
join_with separator (t ∷ []) = t
join_with separator (t ∷ u ∷ ts) = t ++ separator ++ join_with separator (u ∷ ts)

-- `p`, where it is not empty, in front of the others.
abbrev pub cons_non_empty : Text → List Text → List Text
cons_non_empty p ps = if is_empty p then ps else p ∷ ps

-- `[t for t in texts if t]`
unfoldable pub non_empty : List Text → List Text
non_empty [] = []
non_empty (t ∷ ts) = cons_non_empty t (non_empty ts)
