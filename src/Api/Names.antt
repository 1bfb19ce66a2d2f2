-- ===== src/Api/Names.antt =====
-- A file's name in the directory of its task (api/routes.py, `_safe_destination`).
use mas_research.Text.{Text}
use mas_research.Base.{
  ap, sym, Bool, false, ◌||◌, Option, is_empty, ℕ, zero, suc, ◌+◌, ◌*◌, ◌-◌, ◌<◌, ◌≡◌, ◌∙◌, refl,
  true, not, ◌==◌, [], ◌∷◌, ◌++◌, all, ltb, if◌then◌else◌, Bool-cases, inl, inr, arith,
}
use Prim.Native.Nat.{◌/◌}
use mas_research.Text.Trim.{is_empty-append}
use mas_research.Api.Files.{
  two_dots, given_or, file_name, dot, path_name, show_text, two_digits, name_from, same_text,
  destination_name, base_name, decimal_text,
}

-- No code point of the text is `c`.
abbrev Without : ℕ → Text → Type 0
Without c t = all (λ d. not (d == c)) t ≡ true

Without-append : (c : ℕ) (a b : Text) → Without c a → Without c b → Without c (a ++ b)
Without-append c [] b h k = k
Without-append c (d ∷ a) b h k = ground (arith, Without-append c a b)

decimal_text-Without : (c fuel n : ℕ) → ltb c 48 ≡ true → Without c (decimal_text fuel n)
unfolding decimal_text
decimal_text-Without c zero n h = refl
decimal_text-Without c (suc fuel) n h = elim (Bool-cases (ltb n 10)) [
  | inl e ↦ rw e (ground arith)
  | inr e ↦ rw e (
      Without-append c (decimal_text fuel (n / 10)) _ (decimal_text-Without c fuel (n / 10) h)
        (ground arith))
]

-- The number that the digits in front of a dash make.
unfoldable read_index : ℕ → Text → ℕ
read_index acc [] = acc
read_index acc (c ∷ cs) =
    let rest = read_index (acc * 10 + (c - 48)) cs in if c == 45 then acc else rest

read_index-append :
    (acc : ℕ) (t u : Text)
    → Without 45 t
    → read_index acc (t ++ u) ≡ read_index (read_index acc t) u
unfolding read_index
read_index-append acc [] u h = refl
read_index-append acc (c ∷ t) u h = ground (arith, read_index-append (acc * 10 + (c - 48)) t u)

read_index-decimal_text : (fuel n : ℕ) → n < fuel → read_index 0 (decimal_text fuel n) ≡ n
unfolding read_index decimal_text
read_index-decimal_text zero n h = absurd (omega arith)
read_index-decimal_text (suc fuel) n h = elim (Bool-cases (ltb n 10)) [
  | inl e ↦ rw e (ground arith)
  | inr e ↦ rw e (
      read_index-append 0 (decimal_text fuel (n / 10)) ((48 + (n - n / 10 * 10)) ∷ [])
        (decimal_text-Without 45 fuel (n / 10) refl)
      ∙ ground (arith, read_index-decimal_text fuel (n / 10)))
]

padded-Without :
    (c : ℕ) (short : Bool) (t : Text)
    → ltb c 48 ≡ true
    → Without c t
    → Without c (if short then 48 ∷ t else t)
padded-Without c true t h k = ground arith
padded-Without c false t h k = k

two_digits-Without : (c index : ℕ) → ltb c 48 ≡ true → Without c (two_digits index)
unfolding two_digits show_text
two_digits-Without c index h =
    padded-Without c (ltb index 10) (show_text index) h (decimal_text-Without c (suc index) index h)

read_index-padded :
    (short : Bool) (t : Text) → read_index 0 (if short then 48 ∷ t else t) ≡ read_index 0 t
unfolding read_index
read_index-padded true t = refl
read_index-padded false t = refl

read_index-two_digits : (index : ℕ) → read_index 0 (two_digits index) ≡ index
unfolding two_digits show_text
read_index-two_digits index =
    read_index-padded (ltb index 10) (show_text index)
    ∙ read_index-decimal_text (suc index) index (omega arith)

read_index-destination_name :
    (original_name : Option Text) (index : ℕ)
    → read_index 0 (destination_name original_name index) ≡ index
unfolding destination_name read_index
read_index-destination_name original_name index =
    read_index-append 0 (two_digits index) (45 ∷ base_name original_name index)
      (two_digits-Without 45 index refl)
    ∙ read_index-two_digits index

-- A name that `Path(candidate).name` gives has no slash.
name_from-Without :
    (last part t : Text) → Without 47 last → Without 47 part → Without 47 (name_from last part t)
unfolding name_from
name_from-Without last part [] h k = ground arith
name_from-Without last part (c ∷ cs) h k = elim (Bool-cases (c == 47)) [
  | inl e ↦ rw e (
      name_from-Without (if is_empty part || same_text part dot then last else part) [] cs
        (ground arith) refl)
  | inr e ↦ rw e (
      name_from-Without last (part ++ c ∷ []) cs h
        (Without-append 47 part (c ∷ []) k (ground arith)))
]

file_name-Without : (index : ℕ) → Without 47 (file_name index)
unfolding show_text
file_name-Without index =
    Without-append 47 (102 ∷ 105 ∷ 108 ∷ 101 ∷ 45 ∷ []) (show_text index) refl
      (decimal_text-Without 47 (suc index) index refl)

base_name-Without :
    (original_name : Option Text) (index : ℕ) → Without 47 (base_name original_name index)
unfolding base_name path_name
base_name-Without original_name index =
    let name = path_name (given_or (file_name index) original_name) in
    elim (Bool-cases (is_empty name || (same_text name dot || same_text name two_dots))) [
      | inl e ↦ rw e (file_name-Without index)
      | inr e ↦ rw e (name_from-Without [] [] (given_or (file_name index) original_name) refl refl)
    ]

-- A name of a file in the directory itself: it has no slash and is not "." or "..".
pub record IsChild (name : Text) : Type 0 where
  pub no_slash : all (λ c. not (c == 47)) name ≡ true
  pub not_dot : same_text name dot ≡ false
  pub not_two_dots : same_text name two_dots ≡ false

-- A text that begins with no dot is neither.
not_dots :
    (t u : Text)
    → is_empty t ≡ false
    → Without 46 t
    → (same_text (t ++ u) dot ≡ false) × (same_text (t ++ u) two_dots ≡ false)
unfolding same_text
not_dots [] u e h = absurd (cc e)
not_dots (c ∷ t) u e h = ground arith

decimal_text-full : (fuel n : ℕ) → is_empty (decimal_text (suc fuel) n) ≡ false
unfolding decimal_text
decimal_text-full fuel n = elim (Bool-cases (ltb n 10)) [
  | inl e ↦ rw e refl
  | inr e ↦ rw e (is_empty-append (decimal_text fuel (n / 10)) _ refl)
]

two_digits-full : (index : ℕ) → is_empty (two_digits index) ≡ false
unfolding two_digits show_text
two_digits-full index = padded (ltb index 10) (show_text index) (decimal_text-full index index)
  where
    padded :
        (short : Bool) (t : Text)
        → is_empty t ≡ false
        → is_empty (if short then 48 ∷ t else t) ≡ false
    padded true t h = refl
    padded false t h = h

-- A file is written into the directory of its task itself, whatever name the client gives it, with or
-- without slashes and dots, and files at different indexes of an upload have different names.
pub destination_name-IsChild :
    (original_name other_name : Option Text) (i j : ℕ)
    → IsChild (destination_name original_name i)
      × (destination_name original_name i ≡ destination_name other_name j → i ≡ j)
unfolding destination_name
destination_name-IsChild original_name other_name i j = (
  record {
    no_slash =
        Without-append 47 (two_digits i) (45 ∷ base_name original_name i)
          (two_digits-Without 47 i refl) (base_name-Without original_name i);
    not_dot = dots.0;
    not_two_dots = dots.1;
  },
  λ e.
      sym (read_index-destination_name original_name i)
      ∙ ap (read_index 0) e
      ∙ read_index-destination_name other_name j,
)
  where
    dots :
        (same_text (destination_name original_name i) dot ≡ false)
        × (same_text (destination_name original_name i) two_dots ≡ false)
    dots =
        not_dots (two_digits i) (45 ∷ base_name original_name i) (two_digits-full i)
          (two_digits-Without 46 i refl)
