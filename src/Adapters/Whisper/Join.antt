-- ===== src/Adapters/Whisper/Join.antt =====
-- Joining trimmed texts with spaces (adapters/whisper_transcriber.py).
use mas_research.Text.{Text, strip, rstrip}
use mas_research.Text.Trim.{IsTrimmed, rstrip-append, IsTrimmed-strip}
use mas_research.Base.{
  ℕ, ◌+◌, ◌≡◌, refl, sym, ap, ◌∙◌, false, List, [], ◌∷◌, ◌++◌, length, length-append, is_empty,
  arith,
}
use mathlib.Core.List.{append_assoc, append-nil}
use mas_research.Adapters.Whisper.{join_space}

-- A text that is there and has no space at its ends.
abbrev pub IsWord : Text → Type 0
IsWord t = (is_empty t ≡ false) × IsTrimmed t

abbrev pub AllWords : List Text → Type 0
AllWords [] = Unit {0}
AllWords (t ∷ texts) = IsWord t × AllWords texts

-- The lengths of the texts, with a space for each.
abbrev pub size : List Text → ℕ
size [] = 0
size (t ∷ texts) = length t + 1 + size texts

pub length-join :
    (t : Text) (texts : List Text) → length (join_space (t ∷ texts)) + 1 ≡ size (t ∷ texts)
unfolding join_space
length-join t [] = omega arith
length-join t (u ∷ texts) =
    omega (arith, length-append t (32 ∷ join_space (u ∷ texts)), length-join u texts)

pub size-append : (xs ys : List Text) → size (xs ++ ys) ≡ size xs + size ys
size-append [] ys = omega arith
size-append (x ∷ xs) ys = omega (arith, size-append xs ys)

IsWord-append : (t u : Text) → IsWord t → IsWord u → IsWord (t ++ 32 ∷ u)
unfolding rstrip
IsWord-append [] u h k = absurd (cc h.0)
IsWord-append (c ∷ cs) u h k =
    (refl, (h.1.0, rstrip-append (c ∷ cs) (32 ∷ u) refl (rstrip-append (32 ∷ []) u k.0 k.1.1)))

-- What is joined is such a text again, so `strip` does not change it.
pub join-IsWord :
    (t : Text) (texts : List Text) → AllWords (t ∷ texts) → IsWord (join_space (t ∷ texts))
unfolding join_space
join-IsWord t [] h = h.0
join-IsWord t (u ∷ texts) h = IsWord-append t (join_space (u ∷ texts)) h.0 (join-IsWord u texts h.1)

pub strip-join :
    (t : Text) (texts : List Text)
    → AllWords (t ∷ texts)
    → strip (join_space (t ∷ texts)) ≡ join_space (t ∷ texts)
strip-join t texts h = IsTrimmed-strip (join_space (t ∷ texts)) (join-IsWord t texts h).1

pub AllWords-append : (xs ys : List Text) → AllWords xs → AllWords ys → AllWords (xs ++ ys)
AllWords-append [] ys h k = k
AllWords-append (x ∷ xs) ys h k = (h.0, AllWords-append xs ys h.1 k)

join-append :
    (t : Text) (xs : List Text) (u : Text) (ys : List Text)
    → join_space ((t ∷ xs) ++ (u ∷ ys)) ≡ join_space (t ∷ xs) ++ 32 ∷ join_space (u ∷ ys)
unfolding join_space
join-append t [] u ys = refl
join-append t (x ∷ xs) u ys =
    ap (λ (r : Text). t ++ 32 ∷ r) (join-append x xs u ys)
    ∙ sym (append_assoc t (32 ∷ join_space (x ∷ xs)) (32 ∷ join_space (u ∷ ys)))

join_first :
    (t : Text) (ys rest : List Text)
    → join_space (join_space (t ∷ ys) ∷ rest) ≡ join_space (t ∷ (ys ++ rest))
unfolding join_space
join_first t ys [] = ap (λ (zs : List Text). join_space (t ∷ zs)) (sym (append-nil ys))
join_first t ys (r ∷ rest) = sym (join-append t ys r rest)

-- Joining some of the texts first makes no difference.
pub join-join :
    (xs : List Text) (t : Text) (ys rest : List Text)
    → join_space (xs ++ join_space (t ∷ ys) ∷ rest) ≡ join_space (xs ++ (t ∷ (ys ++ rest)))
unfolding join_space
join-join [] t ys rest = join_first t ys rest
join-join (x ∷ []) t ys rest = ap (λ (r : Text). x ++ 32 ∷ r) (join_first t ys rest)
join-join (x ∷ y ∷ xs) t ys rest = ap (λ (r : Text). x ++ 32 ∷ r) (join-join (y ∷ xs) t ys rest)
