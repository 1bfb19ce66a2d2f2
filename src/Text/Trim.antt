-- ===== src/Text/Trim.antt =====
-- Texts that `strip` leaves alone.
use mas_research.Text.{Text, strip, lstrip, rstrip, is_space}
use mas_research.Base.{
  ◌≡◌, refl, ap, ◌∙◌, Bool, true, false, not, ◌&&◌, [], ◌∷◌, ◌++◌, is_empty, Bool-cases, inl, inr,
}

-- A text that does not begin with a space.
abbrev starts : Text → Bool
starts [] = true
starts (c ∷ cs) = not (is_space c)

abbrev pub IsTrimmed : Text → Type 0
IsTrimmed t = (starts t ≡ true) × (rstrip t ≡ t)

lstrip-starts : (t : Text) → starts (lstrip t) ≡ true
unfolding lstrip
lstrip-starts [] = refl
lstrip-starts (c ∷ cs) = elim (Bool-cases (is_space c)) [
  | inl e ↦ rw e (lstrip-starts cs)
  | inr e ↦ rw e (ap not e)
]

starts-lstrip : (t : Text) → starts t ≡ true → lstrip t ≡ t
unfolding lstrip
starts-lstrip [] e = refl
starts-lstrip (c ∷ cs) e = elim (Bool-cases (is_space c)) [
  | inl k ↦ absurd (cc (rw k at e))
  | inr k ↦ rw k refl
]

rstrip-starts : (t : Text) → starts t ≡ true → starts (rstrip t) ≡ true
unfolding rstrip
rstrip-starts [] e = refl
rstrip-starts (c ∷ cs) e = elim (Bool-cases (is_empty (rstrip cs) && is_space c)) [
  | inl k ↦ rw k refl
  | inr k ↦ rw k e
]

rstrip-rstrip : (t : Text) → rstrip (rstrip t) ≡ rstrip t
unfolding rstrip
rstrip-rstrip [] = refl
rstrip-rstrip (c ∷ cs) = elim (Bool-cases (is_empty (rstrip cs) && is_space c)) [
  | inl k ↦ rw k refl
  | inr k ↦ rw k (rw (rstrip-rstrip cs, k) refl)
]

pub is_empty-append : (a b : Text) → is_empty b ≡ false → is_empty (a ++ b) ≡ false
is_empty-append [] b e = e
is_empty-append (c ∷ a) b e = refl

pub rstrip-append : (a b : Text) → is_empty b ≡ false → rstrip b ≡ b → rstrip (a ++ b) ≡ a ++ b
unfolding rstrip
rstrip-append [] b e f = f
rstrip-append (c ∷ a) b e f = rw (rstrip-append a b e f, is_empty-append a b e) refl

pub strip-IsTrimmed : (t : Text) → IsTrimmed (strip t)
unfolding strip
strip-IsTrimmed t = (rstrip-starts (lstrip t) (lstrip-starts t), rstrip-rstrip (lstrip t))

pub IsTrimmed-strip : (t : Text) → IsTrimmed t → strip t ≡ t
unfolding strip
IsTrimmed-strip t h = ap rstrip (starts-lstrip t h.0) ∙ h.1
