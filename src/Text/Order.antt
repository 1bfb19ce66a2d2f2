-- ===== src/Text/Order.antt =====
-- The order of texts is strict and total.
use mas_research.Text.{Text, text_less}
use mas_research.Base.{◌≡◌, refl, true, false, [], ◌∷◌, arith}

pub text_less_asym : (a b : Text) → text_less a b ≡ true → text_less b a ≡ false
unfolding text_less
text_less_asym a [] e = absurd (cc e)
text_less_asym [] (d ∷ ds) e = refl
text_less_asym (c ∷ cs) (d ∷ ds) e = ground (arith, text_less_asym cs ds)

-- Texts of which none is before the other are the same.
pub text_less_total : (a b : Text) → text_less a b ≡ false → text_less b a ≡ false → a ≡ b
unfolding text_less
text_less_total [] [] e k = refl
text_less_total [] (d ∷ ds) e k = absurd (cc e)
text_less_total (c ∷ cs) [] e k = absurd (cc k)
text_less_total (c ∷ cs) (d ∷ ds) e k =
    let first : c ≡ d = ground arith in
    let rest = text_less_total cs ds (ground arith) (ground arith) in cc (first, rest)

pub text_less_trans :
    (a b c : Text) → text_less a b ≡ true → text_less b c ≡ true → text_less a c ≡ true
unfolding text_less
text_less_trans a b [] e k = absurd (cc k)
text_less_trans [] b (z ∷ zs) e k = refl
text_less_trans (x ∷ xs) [] (z ∷ zs) e k = absurd (cc e)
text_less_trans (x ∷ xs) (y ∷ ys) (z ∷ zs) e k = ground (arith, text_less_trans xs ys zs)
