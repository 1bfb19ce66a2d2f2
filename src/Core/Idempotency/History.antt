-- ===== src/Core/Idempotency/History.antt =====
-- The cache against the full history of ids, of which it keeps the latest (core/idempotency.py).
use mas_research.Base.{
  some, sym, ◌∙◌, ap, ℕ, zero, suc, String, Bool, true, false, not, ◌&&◌, ◌≡◌, refl, List, [], ◌∷◌,
  length, take, arith, string_key, string_dec, leb, if◌then◌else◌, Bool-cases, inl, inr,
}
use mas_research.Core.Idempotency.{pos, negsuc, ℤ, init, IdempotentReceiver, evict, accept}
use mas_research.Base.Dict.{contains, discard, contains-discard}

-- All ids seen, each once, the latest in front: what an unbounded cache would hold.
abbrev pub note : String → List String → List String
note k h = k ∷ discard k h

pub history : List String → List String
history [] = []
history (k ∷ ks) = note k (history ks)

distinct : List String → Bool
distinct [] = true
distinct (x ∷ xs) = not (contains x xs) && distinct xs

discard-distinct :
    (k : String) (h : List String) → distinct h ≡ true → distinct (discard k h) ≡ true
unfolding distinct discard
discard-distinct k [] d = refl
discard-distinct k (x ∷ xs) d = elim (string_dec k x) [
  | yes p ↦ ground (arith, discard-distinct k xs)
  | no p ↦ ground (arith, discard-distinct k xs, contains-discard x k xs)
]

history-distinct : (ks : List String) → distinct (history ks) ≡ true
unfolding distinct history
history-distinct [] = refl
history-distinct (k ∷ ks) = ground (
  arith,
  contains-discard k k (history ks),
  discard-distinct k (history ks) (history-distinct ks),
)

discard_absent : (k : String) (h : List String) → contains k h ≡ false → discard k h ≡ h
unfolding contains discard
discard_absent k [] e = refl
discard_absent k (x ∷ xs) e = elim (string_dec k x) [
  | yes p ↦ absurd (ground arith)
  | no p ↦ ground (arith, discard_absent k xs)
]

contains-take :
    (k : String) (n : ℕ) (h : List String) → contains k h ≡ false → contains k (take n h) ≡ false
unfolding contains
contains-take k zero h e = refl
contains-take k (suc n) [] e = refl
contains-take k (suc n) (x ∷ xs) e = ground (arith, contains-take k n xs)

-- An id among the first `suc m`: the cache moves it, and the history does the same.
take-discard_present :
    (k : String) (m : ℕ) (h : List String)
    → distinct h ≡ true
    → contains k (take (suc m) h) ≡ true
    → discard k (take (suc m) h) ≡ take m (discard k h)
unfolding distinct contains discard
take-discard_present k m [] d e = absurd (cc e)
take-discard_present k zero (x ∷ xs) d e = ground arith
take-discard_present k (suc m) (x ∷ xs) d e = elim (string_dec k x) [
  | yes p ↦
      let gone : contains k xs ≡ false = ground arith in
      ground (
        arith,
        discard_absent k xs gone,
        discard_absent k (take (suc m) xs) (contains-take k (suc m) xs gone),
      )
  | no p ↦ ground (arith, take-discard_present k m xs)
]

-- An id that is not among the first `suc m`.
take-discard_absent :
    (k : String) (m : ℕ) (h : List String)
    → contains k (take (suc m) h) ≡ false
    → take m (discard k h) ≡ take m h
unfolding contains discard
take-discard_absent k zero h e = refl
take-discard_absent k (suc m) [] e = refl
take-discard_absent k (suc m) (x ∷ xs) e = elim (string_dec k x) [
  | yes p ↦ absurd (ground arith)
  | no p ↦ ground (arith, take-discard_absent k m xs)
]

evict-take :
    (m : ℕ) (h : List String)
    → (if leb (suc m) (length (take (suc m) h)) then evict (take (suc m) h) else take (suc m) h)
      ≡ take m h
unfolding evict
evict-take zero [] = refl
evict-take zero (x ∷ xs) = refl
evict-take (suc m) [] = ground arith
evict-take (suc zero) (x ∷ []) = ground arith
evict-take (suc (suc m)) (x ∷ []) = ground arith
evict-take (suc m) (x ∷ y ∷ xs) = ground (arith, evict-take m (y ∷ xs))

-- A cache of a positive size that holds the latest ids of `h`.
pub record Holds (r : IdempotentReceiver) (h : List String) : Type 0 where
  pub size : ℕ
  pub sized : r.cache_size ≡ suc size
  pub held : r.seen ≡ take (suc size) h

accept-Holds :
    (r : IdempotentReceiver) (k : String) (h : List String)
    → distinct h ≡ true
    → Holds r h
    → Holds (accept r k).0 (note k h)
unfolding accept
accept-Holds r k h d w = elim (Bool-cases (contains k r.seen)) [
  | inl old ↦ record {
    size = w.size;
    sized = rw (old, accept) w.sized;
    held =
        rw (old, accept)
          (rw w.held (ap (◌∷◌ k) (take-discard_present k w.size h d (rw w.held at old))));
  }
  | inr new ↦ record {
    size = w.size;
    sized = rw (new, accept) w.sized;
    held =
        rw (new, accept)
          (rw (w.held, w.sized)
            (ap (◌∷◌ k)
              (evict-take w.size h ∙ sym (take-discard_absent k w.size h (rw w.held at new)))));
  }
]

accept-fresh :
    (r : IdempotentReceiver) (k : String) (h : List String)
    → Holds r h
    → (accept r k).1 ≡ not (contains k (take r.cache_size h))
unfolding accept
accept-fresh r k h w = elim (Bool-cases (contains k r.seen)) [
  | inl old ↦ rw (old, accept) (rw w.sized (rw (← w.held) (rw old refl)))
  | inr new ↦ rw (new, accept) (rw w.sized (rw (← w.held) (rw new refl)))
]

-- The cache after the ids, the latest of them in front.
pub after : IdempotentReceiver → List String → IdempotentReceiver
after r [] = r
after r (k ∷ ks) = (accept (after r ks) k).0

after-Holds :
    (n : ℕ) (ks : List String)
    → Holds (after (record { cache_size = suc n; seen = [] }) ks) (history ks)
unfolding after history
after-Holds n [] = record { size = n; sized = refl; held = refl }
after-Holds n (k ∷ ks) = accept-Holds _ k (history ks) (history-distinct ks) (after-Holds n ks)

accept-cache_size : (r : IdempotentReceiver) (k : String) → (accept r k).0.cache_size ≡ r.cache_size
unfolding accept
accept-cache_size r k = elim (Bool-cases (contains k r.seen)) [
  | inl old ↦ rw (old, accept) refl
  | inr new ↦ rw (new, accept) refl
]

after-cache_size :
    (r : IdempotentReceiver) (ks : List String) → (after r ks).cache_size ≡ r.cache_size
unfolding after
after-cache_size r [] = refl
after-cache_size r (k ∷ ks) = accept-cache_size (after r ks) k ∙ after-cache_size r ks

abbrev new_cache : ℕ → IdempotentReceiver
new_cache n = record { cache_size = suc n; seen = [] }

new_cache-history :
    (n : ℕ) (ks : List String) (k : String)
    → ((accept (after (new_cache n) ks) k).1 ≡ not (contains k (take (suc n) (history ks))))
      × ((after (new_cache n) ks).seen ≡ take (suc n) (history ks))
new_cache-history n ks k =
    let w = after-Holds n ks in
    let sized = after-cache_size (new_cache n) ks in
    (
      accept-fresh (after (new_cache n) ks) k (history ks) w
          ∙ ap (λ j. not (contains k (take j (history ks)))) sized,
      w.held ∙ ap (λ j. take j (history ks)) (sym w.sized ∙ sized),
    )

-- After any ids at all, a new cache of a positive size takes an id for new exactly if the id is not
-- among the latest `cache_size` different ids, and it holds exactly these.
pub accept-history :
    (size : ℤ) (r : IdempotentReceiver)
    → init size ≡ some r
    → (ks : List String) (k : String)
    → ((accept (after r ks) k).1 ≡ not (contains k (take r.cache_size (history ks))))
      × ((after r ks).seen ≡ take r.cache_size (history ks))
unfolding init
accept-history (negsuc n) r e ks k = absurd (cc e)
accept-history (pos zero) r e ks k = absurd (cc e)
accept-history (pos (suc n)) r e ks k =
    let made : init (pos (suc n)) ≡ some (new_cache n) = ground arith in
    let same_cache : new_cache n ≡ r = cc (made, e) in rw (← same_cache) (new_cache-history n ks k)
