-- ===== src/Adapters/Whisper/Bounds.antt =====
-- How long the chunks of a transcription are (adapters/whisper_transcriber.py).
use mas_research.Text.{Text, strip}
use mas_research.Base.{
  ℕ, ◌+◌, ◌≤◌, ◌≡◌, refl, ◌⊎◌, inl, inr, false, List, [], ◌∷◌, ◌++◌, length, map, select, not, ap,
  ◌∙◌, ◌&&◌, sym, is_empty, or_else, ltb, arith, Bool-cases,
}
use mathlib.Core.List.{Memᴰ}
use mathlib.Core.List.{append-nil, append_assoc}
use mas_research.Text.Trim.{strip-IsTrimmed}
use mas_research.Adapters.Whisper.Join.{
  AllWords, IsWord, size, length-join, size-append, strip-join, join-IsWord, AllWords-append,
  join-join,
}
use mas_research.Adapters.Whisper.{
  Segment, AudioChunk, Filling, join_space, flush, text_of, put_text, take_segment, take_segments,
  begin, segments_to_chunks,
}

-- A chunk is not longer than the target, or it is one segment.
abbrev pub IsFair : ℕ → List Segment → AudioChunk → Type 0
IsFair target segments chunk =
    (length chunk.content ≤ target)
    ⊎ ((segment : Segment) × Memᴰ segment segments × (chunk.content ≡ text_of segment))

abbrev pub AllFair : ℕ → List Segment → List AudioChunk → Type 0
AllFair target segments [] = Unit
AllFair target segments (chunk ∷ chunks) =
    IsFair target segments chunk × AllFair target segments chunks

abbrev pub contents : List AudioChunk → List Text
contents = map (λ c. c.content)

abbrev pub texts_of : List Segment → List Text
texts_of segments = select (λ t. not (is_empty t)) (map text_of segments)

AllFair-append :
    (target : ℕ) (segments : List Segment) (xs ys : List AudioChunk)
    → AllFair target segments xs
    → AllFair target segments ys
    → AllFair target segments (xs ++ ys)
AllFair-append target segments [] ys h k = k
AllFair-append target segments (x ∷ xs) ys h k = (h.0, AllFair-append target segments xs ys h.1 k)

contents-append : (xs ys : List AudioChunk) → contents (xs ++ ys) ≡ contents xs ++ contents ys
contents-append [] ys = refl
contents-append (x ∷ xs) ys = ap (◌∷◌ x.content) (contents-append xs ys)

room_left :
    (target : ℕ) (buffer : List Text) (n : ℕ)
    → not (is_empty buffer) && ltb target n ≡ false
    → (buffer ≡ []) ⊎ (n ≤ target)
room_left target [] n e = inl refl
room_left target (t ∷ buffer) n e = inr (ground arith)

text_of-IsWord : (segment : Segment) → is_empty (text_of segment) ≡ false → IsWord (text_of segment)
unfolding text_of
text_of-IsWord segment e = (e, strip-IsTrimmed (or_else segment.text []))

flush-buffer : (s : Filling) → (flush s).buffer ≡ []
unfolding flush
flush-buffer s = refl

texts_of-cons :
    (x : Segment) (xs : List Segment) → texts_of (x ∷ xs) ≡ texts_of (x ∷ []) ++ texts_of xs
texts_of-cons x xs = elim (Bool-cases (is_empty (text_of x))) [
  | inl e ↦ rw e refl
  | inr e ↦ rw e refl
]

module _ (target : ℕ) (segments : List Segment) where
  -- What is in the buffer is short enough, or one segment.
  abbrev Fits : List Text → Type 0
  Fits buffer =
      (size buffer ≤ target + 1)
      ⊎ ((segment : Segment) × Memᴰ segment segments × (buffer ≡ text_of segment ∷ []))

  -- The loop after some texts.
  record Fill (before : List Text) (s : Filling) : Type 0 where
    chunks : AllFair target segments s.chunks
    words : AllWords s.buffer
    measured : s.buffer_len ≡ size s.buffer
    fits : Fits s.buffer
    joined :
        (rest : List Text)
        → join_space (contents s.chunks ++ (s.buffer ++ rest)) ≡ join_space (before ++ rest)

  buffer-IsFair :
      (t : Text) (texts : List Text) (chunk : AudioChunk)
      → Fits (t ∷ texts)
      → chunk.content ≡ join_space (t ∷ texts)
      → IsFair target segments chunk
  unfolding join_space
  buffer-IsFair t texts chunk (inl h) e = inl (omega (arith, length-join t texts, ap length e))
  buffer-IsFair t texts chunk (inr (segment, m, h)) e = inr (segment, m, e ∙ ap join_space h)

  flush-chunks : (s : Filling) → strip (join_space s.buffer) ≡ [] → (flush s).chunks ≡ s.chunks
  unfolding flush
  flush-chunks s e = rw e refl

  flush-chunk :
      (s : Filling) (text : Text)
      → strip (join_space s.buffer) ≡ text
      → is_empty text ≡ false
      → (flush s).chunks
        ≡ s.chunks
          ++ record {
            content = text;
            chunk_index = length s.chunks;
            start = s.start_time;
            end_time = s.end_time;
          }
            ∷ []
  unfolding flush
  flush-chunk s text e n = rw e (rw n refl)

  flush-Fill :
      (before : List Text) (s : Filling) (buffer : List Text)
      → s.buffer ≡ buffer
      → Fill before s
      → Fill before (flush s)
  unfolding flush strip join_space
  flush-Fill before s [] e f =
      let same_chunks : (flush s).chunks ≡ s.chunks = flush-chunks s (rw e refl) in
      record {
        chunks = rw same_chunks f.chunks;
        words = tt;
        measured = refl;
        fits = inl (omega arith);
        joined = λ rest. rw same_chunks (rw e at f.joined rest);
      }
  flush-Fill before s (t ∷ texts) e f =
      let words : AllWords (t ∷ texts) = rw e at f.words in
      let joined : Text = join_space (t ∷ texts) in
      let chunk : AudioChunk = record {
        content = joined;
        chunk_index = length s.chunks;
        start = s.start_time;
        end_time = s.end_time;
      } in
      let one_more : (flush s).chunks ≡ s.chunks ++ chunk ∷ [] =
        flush-chunk s joined (rw e (strip-join t texts words)) (join-IsWord t texts words).0 in
      record {
        chunks = rw one_more (
            AllFair-append target segments s.chunks (chunk ∷ []) f.chunks
              (buffer-IsFair t texts chunk (rw e at f.fits) refl, tt));
        words = tt;
        measured = refl;
        fits = inl (omega arith);
        joined = λ rest. rw one_more (
            ap (λ (zs : List Text). join_space (zs ++ rest)) (contents-append s.chunks (chunk ∷ []))
            ∙ ap join_space (append_assoc (contents s.chunks) (joined ∷ []) rest)
            ∙ join-join (contents s.chunks) t texts rest
            ∙ rw e at f.joined rest);
      }

  put_text-Fill :
      (before : List Text) (s : Filling) (segment : Segment)
      → Memᴰ segment segments
      → IsWord (text_of segment)
      → (s.buffer ≡ []) ⊎ (s.buffer_len + length (text_of segment) ≤ target)
      → Fill before s
      → Fill (before ++ text_of segment ∷ []) (put_text segment (text_of segment) s)
  unfolding put_text
  put_text-Fill before s segment m w room f = record {
    chunks = f.chunks;
    words = AllWords-append s.buffer (text_of segment ∷ []) f.words (w, tt);
    measured = omega (arith, f.measured, size-append s.buffer (text_of segment ∷ []));
    fits = elim room [
      | inl e ↦ inr (segment, m, rw e refl)
      | inr h ↦ inl (omega (arith, f.measured, size-append s.buffer (text_of segment ∷ [])))
    ];
    joined = λ rest.
        ap (λ (zs : List Text). join_space (contents s.chunks ++ zs))
          (append_assoc s.buffer (text_of segment ∷ []) rest)
        ∙ f.joined (text_of segment ∷ rest)
        ∙ ap join_space (sym (append_assoc before (text_of segment ∷ []) rest));
  }

  take_segment-Fill :
      (before : List Text) (s : Filling) (segment : Segment)
      → Memᴰ segment segments
      → Fill before s
      → Fill (before ++ texts_of (segment ∷ [])) (take_segment target segment s)
  unfolding take_segment
  take_segment-Fill before s segment m f = elim (Bool-cases (is_empty (text_of segment))) [
    | inl e ↦ rw e (rw (append-nil before) f)
    | inr e ↦
        elim (Bool-cases
          (not (is_empty s.buffer) && ltb target (s.buffer_len + length (text_of segment)))) [
            | inl full ↦
                rw (e, full)
                  (put_text-Fill before (flush s) segment m (text_of-IsWord segment e)
                    (inl (flush-buffer s)) (flush-Fill before s s.buffer refl f))
            | inr room ↦
                rw (e, room)
                  (put_text-Fill before s segment m (text_of-IsWord segment e)
                    (room_left target s.buffer _ room) f)
          ]
  ]

  take_segments-Fill :
      (xs : List Segment) (before : List Text) (s : Filling)
      → ((x : Segment) → Memᴰ x xs → Memᴰ x segments)
      → Fill before s
      → Fill (before ++ texts_of xs) (take_segments target xs s)
  unfolding take_segments
  take_segments-Fill [] before s h f = rw (append-nil before) f
  take_segments-Fill (x ∷ xs) before s h f = rw (texts_of-cons x xs) (
      rw (← append_assoc before (texts_of (x ∷ [])) (texts_of xs)) (
        take_segments-Fill xs (before ++ texts_of (x ∷ [])) (take_segment target x s)
          (λ y m. h y (Memᴰ.tail m)) (take_segment-Fill before s x (h x (Memᴰ.head refl)) f)))

  begin-Fill : Fill [] begin
  begin-Fill = record {
    chunks = tt;
    words = tt;
    measured = refl;
    fits = inl (omega arith);
    joined = λ rest. refl;
  }

-- Every chunk of a transcription is at most as long as the target, or has the text of a single segment;
-- and no text is lost: the chunks, joined with spaces, are the texts of the segments, stripped, without
-- the empty ones, in order, joined with spaces.
pub segments_to_chunks-texts :
    (target : ℕ) (segments : List Segment)
    → AllFair target segments (segments_to_chunks target segments)
      × (join_space (contents (segments_to_chunks target segments))
          ≡ join_space (texts_of segments))
unfolding segments_to_chunks
segments_to_chunks-texts target segments =
    let s = take_segments target segments begin in
    let f = flush-Fill target segments (texts_of segments) s s.buffer refl (
      take_segments-Fill target segments segments [] begin (λ x m. m)
        (begin-Fill target segments)) in
    (
      f.chunks,
      ap join_space (sym (append-nil (contents (flush s).chunks)))
          ∙ f.joined []
          ∙ ap join_space (append-nil (texts_of segments)),
    )
