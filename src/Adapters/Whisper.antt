-- ===== src/Adapters/Whisper.antt =====
-- The segments of a transcription, grouped into chunks (adapters/whisper_transcriber.py,
-- `segments_to_chunks`). Texts are lists of code points.
pub mod Join
pub mod Bounds
use mas_research.Text.{Text, strip}
use mas_research.Base.{
  ℕ, ◌+◌, Bool, true, false, not, ◌&&◌, Option, none, some, or_else, List, [], ◌∷◌, ◌++◌, length,
  is_empty, ltb, if◌then◌else◌,
}
use mas_research.Values.{Float}

-- What a segment has of the attributes that are read.
pub record Segment : Type 0 where
  pub text : Option Text
  pub start : Option Float
  pub end_time : Option Float

-- The fields of a TextChunk that differ: its id is made of its index, its task and document are empty,
-- its source is "audio" and its confidence None.
pub record AudioChunk : Type 0 where
  pub content : Text
  pub chunk_index : ℕ
  pub start : Option Float
  pub end_time : Float

-- `_DEFAULT_TARGET_CHARS`
abbrev pub default_target_chars : ℕ
default_target_chars = 1500

-- The variables of the loop.
pub record Filling : Type 0 where
  pub chunks : List AudioChunk
  pub buffer : List Text
  pub buffer_len : ℕ
  pub start_time : Option Float
  pub end_time : Float

-- `" ".join(texts)`
unfoldable pub join_space : List Text → Text
join_space [] = []
join_space (t ∷ []) = t
join_space (t ∷ u ∷ texts) = t ++ 32 ∷ join_space (u ∷ texts)

-- `flush`
unfoldable pub flush : Filling → Filling
unfolding join_space strip
flush s =
    let text = strip (join_space s.buffer) in
    let chunk : AudioChunk = record {
      content = text;
      chunk_index = length s.chunks;
      start = s.start_time;
      end_time = s.end_time;
    } in
    record {
      chunks = if is_empty text then s.chunks else s.chunks ++ chunk ∷ [];
      buffer = [];
      buffer_len = 0;
      start_time = none;
      end_time = s.end_time;
    }

-- `(getattr(segment, "text", "") or "").strip()`
unfoldable pub text_of : Segment → Text
unfolding strip
text_of segment = strip (or_else segment.text [])

abbrev pub first_of : Option Float → Option Float → Option Float
first_of none start = start
first_of (some t) start = some t

-- The text of a segment goes into the buffer.
unfoldable pub put_text : Segment → Text → Filling → Filling
put_text segment text s = record {
  chunks = s.chunks;
  buffer = s.buffer ++ text ∷ [];
  buffer_len = s.buffer_len + (length text + 1);
  start_time = first_of s.start_time segment.start;
  end_time = or_else segment.end_time s.end_time;
}

-- One round of the loop over the segments.
unfoldable pub take_segment : ℕ → Segment → Filling → Filling
unfolding text_of flush put_text
take_segment target_chars segment s =
    let text = text_of segment in
    if is_empty text
    then s
    else if not (is_empty s.buffer) && ltb target_chars (s.buffer_len + length text)
    then put_text segment text (flush s)
    else put_text segment text s

unfoldable pub take_segments : ℕ → List Segment → Filling → Filling
unfolding take_segment
take_segments target_chars [] s = s
take_segments target_chars (segment ∷ segments) s =
    take_segments target_chars segments (take_segment target_chars segment s)

abbrev pub begin : Filling
begin = record { chunks = []; buffer = []; buffer_len = 0; start_time = none; end_time = 0 }

unfoldable pub segments_to_chunks : ℕ → List Segment → List AudioChunk
unfolding take_segments flush
segments_to_chunks target_chars segments =
    (flush (take_segments target_chars segments begin)).chunks
