-- ===== src/Api/Files.antt =====
-- What an upload is and where it is written (api/routes.py, `_detect_document_type` and
-- `_safe_destination`). Lower-casing, and whether a path leads out of the task's directory once
-- symbolic links are followed, are parameters. Texts are lists of code points.
use mas_research.Text.{Text, starts_with}
use mas_research.Schemas.{DocumentType, audio, pdf, image, text}
use mas_research.Base.{
  ℕ, zero, suc, ◌+◌, ◌*◌, ◌-◌, Bool, true, false, ◌&&◌, ◌||◌, ◌==◌, Option, none, some, or_else,
  List, [], ◌∷◌, ◌++◌, any, is_empty, ltb, if◌then◌else◌,
}
use Prim.Native.Nat.{◌/◌}

-- `a == b`
unfoldable pub same_text : Text → Text → Bool
same_text [] [] = true
same_text (c ∷ cs) (d ∷ ds) = (c == d) && same_text cs ds
same_text _ _ = false

-- `longer.endswith(shorter)`
unfoldable pub ends_with : Text → Text → Bool
unfolding same_text
ends_with [] shorter = is_empty shorter
ends_with (c ∷ cs) shorter = same_text (c ∷ cs) shorter || ends_with cs shorter

-- ".mp3", ".wav", ".m4a", ".flac", ".ogg"
abbrev pub allowed_audio_suffixes : List Text
allowed_audio_suffixes =
    (46 ∷ 109 ∷ 112 ∷ 51 ∷ [])
    ∷ (46 ∷ 119 ∷ 97 ∷ 118 ∷ [])
    ∷ (46 ∷ 109 ∷ 52 ∷ 97 ∷ [])
    ∷ (46 ∷ 102 ∷ 108 ∷ 97 ∷ 99 ∷ [])
    ∷ (46 ∷ 111 ∷ 103 ∷ 103 ∷ [])
    ∷ []

-- ".jpg", ".jpeg", ".png", ".gif", ".bmp", ".tiff"
abbrev pub allowed_image_suffixes : List Text
allowed_image_suffixes =
    (46 ∷ 106 ∷ 112 ∷ 103 ∷ [])
    ∷ (46 ∷ 106 ∷ 112 ∷ 101 ∷ 103 ∷ [])
    ∷ (46 ∷ 112 ∷ 110 ∷ 103 ∷ [])
    ∷ (46 ∷ 103 ∷ 105 ∷ 102 ∷ [])
    ∷ (46 ∷ 98 ∷ 109 ∷ 112 ∷ [])
    ∷ (46 ∷ 116 ∷ 105 ∷ 102 ∷ 102 ∷ [])
    ∷ []

-- ".pdf", "audio/", "image/" and "application/pdf"
abbrev pub pdf_suffix : Text
pdf_suffix = 46 ∷ 112 ∷ 100 ∷ 102 ∷ []

abbrev pub audio_slash : Text
audio_slash = 97 ∷ 117 ∷ 100 ∷ 105 ∷ 111 ∷ 47 ∷ []

abbrev pub image_slash : Text
image_slash = 105 ∷ 109 ∷ 97 ∷ 103 ∷ 101 ∷ 47 ∷ []

abbrev pub application_pdf : Text
application_pdf =
    97 ∷ 112 ∷ 112 ∷ 108 ∷ 105 ∷ 99 ∷ 97 ∷ 116 ∷ 105 ∷ 111 ∷ 110 ∷ 47 ∷ 112 ∷ 100 ∷ 102 ∷ []

unfoldable pub detect_document_type : (Text → Text) → Option Text → Option Text → DocumentType
unfolding starts_with ends_with same_text
detect_document_type lower content_type filename =
    let kind = lower (or_else content_type []) in
    let name = lower (or_else filename []) in
    if starts_with kind audio_slash || any (ends_with name) allowed_audio_suffixes
    then audio
    else if same_text kind application_pdf || ends_with name pdf_suffix
    then pdf
    else if starts_with kind image_slash || any (ends_with name) allowed_image_suffixes
    then image
    else text

-- A number in decimal digits.
unfoldable pub decimal_text : ℕ → ℕ → Text
decimal_text zero n = []
decimal_text (suc fuel) n =
    let before = decimal_text fuel (n / 10) in
    if ltb n 10 then (48 + n) ∷ [] else before ++ (48 + (n - n / 10 * 10)) ∷ []

unfoldable pub show_text : ℕ → Text
unfolding decimal_text
show_text n = decimal_text (suc n) n

-- `f"{index:02d}"`
unfoldable pub two_digits : ℕ → Text
unfolding show_text
two_digits index = if ltb index 10 then 48 ∷ show_text index else show_text index

-- `f"file-{index}"`
abbrev pub file_name : ℕ → Text
file_name index = (102 ∷ 105 ∷ 108 ∷ 101 ∷ 45 ∷ []) ++ show_text index

-- "." and ".."
abbrev pub dot : Text
dot = 46 ∷ []

abbrev pub two_dots : Text
two_dots = 46 ∷ 46 ∷ []

-- The last of a path's parts that are neither empty nor ".", where `part` is the one that is open and
-- `last` the last one before it.
unfoldable pub name_from : Text → Text → Text → Text
unfolding same_text
name_from last part [] = if is_empty part || same_text part dot then last else part
name_from last part (c ∷ cs) =
    let next = name_from (if is_empty part || same_text part dot then last else part) [] cs in
    let same_part = name_from last (part ++ c ∷ []) cs in if c == 47 then next else same_part

-- `Path(candidate).name`
unfoldable pub path_name : Text → Text
unfolding name_from
path_name candidate = name_from [] [] candidate

abbrev pub given_or : Text → Option Text → Text
given_or default none = default
given_or default (some name) = if is_empty name then default else name

unfoldable pub base_name : Option Text → ℕ → Text
unfolding path_name same_text show_text
base_name original_name index =
    let name = path_name (given_or (file_name index) original_name) in
    if is_empty name || (same_text name dot || same_text name two_dots)
    then file_name index
    else name

-- The name of the file in the task's directory.
unfoldable pub destination_name : Option Text → ℕ → Text
unfolding two_digits base_name
destination_name original_name index = two_digits index ++ 45 ∷ base_name original_name index

-- `_safe_destination`; `none` is its 400.
unfoldable pub safe_destination : (Text → Bool) → Text → Option Text → ℕ → Option Text
unfolding destination_name
safe_destination is_inside task_dir original_name index =
    let destination = task_dir ++ 47 ∷ destination_name original_name index in
    if is_inside destination then some destination else none
