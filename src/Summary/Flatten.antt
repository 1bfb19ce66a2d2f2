-- ===== src/Summary/Flatten.antt =====
-- What the summarizer makes of an answer's values: one text, whatever their nesting
-- (agents/summarizer.py, `_flatten_to_text` and `_RawSummary`). The code points of a string and
-- Python's printing are parameters.
use mas_research.Text.{Text, strip, join_with, cons_non_empty}
use mas_research.Text.Joined.{AllFull, full-append, joined_part}
use mas_research.Values.{
  Value, str, list, dict, null, bool, int, float, Items, nil, cons, Fields, end, field, Conversions,
  text_of, get,
}
use mas_research.Summary.{RawSummary}
use mas_research.Base.{
  String, ◌≡◌, refl, Option, none, some, List, [], ◌∷◌, ◌++◌, is_empty, string_key,
}

-- "; "
abbrev pub semicolon : Text
semicolon = 59 ∷ 32 ∷ []

module _ (conv : Conversions) (to_text : String → Text) where
  unfoldable mutual
    unfolding strip join_with text_of

    pub flatten_to_text : Value → Text
    flatten_to_text (str s) = strip (to_text s)
    flatten_to_text (dict fs) = join_with semicolon (field_parts fs)
    flatten_to_text (list vs) = join_with semicolon (item_parts vs)
    flatten_to_text null = to_text (text_of conv null)
    flatten_to_text (bool b) = to_text (text_of conv (bool b))
    flatten_to_text (int n) = to_text (text_of conv (int n))
    flatten_to_text (float n) = to_text (text_of conv (float n))

    pub item_parts : Items → List Text
    item_parts nil = []
    item_parts (cons v vs) = cons_non_empty (flatten_to_text v) (item_parts vs)

    pub field_parts : Fields → List Text
    field_parts end = []
    field_parts (field k v fs) = cons_non_empty (flatten_to_text v) (field_parts fs)

  -- The texts of a value that are not empty, from left to right, whatever their nesting.
  unfoldable mutual
    unfolding strip text_of

    pub leaves : Value → List Text
    leaves (str s) = cons_non_empty (strip (to_text s)) []
    leaves (dict fs) = field_leaves fs
    leaves (list vs) = item_leaves vs
    leaves null = cons_non_empty (to_text (text_of conv null)) []
    leaves (bool b) = cons_non_empty (to_text (text_of conv (bool b))) []
    leaves (int n) = cons_non_empty (to_text (text_of conv (int n))) []
    leaves (float n) = cons_non_empty (to_text (text_of conv (float n))) []

    pub item_leaves : Items → List Text
    item_leaves nil = []
    item_leaves (cons v vs) = leaves v ++ item_leaves vs

    pub field_leaves : Fields → List Text
    field_leaves end = []
    field_leaves (field k v fs) = leaves v ++ field_leaves fs

  leaf-full : (t : Text) → AllFull (cons_non_empty t [])
  leaf-full [] = refl
  leaf-full (c ∷ t) = refl

  mutual
    unfolding leaves

    leaves-full : (v : Value) → AllFull (leaves v)
    leaves-full (str s) = leaf-full (strip (to_text s))
    leaves-full (dict fs) = field_leaves-full fs
    leaves-full (list vs) = item_leaves-full vs
    leaves-full null = leaf-full (to_text (text_of conv null))
    leaves-full (bool b) = leaf-full (to_text (text_of conv (bool b)))
    leaves-full (int n) = leaf-full (to_text (text_of conv (int n)))
    leaves-full (float n) = leaf-full (to_text (text_of conv (float n)))

    item_leaves-full : (vs : Items) → AllFull (item_leaves vs)
    item_leaves-full nil = refl
    item_leaves-full (cons v vs) =
        full-append (leaves v) (item_leaves vs) (leaves-full v) (item_leaves-full vs)

    field_leaves-full : (fs : Fields) → AllFull (field_leaves fs)
    field_leaves-full end = refl
    field_leaves-full (field k v fs) =
        full-append (leaves v) (field_leaves fs) (leaves-full v) (field_leaves-full fs)

  leaf-joined : (t : Text) → t ≡ join_with semicolon (cons_non_empty t [])
  unfolding join_with
  leaf-joined [] = refl
  leaf-joined (c ∷ t) = refl

  -- The parts of a list or a dict against its leaves.
  abbrev Joins : List Text → List Text → Type 0
  Joins parts ls =
      (join_with semicolon parts ≡ join_with semicolon ls) × (is_empty parts ≡ is_empty ls)

  step :
      (v : Value) (parts ls : List Text)
      → flatten_to_text v ≡ join_with semicolon (leaves v)
      → Joins parts ls
      → Joins (cons_non_empty (flatten_to_text v) parts) (leaves v ++ ls)
  step v parts ls e h = rw e (joined_part semicolon (leaves v) parts ls (leaves-full v) h.0 h.1)

  mutual
    unfolding flatten_to_text leaves

    flatten-joined : (v : Value) → flatten_to_text v ≡ join_with semicolon (leaves v)
    flatten-joined (str s) = leaf-joined (strip (to_text s))
    flatten-joined (dict fs) = (fields-joined fs).0
    flatten-joined (list vs) = (items-joined vs).0
    flatten-joined null = leaf-joined (to_text (text_of conv null))
    flatten-joined (bool b) = leaf-joined (to_text (text_of conv (bool b)))
    flatten-joined (int n) = leaf-joined (to_text (text_of conv (int n)))
    flatten-joined (float n) = leaf-joined (to_text (text_of conv (float n)))

    items-joined : (vs : Items) → Joins (item_parts vs) (item_leaves vs)
    items-joined nil = (refl, refl)
    items-joined (cons v vs) =
        step v (item_parts vs) (item_leaves vs) (flatten-joined v) (items-joined vs)

    fields-joined : (fs : Fields) → Joins (field_parts fs) (field_leaves fs)
    fields-joined end = (refl, refl)
    fields-joined (field k v fs) =
        step v (field_parts fs) (field_leaves fs) (flatten-joined v) (fields-joined fs)

  -- A value is flattened to its texts that are not empty, from left to right, joined by "; ": how they
  -- are nested in lists and dicts is forgotten, and no empty one leaves a separator.
  pub flatten_to_text-leaves :
      (v : Value) → (flatten_to_text v ≡ join_with semicolon (leaves v)) × AllFull (leaves v)
  flatten_to_text-leaves v = (flatten-joined v, leaves-full v)

  abbrev raw_or_none : Option Value → Option Value → Option Value → Option RawSummary
  raw_or_none (some introduction) (some key_points) (some conclusions) = some (record {
    introduction = flatten_to_text introduction;
    key_points = flatten_to_text key_points;
    conclusions = flatten_to_text conclusions;
  })
  raw_or_none _ _ _ = none

  -- `_RawSummary.model_validate`: every key is required, and every value is a text once it is flat.
  unfoldable pub raw_summary_of : Fields → Option RawSummary
  unfolding flatten_to_text get
  raw_summary_of fs =
      raw_or_none (get fs "introduction") (get fs "key_points") (get fs "conclusions")
