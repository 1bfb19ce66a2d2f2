-- ===== src/Values.antt =====
-- The untyped data of the program: what `dict[str, object]` holds in message contents
-- (core/messages.py), payloads and results, with the tests that the code makes of it. A float is
-- carried by the 64 bits of the double, which the modelled code only passes on.
use mas_research.Base.{
  ◌||◌, not, if◌then◌else◌, ◌==◌, or_else, ℕ, String, Bool, true, false, Option, none, some, List,
  [], ◌∷◌, string_key, same,
}
use mas_research.Base.Int.{ℤ, pos, negsuc}
use Prim.Native.Nat.{◌^◌}

abbrev pub Float : Type 0
Float = ℕ

mutual
  pub data Value : Type 0 where
    null : Value
    bool : Bool → Value
    int : ℤ → Value
    float : ℕ → Value
    str : String → Value
    list : Items → Value
    dict : Fields → Value

  pub data Items : Type 0 where
    nil : Items
    cons : Value → Items → Items

  pub data Fields : Type 0 where
    end : Fields
    field : String → Value → Fields → Fields

abbrev is_zero : ℤ → Bool
is_zero (pos n) = n == 0
is_zero (negsuc n) = false

abbrev pub to_list : Items → List Value
to_list nil = []
to_list (cons v vs) = v ∷ to_list vs

abbrev pub of_list : List Value → Items
of_list [] = nil
of_list (v ∷ vs) = cons v (of_list vs)

abbrev pub list_of : List Value → Value
list_of vs = list (of_list vs)

-- `content.get(k)`
unfoldable pub get : Fields → String → Option Value
get end k = none
get (field j v fs) k = elim (same k j) [ true ↦ some v | false ↦ get fs k ]

-- `isinstance(v, list)`, with the list.
abbrev pub as_list : Option Value → Option (List Value)
as_list (some (list vs)) = some (to_list vs)
as_list _ = none

-- `isinstance(v, dict)`, with the dict.
abbrev pub as_dict : Option Value → Option Fields
as_dict (some (dict fs)) = some fs
as_dict _ = none

-- `[v for v in vs if isinstance(v, dict)]`
abbrev pub dicts_of : List Value → List Fields
dicts_of [] = []
dicts_of (dict fs ∷ vs) = fs ∷ dicts_of vs
dicts_of (_ ∷ vs) = dicts_of vs

abbrev dicts_or_none : Option (List Value) → List Fields
dicts_or_none none = []
dicts_or_none (some vs) = dicts_of vs

-- The dicts of a key's list, and none where it has no list.
abbrev pub dicts_in : Fields → String → List Fields
dicts_in content key = dicts_or_none (as_list (get content key))

-- The sections of a summary, and none where there is no summary.
abbrev pub sections_in : Option Fields → List Fields
sections_in none = []
sections_in (some summary) = dicts_in summary "sections"

-- `isinstance(v, str)`, with the text.
abbrev pub as_str : Option Value → Option String
as_str (some (str s)) = some s
as_str _ = none

-- `isinstance(v, int)`: a bool is an int in Python.
abbrev pub as_int : Option Value → Option ℤ
as_int (some (int n)) = some n
as_int (some (bool true)) = some (pos 1)
as_int (some (bool false)) = some (pos 0)
as_int _ = none

-- `content.get(k, default)`, where None is `null`.
abbrev pub get_or : Fields → String → Value → Value
get_or content k default = or_else (get content k) default

-- `bool(v)`; a float is zero with either sign.
unfoldable pub truthy : Value → Bool
truthy null = false
truthy (bool b) = b
truthy (int n) = not (is_zero n)
truthy (float bits) = not (bits == 0 || bits == 2 ^ 63)
truthy (str s) = not (same s "")
truthy (list nil) = false
truthy (list (cons v vs)) = true
truthy (dict end) = false
truthy (dict (field k v fs)) = true

-- `v or default`
abbrev pub either : Value → Value → Value
either v default = if truthy v then v else default

-- `str(v)` and `int(v)`, as far as Python's own printing and parsing of other values is left open;
-- `none` is a raise of `int`.
pub record Conversions : Type 0 where
  pub print : Value → String
  pub parse : Value → Option ℤ

unfoldable pub text_of : Conversions → Value → String
text_of conv (str s) = s
text_of conv null = "None"
text_of conv v = conv.print v

unfoldable pub int_of : Conversions → Value → Option ℤ
int_of conv (int n) = some n
int_of conv (bool true) = some (pos 1)
int_of conv (bool false) = some (pos 0)
int_of conv v = conv.parse v
