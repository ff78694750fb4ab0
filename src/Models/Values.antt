-- ===== src/Models/Values.antt =====
-- What Home Assistant hands over as `Any`: JSON-like values, and the readers `_optional_string`,
-- `_string_sequence`, `_string_mapping` and `_parse_datetime` of models.py.
use Prim.Native.Char.{Char, code}
use ha_runtime_auto_off.Prelude.{
  ℕ, zero, suc, String, Bool, true, false, ◌&&◌, ◌||◌, Option, none, some, List, [], ◌∷◌, ◌++◌,
  Dict, contains, leb, ◌==◌, str_eq, if◌then◌else◌, put,
}

-- A number in microseconds (the program's numbers are seconds); `negsuc n` is -(n + 1).
pub data Number : Type 0 where
  pos : ℕ → Number
  negsuc : ℕ → Number
  infinity neg_infinity nan : Number

mutual
  pub data Value : Type 0 where
    null : Value
    bool : Bool → Value
    number : Number → Value
    text : String → Value
    array : Items → Value
    object : Fields → Value

  pub data Items : Type 0 where
    nil : Items
    cons : Value → Items → Items

  pub data Fields : Type 0 where
    end : Fields
    field : String → Value → Fields → Fields

-- `m.get(k)`, which is `None` for a missing key.
unfoldable pub get_field : String → Fields → Value
get_field k end = null
get_field k (field j v fs) = if str_eq j k then v else get_field k fs

-- The characters that `str.strip` removes.
abbrev pub is_space : Char → Bool
is_space ch =
    let c = code ch in
    (leb 9 c && leb c 13)
    || (leb 28 c && leb c 32)
    || (c == 0x85)
    || (c == 0xa0)
    || (c == 0x1680)
    || (leb 0x2000 c && leb c 0x200a)
    || (c == 0x2028)
    || (c == 0x2029)
    || (c == 0x202f)
    || (c == 0x205f)
    || (c == 0x3000)

unfoldable pub lstrip : String → String
lstrip String.[] = String.[]
lstrip (String.◌∷◌ c s) = let rest = lstrip s in if is_space c then rest else String.◌∷◌ c s

abbrev pub is_blank : String → Bool
is_blank String.[] = true
is_blank (String.◌∷◌ c s) = false

unfoldable pub rstrip : String → String
rstrip String.[] = String.[]
rstrip (String.◌∷◌ c s) =
    let rest = rstrip s in if is_blank rest && is_space c then String.[] else String.◌∷◌ c rest

unfoldable pub strip : String → String
unfolding lstrip rstrip
strip s = rstrip (lstrip s)

-- `value or None` of a text.
abbrev pub nonempty : String → Option String
nonempty String.[] = none
nonempty (String.◌∷◌ c s) = some (String.◌∷◌ c s)

unfoldable pub optional_string : Value → Option String
optional_string (text s) = nonempty (strip s)
optional_string _ = none

-- One round of `dict.fromkeys`: the first of each, in order.
unfoldable pub add_unique : List String → String → List String
unfolding contains
add_unique seen s = if contains s seen then seen else seen ++ s ∷ []

-- `item.strip() for item in values if isinstance(item, str) and item.strip()`, through `fromkeys`.
unfoldable pub collect_strings : List String → Items → List String
unfolding add_unique
collect_strings seen nil = seen
collect_strings seen (cons v vs) =
    collect_strings (elim (optional_string v) [ none ↦ seen | some s ↦ add_unique seen s ]) vs

unfoldable pub string_sequence : Value → List String
unfolding collect_strings optional_string strip
string_sequence (text s) = collect_strings [] (cons (text s) nil)
string_sequence (array vs) = collect_strings [] vs
string_sequence _ = []

-- `s[:n]`, by characters.
unfoldable pub take_chars : ℕ → String → String
take_chars zero s = String.[]
take_chars (suc n) String.[] = String.[]
take_chars (suc n) (String.◌∷◌ c s) = String.◌∷◌ c (take_chars n s)

unfoldable pub collect_mapping : Dict String → Fields → Option (Dict String)
unfolding put take_chars
collect_mapping result end = some result
collect_mapping result (field key (text item) fs) =
    let rest = collect_mapping (put key (take_chars 500 item) result) fs in
    if is_blank key then none else rest
collect_mapping result (field key _ fs) = none

unfoldable pub string_mapping : Value → Option (Dict String)
unfolding collect_mapping
string_mapping (object fs) = collect_mapping [] fs
string_mapping _ = none

-- What `dt_util.parse_datetime` of Home Assistant makes of a text, the outcome then told by
-- `parsed.tzinfo` and converted by `as_utc`.
pub data Parsed : Type 0 where
  invalid absent naive : Parsed
  aware : ℕ → Parsed

-- `datetime.isoformat` of a time in UTC and its reader are parameters.
pub record DatetimeText : Type 0 where
  pub isoformat : ℕ → String
  pub parse : String → Parsed

-- `ValueError`, no value and a naive time all give `None`.
abbrev pub aware_time : Parsed → Option ℕ
aware_time (aware t) = some t
aware_time _ = none

unfoldable pub parse_datetime : DatetimeText → Value → Option ℕ
parse_datetime dt (text s) = aware_time (dt.parse s)
parse_datetime dt _ = none
