-- ===== src/Python/Value.antt =====
-- A value of the dynamic language, as JSON and Home Assistant's stores hold it. Numbers with a
-- fraction do not occur in the payloads and are left out.
use esphome_rf_cloner.Base.{
  ℤ, pos, negsuc, String, Bool, true, false, not, Option, none, some, List, [], ◌∷◌, ◌≡◌, refl, ap,
  string_eq, zero, suc,
}
use esphome_rf_cloner.Base.Dict.{Dict, lookup}
use esphome_rf_cloner.Python.Text.{is_empty}
use esphome_rf_cloner.Python.Decimal.{parse_int, show_int}
use esphome_rf_cloner.Python.Result.{
  Result, ok, err, key_error, type_error, value_error, attribute_error,
}

mutual
  pub data Value : Type 0 where
    null : Value
    bool : Bool → Value
    int : ℤ → Value
    str : String → Value
    list : Items → Value
    dict : Fields → Value

  pub data Items : Type 0 where
    nil : Items
    cons : Value → Items → Items

  pub data Fields : Type 0 where
    end : Fields
    field : String → Value → Fields → Fields

-- `list(items)` and back.
abbrev pub to_list : Items → List Value
to_list nil = []
to_list (cons v vs) = v ∷ to_list vs

abbrev pub of_list : List Value → Items
of_list [] = nil
of_list (v ∷ vs) = cons v (of_list vs)

-- A mapping as a dictionary, and back.
abbrev pub to_dict : Fields → Dict String Value
to_dict end = []
to_dict (field k v fs) = (k, v) ∷ to_dict fs

abbrev pub of_dict : Dict String Value → Fields
of_dict [] = end
of_dict ((k, v) ∷ d) = field k v (of_dict d)

pub to_list-of_list : (vs : List Value) → to_list (of_list vs) ≡ vs
to_list-of_list [] = refl
to_list-of_list (v ∷ vs) = ap (◌∷◌ v) (to_list-of_list vs)

pub to_dict-of_dict : (d : Dict String Value) → to_dict (of_dict d) ≡ d
to_dict-of_dict [] = refl
to_dict-of_dict ((k, v) ∷ d) = ap (◌∷◌ (k, v)) (to_dict-of_dict d)

-- `bool(v)`
unfoldable pub truth : Value → Bool
truth null = false
truth (bool b) = b
truth (int (pos zero)) = false
truth (int (pos (suc n))) = true
truth (int (negsuc n)) = true
truth (str s) = not (is_empty s)
truth (list nil) = false
truth (list (cons v vs)) = true
truth (dict end) = false
truth (dict (field k v fs)) = true

-- A text that does not parse is a `ValueError`.
abbrev parsed : Option ℤ → Result ℤ
parsed none = err value_error
parsed (some n) = ok n

-- `int(v)`
unfoldable pub as_int : Value → Result ℤ
as_int null = err type_error
as_int (bool true) = ok (pos 1)
as_int (bool false) = ok (pos 0)
as_int (int n) = ok n
as_int (str s) = parsed (parse_int s)
as_int (list vs) = err type_error
as_int (dict fs) = err type_error

-- `str(v)`. The text of a list or a mapping is `repr`'s.
unfoldable pub as_str : (Value → String) → Value → String
as_str repr null = "None"
as_str repr (bool true) = "True"
as_str repr (bool false) = "False"
as_str repr (int n) = show_int n
as_str repr (str s) = s
as_str repr v = repr v

characters : String → List Value
characters String.[] = []
characters (String.◌∷◌ c s) = str (String.◌∷◌ c String.[]) ∷ characters s

names : Fields → List Value
names end = []
names (field k v fs) = str k ∷ names fs

-- `for x in v`
unfoldable pub iterate : Value → Result (List Value)
unfolding characters names
iterate (str s) = ok (characters s)
iterate (list vs) = ok (to_list vs)
iterate (dict fs) = ok (names fs)
iterate _ = err type_error

abbrev pub item_of : Option Value → Result Value
item_of none = err key_error
item_of (some v) = ok v

-- `d[key]` on a mapping.
unfoldable pub at : Dict String Value → String → Result Value
at d key = item_of (lookup key d)

-- `d.get(key, default)` on a mapping.
abbrev pub default_to : Value → Option Value → Value
default_to default none = default
default_to default (some v) = v

unfoldable pub get : Dict String Value → String → Value → Value
get d key default = default_to default (lookup key d)

-- A value where the code goes on to subscript it by a text: only a mapping can be.
unfoldable pub subscriptable : Value → Result (Dict String Value)
subscriptable (dict fs) = ok (to_dict fs)
subscriptable _ = err type_error

-- A value where the code calls its `.get`: only a mapping has one.
unfoldable pub mapping : Value → Result (Dict String Value)
mapping (dict fs) = ok (to_dict fs)
mapping _ = err attribute_error
