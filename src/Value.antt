-- ===== src/Value.antt =====
-- Values of a dynamic type: `object`, `dict[str, object]` and `list[object]` as the code passes
-- them round (task payloads and results, connector responses, resume values).
use office_mult_agent.Base.{ℕ, String, Bool, Option, none, some, ◌==◌, string_eq, if◌then◌else◌}

mutual
  pub data Value : Type 0 where
    str : String → Value
    num : ℕ → Value
    bool : Bool → Value
    obj : Fields → Value
    arr : Items → Value
    null : Value

  -- a dict with text keys, in insertion order
  pub data Fields : Type 0 where
    field : (key : String) (value : Value) (rest : Fields) → Fields
    end : Fields

  pub data Items : Type 0 where
    item : (value : Value) (rest : Items) → Items
    nil : Items

-- `d.get(k)`
abbrev pub get_field : String → Fields → Option Value
get_field k end = none
get_field k (field j v fs) = if j == k then some v else get_field k fs

-- `isinstance(v, dict)`, `isinstance(v, list)`, `isinstance(v, str)`
abbrev pub as_dict : Value → Option Fields
as_dict (obj fs) = some fs
as_dict _ = none

abbrev pub as_list : Value → Option Items
as_list (arr xs) = some xs
as_list _ = none

abbrev pub as_str : Value → Option String
as_str (str s) = some s
as_str _ = none

abbrev pub as_bool : Value → Option Bool
as_bool (bool b) = some b
as_bool _ = none

-- `str(v)`: a text is itself, and `repr` gives the text of any other value.
abbrev pub to_str : (Value → String) → Value → String
to_str repr (str s) = s
to_str repr v = repr v
