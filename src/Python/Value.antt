-- ===== src/Python/Value.antt =====
-- Values of any type, as far as the sources look at them. A list or a dict inside a record is only
-- stored and printed, so it is represented by its `str`; so is a float, with what `int` makes of it.
use agent_vm.Base.{ℕ, String, Bool, true, false, ◌||◌, List, [], ◌∷◌, ℤ, if◌then◌else◌, pos}
use agent_vm.Python.Result.{Result, ok, raise, value_error, type_error, overflow_error}
use agent_vm.Python.Dict.{Dict, values}
use agent_vm.Python.Text.{Text, codes, parse_int, int_text}

pub data Float : Type 0 where
  finite : Text → ℤ → Float
  nan infinity minus_infinity : Float

pub data Value : Type 0 where
  null : Value
  bool : Bool → Value
  int : ℤ → Value
  float : Float → Value
  str : Text → Value
  -- its `str`, and its bytes
  bytes : Text → List ℕ → Value
  -- a list or a dict of JSON values, by its `str`
  nested : Text → Value

-- `dict[str, Any]`
abbrev pub Object : Type 0
Object = Dict String Value

unfoldable pub float_text : Float → Text
float_text (finite t n) = t
float_text nan = codes "nan"
float_text infinity = codes "inf"
float_text minus_infinity = codes "-inf"

-- `str(value)`
unfoldable pub to_str : Value → Text
unfolding float_text int_text
to_str null = codes "None"
to_str (bool b) = if b then codes "True" else codes "False"
to_str (int z) = int_text z
to_str (float f) = float_text f
to_str (str t) = t
to_str (bytes t _) = t
to_str (nested t) = t

-- `int(x)` for a float
unfoldable pub truncate : Float → Result ℤ
truncate (finite _ n) = ok n
truncate nan = raise value_error
truncate _ = raise overflow_error

-- `int(value)`
unfoldable pub int_of : Value → Result ℤ
int_of (bool b) = ok (if b then pos 1 else pos 0)
int_of (int z) = ok z
int_of (float f) = truncate f
int_of (str t) = parse_int t
int_of (bytes _ content) = parse_int content
int_of _ = raise type_error

-- What `json.loads` makes of a stored text.
pub data Json : Type 0 where
  object : Object → Json
  not_object : Json
  malformed : Json

unfoldable pub is_bytes : Value → Bool
is_bytes (bytes _ _) = true
is_bytes _ = false

unfoldable pub has_bytes : List Value → Bool
unfolding is_bytes
has_bytes [] = false
has_bytes (v ∷ vs) = is_bytes v || has_bytes vs

-- `json.dumps(d)`: bytes are not serialisable. The text is represented by what `loads` reads from it.
unfoldable pub dumps : Object → Result Json
unfolding has_bytes
dumps d = if has_bytes (values d) then raise type_error else ok (object d)
