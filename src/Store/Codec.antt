-- ===== src/Store/Codec.antt =====
-- `_decode_row`, `_parse_minutes` and `_as_int` of src/agentvm/db/store.py, and the reading of
-- fields out of a record that a caller passes.
use agent_vm.Base.{String, none, some, [], ◌∷◌, ℤ, pos, ◌≡◌, refl, string_eq, if◌then◌else◌}
use agent_vm.Python.Result.{Result, ok, raise, key_error, value_error}
use agent_vm.Python.Dict.{Dict, lookup, get_or, setdefault}
use agent_vm.Python.Text.{Text, codes, strip, lower, split_suffix, parse_int}
use agent_vm.Python.Value.{
  Value, null, bool, int, float, str, Object, Json, object, not_object, malformed, to_str, truncate,
}

-- `_as_int`
unfoldable pub as_int : Value → Result ℤ
unfolding truncate parse_int
as_int null = ok (pos 0)
as_int (bool b) = ok (if b then pos 1 else pos 0)
as_int (int z) = ok z
as_int (float f) = truncate f
as_int (str t) = parse_int t
as_int _ = raise value_error

-- `_parse_minutes`
unfoldable pub parse_minutes : Text → Result ℤ
unfolding strip lower split_suffix parse_int
parse_minutes value =
    let text = lower (strip value) in
    elim (split_suffix text (codes "minutes")) [
      | some front ↦ parse_int (strip front)
      | none ↦ elim (split_suffix text (codes "minute")) [
        | some front ↦ parse_int (strip front)
        | none ↦ parse_int text
      ]
    ]

-- The record that a `data` column holds; anything else reads as an empty one.
unfoldable pub payload_object : Json → Object
payload_object (object d) = d
payload_object not_object = []
payload_object malformed = []

unfoldable pub set_defaults : Dict String Value → Object → Object
unfolding setdefault
set_defaults [] payload = payload
set_defaults ((key, value) ∷ columns) payload = set_defaults columns (setdefault key value payload)

-- `_decode_row`: a column is returned only where the payload has no value under its name.
unfoldable pub decode_row : Dict String Value → Json → Object
unfolding payload_object set_defaults
decode_row columns payload = set_defaults columns (payload_object payload)

-- `record[name]`
unfoldable pub require : String → Object → Result Value
require name d = elim (lookup name d) [ none ↦ raise key_error | some value ↦ ok value ]

-- `str(record.get(name, default))`
unfoldable pub text_field : String → Text → Object → Text
unfolding lookup
text_field name default d = to_str (get_or name (str default) d)

-- `_as_int(record.get(name, 0))`
unfoldable pub int_field : String → Object → Result ℤ
unfolding as_int lookup
int_field name d = as_int (get_or name (int (pos 0)) d)

minutes :
    (parse_minutes (codes " 30 Minutes ") ≡ ok (pos 30))
    × (parse_minutes (codes "1minute") ≡ ok (pos 1))
    × (parse_minutes (codes "15") ≡ ok (pos 15))
    × (parse_minutes (codes "soon") ≡ raise value_error)
unfolding parse_minutes
minutes = (refl, refl, refl, refl)
