-- ===== src/Config/Coerce.antt =====
-- What `yaml.safe_load` returns, and `_coerce_value` and the types that it coerces to
-- (src/agentvm/config.py). Keys that are no strings are never asked for.
use agent_vm.Base.{
  Bool, true, false, Option, none, some, List, [], ◌∷◌, ℤ, if◌then◌else◌, ◌==◌, text_eq, contains,
}
use agent_vm.Python.Result.{Result, ok, raise, ◌>>=◌, value_error, type_error}
use agent_vm.Python.Text.{Text, codes, strip, lower}
use agent_vm.Python.Value.{Value, null, bool, str, int_of, to_str}

-- A list and a mapping carry their `str`. Any other object, a date or a set, is a `nested` value.
mutual
  pub data Yaml : Type 0 where
    scalar : Value → Yaml
    list : Text → Yamls → Yaml
    mapping : Text → Entries → Yaml

  pub data Yamls : Type 0 where
    no_items : Yamls
    item : Yaml → Yamls → Yamls

  pub data Entries : Type 0 where
    no_entries : Entries
    entry : Text → Yaml → Entries → Entries

-- `mapping.get(key)`, or none where the key is not there
unfoldable pub find : Text → Entries → Option Yaml
find key no_entries = none
find key (entry k value entries) =
    let rest = find key entries in if k == key then some value else rest

abbrev pub or_value : Yaml → Option Yaml → Yaml
or_value default none = default
or_value default (some value) = value

abbrev pub yaml_text : Yaml → Text
yaml_text (scalar value) = to_str value
yaml_text (list text _) = text
yaml_text (mapping text _) = text

-- The types of the fields.
pub data Kind : Type 0 where
  bool_kind int_kind str_kind api_key_kind : Kind
  list_kind : Kind → Kind

pub record ApiKeyConfig : Type 0 where
  pub key : Text
  pub name : Text
  pub permissions : List Text

-- The values of a type.
abbrev pub Coerced : Kind → Type 0
Coerced bool_kind = Bool
Coerced int_kind = ℤ
Coerced str_kind = Text
Coerced api_key_kind = ApiKeyConfig
Coerced (list_kind k) = List (Coerced k)

abbrev pub true_words : List Text
true_words = codes "1" ∷ codes "true" ∷ codes "yes" ∷ codes "on" ∷ []

abbrev pub false_words : List Text
false_words = codes "0" ∷ codes "false" ∷ codes "no" ∷ codes "off" ∷ []

unfoldable pub word_bool : Text → Result Bool
word_bool normalized =
    if contains normalized true_words
    then ok true
    else if contains normalized false_words
    then ok false
    else raise value_error

unfoldable pub coerce_bool : Yaml → Result Bool
coerce_bool (scalar (bool b)) = ok b
coerce_bool raw_value = word_bool (lower (strip (yaml_text raw_value)))

-- `int(raw_value)`
unfoldable pub coerce_int : Yaml → Result ℤ
coerce_int (scalar value) = int_of value
coerce_int _ = raise type_error

abbrev pub require_list : Yaml → Result Yamls
require_list (list _ items) = ok items
require_list _ = raise type_error

abbrev pub parsed_list : Yaml → Result Yamls
parsed_list (scalar null) = ok no_items
parsed_list parsed = require_list parsed

-- `yaml.safe_load` is the argument.
unfoldable pub items_of : (Text → Result Yaml) → Yaml → Result Yamls
items_of safe_load (scalar (str text)) = do parsed ← safe_load text; parsed_list parsed
items_of safe_load raw_value = require_list raw_value

unfoldable pub coerce_items : {A : Type 0} → (Yaml → Result A) → Yamls → Result (List A)
coerce_items coerce_item no_items = ok []
coerce_items coerce_item (item value items) = do
  first ← coerce_item value
  rest ← coerce_items coerce_item items
  ok (first ∷ rest)

abbrev pub required : Option Yaml → Option Yaml → Result (Yaml × Yaml)
required (some key) (some name) = ok (key, name)
required _ _ = raise value_error

unfoldable pub coerce_str : Yaml → Result Text
coerce_str raw_value = ok (yaml_text raw_value)

module _ (safe_load : Text → Result Yaml) where
  unfoldable pub coerce_list : {A : Type 0} → (Yaml → Result A) → Yaml → Result (List A)
  coerce_list coerce_item raw_value = do
    items ← items_of safe_load raw_value
    coerce_items coerce_item items

  unfoldable pub coerce_api_key : Yaml → Result ApiKeyConfig
  coerce_api_key (mapping _ entries) = do
    (key, name) ← required (find (codes "key") entries) (find (codes "name") entries)
    permissions ←
        coerce_list coerce_str
          (or_value (list (codes "[]") no_items) (find (codes "permissions") entries))
    ok (record { key = yaml_text key; name = yaml_text name; permissions = permissions })
  coerce_api_key _ = raise type_error

  -- `_coerce_value`
  unfoldable pub coerce_value : (k : Kind) → Yaml → Result (Coerced k)
  coerce_value bool_kind raw_value = coerce_bool raw_value
  coerce_value int_kind raw_value = coerce_int raw_value
  coerce_value str_kind raw_value = coerce_str raw_value
  coerce_value api_key_kind raw_value = coerce_api_key raw_value
  coerce_value (list_kind k) raw_value = coerce_list (coerce_value k) raw_value
