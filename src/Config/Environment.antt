-- ===== src/Config/Environment.antt =====
-- Where the value of a field comes from: the environment, or else the file (src/agentvm/config.py).
use agent_vm.Base.{contains, text_eq, String, Bool, true, false, none, some, ◌≡◌, refl}
use agent_vm.Python.Result.{Result, ok}
use agent_vm.Python.Dict.{Dict, lookup}
use agent_vm.Python.Text.{Text, codes, strip, lower}
use agent_vm.Python.Text.Digits.{parse_int-int_text}
use agent_vm.Python.Value.{bool, int, str, to_str, int_of}
use agent_vm.Config.Coerce.{
  Yaml, scalar, Entries, find, Kind, bool_kind, int_kind, str_kind, Coerced, coerce_value,
  coerce_bool, coerce_int, coerce_str, word_bool,
}
use agent_vm.Config.RoundTrip.{write_value, coerce_value-write_value}
use agent_vm.Config.Sections.{env_key, raw_value_of, load_field}

-- The types whose values are neither objects nor lists.
pub data Plain : Kind → Type 0 where
  bool_plain : Plain bool_kind
  int_plain : Plain int_kind
  str_plain : Plain str_kind

-- `str(value)`
abbrev pub plain_text : {k : Kind} → Plain k → Coerced k → Text
plain_text bool_plain b = to_str (bool b)
plain_text int_plain z = to_str (int z)
plain_text str_plain s = s

coerce_bool-to_str : (b : Bool) → coerce_bool (scalar (str (to_str (bool b)))) ≡ ok b
unfolding coerce_bool to_str word_bool lower strip contains
coerce_bool-to_str true = refl
coerce_bool-to_str false = refl

coerce_value-plain_text :
    (safe_load : Text → Result Yaml) {k : Kind} (p : Plain k) (v : Coerced k)
    → coerce_value safe_load k (scalar (str (plain_text p v))) ≡ ok v
unfolding coerce_value coerce_int coerce_str int_of to_str
coerce_value-plain_text safe_load bool_plain v = coerce_bool-to_str v
coerce_value-plain_text safe_load int_plain v = parse_int-int_text v
coerce_value-plain_text safe_load str_plain v = refl

-- Where a value of a field is given: by an environment variable that holds its `str`, or else by the
-- file, written as YAML.
pub data Gives (env : Dict Text Text) (source : Entries) (variable : Text) (name : String)
    : (k : Kind) → Coerced k → Type 0 where
  by_environment :
      {k : Kind} {v : Coerced k} (p : Plain k)
      → lookup variable env ≡ some (plain_text p v)
      → Gives env source variable name k v
  by_file :
      {k : Kind} {v : Coerced k} (t : Text)
      → lookup variable env ≡ none
      → find (codes name) source ≡ some (write_value k t v)
      → Gives env source variable name k v

-- An environment variable that holds the `str` of a Boolean, an integer or a text sets the field to that
-- value, whatever the file and the default say; without the variable, a value of any type that the file
-- holds, written as YAML, sets the field to itself.
pub load_field-Gives :
    (safe_load : Text → Result Yaml) (env : Dict Text Text) (section : String) (source : Entries)
    (name : String) (k : Kind) (default : Yaml) (v : Coerced k)
    → Gives env source (env_key section name) name k v
    → load_field safe_load env section source name k default ≡ ok v
unfolding load_field raw_value_of
load_field-Gives safe_load env section source name k default v (by_environment p set) =
    rw (load_field, raw_value_of, set, coerce_value-plain_text safe_load p v) refl
load_field-Gives safe_load env section source name k default v (by_file t unset held) =
    rw (load_field, raw_value_of, unset, held, coerce_value-write_value safe_load t k v) refl
