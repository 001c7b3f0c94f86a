-- ===== src/Config/Raises.antt =====
-- What `_coerce_value` can raise (src/agentvm/config.py).
use agent_vm.Base.{◌||◌, text_eq, Bool, true, false, Option, none, some, contains, ◌≡◌, refl}
use agent_vm.Python.Result.{
  Error, Result, value_error, type_error, overflow_error, config_error, yaml_error, key_error,
  integrity_error, programming_error, runtime_error, os_error, dependency_error,
}
use agent_vm.Python.Failing.{Raises, returns, raises, Raises->>=, Raises-if, weaken}
use agent_vm.Python.Text.{Text}
use agent_vm.Python.Value.{null, bool, str}
use agent_vm.Python.Failing.Number.{is_int_error, int_of-Raises}
use agent_vm.Config.Coerce.{
  Yaml, Yamls, scalar, list, mapping, no_items, item, Kind, bool_kind, int_kind, str_kind,
  api_key_kind, list_kind, coerce_value, coerce_bool, coerce_int, coerce_str, word_bool,
  coerce_list, coerce_items, coerce_api_key, items_of, require_list, parsed_list, required,
  true_words, false_words,
}
use agent_vm.Config.Sections.{as_config_error}

-- What `_coerce_value` raises, with `may` what `yaml.safe_load` raises.
abbrev pub is_coerce_error : (Error → Bool) → Error → Bool
is_coerce_error may error = is_int_error error || may error

-- What `_load_section` raises.
abbrev pub is_section_error : (Error → Bool) → Error → Bool
is_section_error may config_error = true
is_section_error may overflow_error = true
is_section_error may error = may error

int-coerce :
    (may : Error → Bool) (error : Error)
    → is_int_error error ≡ true
    → is_coerce_error may error ≡ true
int-coerce may error h = rw h refl

pub or-true : (b : Bool) → (b || true) ≡ true
or-true true = refl
or-true false = refl

may-coerce :
    (may : Error → Bool) (error : Error) → may error ≡ true → is_coerce_error may error ≡ true
may-coerce may error h = rw h (or-true (is_int_error error))

pub as_config_error-Raises :
    (may : Error → Bool) {A : Type 0} {r : Result A}
    → Raises (is_coerce_error may) r
    → Raises (is_section_error may) (as_config_error r)
as_config_error-Raises may returns = returns
as_config_error-Raises may (raises {error = value_error} _) = raises refl
as_config_error-Raises may (raises {error = type_error} _) = raises refl
as_config_error-Raises may (raises {error = overflow_error} _) = raises refl
as_config_error-Raises may (raises {error = config_error} _) = raises refl
as_config_error-Raises may (raises {error = key_error} passed) = raises passed
as_config_error-Raises may (raises {error = yaml_error} passed) = raises passed
as_config_error-Raises may (raises {error = integrity_error} passed) = raises passed
as_config_error-Raises may (raises {error = programming_error} passed) = raises passed
as_config_error-Raises may (raises {error = runtime_error} passed) = raises passed
as_config_error-Raises may (raises {error = os_error} passed) = raises passed
as_config_error-Raises may (raises {error = dependency_error} passed) = raises passed

module _ {may : Error → Bool} where
  word_bool-Raises : (t : Text) → Raises (is_coerce_error may) (word_bool t)
  unfolding word_bool
  word_bool-Raises t =
      Raises-if (contains t true_words) returns
        (Raises-if (contains t false_words) returns (raises refl))

  coerce_int-Raises : (y : Yaml) → Raises (is_coerce_error may) (coerce_int y)
  unfolding coerce_int
  coerce_int-Raises (scalar v) = weaken (int-coerce may) (int_of-Raises v)
  coerce_int-Raises (list t ys) = raises refl
  coerce_int-Raises (mapping t es) = raises refl

  coerce_bool-Raises : (y : Yaml) → Raises (is_coerce_error may) (coerce_bool y)
  unfolding coerce_bool
  coerce_bool-Raises (scalar (bool b)) = returns
  coerce_bool-Raises _ = word_bool-Raises _

  coerce_items-Raises :
      {A : Type 0} {coerce_item : Yaml → Result A}
      → ((y : Yaml) → Raises (is_coerce_error may) (coerce_item y))
      → (ys : Yamls) → Raises (is_coerce_error may) (coerce_items coerce_item ys)
  unfolding coerce_items
  coerce_items-Raises h no_items = returns
  coerce_items-Raises h (item y ys) =
      Raises->>= (h y) (λ _. Raises->>= (coerce_items-Raises h ys) (λ _. returns))

  require_list-Raises : (y : Yaml) → Raises (is_coerce_error may) (require_list y)
  require_list-Raises (scalar v) = raises refl
  require_list-Raises (list t ys) = returns
  require_list-Raises (mapping t es) = raises refl

  parsed_list-Raises : (y : Yaml) → Raises (is_coerce_error may) (parsed_list y)
  parsed_list-Raises (scalar null) = returns
  parsed_list-Raises y = require_list-Raises y

  required-Raises : (key name : Option Yaml) → Raises (is_coerce_error may) (required key name)
  required-Raises (some key) (some name) = returns
  required-Raises none name = raises refl
  required-Raises (some key) none = raises refl

module _ {safe_load : Text → Result Yaml} {may : Error → Bool}
    (raising : (t : Text) → Raises may (safe_load t)) where
  safe_load-Raises : (t : Text) → Raises (is_coerce_error may) (safe_load t)
  safe_load-Raises t = weaken (may-coerce may) (raising t)

  items_of-Raises : (y : Yaml) → Raises (is_coerce_error may) (items_of safe_load y)
  unfolding items_of
  items_of-Raises (scalar (str t)) = Raises->>= (safe_load-Raises t) parsed_list-Raises
  items_of-Raises y = require_list-Raises y

  coerce_list-Raises :
      {A : Type 0} {coerce_item : Yaml → Result A}
      → ((y : Yaml) → Raises (is_coerce_error may) (coerce_item y))
      → (y : Yaml) → Raises (is_coerce_error may) (coerce_list safe_load coerce_item y)
  unfolding coerce_list
  coerce_list-Raises h y = Raises->>= (items_of-Raises y) (coerce_items-Raises h)

  coerce_str-Raises : (y : Yaml) → Raises (is_coerce_error may) (coerce_str y)
  unfolding coerce_str
  coerce_str-Raises y = returns

  coerce_api_key-Raises : (y : Yaml) → Raises (is_coerce_error may) (coerce_api_key safe_load y)
  unfolding coerce_api_key
  coerce_api_key-Raises (scalar v) = raises refl
  coerce_api_key-Raises (list t ys) = raises refl
  coerce_api_key-Raises (mapping t es) =
      Raises->>= (required-Raises _ _)
        (λ (key, name). Raises->>= (coerce_list-Raises coerce_str-Raises _) (λ _. returns))

  pub coerce_value-Raises :
      (k : Kind) (y : Yaml) → Raises (is_coerce_error may) (coerce_value safe_load k y)
  unfolding coerce_value
  coerce_value-Raises bool_kind y = coerce_bool-Raises y
  coerce_value-Raises int_kind y = coerce_int-Raises y
  coerce_value-Raises str_kind y = coerce_str-Raises y
  coerce_value-Raises api_key_kind y = coerce_api_key-Raises y
  coerce_value-Raises (list_kind k) y = coerce_list-Raises (coerce_value-Raises k) y
