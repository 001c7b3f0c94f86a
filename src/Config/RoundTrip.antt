-- ===== src/Config/RoundTrip.antt =====
-- A value of any type of field, written as YAML, is coerced to itself (src/agentvm/config.py).
use agent_vm.Base.{List, [], ◌∷◌, ◌≡◌, refl, text_eq}
use agent_vm.Python.Result.{Result, ok}
use agent_vm.Python.Text.{Text, codes}
use agent_vm.Python.Value.{bool, int, str, int_of, to_str}
use agent_vm.Config.Coerce.{
  Yaml, Yamls, scalar, list, mapping, no_items, item, no_entries, entry, find, Kind, bool_kind,
  int_kind, str_kind, api_key_kind, list_kind, ApiKeyConfig, Coerced, coerce_value, coerce_bool,
  coerce_int, coerce_str, coerce_list, coerce_items, coerce_api_key, items_of,
}

-- A list of values, each written by `write`.
items_by : {A : Type 0} → (A → Yaml) → List A → Yamls
items_by write [] = no_items
items_by write (x ∷ xs) = item (write x) (items_by write xs)

abbrev write_str : Text → Yaml
write_str t = scalar (str t)

-- A value as YAML; the `str` of a list or a mapping is any text.
pub write_value : (k : Kind) → Text → Coerced k → Yaml
write_value bool_kind t b = scalar (bool b)
write_value int_kind t z = scalar (int z)
write_value str_kind t s = scalar (str s)
write_value api_key_kind t c = mapping t (
    entry (codes "key") (write_str c.key) (
      entry (codes "name") (write_str c.name)
        (entry (codes "permissions") (list t (items_by write_str c.permissions)) no_entries)))
write_value (list_kind k) t xs = list t (items_by (write_value k t) xs)

coerce_items-items_by :
    {A : Type 0} (coerce : Yaml → Result A) (write : A → Yaml)
    → ((x : A) → coerce (write x) ≡ ok x)
    → (xs : List A) → coerce_items coerce (items_by write xs) ≡ ok xs
unfolding coerce_items items_by
coerce_items-items_by coerce write h [] = refl
coerce_items-items_by coerce write h (x ∷ xs) =
    rw (h x, coerce_items-items_by coerce write h xs) refl

module _ (safe_load : Text → Result Yaml) (t : Text) where
  coerce_list-items_by :
      {A : Type 0} (coerce : Yaml → Result A) (write : A → Yaml)
      → ((x : A) → coerce (write x) ≡ ok x)
      → (xs : List A) → coerce_list safe_load coerce (list t (items_by write xs)) ≡ ok xs
  unfolding coerce_list items_of
  coerce_list-items_by coerce write h xs = coerce_items-items_by coerce write h xs

  coerce_api_key-write :
      (c : ApiKeyConfig) → coerce_api_key safe_load (write_value api_key_kind t c) ≡ ok c
  unfolding coerce_api_key find write_value to_str
  coerce_api_key-write c =
      rw
        (coerce_list-items_by coerce_str write_str (λ s. unfold coerce_str to_str in refl)
          c.permissions)
        refl

  -- A value of any type of field, written as YAML, is coerced to itself.
  pub coerce_value-write_value :
      (k : Kind) (v : Coerced k) → coerce_value safe_load k (write_value k t v) ≡ ok v
  unfolding coerce_value write_value coerce_bool coerce_int coerce_str int_of to_str
  coerce_value-write_value bool_kind v = refl
  coerce_value-write_value int_kind v = refl
  coerce_value-write_value str_kind v = refl
  coerce_value-write_value api_key_kind v = coerce_api_key-write v
  coerce_value-write_value (list_kind k) v =
      coerce_list-items_by (coerce_value safe_load k) (write_value k t) (coerce_value-write_value k)
        v
