-- ===== src/Store/Payload.antt =====
-- What `get_session` and `get_vm` (src/agentvm/db/store.py) return of what was written.
use agent_vm.Base.{String, [], ◌∷◌, ◌≡◌, arith, text_eq, string_eq}
use agent_vm.Python.Dict.{Dict, lookup, or_else, setdefault, lookup-setdefault}
use agent_vm.Python.Value.{Value}
use agent_vm.Store.Codec.{set_defaults}

-- A column shows where the payload has no value under its name.
pub lookup-set_defaults :
    (name : String) (columns payload : Dict String Value)
    → lookup name (set_defaults columns payload)
      ≡ or_else (lookup name payload) (lookup name columns)
unfolding set_defaults lookup
lookup-set_defaults name [] payload = ground arith
lookup-set_defaults name ((key, value) ∷ columns) payload = ground (
  arith,
  lookup-set_defaults name columns (setdefault key value payload),
  lookup-setdefault key name value payload,
)
