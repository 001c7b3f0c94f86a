-- ===== src/Config.antt =====
-- `AgentVMConfig.load` and `_load_yaml` of src/agentvm/config.py. `yaml.safe_load` is an argument.
pub mod Coerce
pub mod Records
pub mod Sections
pub mod Validate
pub mod RoundTrip
pub mod Valid
pub mod Environment
pub mod Raises
pub mod Errors
pub mod Defaults
mod Tests
use agent_vm.Base.{Bool, Option, none, some, List, [], ◌∷◌, ◌++◌, text_eq}
use agent_vm.Python.Result.{
  Error, Result, ok, raise, ◌>>=◌, value_error, os_error, config_error, yaml_error,
}
use agent_vm.Python.Dict.{Dict, get_or}
use agent_vm.Python.Ip.{Ipv6}
use agent_vm.Python.Text.{Text, codes}
use agent_vm.Python.Value.{null}
use agent_vm.Capacity.Readings.{Reading, contents, unreadable, undecodable}
use agent_vm.Config.Coerce.{Yaml, scalar, mapping, Entries, no_entries}
use agent_vm.Config.Records.{AgentVmConfig}
use agent_vm.Config.Sections.{
  load_section, load_host, load_storage, load_network, load_resources, load_auth_proxy,
  load_shared_folder, load_api, load_security, load_observability,
}
use agent_vm.Config.Validate.{Problem, validate}

-- `except (OSError, yaml.YAMLError)`
abbrev pub as_load_error {ℓ} : {A : Type ℓ} → Result A → Result A
as_load_error (raise os_error) = raise config_error
as_load_error (raise yaml_error) = raise config_error
as_load_error result = result

abbrev pub root_entries : Yaml → Result Entries
root_entries (scalar null) = ok no_entries
root_entries (mapping _ entries) = ok entries
root_entries _ = raise config_error

abbrev pub parse_text : (Text → Result Yaml) → Reading → Result Yaml
parse_text safe_load (contents text) = safe_load text
parse_text safe_load unreadable = raise os_error
parse_text safe_load undecodable = raise value_error

-- `_load_yaml`; `found` is what `exists` comes to, with what stands at a path that does.
unfoldable pub load_yaml : (Text → Result Yaml) → Result (Option Reading) → Result Entries
load_yaml safe_load (raise error) = raise error
load_yaml safe_load (ok none) = ok no_entries
load_yaml safe_load (ok (some reading)) = do
  payload ← as_load_error (parse_text safe_load reading)
  root_entries payload

-- `config_path or os.environ.get("AGENTVM_CONFIG", DEFAULT_CONFIG_PATH)`
unfoldable pub selected_path : Option Text → Dict Text Text → Text
selected_path (some (c ∷ path)) env = c ∷ path
selected_path _ env = get_or (codes "AGENTVM_CONFIG") (codes "/etc/agentvm/agentvm.yaml") env

abbrev pub accept : AgentVmConfig → List Problem → Result AgentVmConfig
accept config [] = ok config
accept config (_ ∷ _) = raise config_error

-- What the loader is given of its surroundings; `file` is what `exists` at a path comes to, with what
-- stands there.
pub record Surroundings : Type 0 where
  pub safe_load : Text → Result Yaml
  pub env : Dict Text Text
  pub file : Text → Result (Option Reading)
  pub mkdir : Text → Result (Unit {0})
  pub ipv6 : Ipv6

-- the call of the class
unfoldable pub build : Surroundings → Entries → Result AgentVmConfig
build w source = do
  host ← load_section w.safe_load w.env (load_host w.safe_load w.env) "host" source
  storage ← load_section w.safe_load w.env (load_storage w.safe_load w.env) "storage" source
  network ← load_section w.safe_load w.env (load_network w.safe_load w.env) "network" source
  resources ← load_section w.safe_load w.env (load_resources w.safe_load w.env) "resources" source
  auth_proxy ←
      load_section w.safe_load w.env (load_auth_proxy w.safe_load w.env) "auth_proxy" source
  shared_folder ←
      load_section w.safe_load w.env (load_shared_folder w.safe_load w.env) "shared_folder" source
  api ← load_section w.safe_load w.env (load_api w.safe_load w.env) "api" source
  security ← load_section w.safe_load w.env (load_security w.safe_load w.env) "security" source
  observability ←
      load_section w.safe_load w.env (load_observability w.safe_load w.env) "observability" source
  ok (record {
    host = host;
    storage = storage;
    network = network;
    resources = resources;
    auth_proxy = auth_proxy;
    shared_folder = shared_folder;
    api = api;
    security = security;
    observability = observability;
  })

unfoldable pub load : Surroundings → Option Text → Result AgentVmConfig
load w config_path = do
  loaded_yaml ← load_yaml w.safe_load (w.file (selected_path config_path w.env))
  config ← build w loaded_yaml
  errors ← validate w.ipv6 w.mkdir config
  accept config errors

unfoldable pub database_path : AgentVmConfig → Text
database_path c = c.storage.base_dir ++ codes "/metadata.db"

unfoldable pub audit_log_full_path : AgentVmConfig → Text
audit_log_full_path c = c.observability.audit_log_path
