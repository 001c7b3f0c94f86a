-- ===== src/Config/Tests.antt =====
-- Runs of src/agentvm/config.py.
use agent_vm.Base.{
  Bool, true, false, ◌==◌, if◌then◌else◌, Option, none, some, [], ◌∷◌, filter, any, contains, ℤ,
  pos, negsuc, text_eq, ◌≡◌, ◌↔◌, refl,
}
use agent_vm.Python.Result.{Error, Result, ok, raise, ◌>>=◌, overflow_error, yaml_error}
use agent_vm.Python.Dict.{Dict, lookup}
use agent_vm.Python.Ip.{Ipv6, ip_address, ip_network, in_network}
use agent_vm.Python.Lines.{cut, attach}
use agent_vm.Python.Text.{Text, codes, strip, lower, parse_int, int_text, join, starts_with}
use agent_vm.Python.Value.{null, bool, int, float, str, infinity, int_of, to_str, truncate}
use agent_vm.Capacity.Readings.{Reading, contents}
use agent_vm.Config.Coerce.{
  Yaml, scalar, mapping, Entries, no_entries, entry, find, Kind, list_kind, int_kind, ApiKeyConfig,
  coerce_value, coerce_bool, coerce_int, coerce_str, word_bool, coerce_list, coerce_items, items_of,
}
use agent_vm.Config.Records.{AgentVmConfig}
use agent_vm.Config.Sections.{
  upper, env_key, number, raw_value_of, load_field, load_section, load_host, load_storage,
  load_network, load_resources, load_auth_proxy, load_shared_folder, load_api, load_security,
  load_observability,
}
use agent_vm.Config.Validate.{
  required_dirs, ensure_directories, validate_ports, validate_resources, validate_network, validate,
}
use agent_vm.Config.Valid.{IsValid, validate_iff, load-IsValid}
use agent_vm.Config.Environment.{int_plain, plain_text, by_environment, load_field-Gives}
use agent_vm.Python.Paths.{parent}
use agent_vm.Config.Errors.{is_load_error, load-raise}
use agent_vm.Python.Failing.{Raises, Raises-if, returns, raises}
use agent_vm.Config.Defaults.{no_ipv6, no_file, default_config, load_defaults}
use agent_vm.Config.{
  Surroundings, load, load_yaml, build, selected_path, database_path, audit_log_full_path,
}

-- A loader that reads the text "file" as a mapping of `source`, and no other.
unfoldable load_file : Entries → Text → Result Yaml
load_file source t =
    if t == codes "file" then ok (mapping (codes "{…}") source) else raise yaml_error

abbrev world : Entries → Dict Text Text → Option Reading → Surroundings
world source env reading = record {
  safe_load = load_file source;
  env = env;
  file = λ _. ok reading;
  mkdir = λ _. ok tt;
  ipv6 = no_ipv6;
}

abbrev ports_file : Entries
ports_file =
    entry (codes "api") (mapping (codes "{…}") (entry (codes "port") (number 8080) no_entries))
      (entry (codes "host") (scalar null) no_entries)

-- The file sets the API's port, and the environment the host's limit of VMs.
abbrev ports_world : Surroundings
ports_world =
    world ports_file ((codes "AGENTVM_HOST_MAX_VMS", codes " 7 ") ∷ [])
      (some (contents (codes "file")))

port_of : Result AgentVmConfig → Result ℤ
port_of r = do c ← r; ok c.api.port

limit_of : Result AgentVmConfig → Result ℤ
limit_of r = do c ← r; ok c.host.max_vms

loaded :
    (port_of (load ports_world none) ≡ ok (pos 8080))
    × (limit_of (load ports_world none) ≡ ok (pos 7))
unfolding port_of limit_of load load_yaml build validate load_section load_host load_file find
    load_field coerce_value coerce_str coerce_int raw_value_of lookup env_key upper int_of parse_int
    load_storage load_network load_resources coerce_list items_of coerce_items contains any filter
    agent_vm.Config.Coerce.coerce_api_key coerce_bool word_bool load_api load_auth_proxy
    load_observability load_security load_shared_folder ensure_directories parent
    agent_vm.Python.Paths.path_of agent_vm.Python.Paths.path_text
    agent_vm.Python.Paths.components_of required_dirs validate_network validate_ports
    validate_resources selected_path agent_vm.Python.Ip.digits_value agent_vm.Python.Ip.find_prefix
    in_network ip_address ip_network agent_vm.Python.Ip.is_decimal agent_vm.Python.Ip.parse_ipv4
    agent_vm.Python.Ip.parse_octet agent_vm.Python.Ip.parse_prefix attach cut
    agent_vm.Python.Text.decimal agent_vm.Python.Text.emit int_text agent_vm.Python.Text.is_space
    join lower agent_vm.Python.Text.parse_signed agent_vm.Python.Text.scan starts_with strip
    agent_vm.Python.Text.strip_left agent_vm.Python.Text.strip_right
    agent_vm.Python.Value.float_text to_str truncate
loaded = (refl, refl)

paths :
    (database_path default_config ≡ codes "/var/lib/agentvm/metadata.db")
    × (audit_log_full_path default_config ≡ codes "/var/lib/agentvm/logs/audit.log")
unfolding database_path audit_log_full_path
paths = (refl, refl)

-- A file that limits the VMs of the host to no finite number.
abbrev infinite_world : Surroundings
infinite_world =
    world
      (entry (codes "host")
        (mapping (codes "{…}") (entry (codes "max_vms") (scalar (float infinity)) no_entries))
        no_entries)
      [] (some (contents (codes "file")))

infinite_overflow : load infinite_world none ≡ raise overflow_error
unfolding load load_yaml build validate load_section load_host load_file find load_field
    coerce_value coerce_str coerce_int raw_value_of lookup int_of truncate
infinite_overflow = refl

validate_iff_example :
    (validate no_ipv6 (λ _. ok tt) default_config ≡ ok [])
    ↔ IsValid no_ipv6 (λ _. ok tt) default_config
validate_iff_example = validate_iff no_ipv6 (λ _. ok tt) default_config

load-IsValid_example : IsValid no_ipv6 (λ _. ok tt) default_config
load-IsValid_example = load-IsValid no_file none load_defaults

abbrev is_yaml_error : Error → Bool
is_yaml_error yaml_error = true
is_yaml_error _ = false

load_file-Raises : (source : Entries) (t : Text) → Raises is_yaml_error (load_file source t)
unfolding load_file
load_file-Raises source t = Raises-if (t == codes "file") returns (raises refl)

load-raise_example :
    is_load_error (ok (some (contents (codes "file")))) is_yaml_error overflow_error ≡ true
load-raise_example =
    load-raise infinite_world is_yaml_error (load_file-Raises _) (λ _. returns) (λ _. returns) none
      overflow_error infinite_overflow

load_field-Gives_example :
    load_field
      (load_file no_entries)
      ((codes "AGENTVM_API_PORT", codes "-12") ∷ [])
      "api"
      ports_file
      "port"
      int_kind
      (number 9090)
    ≡ ok (negsuc 11)
load_field-Gives_example =
    let env : Dict Text Text = (codes "AGENTVM_API_PORT", codes "-12") ∷ [] in
    let set : lookup (env_key "api" "port") env ≡ some (plain_text int_plain (negsuc 11)) =
      unfold env_key upper lookup to_str int_text in refl in
    load_field-Gives (load_file no_entries) env "api" ports_file "port" int_kind (number 9090)
      (negsuc 11) (by_environment int_plain set)
