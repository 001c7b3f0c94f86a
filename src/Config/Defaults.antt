-- ===== src/Config/Defaults.antt =====
-- What `load` makes of no file and no environment (src/agentvm/config.py).
use agent_vm.Base.{true, false, none, [], ◌∷◌, filter, any, contains, pos, text_eq, ◌≡◌, refl}
use agent_vm.Python.Result.{ok, raise, yaml_error}
use agent_vm.Python.Dict.{lookup}
use agent_vm.Python.Ip.{Ipv6, ip_address, ip_network, in_network}
use agent_vm.Python.Lines.{cut, attach}
use agent_vm.Python.Text.{Text, codes, strip, lower, parse_int, int_text, join, starts_with}
use agent_vm.Python.Value.{null, bool, int, float, str, infinity, int_of, to_str, truncate}
use agent_vm.Config.Coerce.{
  Yaml, scalar, mapping, Entries, no_entries, entry, find, Kind, list_kind, int_kind, ApiKeyConfig,
  coerce_value, coerce_bool, coerce_int, coerce_str, word_bool, coerce_list, coerce_items, items_of,
}
use agent_vm.Config.Records.{AgentVmConfig}
use agent_vm.Config.Sections.{
  upper, env_key, raw_value_of, load_field, load_section, load_host, load_storage, load_network,
  load_resources, load_auth_proxy, load_shared_folder, load_api, load_security, load_observability,
}
use agent_vm.Config.Validate.{
  required_dirs, ensure_directories, validate_ports, validate_resources, validate_network, validate,
}
use agent_vm.Python.Paths.{parent}
use agent_vm.Config.{
  Surroundings, load, load_yaml, build, selected_path, database_path, audit_log_full_path,
}

abbrev pub no_ipv6 : Ipv6
no_ipv6 = record { address = λ _. none; network = λ _. none }

-- No file is there, and every directory can be made.
abbrev pub no_file : Surroundings
no_file = record {
  safe_load = λ t. raise yaml_error;
  env = [];
  file = λ _. ok none;
  mkdir = λ _. ok tt;
  ipv6 = no_ipv6;
}

-- The configuration of the defaults.
abbrev pub default_config : AgentVmConfig
default_config = record {
  host = record { name = codes "agentvm-host-01"; max_vms = pos 20 };
  storage = record {
    base_dir = codes "/var/lib/agentvm";
    base_images_dir = codes "/var/lib/agentvm/base";
    vm_data_dir = codes "/var/lib/agentvm/vms";
    shared_dir = codes "/var/lib/agentvm/shared";
    proxy_dir = codes "/var/lib/agentvm/proxy";
    default_image = codes "ubuntu-24.04-amd64";
  };
  network = record {
    bridge_name = codes "agentvm-br0";
    bridge_subnet = codes "10.0.0.0/24";
    bridge_gateway = codes "10.0.0.1";
    dhcp_range_start = codes "10.0.0.100";
    dhcp_range_end = codes "10.0.0.254";
    default_bandwidth_mbps = pos 100;
    wan_interface = codes "eth0";
    default_policy = codes "strict";
  };
  resources = record {
    default_cpu_cores = pos 2;
    default_memory_mb = pos 4096;
    default_disk_gb = pos 20;
    max_cpu_cores = pos 16;
    max_memory_mb = pos 65536;
    max_disk_gb = pos 200;
    reserved_cores = pos 0 ∷ pos 1 ∷ [];
    reserved_memory_mb = pos 4096;
  };
  auth_proxy = record {
    enabled = true;
    port_range_start = pos 23760;
    binary_path = codes "/usr/local/bin/agentvm-auth-proxy";
    default_user = codes "agentvm-proxy";
  };
  shared_folder = record {
    enabled = true;
    driver = codes "virtiofs";
    guest_mount_point = codes "/mnt/shared";
    max_size_gb = pos 10;
    allow_symlinks = false;
  };
  api = record { host = codes "127.0.0.1"; port = pos 9090; api_keys = [] };
  security = record {
    selinux_enforcing = true;
    enable_audit_log = true;
    vm_max_lifetime_hours = pos 24;
    ssh_key_required = true;
  };
  observability = record {
    metrics_enabled = true;
    metrics_port = pos 9091;
    log_level = codes "INFO";
    console_log_dir = codes "/var/lib/agentvm/logs";
    audit_log_path = codes "/var/lib/agentvm/logs/audit.log";
  };
}

pub load_defaults : load no_file none ≡ ok default_config
unfolding load load_yaml build validate load_section load_host find load_field coerce_value
    coerce_str coerce_int raw_value_of lookup env_key upper int_of parse_int load_storage
    load_network load_resources coerce_list items_of coerce_items contains any filter
    agent_vm.Config.Coerce.coerce_api_key coerce_bool word_bool load_api load_auth_proxy
    load_observability load_security load_shared_folder ensure_directories parent
    agent_vm.Python.Paths.path_of agent_vm.Python.Paths.path_text
    agent_vm.Python.Paths.components_of required_dirs validate_network validate_ports
    validate_resources selected_path agent_vm.Python.Ip.digits_value agent_vm.Python.Ip.find_prefix
    in_network ip_address ip_network agent_vm.Python.Ip.is_decimal agent_vm.Python.Ip.parse_ipv4
    agent_vm.Python.Ip.parse_octet agent_vm.Python.Ip.parse_prefix attach cut
    agent_vm.Python.Text.decimal agent_vm.Python.Text.emit int_text agent_vm.Python.Text.is_space
    join lower agent_vm.Python.Text.parse_signed agent_vm.Python.Text.scan starts_with strip
    agent_vm.Python.Text.strip_left agent_vm.Python.Text.strip_right
    agent_vm.Python.Value.float_text to_str truncate
load_defaults = refl
