-- ===== src/Config/Sections.antt =====
-- `_load_section` and the fields of each section (src/agentvm/config.py).
use agent_vm.Base.{
  ℕ, ◌-◌, String, Bool, true, false, ◌&&◌, Option, none, some, ◌++◌, map, leb, if◌then◌else◌, pos,
  text_eq,
}
use agent_vm.Python.Result.{Result, ok, raise, ◌>>=◌, type_error, value_error, config_error}
use agent_vm.Python.Dict.{Dict, lookup}
use agent_vm.Python.Text.{Text, codes}
use agent_vm.Python.Value.{null, bool, int, str}
use agent_vm.Config.Records.{
  HostConfig, StorageConfig, NetworkConfig, ResourceConfig, AuthProxyConfig, SharedFolderConfig,
  ApiConfig, SecurityConfig, ObservabilityConfig,
}
use agent_vm.Config.Coerce.{
  Yaml, scalar, list, mapping, no_items, item, Entries, no_entries, find, or_value, Kind, bool_kind,
  int_kind, str_kind, api_key_kind, list_kind, Coerced, coerce_value,
}

-- `text.upper()`, for the ASCII letters of a name
unfoldable pub upper : Text → Text
upper = map (λ c. if leb 97 c && leb c 122 then c - 32 else c)

-- f"AGENTVM_{section.upper()}_{name.upper()}"
unfoldable pub env_key : String → String → Text
env_key section name =
    codes "AGENTVM_" ++ (upper (codes section) ++ (codes "_" ++ upper (codes name)))

-- `except (TypeError, ValueError)` of `_load_section`; a `UnicodeError` is a `ValueError`
abbrev pub as_config_error {ℓ} : {A : Type ℓ} → Result A → Result A
as_config_error (raise type_error) = raise config_error
as_config_error (raise value_error) = raise config_error
as_config_error result = result

abbrev pub text : String → Yaml
text t = scalar (str (codes t))

abbrev pub number : ℕ → Yaml
number n = scalar (int (pos n))

abbrev pub flag : Bool → Yaml
flag b = scalar (bool b)

-- `source.get(section_name, {})`, with null for an empty section
abbrev pub section_entries : Option Yaml → Result Entries
section_entries none = ok no_entries
section_entries (some (scalar null)) = ok no_entries
section_entries (some (mapping _ entries)) = ok entries
section_entries (some _) = raise config_error

module _ (safe_load : Text → Result Yaml) (env : Dict Text Text) where
  -- The environment's text, or else the file's value, or else the default.
  unfoldable pub raw_value_of : String → String → Yaml → Entries → Yaml
  raw_value_of section name default entries = elim (lookup (env_key section name) env) [
    | some t ↦ scalar (str t)
    | none ↦ or_value default (find (codes name) entries)
  ]

  -- one round of the loop of `_load_section`
  unfoldable pub load_field : String → Entries → String → (k : Kind) → Yaml → Result (Coerced k)
  load_field section entries name k default =
      as_config_error (coerce_value safe_load k (raw_value_of section name default entries))

  unfoldable pub load_host : Entries → Result HostConfig
  load_host entries = do
    name ← load_field "host" entries "name" str_kind (text "agentvm-host-01")
    max_vms ← load_field "host" entries "max_vms" int_kind (number 20)
    ok (record { name = name; max_vms = max_vms })

  unfoldable pub load_storage : Entries → Result StorageConfig
  load_storage entries = do
    base_dir ← load_field "storage" entries "base_dir" str_kind (text "/var/lib/agentvm")
    base_images_dir ←
        load_field "storage" entries "base_images_dir" str_kind (text "/var/lib/agentvm/base")
    vm_data_dir ← load_field "storage" entries "vm_data_dir" str_kind (text "/var/lib/agentvm/vms")
    shared_dir ← load_field "storage" entries "shared_dir" str_kind (text "/var/lib/agentvm/shared")
    proxy_dir ← load_field "storage" entries "proxy_dir" str_kind (text "/var/lib/agentvm/proxy")
    default_image ←
        load_field "storage" entries "default_image" str_kind (text "ubuntu-24.04-amd64")
    ok (record {
      base_dir = base_dir;
      base_images_dir = base_images_dir;
      vm_data_dir = vm_data_dir;
      shared_dir = shared_dir;
      proxy_dir = proxy_dir;
      default_image = default_image;
    })

  unfoldable pub load_network : Entries → Result NetworkConfig
  load_network entries = do
    bridge_name ← load_field "network" entries "bridge_name" str_kind (text "agentvm-br0")
    bridge_subnet ← load_field "network" entries "bridge_subnet" str_kind (text "10.0.0.0/24")
    bridge_gateway ← load_field "network" entries "bridge_gateway" str_kind (text "10.0.0.1")
    dhcp_range_start ← load_field "network" entries "dhcp_range_start" str_kind (text "10.0.0.100")
    dhcp_range_end ← load_field "network" entries "dhcp_range_end" str_kind (text "10.0.0.254")
    default_bandwidth_mbps ←
        load_field "network" entries "default_bandwidth_mbps" int_kind (number 100)
    wan_interface ← load_field "network" entries "wan_interface" str_kind (text "eth0")
    default_policy ← load_field "network" entries "default_policy" str_kind (text "strict")
    ok (record {
      bridge_name = bridge_name;
      bridge_subnet = bridge_subnet;
      bridge_gateway = bridge_gateway;
      dhcp_range_start = dhcp_range_start;
      dhcp_range_end = dhcp_range_end;
      default_bandwidth_mbps = default_bandwidth_mbps;
      wan_interface = wan_interface;
      default_policy = default_policy;
    })

  unfoldable pub load_resources : Entries → Result ResourceConfig
  load_resources entries = do
    default_cpu_cores ← load_field "resources" entries "default_cpu_cores" int_kind (number 2)
    default_memory_mb ← load_field "resources" entries "default_memory_mb" int_kind (number 4096)
    default_disk_gb ← load_field "resources" entries "default_disk_gb" int_kind (number 20)
    max_cpu_cores ← load_field "resources" entries "max_cpu_cores" int_kind (number 16)
    max_memory_mb ← load_field "resources" entries "max_memory_mb" int_kind (number 65536)
    max_disk_gb ← load_field "resources" entries "max_disk_gb" int_kind (number 200)
    reserved_cores ←
        load_field "resources" entries "reserved_cores" (list_kind int_kind)
          (list (codes "[0, 1]") (item (number 0) (item (number 1) no_items)))
    reserved_memory_mb ← load_field "resources" entries "reserved_memory_mb" int_kind (number 4096)
    ok (record {
      default_cpu_cores = default_cpu_cores;
      default_memory_mb = default_memory_mb;
      default_disk_gb = default_disk_gb;
      max_cpu_cores = max_cpu_cores;
      max_memory_mb = max_memory_mb;
      max_disk_gb = max_disk_gb;
      reserved_cores = reserved_cores;
      reserved_memory_mb = reserved_memory_mb;
    })

  unfoldable pub load_auth_proxy : Entries → Result AuthProxyConfig
  load_auth_proxy entries = do
    enabled ← load_field "auth_proxy" entries "enabled" bool_kind (flag true)
    port_range_start ← load_field "auth_proxy" entries "port_range_start" int_kind (number 23760)
    binary_path ←
        load_field "auth_proxy" entries "binary_path" str_kind
          (text "/usr/local/bin/agentvm-auth-proxy")
    default_user ← load_field "auth_proxy" entries "default_user" str_kind (text "agentvm-proxy")
    ok (record {
      enabled = enabled;
      port_range_start = port_range_start;
      binary_path = binary_path;
      default_user = default_user;
    })

  unfoldable pub load_shared_folder : Entries → Result SharedFolderConfig
  load_shared_folder entries = do
    enabled ← load_field "shared_folder" entries "enabled" bool_kind (flag true)
    driver ← load_field "shared_folder" entries "driver" str_kind (text "virtiofs")
    guest_mount_point ←
        load_field "shared_folder" entries "guest_mount_point" str_kind (text "/mnt/shared")
    max_size_gb ← load_field "shared_folder" entries "max_size_gb" int_kind (number 10)
    allow_symlinks ← load_field "shared_folder" entries "allow_symlinks" bool_kind (flag false)
    ok (record {
      enabled = enabled;
      driver = driver;
      guest_mount_point = guest_mount_point;
      max_size_gb = max_size_gb;
      allow_symlinks = allow_symlinks;
    })

  unfoldable pub load_api : Entries → Result ApiConfig
  load_api entries = do
    host ← load_field "api" entries "host" str_kind (text "127.0.0.1")
    port ← load_field "api" entries "port" int_kind (number 9090)
    api_keys ←
        load_field "api" entries "api_keys" (list_kind api_key_kind) (list (codes "[]") no_items)
    ok (record { host = host; port = port; api_keys = api_keys })

  unfoldable pub load_security : Entries → Result SecurityConfig
  load_security entries = do
    selinux_enforcing ← load_field "security" entries "selinux_enforcing" bool_kind (flag true)
    enable_audit_log ← load_field "security" entries "enable_audit_log" bool_kind (flag true)
    vm_max_lifetime_hours ←
        load_field "security" entries "vm_max_lifetime_hours" int_kind (number 24)
    ssh_key_required ← load_field "security" entries "ssh_key_required" bool_kind (flag true)
    ok (record {
      selinux_enforcing = selinux_enforcing;
      enable_audit_log = enable_audit_log;
      vm_max_lifetime_hours = vm_max_lifetime_hours;
      ssh_key_required = ssh_key_required;
    })

  unfoldable pub load_observability : Entries → Result ObservabilityConfig
  load_observability entries = do
    metrics_enabled ← load_field "observability" entries "metrics_enabled" bool_kind (flag true)
    metrics_port ← load_field "observability" entries "metrics_port" int_kind (number 9091)
    log_level ← load_field "observability" entries "log_level" str_kind (text "INFO")
    console_log_dir ←
        load_field "observability" entries "console_log_dir" str_kind (text "/var/lib/agentvm/logs")
    audit_log_path ←
        load_field "observability" entries "audit_log_path" str_kind
          (text "/var/lib/agentvm/logs/audit.log")
    ok (record {
      metrics_enabled = metrics_enabled;
      metrics_port = metrics_port;
      log_level = log_level;
      console_log_dir = console_log_dir;
      audit_log_path = audit_log_path;
    })

  -- `_load_section`
  unfoldable pub load_section {ℓ} :
      {A : Type ℓ} → (Entries → Result A) → String → Entries → Result A
  load_section load_fields section source = do
    entries ← section_entries (find (codes section) source)
    load_fields entries
