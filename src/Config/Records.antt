-- ===== src/Config/Records.antt =====
-- The sections of the configuration (src/agentvm/config.py).
use agent_vm.Base.{Bool, List, ◌++◌, ℤ, ◌≡◌, refl}
use agent_vm.Python.Text.{Text, codes}
use agent_vm.Config.Coerce.{ApiKeyConfig}

-- `APIKeyConfig.__repr__`, given Python's `repr` of a text and of a list of texts
unfoldable pub api_key_repr : (Text → Text) → (List Text → Text) → ApiKeyConfig → Text
api_key_repr repr_text repr_list c =
    codes "APIKeyConfig(key='***REDACTED***', name="
    ++ (repr_text c.name ++ (codes ", permissions=" ++ (repr_list c.permissions ++ codes ")")))

-- Whatever the key, the representation is the same.
api_key_repr_redacted :
    (repr_text : Text → Text) (repr_list : List Text → Text) (c : ApiKeyConfig) (key : Text)
    → api_key_repr repr_text repr_list (record c { key = key }) ≡ api_key_repr repr_text repr_list c
unfolding api_key_repr
api_key_repr_redacted repr_text repr_list c key = refl

pub record HostConfig : Type 0 where
  pub name : Text
  pub max_vms : ℤ

pub record StorageConfig : Type 0 where
  pub base_dir : Text
  pub base_images_dir : Text
  pub vm_data_dir : Text
  pub shared_dir : Text
  pub proxy_dir : Text
  pub default_image : Text

pub record NetworkConfig : Type 0 where
  pub bridge_name : Text
  pub bridge_subnet : Text
  pub bridge_gateway : Text
  pub dhcp_range_start : Text
  pub dhcp_range_end : Text
  pub default_bandwidth_mbps : ℤ
  pub wan_interface : Text
  pub default_policy : Text

pub record ResourceConfig : Type 0 where
  pub default_cpu_cores : ℤ
  pub default_memory_mb : ℤ
  pub default_disk_gb : ℤ
  pub max_cpu_cores : ℤ
  pub max_memory_mb : ℤ
  pub max_disk_gb : ℤ
  pub reserved_cores : List ℤ
  pub reserved_memory_mb : ℤ

pub record AuthProxyConfig : Type 0 where
  pub enabled : Bool
  pub port_range_start : ℤ
  pub binary_path : Text
  pub default_user : Text

pub record SharedFolderConfig : Type 0 where
  pub enabled : Bool
  pub driver : Text
  pub guest_mount_point : Text
  pub max_size_gb : ℤ
  pub allow_symlinks : Bool

pub record ApiConfig : Type 0 where
  pub host : Text
  pub port : ℤ
  pub api_keys : List ApiKeyConfig

pub record SecurityConfig : Type 0 where
  pub selinux_enforcing : Bool
  pub enable_audit_log : Bool
  pub vm_max_lifetime_hours : ℤ
  pub ssh_key_required : Bool

pub record ObservabilityConfig : Type 0 where
  pub metrics_enabled : Bool
  pub metrics_port : ℤ
  pub log_level : Text
  pub console_log_dir : Text
  pub audit_log_path : Text

pub record AgentVmConfig : Type 0 where
  pub host : HostConfig
  pub storage : StorageConfig
  pub network : NetworkConfig
  pub resources : ResourceConfig
  pub auth_proxy : AuthProxyConfig
  pub shared_folder : SharedFolderConfig
  pub api : ApiConfig
  pub security : SecurityConfig
  pub observability : ObservabilityConfig
