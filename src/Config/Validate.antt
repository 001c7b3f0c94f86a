-- ===== src/Config/Validate.antt =====
-- `AgentVMConfig.validate` (src/agentvm/config.py). An error message is represented by its cause.
use agent_vm.Base.{
  Bool, true, false, ◌&&◌, ◌||◌, not, Option, none, some, List, [], ◌∷◌, ◌++◌, ℤ, pos, leb_ℤ, ltb_ℤ,
  text_eq,
}
use agent_vm.Python.Ip.{Ipv6, Address, Network, ip_address, ip_network, in_network}
use agent_vm.Python.Result.{Result, ok, raise, ◌>>=◌, os_error}
use agent_vm.Python.Paths.{parent}
use agent_vm.Python.Text.{Text, codes}
use agent_vm.Config.Records.{AgentVmConfig, ResourceConfig, NetworkConfig}

pub data Problem : Type 0 where
  port_out_of_range bad_default invalid_ip outside_subnet : Text → Problem
  invalid_subnet : Problem
  no_directory : Text → Problem

-- `errors.append(…)`, unless the test holds
abbrev pub unless : Bool → Problem → List Problem
unless true problem = []
unless false problem = problem ∷ []

abbrev pub is_port : ℤ → Bool
is_port value = leb_ℤ (pos 1) value && leb_ℤ value (pos 65535)

-- `_validate_ports`
unfoldable pub validate_ports : AgentVmConfig → List Problem
validate_ports config =
    unless (is_port config.api.port) (port_out_of_range (codes "api.port"))
    ++ (unless (is_port config.observability.metrics_port)
          (port_out_of_range (codes "observability.metrics_port"))
        ++ unless (is_port config.auth_proxy.port_range_start)
            (port_out_of_range (codes "auth_proxy.port_range_start")))

abbrev pub is_default : ℤ → ℤ → Bool
is_default default max = not (leb_ℤ default (pos 0) || ltb_ℤ max default)

-- `_validate_resources`
unfoldable pub validate_resources : ResourceConfig → List Problem
validate_resources r =
    unless (is_default r.default_cpu_cores r.max_cpu_cores)
      (bad_default (codes "resources.default_cpu_cores"))
    ++ (unless (is_default r.default_memory_mb r.max_memory_mb)
          (bad_default (codes "resources.default_memory_mb"))
        ++ unless (is_default r.default_disk_gb r.max_disk_gb)
            (bad_default (codes "resources.default_disk_gb")))

unfoldable pub required_dirs : AgentVmConfig → List Text
required_dirs c =
    c.storage.base_dir
    ∷ c.storage.base_images_dir
    ∷ c.storage.vm_data_dir
    ∷ c.storage.shared_dir
    ∷ c.storage.proxy_dir
    ∷ c.observability.console_log_dir
    ∷ parent c.observability.audit_log_path
    ∷ []

-- `except OSError`; any other exception passes, as the `ValueError` of a path with a NUL.
abbrev pub made : Text → Result (Unit {0}) → Result (List Problem)
made entry (ok _) = ok []
made entry (raise os_error) = ok (no_directory entry ∷ [])
made entry (raise error) = raise error

-- `mkdir` is what making a directory comes to.
unfoldable pub ensure_directories : (Text → Result (Unit {0})) → List Text → Result (List Problem)
ensure_directories mkdir [] = ok []
ensure_directories mkdir (entry ∷ entries) = do
  problems ← made entry (mkdir entry)
  others ← ensure_directories mkdir entries
  ok (problems ++ others)

abbrev pub placed : Text → Network → Option Address → List Problem
placed name subnet none = invalid_ip name ∷ []
placed name subnet (some candidate) = unless (in_network candidate subnet) (outside_subnet name)

module _ (ipv6 : Ipv6) where
  abbrev pub validate_addresses : NetworkConfig → Option Network → List Problem
  validate_addresses n none = invalid_subnet ∷ []
  validate_addresses n (some subnet) =
      placed (codes "network.bridge_gateway") subnet (ip_address ipv6 n.bridge_gateway)
      ++ (placed (codes "network.dhcp_range_start") subnet (ip_address ipv6 n.dhcp_range_start)
          ++ placed (codes "network.dhcp_range_end") subnet (ip_address ipv6 n.dhcp_range_end))

  -- `_validate_network`
  unfoldable pub validate_network : NetworkConfig → List Problem
  validate_network n = validate_addresses n (ip_network ipv6 n.bridge_subnet)

  unfoldable pub validate : (Text → Result (Unit {0})) → AgentVmConfig → Result (List Problem)
  validate mkdir c = do
    directories ← ensure_directories mkdir (required_dirs c)
    ok (
        validate_ports c
        ++ (validate_resources c.resources ++ (validate_network c.network ++ directories)))
