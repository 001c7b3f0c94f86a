-- ===== src/Config/Valid.antt =====
-- What a valid configuration is, apart from the tests of `AgentVMConfig.validate` (src/agentvm/config.py).
use agent_vm.Base.{
  ap, ℕ, ◌≤◌, ◌<◌, Bool, true, false, Option, some, List, [], ◌∷◌, ◌++◌, ℤ, pos, negsuc, All, ◌≡◌,
  refl, ◌↔◌, arith, Option-cases, inl, inr,
}
use agent_vm.Python.Result.{Result, ok, raise, >>=-eq-ok, ◌>>=◌, ok-injective, os_error}
use agent_vm.Python.Ip.{Ipv6, Address, Network, ip_address, ip_network, in_network}
use agent_vm.Python.Text.{Text, codes}
use agent_vm.Config.Records.{AgentVmConfig, ResourceConfig, NetworkConfig}
use agent_vm.Config.Validate.{
  Problem, unless, made, is_port, validate_ports, is_default, validate_resources, required_dirs,
  ensure_directories, placed, validate_network, validate,
}
use agent_vm.Config.{Surroundings, accept, load, load_yaml, build, selected_path}

abbrev pub IsPort : ℤ → Type 0
IsPort value = (n : ℕ) × (value ≡ pos n) × (1 ≤ n) × (n ≤ 65535)

abbrev pub IsDefault : ℤ → ℤ → Type 0
IsDefault default max = (d : ℕ) × (m : ℕ) × (default ≡ pos d) × (max ≡ pos m) × (0 < d) × (d ≤ m)

abbrev pub IsInside : Ipv6 → Network → Text → Type 0
IsInside ipv6 subnet text =
    (a : Address) × (ip_address ipv6 text ≡ some a) × (in_network a subnet ≡ true)

abbrev pub HasValidPorts : AgentVmConfig → Type 0
HasValidPorts c =
    IsPort c.api.port × (IsPort c.observability.metrics_port × IsPort c.auth_proxy.port_range_start)

abbrev pub HasValidDefaults : ResourceConfig → Type 0
HasValidDefaults r =
    IsDefault r.default_cpu_cores r.max_cpu_cores
    × (IsDefault r.default_memory_mb r.max_memory_mb × IsDefault r.default_disk_gb r.max_disk_gb)

abbrev pub IsValidNetwork : Ipv6 → NetworkConfig → Type 0
IsValidNetwork ipv6 n =
    (subnet : Network) × (ip_network ipv6 n.bridge_subnet ≡ some subnet)
    × (IsInside ipv6 subnet n.bridge_gateway
        × (IsInside ipv6 subnet n.dhcp_range_start × IsInside ipv6 subnet n.dhcp_range_end))

-- The ports are ports, a default is positive and no more than its maximum, the bridge's addresses lie
-- in its subnet, and the directories can be made.
abbrev pub IsValid : Ipv6 → (Text → Result (Unit {0})) → AgentVmConfig → Type 0
IsValid ipv6 mkdir c =
    HasValidPorts c
    × (HasValidDefaults c.resources
        × (IsValidNetwork ipv6 c.network × All (λ d. mkdir d ≡ ok tt) (required_dirs c)))

-- No error of two lists means none of either.
append_empty : (xs ys : List Problem) → ((xs ++ ys) ≡ []) ↔ ((xs ≡ []) × (ys ≡ []))
append_empty [] ys = (λ h. (refl, h), λ (_, h). h)
append_empty (x ∷ xs) ys = (λ h. absurd cc, λ (h, _). absurd cc)

both :
    {xs ys : List Problem} {P Q : Type 0}
    → ((xs ≡ []) ↔ P)
    → ((ys ≡ []) ↔ Q)
    → ((xs ++ ys) ≡ []) ↔ (P × Q)
both {xs} {ys} f g = (
  λ h. let (hx, hy) = (append_empty xs ys).0 h in (f.0 hx, g.0 hy),
  λ (p, q). (append_empty xs ys).1 (f.1 p, g.1 q),
)

unless_empty : (b : Bool) (problem : Problem) → (unless b problem ≡ []) ↔ (b ≡ true)
unless_empty true problem = (λ _. refl, λ _. refl)
unless_empty false problem = (λ h. absurd cc, λ h. absurd cc)

is_port_iff : (value : ℤ) → (is_port value ≡ true) ↔ IsPort value
is_port_iff (pos n) =
    (λ h. (n, refl, ground arith, ground arith), λ (m, same, low, high). ground arith)
is_port_iff (negsuc n) = (λ h. absurd (ground arith), λ (m, same, low, high). absurd cc)

is_default_iff : (d m : ℤ) → (is_default d m ≡ true) ↔ IsDefault d m
is_default_iff (pos d) (pos m) = (
  λ h. (d, m, refl, refl, ground arith, ground arith),
  λ (d', m', same, same', low, high). ground arith,
)
is_default_iff (negsuc d) m =
    (λ h. absurd (ground arith), λ (d', m', same, same', low, high). absurd cc)
is_default_iff (pos d) (negsuc m) =
    (λ h. absurd (ground arith), λ (d', m', same', same, low, high). absurd cc)

through : {P Q R : Type 0} → (P ↔ Q) → (Q ↔ R) → P ↔ R
through f g = (λ p. g.0 (f.0 p), λ r. f.1 (g.1 r))

port_lem : (value : ℤ) (problem : Problem) → (unless (is_port value) problem ≡ []) ↔ IsPort value
port_lem value problem = through (unless_empty (is_port value) problem) (is_port_iff value)

validate_ports_iff : (c : AgentVmConfig) → (validate_ports c ≡ []) ↔ HasValidPorts c
unfolding validate_ports
validate_ports_iff c =
    both (port_lem c.api.port _)
      (both (port_lem c.observability.metrics_port _) (port_lem c.auth_proxy.port_range_start _))

default_lem : (d m : ℤ) (problem : Problem) → (unless (is_default d m) problem ≡ []) ↔ IsDefault d m
default_lem d m problem = through (unless_empty (is_default d m) problem) (is_default_iff d m)

validate_resources_iff : (r : ResourceConfig) → (validate_resources r ≡ []) ↔ HasValidDefaults r
unfolding validate_resources
validate_resources_iff r = both (default_lem r.default_cpu_cores r.max_cpu_cores _) (
    both (default_lem r.default_memory_mb r.max_memory_mb _)
      (default_lem r.default_disk_gb r.max_disk_gb _))

made_iff : (entry : Text) (r : Result (Unit {0})) → (made entry r ≡ ok []) ↔ (r ≡ ok tt)
made_iff entry (ok _) = (λ _. refl, λ _. refl)
made_iff entry (raise os_error) = (λ h. absurd cc, λ h. absurd cc)
made_iff entry (raise _) = (λ h. absurd cc, λ h. absurd cc)

-- No error of two parts means none of either.
both_returned :
    (r s : Result (List Problem))
    → ((do problems ← r; others ← s; ok (problems ++ others)) ≡ ok []) ↔ ((r ≡ ok []) × (s ≡ ok []))
both_returned (raise error) s = (λ h. absurd cc, λ (h, _). absurd cc)
both_returned (ok xs) (raise error) = (λ h. absurd cc, λ (_, h). absurd cc)
both_returned (ok xs) (ok ys) = (
  λ h. let (hx, hy) = (append_empty xs ys).0 (ok-injective h) in (ap ok hx, ap ok hy),
  λ (hx, hy). ap ok ((append_empty xs ys).1 (ok-injective hx, ok-injective hy)),
)

ensure_directories_iff :
    (mkdir : Text → Result (Unit {0})) (entries : List Text)
    → (ensure_directories mkdir entries ≡ ok []) ↔ All (λ d. mkdir d ≡ ok tt) entries
unfolding ensure_directories
ensure_directories_iff mkdir [] = (λ _. tt, λ _. refl)
ensure_directories_iff mkdir (entry ∷ entries) =
    let parts = both_returned (made entry (mkdir entry)) (ensure_directories mkdir entries) in
    let each = made_iff entry (mkdir entry) in
    let others = ensure_directories_iff mkdir entries in
    (
      λ h. let (first, rest) = parts.0 h in (each.0 first, others.0 rest),
      λ (first, rest). parts.1 (each.1 first, others.1 rest),
    )

placed_iff :
    (ipv6 : Ipv6) (name : Text) (subnet : Network) (text : Text)
    → (placed name subnet (ip_address ipv6 text) ≡ []) ↔ IsInside ipv6 subnet text
placed_iff ipv6 name subnet text = elim (Option-cases (ip_address ipv6 text)) [
  | inl failed ↦ rw failed (λ h. absurd cc, λ (a, h, _). absurd cc)
  | inr (a, read) ↦ rw read (
    λ h. (a, refl, (unless_empty (in_network a subnet) _).0 h),
    λ (b, same, h). let equal : a ≡ b = cc in (unless_empty (in_network a subnet) _).1 (rw equal h),
  )
]

validate_network_iff :
    (ipv6 : Ipv6) (n : NetworkConfig) → (validate_network ipv6 n ≡ []) ↔ IsValidNetwork ipv6 n
unfolding validate_network
validate_network_iff ipv6 n = elim (Option-cases (ip_network ipv6 n.bridge_subnet)) [
  | inl failed ↦ rw failed (λ h. absurd cc, λ (subnet, h, _). absurd cc)
  | inr (subnet, read) ↦
      let inside = both (placed_iff ipv6 (codes "network.bridge_gateway") subnet n.bridge_gateway) (
        both (placed_iff ipv6 (codes "network.dhcp_range_start") subnet n.dhcp_range_start)
          (placed_iff ipv6 (codes "network.dhcp_range_end") subnet n.dhcp_range_end)) in
      rw read (
        λ h. (subnet, refl, inside.0 h),
        λ (other, same, h). let equal : subnet ≡ other = cc in inside.1 (rw equal h),
      )
]

no_problem_iff :
    (ipv6 : Ipv6) (c : AgentVmConfig) (problems : List Problem)
    → ((validate_ports c
          ++ (validate_resources c.resources ++ (validate_network ipv6 c.network ++ problems)))
        ≡ [])
      ↔ (HasValidPorts c
          × (HasValidDefaults c.resources × (IsValidNetwork ipv6 c.network × (problems ≡ []))))
no_problem_iff ipv6 c problems = both (validate_ports_iff c) (
    both (validate_resources_iff c.resources)
      (both (validate_network_iff ipv6 c.network) (λ h. h, λ h. h)))

-- `validate` reports no error exactly of a valid configuration.
pub validate_iff :
    (ipv6 : Ipv6) (mkdir : Text → Result (Unit {0})) (c : AgentVmConfig)
    → (validate ipv6 mkdir c ≡ ok []) ↔ IsValid ipv6 mkdir c
unfolding validate
validate_iff ipv6 mkdir c =
    let directories = ensure_directories_iff mkdir (required_dirs c) in
    (
      λ h.
          let (problems, tried, none_found) =
            >>=-eq-ok (ensure_directories mkdir (required_dirs c)) _ h in
          let (ports, (resources, (network, empty))) =
            (no_problem_iff ipv6 c problems).0 (ok-injective none_found) in
          (ports, (resources, (network, directories.0 (rw (← empty) tried)))),
      λ (ports, (resources, (network, can_be_made))).
          rw (directories.1 can_be_made)
            (ap ok ((no_problem_iff ipv6 c []).1 (ports, (resources, (network, refl))))),
    )

accept_lem :
    (config : AgentVmConfig) (problems : List Problem) {c : AgentVmConfig}
    → accept config problems ≡ ok c
    → (config ≡ c) × (problems ≡ [])
accept_lem config [] h = (cc, refl)
accept_lem config (problem ∷ problems) h = absurd cc

-- A configuration that `load` returns is valid.
pub load-IsValid :
    (w : Surroundings) (config_path : Option Text) {c : AgentVmConfig}
    → load w config_path ≡ ok c
    → IsValid w.ipv6 w.mkdir c
unfolding load
load-IsValid w config_path returned =
    let (entries, _, built) =
      >>=-eq-ok (load_yaml w.safe_load (w.file (selected_path config_path w.env))) _ returned in
    let (config, _, accepted) = >>=-eq-ok (build w entries) _ built in
    let (errors, validated, passed) = >>=-eq-ok (validate w.ipv6 w.mkdir config) _ accepted in
    let (same, no_problem) = accept_lem config errors passed in
    (validate_iff w.ipv6 w.mkdir _).0 (rw (no_problem, same) at validated)
