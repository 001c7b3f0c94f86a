-- ===== src/CpuMap.antt =====
-- `CPUMapManager` and `detect_nested_virt_support` of src/agentvm/host/cpu_map.py, over the files of
-- sysfs. The names that match `cpu[0-9]*` and `node[0-9]*` go on with a digit, so their numbers have
-- no sign.
pub mod CpuList
pub mod Ascending
pub mod RoundTrip
pub mod Allocation
pub mod Chosen
pub mod Locality
mod Tests
use agent_vm.Base.{
  ℕ, zero, suc, ◌+◌, ◌-◌, Bool, true, false, ◌||◌, not, Option, none, some, List, [], ◌∷◌, ◌++◌,
  map, length, filter, any, take, contains, leb, nat_beq, if◌then◌else◌, ℤ, pos, negsuc, leb_ℤ,
  ◌==◌, nat_eq, text_eq, int_eq,
}
use agent_vm.Python.Result.{Result, ok, raise, ◌>>=◌, value_error}
use agent_vm.Python.Dict.{Dict, keys, values, lookup, get_or, insert}
use agent_vm.Python.Text.{Text, codes, strip, lower, parse_int}
use agent_vm.Sql.Order.{sort}
use agent_vm.Capacity.Readings.{Reading, contents, unreadable, undecodable}
use agent_vm.CpuMap.CpuList.{parse_natural, parse_cpu_list, format_cpuset, count_up}

pub record CpuTopology : Type 0 where
  pub total_cores : ℕ
  pub cores_per_socket : ℕ
  pub numa_nodes : ℕ
  pub cores_per_numa : List ℕ
  pub hyperthread_pairs : Dict ℕ ℕ
  pub nested_virtualization : Bool

-- the files under cpu{id}/topology
pub record CpuFiles : Type 0 where
  pub core_id : Reading
  pub physical_package_id : Reading
  pub thread_siblings_list : Reading

-- What stands under the three roots: what follows "cpu" and "node" in the names that match, in the
-- order of `glob`, and what each file reads as.
pub record Sysfs : Type 0 where
  pub cpu_names : List Text
  pub cpu_files : ℕ → CpuFiles
  pub nodes : List (Text × Reading)
  pub kvm_intel_nested : Reading
  pub kvm_amd_nested : Reading

unfoldable pub is_enabled : Text → Bool
is_enabled value =
    let normalized = lower (strip value) in
    (normalized == codes "y") || (normalized == codes "1") || (normalized == codes "true")

-- the loop of `detect_nested_virt_support`
unfoldable pub detect_nested : List Reading → Result Bool
detect_nested [] = ok false
detect_nested (unreadable ∷ candidates) = detect_nested candidates
detect_nested (undecodable ∷ candidates) = raise value_error
detect_nested (contents value ∷ candidates) = elim (is_enabled value) [
  | true ↦ ok true
  | false ↦ detect_nested candidates
]

abbrev pub detect_nested_virt_support : Sysfs → Result Bool
detect_nested_virt_support sys = detect_nested (sys.kvm_intel_nested ∷ sys.kvm_amd_nested ∷ [])

abbrev pub known_id : Result ℕ → List ℕ → List ℕ
known_id (ok cpu_id) cpu_ids = cpu_id ∷ cpu_ids
known_id (raise _) cpu_ids = cpu_ids

-- the names that `int` reads
unfoldable pub cpu_ids_of : List Text → List ℕ
cpu_ids_of [] = []
cpu_ids_of (name ∷ names) = known_id (parse_natural name) (cpu_ids_of names)

-- `_discover_cpu_ids`
unfoldable pub discover_cpu_ids : Sysfs → List ℕ
discover_cpu_ids sys = sort leb (cpu_ids_of sys.cpu_names)

-- one node whose name `int` reads
abbrev pub add_node : ℕ → Reading → Dict ℕ (List ℕ) → Result (Dict ℕ (List ℕ))
add_node node_id unreadable numa = ok numa
add_node node_id undecodable numa = raise value_error
add_node node_id (contents cpulist) numa = do
  cores ← parse_cpu_list (strip cpulist)
  ok (insert node_id cores numa)

abbrev pub add_named : Result ℕ → Reading → Dict ℕ (List ℕ) → Result (Dict ℕ (List ℕ))
add_named (ok node_id) cpulist numa = add_node node_id cpulist numa
add_named (raise _) cpulist numa = ok numa

-- the loop of `_discover_numa_cores`
unfoldable pub numa_of : List (Text × Reading) → Dict ℕ (List ℕ) → Result (Dict ℕ (List ℕ))
numa_of [] numa = ok numa
numa_of ((name, cpulist) ∷ nodes) numa = do
  numa' ← add_named (parse_natural name) cpulist numa
  numa_of nodes numa'

abbrev pub discover_numa_cores : Sysfs → Result (Dict ℕ (List ℕ))
discover_numa_cores sys = numa_of sys.nodes []

-- two siblings are a pair, any other number of them is none
abbrev pub add_pair : List ℕ → Dict ℕ ℕ → Dict ℕ ℕ
add_pair (first ∷ second ∷ []) output = insert second first (insert first second output)
add_pair _ output = output

-- `_collect_hyperthread_pairs`
unfoldable pub collect_hyperthread_pairs : Reading → Dict ℕ ℕ → Result (Dict ℕ ℕ)
collect_hyperthread_pairs unreadable output = ok output
collect_hyperthread_pairs undecodable output = raise value_error
collect_hyperthread_pairs (contents siblings_raw) output = do
  siblings ← parse_cpu_list (strip siblings_raw)
  ok (add_pair siblings output)

abbrev pub or_default : ℤ → Result ℤ → ℤ
or_default default (ok n) = n
or_default default (raise _) = default

-- `_read_int`
unfoldable pub read_int : Reading → ℤ → ℤ
read_int (contents text) default = or_default default (parse_int (strip text))
read_int _ default = default

-- `package_to_cores.setdefault(package_id, set()).add(core_id)`
unfoldable pub add_core : ℤ → ℤ → Dict ℤ (List ℤ) → Dict ℤ (List ℤ)
add_core package_id core_id packages =
    let cores = get_or package_id [] packages in
    insert package_id (if contains core_id cores then cores else core_id ∷ cores) packages

-- the loop of `get_topology`, with `package_to_cores` and `hyperthread_pairs`
unfoldable pub read_cpus :
    (ℕ → CpuFiles) → List ℕ → Dict ℤ (List ℤ) → Dict ℕ ℕ → Result (Dict ℤ (List ℤ) × Dict ℕ ℕ)
read_cpus files [] packages pairs = ok (packages, pairs)
read_cpus files (cpu_id ∷ cpu_ids) packages pairs =
    let core_id = read_int ((files cpu_id).core_id) (pos cpu_id) in
    let package_id = read_int ((files cpu_id).physical_package_id) (pos 0) in
    do
      pairs' ← collect_hyperthread_pairs ((files cpu_id).thread_siblings_list) pairs
      read_cpus files cpu_ids (add_core package_id core_id packages) pairs'

-- `max(lengths, default=default)`
unfoldable pub largest : List ℕ → ℕ → ℕ
largest [] default = default
largest (n ∷ []) default = n
largest (n ∷ m ∷ lengths) default =
    let rest = largest (m ∷ lengths) default in if leb rest n then n else rest

-- `cpu_ids`, or CPU 0 where there are none
abbrev pub or_cpu_0 : List ℕ → List ℕ
or_cpu_0 [] = 0 ∷ []
or_cpu_0 (cpu_id ∷ cpu_ids) = cpu_id ∷ cpu_ids

-- `numa_cores`, or one node where there are none
abbrev pub or_one_node : List ℕ → Dict ℕ (List ℕ) → Dict ℕ (List ℕ)
or_one_node cores [] = (0, cores) ∷ []
or_one_node cores (node ∷ numa) = node ∷ numa

-- `sorted(numa_cores.items())`: no node id stands twice
abbrev pub sorted_items : Dict ℕ (List ℕ) → Dict ℕ (List ℕ)
sorted_items = sort (λ a b. leb a.0 b.0)

unfoldable pub get_topology : Sysfs → Result CpuTopology
get_topology sys = do
  let cpu_ids = or_cpu_0 (discover_cpu_ids sys)
  (packages, hyperthread_pairs) ← read_cpus sys.cpu_files cpu_ids [] []
  discovered ← discover_numa_cores sys
  let numa_cores = or_one_node cpu_ids discovered
  nested_virtualization ← detect_nested_virt_support sys
  ok (record {
    total_cores = length cpu_ids;
    cores_per_socket = largest (map length (values packages)) (length cpu_ids);
    numa_nodes = length numa_cores;
    cores_per_numa = map length (values (sorted_items numa_cores));
    hyperthread_pairs = hyperthread_pairs;
    nested_virtualization = nested_virtualization;
  })

-- `hyperthread_pairs.get(core)`
abbrev pub sibling_of : Dict ℕ ℕ → ℤ → Option ℕ
sibling_of pairs (pos core) = lookup core pairs
sibling_of pairs (negsuc _) = none

abbrev pub is_sibling : ℕ → Option ℕ → Bool
is_sibling core none = false
is_sibling core (some sibling) = nat_beq sibling core

-- `core in blocked`
unfoldable pub is_blocked : Dict ℕ ℕ → List ℤ → List ℤ → ℕ → Bool
is_blocked pairs reserved already_allocated core =
    contains (pos core) reserved
    || contains (pos core) already_allocated
    || any (λ r. is_sibling core (sibling_of pairs r)) reserved

-- the loop over the nodes: the cores that are chosen, and their node
unfoldable pub first_fit : (ℕ → Bool) → ℕ → Dict ℕ (List ℕ) → Option (List ℕ × ℕ)
first_fit blocked count [] = none
first_fit blocked count ((node_id, cores) ∷ nodes) =
    let available = filter (λ core. not (blocked core)) cores in
    let rest = first_fit blocked count nodes in
    if leb count (length available) then some (take count available, node_id) else rest

-- the cores of any node, where no node has enough
unfoldable pub fall_back : (ℕ → Bool) → ℕ → ℕ → Result (List ℕ × ℕ)
fall_back blocked count total_cores =
    let fallback = filter (λ core. not (blocked core)) (count_up total_cores 0) in
    if leb count (length fallback) then ok (take count fallback, 0) else raise value_error

abbrev pub or_fall_back : Option (List ℕ × ℕ) → Result (List ℕ × ℕ) → Result (List ℕ × ℕ)
or_fall_back (some chosen) rest = ok chosen
or_fall_back none rest = rest

-- the cores that `allocate_cores` chooses, for a positive count
unfoldable pub choose_cores : Sysfs → ℕ → List ℤ → List ℤ → Result (List ℕ × ℕ)
choose_cores sys count reserved already_allocated = do
  topology ← get_topology sys
  let blocked = is_blocked topology.hyperthread_pairs reserved already_allocated
  discovered ← discover_numa_cores sys
  let numa_cores = or_one_node (count_up topology.total_cores 0) discovered
  or_fall_back (first_fit blocked count (sorted_items numa_cores))
      (fall_back blocked count topology.total_cores)

unfoldable pub allocate_cores : Sysfs → ℤ → List ℤ → List ℤ → Result (Text × ℕ)
allocate_cores sys (pos (suc n)) reserved already_allocated = do
  (selected, node_id) ← choose_cores sys (suc n) reserved already_allocated
  ok (format_cpuset selected, node_id)
allocate_cores sys _ reserved already_allocated = raise value_error

-- Nothing is kept of what is allocated.
unfoldable pub release_cores : List ℤ → Sysfs → Sysfs
release_cores cores sys = sys
