-- ===== src/CpuMap/Tests.antt =====
-- Runs of src/agentvm/host/cpu_map.py on a host with two nodes of two hyperthreaded cores.
use agent_vm.Base.{
  ℕ, zero, suc, ◌<◌, true, not, List, [], ◌∷◌, length, filter, any, contains, take, nat_eq, int_eq,
  text_eq, pos, All, ◌⊎◌, ◌≡◌, ◌↔◌, refl,
}
use agent_vm.Python.Result.{ok, raise, value_error}
use agent_vm.Python.Dict.{insert, lookup}
use agent_vm.Python.Text.{
  Text, codes, strip, strip_left, strip_right, parse_int, lower, decimal, join,
}
use agent_vm.Capacity.Readings.{contents, unreadable}
use agent_vm.CpuMap.CpuList.{
  parse_cpu_list, count_up, parse_segments, parse_segment, split_at_dash, inclusive_range,
  sorted_set, insert_sorted, format_cpuset, ranges, range_text,
}
use agent_vm.CpuMap.Ascending.{IsAscending}
use agent_vm.CpuMap.Allocation.{IsFree}
use agent_vm.CpuMap.Allocation.{free_of}
use agent_vm.CpuMap.Locality.{IsLowest, allocate_cores-IsLowest}
use agent_vm.CpuMap.Chosen.{allocate_cores-IsFree, allocate_cores-raise}
use agent_vm.CpuMap.{
  CpuTopology, Sysfs, get_topology, discover_numa_cores, is_blocked, allocate_cores, read_cpus,
  discover_cpu_ids, cpu_ids_of, collect_hyperthread_pairs, numa_of, read_int, add_core, largest,
  detect_nested, is_enabled, choose_cores, first_fit,
}
use agent_vm.CpuMap.RoundTrip.{parse_cpu_list-format_cpuset}
use agent_vm.Sql.Order.{sort, place}
use agent_vm.Python.Lines.{cut}

siblings_of : ℕ → Text
siblings_of zero = codes "0,4\n"
siblings_of (suc zero) = codes "1,5\n"
siblings_of _ = codes "2-3\n"

abbrev host : Sysfs
host = record {
  cpu_names =
      codes "1" ∷ codes "0" ∷ codes "freq" ∷ codes "2" ∷ codes "3" ∷ codes "4" ∷ codes "5" ∷ [];
  cpu_files = λ cpu_id. record {
    core_id = contents (codes "0\n");
    physical_package_id = unreadable;
    thread_siblings_list = contents (siblings_of cpu_id);
  };
  nodes = (codes "1", contents (codes "3-5\n")) ∷ (codes "0", contents (codes "0-2\n")) ∷ [];
  kvm_intel_nested = unreadable;
  kvm_amd_nested = contents (codes "Y\n");
}

abbrev topology_of_host : CpuTopology
topology_of_host = record {
  total_cores = 6;
  cores_per_socket = 1;
  numa_nodes = 2;
  cores_per_numa = 3 ∷ 3 ∷ [];
  hyperthread_pairs = (0, 4) ∷ (4, 0) ∷ (1, 5) ∷ (5, 1) ∷ (2, 3) ∷ (3, 2) ∷ [];
  nested_virtualization = true;
}

read_topology : get_topology host ≡ ok topology_of_host
unfolding get_topology read_cpus discover_cpu_ids cpu_ids_of sort place collect_hyperthread_pairs
    parse_cpu_list parse_segments parse_segment split_at_dash inclusive_range count_up sorted_set
    insert_sorted cut strip strip_left strip_right parse_int insert lookup numa_of read_int add_core
    contains largest detect_nested is_enabled lower siblings_of
read_topology = refl

discovered : discover_numa_cores host ≡ ok ((1, 3 ∷ 4 ∷ 5 ∷ []) ∷ (0, 0 ∷ 1 ∷ 2 ∷ []) ∷ [])
unfolding get_topology read_cpus discover_cpu_ids cpu_ids_of sort place collect_hyperthread_pairs
    parse_cpu_list parse_segments parse_segment split_at_dash inclusive_range count_up sorted_set
    insert_sorted cut strip strip_left strip_right parse_int insert lookup numa_of read_int add_core
    contains largest detect_nested is_enabled lower siblings_of
discovered = refl

-- CPU 4 is the sibling of the reserved CPU 0.
allocated : allocate_cores host (pos 2) (pos 0 ∷ []) (pos 2 ∷ []) ≡ ok (codes "3,5", 1)
unfolding get_topology read_cpus discover_cpu_ids cpu_ids_of sort place collect_hyperthread_pairs
    parse_cpu_list parse_segments parse_segment split_at_dash inclusive_range count_up sorted_set
    insert_sorted cut strip strip_left strip_right parse_int insert lookup numa_of read_int add_core
    contains largest detect_nested is_enabled lower siblings_of allocate_cores choose_cores
    first_fit filter is_blocked any format_cpuset ranges range_text decimal join
allocated = refl

allocate_cores-IsFree_example :
    (topology : CpuTopology) × (selected : List ℕ) × (get_topology host ≡ ok topology)
    × (parse_cpu_list (codes "3,5") ≡ ok selected)
    × (pos (length selected) ≡ pos 2)
    × IsAscending selected
    × All (IsFree topology.hyperthread_pairs (pos 0 ∷ []) (pos 2 ∷ [])) selected
allocate_cores-IsFree_example =
    allocate_cores-IsFree host (pos 0 ∷ []) (pos 2 ∷ []) (pos 2) (codes "3,5") 1 allocated

allocate_cores-IsLowest_example :
    let blocked = is_blocked (topology_of_host.hyperthread_pairs) (pos 0 ∷ []) (pos 2 ∷ []) in
    let node_id : ℕ = 1 in
    let all = count_up 6 0 in
    let nodes : List (ℕ × List ℕ) = (1, 3 ∷ 4 ∷ 5 ∷ []) ∷ (0, 0 ∷ 1 ∷ 2 ∷ []) ∷ [] in
    ((cores : List ℕ) × (codes "3,5" ≡ format_cpuset (take 2 (free_of blocked 2 cores)))
      × IsLowest blocked 2 nodes node_id cores)
    ⊎ (All (λ node. length (free_of blocked 2 node.1) < 2) nodes
        × (node_id ≡ 0)
        × (codes "3,5" ≡ format_cpuset (take 2 (free_of blocked 2 all))))
allocate_cores-IsLowest_example =
    allocate_cores-IsLowest host (pos 0 ∷ []) (pos 2 ∷ []) 1 topology_of_host
      ((1, 3 ∷ 4 ∷ 5 ∷ []) ∷ (0, 0 ∷ 1 ∷ 2 ∷ []) ∷ []) (codes "3,5") 1 read_topology discovered
      allocated

allocate_cores-raise_example : (allocate_cores host (pos 5) (pos 0 ∷ []) [] ≡ raise value_error) ↔ (
    All
      (λ (node : ℕ × List ℕ).
        length (
          filter
            (λ core. not (is_blocked (topology_of_host.hyperthread_pairs) (pos 0 ∷ []) [] core))
            node.1)
        < 5)
      ((1, 3 ∷ 4 ∷ 5 ∷ []) ∷ (0, 0 ∷ 1 ∷ 2 ∷ []) ∷ [])
    × (length (
          filter
            (λ core. not (is_blocked (topology_of_host.hyperthread_pairs) (pos 0 ∷ []) [] core))
            (count_up 6 0))
        < 5))
allocate_cores-raise_example =
    allocate_cores-raise host (pos 0 ∷ []) [] 4 topology_of_host
      ((1, 3 ∷ 4 ∷ 5 ∷ []) ∷ (0, 0 ∷ 1 ∷ 2 ∷ []) ∷ []) read_topology discovered

parse_cpu_list-format_cpuset_example :
    parse_cpu_list (format_cpuset (7 ∷ 0 ∷ 8 ∷ 0 ∷ [])) ≡ ok (sorted_set (7 ∷ 0 ∷ 8 ∷ 0 ∷ []))
parse_cpu_list-format_cpuset_example = parse_cpu_list-format_cpuset (7 ∷ 0 ∷ 8 ∷ 0 ∷ [])
