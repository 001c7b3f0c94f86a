-- ===== src/CpuMap/Chosen.antt =====
-- `allocate_cores` (src/agentvm/host/cpu_map.py) as its callers see it.
use agent_vm.Base.{
  ℕ, zero, suc, ◌<◌, Bool, false, not, List, [], ◌∷◌, length, filter, ℤ, pos, negsuc, All, ◌≡◌, ◌↔◌,
  refl, sym, ◌∙◌, ap,
}
use agent_vm.Python.Result.{Result, ok, raise, ◌>>=◌, >>=-eq-ok, ok-injective, value_error}
use agent_vm.Python.Dict.{Dict}
use agent_vm.Python.Text.{Text}
use agent_vm.Sql.Order.{All-sort, All-of-sort}
use agent_vm.CpuMap.CpuList.{parse_cpu_list, format_cpuset, count_up}
use agent_vm.CpuMap.Ascending.{IsAscending, sorted_set_ascending, count_up-IsAscending}
use agent_vm.CpuMap.RoundTrip.{parse_cpu_list-format_cpuset}
use agent_vm.CpuMap.Allocation.{
  AreAscending, numa_of-AreAscending, or_one_node-AreAscending, IsChoice, or_fall_back-IsChoice,
  or_fall_back-raise, IsFree, is_blocked-IsFree,
}
use agent_vm.CpuMap.{
  CpuTopology, Sysfs, get_topology, discover_numa_cores, or_one_node, sorted_items, is_blocked,
  first_fit, fall_back, or_fall_back, choose_cores, allocate_cores,
}

module _ (sys : Sysfs) (reserved already_allocated : List ℤ) where
  abbrev blocks : CpuTopology → ℕ → Bool
  blocks topology = is_blocked topology.hyperthread_pairs reserved already_allocated

  choose_cores-IsChoice :
      (count : ℕ) (selected : List ℕ) (node_id : ℕ)
      → choose_cores sys count reserved already_allocated ≡ ok (selected, node_id)
      → (topology : CpuTopology) × (get_topology sys ≡ ok topology)
        × IsChoice (blocks topology) count selected
  unfolding choose_cores
  choose_cores-IsChoice count selected node_id h =
      let (topology, read, h₁) = >>=-eq-ok (get_topology sys) _ h in
      let (discovered, found, h₂) = >>=-eq-ok (discover_numa_cores sys) _ h₁ in
      let cores = count_up topology.total_cores 0 in
      let nodes = or_one_node cores discovered in
      let ascending : AreAscending nodes =
        or_one_node-AreAscending cores discovered (count_up-IsAscending topology.total_cores 0)
          (numa_of-AreAscending sys.nodes [] found tt) in
      (
        topology,
        read,
        or_fall_back-IsChoice (blocks topology) count (sorted_items nodes) topology.total_cores
            selected node_id (first_fit (blocks topology) count (sorted_items nodes)) refl
            (All-sort _ _ nodes ascending) h₂,
      )

  All-IsFree :
      (pairs : Dict ℕ ℕ) (cores : List ℕ)
      → All (λ core. is_blocked pairs reserved already_allocated core ≡ false) cores
      → All (IsFree pairs reserved already_allocated) cores
  All-IsFree pairs [] _ = tt
  All-IsFree pairs (core ∷ cores) (h, k) =
      (is_blocked-IsFree pairs reserved already_allocated core h, All-IsFree pairs cores k)

  -- Where `allocate_cores` returns a cpuset, the topology was read, and `_parse_cpu_list` reads from
  -- the cpuset as many cores as were asked for, in ascending order, none of them reserved, allocated
  -- to another VM, or the sibling of a reserved core.
  pub allocate_cores-IsFree :
      (count : ℤ) (cpuset : Text) (node_id : ℕ)
      → allocate_cores sys count reserved already_allocated ≡ ok (cpuset, node_id)
      → (topology : CpuTopology) × (selected : List ℕ) × (get_topology sys ≡ ok topology)
        × (parse_cpu_list cpuset ≡ ok selected)
        × (pos (length selected) ≡ count)
        × IsAscending selected
        × All (IsFree topology.hyperthread_pairs reserved already_allocated) selected
  unfolding allocate_cores
  allocate_cores-IsFree (pos zero) cpuset node_id h = absurd cc
  allocate_cores-IsFree (negsuc n) cpuset node_id h = absurd cc
  allocate_cores-IsFree (pos (suc n)) cpuset node_id h =
      let ((selected, node), chosen, h₁) =
        >>=-eq-ok (choose_cores sys (suc n) reserved already_allocated) _ h in
      let (topology, read, choice) = choose_cores-IsChoice (suc n) selected node chosen in
      let e : format_cpuset selected ≡ cpuset = ap (λ r. r.0) (ok-injective h₁) in
      (
        topology,
        selected,
        read,
        rw (← e) (
            parse_cpu_list-format_cpuset selected
            ∙ ap ok (sorted_set_ascending selected choice.ascending)),
        ap pos choice.size,
        choice.ascending,
        All-IsFree topology.hyperthread_pairs selected choice.free,
      )

  bind-raise :
      {A B : Type 0} (r : Result A) (f : A → B)
      → ((r >>= λ a. ok (f a)) ≡ raise value_error) ↔ (r ≡ raise value_error)
  bind-raise (ok a) f = (λ h. absurd cc, λ h. absurd cc)
  bind-raise (raise error) f = (λ h. cc, λ h. cc)

  -- Where the topology and the nodes can be read, and at least one core is asked for,
  -- `allocate_cores` raises `ValueError` exactly where no node has enough free cores, and the host
  -- has not.
  pub allocate_cores-raise :
      (n : ℕ) (topology : CpuTopology) (discovered : Dict ℕ (List ℕ))
      → get_topology sys ≡ ok topology
      → discover_numa_cores sys ≡ ok discovered
      → (allocate_cores sys (pos (suc n)) reserved already_allocated ≡ raise value_error) ↔ (
          All
            (λ node. length (filter (λ core. not (blocks topology core)) node.1) < suc n)
            (or_one_node (count_up topology.total_cores 0) discovered)
          × (length (filter (λ core. not (blocks topology core)) (count_up topology.total_cores 0))
              < suc n))
  unfolding allocate_cores choose_cores
  allocate_cores-raise n topology discovered read found =
      let nodes = or_one_node (count_up topology.total_cores 0) discovered in
      let (to, from) =
        or_fall_back-raise (blocks topology) (suc n) (sorted_items nodes) topology.total_cores
          (first_fit (blocks topology) (suc n) (sorted_items nodes)) refl in
      let (outer, inner) =
        bind-raise (choose_cores sys (suc n) reserved already_allocated)
          (λ x. (format_cpuset x.0, x.1)) in
      let chosen : choose_cores sys (suc n) reserved already_allocated
          ≡ or_fall_back (first_fit (blocks topology) (suc n) (sorted_items nodes))
              (fall_back (blocks topology) (suc n) topology.total_cores) =
        rw (choose_cores, read, found) refl in
      (
        λ h.
            let (none_fits, short) = to (sym chosen ∙ outer h) in
            (All-of-sort _ _ nodes none_fits, short),
        λ (none_fits, short). inner (chosen ∙ from (All-sort _ _ nodes none_fits, short)),
      )
