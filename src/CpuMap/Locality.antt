-- ===== src/CpuMap/Locality.antt =====
-- Which NUMA node `allocate_cores` (src/agentvm/host/cpu_map.py) takes the cores from.
use mathlib.Core.List.{Mem, mem-cons_self, mem-cons_of_mem}
use mathlib.Core.List.Perm
use agent_vm.Base.{
  ℕ, suc, ◌≤◌, ◌<◌, Bool, true, some, List, [], ◌∷◌, length, take, leb, ℤ, pos, All, ◌≡◌, ◌⊎◌, inl,
  inr, sym, ◌∙◌, ap, arith, Bool-cases, Option-cases,
}
use agent_vm.Python.Result.{ok, >>=-eq-ok, ok-injective}
use agent_vm.Python.Dict.{Dict}
use agent_vm.Python.Text.{Text}
use agent_vm.Sql.Order.{sort-perm, IsSorted, sort-IsSorted, All-of-sort}
use agent_vm.CpuMap.CpuList.{format_cpuset, count_up}
use agent_vm.CpuMap.Allocation.{free_of, first_fit-none}
use agent_vm.CpuMap.{
  CpuTopology, Sysfs, get_topology, discover_numa_cores, or_one_node, sorted_items, is_blocked,
  first_fit, fall_back, or_fall_back, choose_cores, allocate_cores,
}

-- The order of the nodes.
abbrev by_id : ℕ × List ℕ → ℕ × List ℕ → Bool
by_id a b = leb a.0 b.0

-- Of the nodes with as many free cores as asked for, the one with the lowest number, and its cores.
pub record IsLowest (blocked : ℕ → Bool) (count : ℕ) (nodes : Dict ℕ (List ℕ)) (node_id : ℕ)
    (cores : List ℕ) : Type 0 where
  pub member : Mem (node_id, cores) nodes
  pub enough : count ≤ length (free_of blocked count cores)
  pub lowest : All (λ node. node.0 < node_id → length (free_of blocked count node.1) < count) nodes

module _ (blocked : ℕ → Bool) (count : ℕ) where
  none_lower :
      (node_id : ℕ) (cores : List ℕ) (nodes : Dict ℕ (List ℕ))
      → All (λ node. by_id (node_id, cores) node ≡ true) nodes
      → All (λ node. node.0 < node_id → length (free_of blocked count node.1) < count) nodes
  none_lower node_id cores [] _ = tt
  none_lower node_id cores (node ∷ nodes) (h, k) =
      (λ below. absurd (ground arith), none_lower node_id cores nodes k)

  first_fit-IsLowest :
      (nodes : Dict ℕ (List ℕ)) (selected : List ℕ) (node_id : ℕ)
      → IsSorted by_id nodes
      → first_fit blocked count nodes ≡ some (selected, node_id)
      → (cores : List ℕ) × (selected ≡ take count (free_of blocked count cores))
        × IsLowest blocked count nodes node_id cores
  unfolding first_fit
  first_fit-IsLowest [] selected node_id _ h = absurd cc
  first_fit-IsLowest ((node, cores) ∷ nodes) selected node_id (above, sorted) h =
      elim (Bool-cases (leb count (length (free_of blocked count cores)))) [
        | inl enough ↦
            let chosen : take count (free_of blocked count cores) ≡ selected = ground arith in
            let same : node ≡ node_id = ground arith in
            (
              cores,
              sym chosen,
              rw (← same) (record {
                member = mem-cons_self;
                enough = ground arith;
                lowest =
                    (λ below. absurd (omega (arith, below)), none_lower node cores nodes above);
              }),
            )
        | inr short ↦
            let (found, chosen, least) =
              first_fit-IsLowest nodes selected node_id sorted (ground arith) in
            (
              found,
              chosen,
              record {
                member = mem-cons_of_mem _ (least.member);
                enough = least.enough;
                lowest = (λ _. ground arith, least.lowest);
              },
            )
      ]

  sorted-IsLowest :
      (node_id : ℕ) (cores : List ℕ) (nodes : Dict ℕ (List ℕ))
      → IsLowest blocked count (sorted_items nodes) node_id cores
      → IsLowest blocked count nodes node_id cores
  sorted-IsLowest node_id cores nodes least = record {
    member = (Perm.mem_iff (sort-perm by_id nodes)).0 (least.member);
    enough = least.enough;
    lowest = All-of-sort by_id _ nodes (least.lowest);
  }

  pub fitted :
      (nodes : Dict ℕ (List ℕ)) (selected : List ℕ) (node_id : ℕ)
      → first_fit blocked count (sorted_items nodes) ≡ some (selected, node_id)
      → (cores : List ℕ) × (selected ≡ take count (free_of blocked count cores))
        × IsLowest blocked count nodes node_id cores
  fitted nodes selected node_id h =
      let sorted = sort-IsSorted by_id (λ a b h. ground arith) (λ a b c h k. ground arith) nodes in
      let (cores, chosen, least) =
        first_fit-IsLowest (sorted_items nodes) selected node_id sorted h in
      (cores, chosen, sorted-IsLowest node_id cores nodes least)

  fallen_back :
      (total : ℕ) (selected : List ℕ) (node_id : ℕ)
      → fall_back blocked count total ≡ ok (selected, node_id)
      → (node_id ≡ 0) × (selected ≡ take count (free_of blocked count (count_up total 0)))
  unfolding fall_back
  fallen_back total selected node_id h = ground arith

module _ (sys : Sysfs) (reserved already_allocated : List ℤ) where
  -- Where the topology and the nodes can be read, and `allocate_cores` returns for a positive count, it
  -- returns the node of the lowest number that has enough free cores, and the text of the first of
  -- these; or no node has enough, and it returns node 0 and the text of the first free cores of the host,
  -- counted from 0.
  pub allocate_cores-IsLowest :
      (n : ℕ) (topology : CpuTopology) (discovered : Dict ℕ (List ℕ)) (cpuset : Text) (node_id : ℕ)
      → get_topology sys ≡ ok topology
      → discover_numa_cores sys ≡ ok discovered
      → allocate_cores sys (pos (suc n)) reserved already_allocated ≡ ok (cpuset, node_id)
      → let blocked = is_blocked topology.hyperthread_pairs reserved already_allocated in
        let all = count_up topology.total_cores 0 in
        let nodes = or_one_node all discovered in
        ((cores : List ℕ) × (cpuset ≡ format_cpuset (take (suc n) (free_of blocked (suc n) cores)))
          × IsLowest blocked (suc n) nodes node_id cores)
        ⊎ (All (λ node. length (free_of blocked (suc n) node.1) < suc n) nodes
            × (node_id ≡ 0)
            × (cpuset ≡ format_cpuset (take (suc n) (free_of blocked (suc n) all))))
  unfolding allocate_cores choose_cores
  allocate_cores-IsLowest n topology discovered cpuset node_id read found h =
      let blocked = is_blocked topology.hyperthread_pairs reserved already_allocated in
      let all = count_up topology.total_cores 0 in
      let nodes = or_one_node all discovered in
      let ((selected, node), chosen, written) =
        >>=-eq-ok (choose_cores sys (suc n) reserved already_allocated) _ h in
      let text : format_cpuset selected ≡ cpuset = ap (λ r. r.0) (ok-injective written) in
      let same : node ≡ node_id = ap (λ r. r.1) (ok-injective written) in
      let run : or_fall_back (first_fit blocked (suc n) (sorted_items nodes))
            (fall_back blocked (suc n) topology.total_cores)
          ≡ ok (selected, node) =
        rw (choose_cores, read, found) at chosen in
      elim (Option-cases (first_fit blocked (suc n) (sorted_items nodes))) [
        | inl none_fits ↦
            let (zero_node, taken) =
              fallen_back blocked (suc n) topology.total_cores selected node
                (rw none_fits at run) in
            inr (
              All-of-sort by_id _ nodes
                  ((first_fit-none blocked (suc n) (sorted_items nodes)).0 none_fits),
              sym same ∙ zero_node,
              sym text ∙ ap format_cpuset taken,
            )
        | inr (choice, fits) ↦
            let picked = fits ∙ ap some (ok-injective (rw fits at run)) in
            let (cores, taken, least) = fitted blocked (suc n) nodes selected node picked in
            inl (cores, sym text ∙ ap format_cpuset taken, rw (← same) least)
      ]
