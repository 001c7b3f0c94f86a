-- ===== src/CpuMap/Allocation.antt =====
-- What `allocate_cores` (src/agentvm/host/cpu_map.py) chooses, and when it chooses nothing.
use agent_vm.Base.{
  ℕ, zero, suc, ◌≤◌, ◌<◌, Bool, true, false, not, Option, none, some, List, [], ◌∷◌, length, filter,
  any, take, contains, leb, nat_beq, nat_beq_iff, nat_eq, ℤ, pos, int_eq, int_beq_iff, int_beq, All,
  ◌≡◌, ◌≢◌, ◌↔◌, refl, ◌∙◌, ap, arith, Bool-cases, inl, inr,
}
use agent_vm.Python.Result.{Result, ok, raise, >>=-eq-ok, ok-injective, value_error}
use agent_vm.Python.Dict.{Dict, lookup, insert}
use agent_vm.Python.Text.{Text, strip}
use agent_vm.Capacity.Readings.{Reading, contents, unreadable, undecodable}
use agent_vm.Python.Lines.{cut}
use agent_vm.CpuMap.CpuList.{parse_segments, parse_natural, parse_cpu_list, count_up, sorted_set}
use agent_vm.CpuMap.Ascending.{
  IsAscending, sorted_set-IsAscending, count_up-IsAscending, filter-IsAscending, take-IsAscending,
  All-take,
}
use agent_vm.CpuMap.{
  numa_of, add_named, add_node, or_one_node, sibling_of, is_sibling, is_blocked, first_fit,
  fall_back, or_fall_back,
}

abbrev pub AreAscending : Dict ℕ (List ℕ) → Type 0
AreAscending = All (λ node. IsAscending node.1)

parse_cpu_list-IsAscending :
    (text : Text) {cores : List ℕ} → parse_cpu_list text ≡ ok cores → IsAscending cores
unfolding parse_cpu_list
parse_cpu_list-IsAscending text {cores} h =
    let (cpus, _, h₁) = >>=-eq-ok (parse_segments (cut (nat_beq 44) text)) _ h in
    let e : sorted_set cpus ≡ cores = ok-injective h₁ in rw (← e) (sorted_set-IsAscending cpus)

insert-AreAscending :
    (node_id : ℕ) (cores : List ℕ) (numa : Dict ℕ (List ℕ))
    → IsAscending cores
    → AreAscending numa
    → AreAscending (insert node_id cores numa)
unfolding insert
insert-AreAscending node_id cores [] hc _ = (hc, tt)
insert-AreAscending node_id cores ((j, w) ∷ numa) hc (hw, h) =
    elim (Bool-cases (nat_beq j node_id)) [
      | inl same ↦ rw same (hc, h)
      | inr other ↦ rw other (hw, insert-AreAscending node_id cores numa hc h)
    ]

add_node-AreAscending :
    (node_id : ℕ) (cpulist : Reading) (numa : Dict ℕ (List ℕ)) {numa' : Dict ℕ (List ℕ)}
    → add_node node_id cpulist numa ≡ ok numa'
    → AreAscending numa
    → AreAscending numa'
add_node-AreAscending node_id unreadable numa h k = rw (← ok-injective h) k
add_node-AreAscending node_id undecodable numa h k = absurd cc
add_node-AreAscending node_id (contents cpulist) numa h k =
    let (cores, read, h₁) = >>=-eq-ok (parse_cpu_list (strip cpulist)) _ h in
    rw (← ok-injective h₁)
      (insert-AreAscending node_id cores numa (parse_cpu_list-IsAscending (strip cpulist) read) k)

add_named-AreAscending :
    (node_id : Result ℕ) (cpulist : Reading) (numa : Dict ℕ (List ℕ)) {numa' : Dict ℕ (List ℕ)}
    → add_named node_id cpulist numa ≡ ok numa'
    → AreAscending numa
    → AreAscending numa'
add_named-AreAscending (ok node_id) cpulist numa h k =
    add_node-AreAscending node_id cpulist numa h k
add_named-AreAscending (raise _) cpulist numa h k = rw (← ok-injective h) k

pub numa_of-AreAscending :
    (nodes : List (Text × Reading)) (numa : Dict ℕ (List ℕ)) {numa' : Dict ℕ (List ℕ)}
    → numa_of nodes numa ≡ ok numa'
    → AreAscending numa
    → AreAscending numa'
unfolding numa_of
numa_of-AreAscending [] numa h k = rw (← ok-injective h) k
numa_of-AreAscending ((name, cpulist) ∷ nodes) numa h k =
    let (numa₁, added, rest) = >>=-eq-ok (add_named (parse_natural name) cpulist numa) _ h in
    numa_of-AreAscending nodes numa₁ rest
      (add_named-AreAscending (parse_natural name) cpulist numa added k)

pub or_one_node-AreAscending :
    (cores : List ℕ) (numa : Dict ℕ (List ℕ))
    → IsAscending cores
    → AreAscending numa
    → AreAscending (or_one_node cores numa)
or_one_node-AreAscending cores [] hc _ = (hc, tt)
or_one_node-AreAscending cores (node ∷ numa) _ h = h

-- As many free cores as asked for, in ascending order.
pub record IsChoice (blocked : ℕ → Bool) (count : ℕ) (selected : List ℕ) : Type 0 where
  pub size : length selected ≡ count
  pub ascending : IsAscending selected
  pub free : All (λ core. blocked core ≡ false) selected

length-take : (n : ℕ) (xs : List ℕ) → n ≤ length xs → length (take n xs) ≡ n
length-take zero xs h = refl
length-take (suc n) [] h = absurd (omega (arith, h))
length-take (suc n) (x ∷ xs) h = ap suc (length-take n xs (omega (arith, h)))

filter-free :
    (blocked : ℕ → Bool) (xs : List ℕ)
    → All (λ core. blocked core ≡ false) (filter (λ core. not (blocked core)) xs)
unfolding filter
filter-free blocked [] = tt
filter-free blocked (x ∷ xs) = ground (arith, filter-free blocked xs)

module _ (blocked : ℕ → Bool) (count : ℕ) where
  abbrev pub free_of : List ℕ → List ℕ
  free_of = filter (λ core. not (blocked core))

  take-IsChoice :
      (cores : List ℕ)
      → IsAscending cores
      → leb count (length (free_of cores)) ≡ true
      → IsChoice blocked count (take count (free_of cores))
  take-IsChoice cores h enough = record {
    size = length-take count (free_of cores) (ground arith);
    ascending = take-IsAscending count (free_of cores) (filter-IsAscending _ cores h);
    free = All-take _ count (free_of cores) (filter-free blocked cores);
  }

  first_fit-IsChoice :
      (nodes : Dict ℕ (List ℕ)) (selected : List ℕ) (node_id : ℕ)
      → AreAscending nodes
      → first_fit blocked count nodes ≡ some (selected, node_id)
      → IsChoice blocked count selected
  unfolding first_fit
  first_fit-IsChoice [] selected node_id _ h = absurd cc
  first_fit-IsChoice ((node, cores) ∷ nodes) selected node_id (hc, k) h =
      elim (Bool-cases (leb count (length (free_of cores)))) [
        | inl enough ↦
            let e : take count (free_of cores) ≡ selected = ground arith in
            rw (← e) (take-IsChoice cores hc enough)
        | inr short ↦ first_fit-IsChoice nodes selected node_id k (ground arith)
      ]

  -- No node has enough exactly where nothing is found.
  pub first_fit-none :
      (nodes : Dict ℕ (List ℕ))
      → (first_fit blocked count nodes ≡ none) ↔ All (λ node. length (free_of node.1) < count) nodes
  unfolding first_fit
  first_fit-none [] = (λ _. tt, λ _. refl)
  first_fit-none ((node, cores) ∷ nodes) = ground (arith, first_fit-none nodes)

  fall_back-IsChoice :
      (total : ℕ) {selected : List ℕ} {node_id : ℕ}
      → fall_back blocked count total ≡ ok (selected, node_id)
      → IsChoice blocked count selected
  unfolding fall_back
  fall_back-IsChoice total {selected} h =
      elim (Bool-cases (leb count (length (free_of (count_up total 0))))) [
        | inl enough ↦
            let e : take count (free_of (count_up total 0)) ≡ selected = ground arith in
            rw (← e) (take-IsChoice (count_up total 0) (count_up-IsAscending total 0) enough)
        | inr short ↦ absurd (ground arith)
      ]

  fall_back-raise :
      (total : ℕ)
      → (fall_back blocked count total ≡ raise value_error)
        ↔ (length (free_of (count_up total 0)) < count)
  unfolding fall_back
  fall_back-raise total = ground arith

  pub or_fall_back-IsChoice :
      (nodes : Dict ℕ (List ℕ)) (total : ℕ) (selected : List ℕ) (node_id : ℕ)
      (o : Option (List ℕ × ℕ))
      → first_fit blocked count nodes ≡ o
      → AreAscending nodes
      → or_fall_back o (fall_back blocked count total) ≡ ok (selected, node_id)
      → IsChoice blocked count selected
  or_fall_back-IsChoice nodes total selected node_id none found k h = fall_back-IsChoice total h
  or_fall_back-IsChoice nodes total selected node_id (some chosen) found k h =
      first_fit-IsChoice nodes selected node_id k (found ∙ ap some (ok-injective h))

  pub or_fall_back-raise :
      (nodes : Dict ℕ (List ℕ)) (total : ℕ) (o : Option (List ℕ × ℕ))
      → first_fit blocked count nodes ≡ o
      → (or_fall_back o (fall_back blocked count total) ≡ raise value_error) ↔ (
          All (λ node. length (free_of node.1) < count) nodes
          × (length (free_of (count_up total 0)) < count))
  or_fall_back-raise nodes total none found = (
    λ h. ((first_fit-none nodes).0 found, (fall_back-raise total).0 h),
    λ h. (fall_back-raise total).1 h.1,
  )
  or_fall_back-raise nodes total (some chosen) found =
      (λ h. absurd cc, λ h. absurd (ground (arith, (first_fit-none nodes).1 h.0)))

-- The core is not reserved, not allocated, and no sibling of a reserved core.
pub record IsFree (pairs : Dict ℕ ℕ) (reserved already_allocated : List ℤ) (core : ℕ) : Type 0 where
  pub not_reserved : contains (pos core) reserved ≡ false
  pub not_allocated : contains (pos core) already_allocated ≡ false
  pub no_sibling : (r : ℕ) → contains (pos r) reserved ≡ true → lookup r pairs ≢ some core

any-false :
    (pairs : Dict ℕ ℕ) (core r : ℕ) (reserved : List ℤ)
    → any (λ z. is_sibling core (sibling_of pairs z)) reserved ≡ false
    → contains (pos r) reserved ≡ true
    → lookup r pairs ≢ some core
unfolding any contains
any-false pairs core r [] h k e = cc
any-false pairs core r (z ∷ reserved) h k e = elim (Bool-cases (int_beq (pos r) z)) [
  | inl same ↦
      let there : pos r ≡ z = (int_beq_iff (pos r) z).0 same in
      let head : is_sibling core (sibling_of pairs z) ≡ true =
        rw (← there, e) ((nat_beq_iff core core).1 refl) in
      ground (arith, head)
  | inr other ↦ any-false pairs core r reserved (ground arith) (ground arith) e
]

pub is_blocked-IsFree :
    (pairs : Dict ℕ ℕ) (reserved already_allocated : List ℤ) (core : ℕ)
    → is_blocked pairs reserved already_allocated core ≡ false
    → IsFree pairs reserved already_allocated core
unfolding is_blocked
is_blocked-IsFree pairs reserved already_allocated core h = record {
  not_reserved = ground arith;
  not_allocated = ground arith;
  no_sibling = λ r. any-false pairs core r reserved (ground arith);
}
