-- ===== src/Bridge/Refinement.antt =====
-- A `BridgeManager` does what the leases allow (src/agentvm/net/bridge.py).
use agent_vm.Base.{
  ℕ, zero, suc, true, sym, beq_refl, Nodup, arith, false, Option, none, some, List, [], ◌∷◌,
  contains, if◌then◌else◌, ◌==◌, text_eq, ◌≡◌, ◌≢◌, refl, text_beq_iff, Bool-cases, inl, inr,
}
use agent_vm.Python.Result.{Result, ok, raise}
use agent_vm.Python.Dict.{Dict, keys, lookup_absent, lookup, lookup-insert}
use agent_vm.Python.Dict.Laws.{lookup-erase}
use agent_vm.Python.Text.{Text, strip, lower}
use agent_vm.Python.Lines.{is_empty}
use agent_vm.Bridge.{
  Draw, Bridge, Interface, new_bridge, vnet_name, allocate_unique_mac, finish, find_or_allocate,
  allocate_vm_interface, remove, deallocate_vm_interface, max_mac_allocation_retries,
}
use agent_vm.Bridge.Consistent.{
  IsConsistent, column, name_of, address_of, contains-column, fresh_name,
}
use agent_vm.Bridge.Allocation.{
  allocate_vm_interface-IsConsistent, deallocate_vm_interface-IsConsistent,
  allocate_unique_mac-fresh,
}
use agent_vm.Bridge.Calls.{Draw-cases, Request, allocate, deallocate, new_bridge-IsConsistent}
use agent_vm.Bridge.Leases.{
  done, IsLeased, IsUnleased, Leases, Search, new_address, held_address, used_up, stopped, broken,
  Step, kept, granted, blank_id, no_address, released, Steps, no_steps, step, leases_of, reply_of,
  answer, answers,
}

unheld :
    (part : Interface → Text) (a : Text) (k : Text) (y : Interface) (d : Dict Text Interface)
    → contains a (column part d) ≡ false
    → lookup k d ≡ some y
    → part y ≢ a
unheld part a k y d fresh held same =
    let there = contains-column part k y d held in absurd (cc (rw same at there))

held_address-column :
    (a : Text) (d : Dict Text Interface)
    → Nodup (keys d)
    → contains a (column address_of d) ≡ true
    → IsLeased (λ k. lookup k d) a
unfolding lookup contains
held_address-column a [] n h = absurd cc
held_address-column a ((j, w) ∷ d) (fresh, n) h = elim (Bool-cases (a == address_of w)) [
  | inl same ↦ (j, w, rw (beq_refl j) refl, sym ((text_beq_iff a (address_of w)).0 same))
  | inr other ↦
      let (k, y, found, e) = held_address-column a d n (rw other at h) in
      let apart : (j == k) ≡ false = ground (arith, text_beq_iff j k, lookup_absent j d fresh) in
      (k, y, rw apart found, e)
]

module _ {F : Type 0} (draw : F → Draw × F) where
  allocate_unique_mac-Search :
      (rounds : ℕ) (leases : Leases) (taken : List Text) (f : F)
      → ((a : Text) → contains a taken ≡ true → IsLeased leases a)
      → ((a : Text) → contains a taken ≡ false → IsUnleased leases a)
      → let r = allocate_unique_mac draw rounds taken f in Search draw rounds leases f r.0 r.1
  unfolding allocate_unique_mac
  allocate_unique_mac-Search zero leases taken f held free = used_up
  allocate_unique_mac-Search (suc rounds) leases taken f held free = elim (Draw-cases (draw f).0) [
    | inl (t, drawn) ↦ elim (Bool-cases (contains (lower t) taken)) [
      | inl old ↦
          rw (allocate_unique_mac, drawn, old)
            (held_address t drawn (held (lower t) old)
              (allocate_unique_mac-Search rounds leases taken (draw f).1 held free))
      | inr new ↦ rw (allocate_unique_mac, drawn, new) (new_address t drawn (free (lower t) new))
    ]
    | inr (inl ended) ↦ rw (allocate_unique_mac, ended) (stopped ended)
    | inr (inr (error, raised)) ↦ rw (allocate_unique_mac, raised) (broken raised)
  ]

module _ {F : Type 0} (draw : F → Draw × F) where
  module _ (id : Text) (b : Bridge F) (c : IsConsistent b) where
    finish-Step :
        (o : Result Text × F)
        → is_empty (strip id) ≡ false
        → lookup id b.session_interfaces ≡ none
        → ((address : Text) → o.0 ≡ ok address → contains address b.allocated_macs ≡ false)
        → Search draw 1000 (leases_of b) b.factory o.0 o.1
        → let r = finish id (vnet_name b.next_vnet_index) b o in
          Step draw
            (allocate id)
            (reply_of (r.0))
            (leases_of b)
            b.factory
            (leases_of (r.1))
            r.1.factory
    finish-Step (raise error, f) named absent fresh search =
        no_address named absent search (λ k. refl)
    finish-Step (ok address, f) named absent fresh search =
        let name = vnet_name b.next_vnet_index in
        let d = b.session_interfaces in
        let new_mac : contains address (column address_of d) ≡ false =
          rw (← c.macs) (fresh address refl) in
        granted named absent search
          (λ k y held. (
            unheld name_of name k y d (fresh_name b.next_vnet_index (column name_of d) c.named)
                held,
            unheld address_of address k y d new_mac held,
          ))
          (λ k. lookup-insert id k (name, address) d)

    find_or_allocate-Step :
        (o : Option Interface)
        → is_empty (strip id) ≡ false
        → lookup id b.session_interfaces ≡ o
        → let r = find_or_allocate draw id b o in
          Step draw
            (allocate id)
            (reply_of (r.0))
            (leases_of b)
            b.factory
            (leases_of (r.1))
            r.1.factory
    find_or_allocate-Step (some i) named found = kept named found (λ k. refl)
    find_or_allocate-Step none named absent =
        finish-Step (allocate_unique_mac draw max_mac_allocation_retries b.allocated_macs b.factory)
          named absent
          (allocate_unique_mac-fresh draw max_mac_allocation_retries b.allocated_macs b.factory)
          (allocate_unique_mac-Search draw max_mac_allocation_retries (leases_of b) b.allocated_macs
            b.factory
            (λ a taken. held_address-column a b.session_interfaces c.sessions (rw c.macs at taken))
            (λ a free k y found.
              unheld address_of a k y b.session_interfaces (rw c.macs at free) found))

    allocate_vm_interface-Step :
        let r = allocate_vm_interface draw id b in
        Step draw
          (allocate id)
          (reply_of (r.0))
          (leases_of b)
          b.factory
          (leases_of (r.1))
          r.1.factory
    unfolding allocate_vm_interface
    allocate_vm_interface-Step = elim (Bool-cases (is_empty (strip id))) [
      | inl blank ↦ rw blank (blank_id blank (λ k. refl))
      | inr named ↦ rw named (find_or_allocate-Step (lookup id b.session_interfaces) named refl)
    ]

    remove-lookup :
        (o : Option Interface)
        → lookup id b.session_interfaces ≡ o
        → (k : Text)
        → lookup k (remove id b o).session_interfaces
          ≡ (if id == k then none else lookup k b.session_interfaces)
    remove-lookup none absent k = elim (Bool-cases (id == k)) [
      | inl same ↦ let equal : id ≡ k = (text_beq_iff id k).0 same in rw same (rw equal at absent)
      | inr other ↦ rw other refl
    ]
    remove-lookup (some i) found k = lookup-erase id k b.session_interfaces c.sessions

    remove-factory : (o : Option Interface) → (remove id b o).factory ≡ b.factory
    remove-factory none = refl
    remove-factory (some i) = refl

    deallocate_vm_interface-Step :
        Step draw
          (deallocate id)
          done
          (leases_of b)
          b.factory
          (leases_of (deallocate_vm_interface id b))
          ((deallocate_vm_interface id b).factory)
    unfolding deallocate_vm_interface
    deallocate_vm_interface-Step =
        rw (remove-factory (lookup id b.session_interfaces))
          (released (remove-lookup (lookup id b.session_interfaces) refl))

  answer-Step :
      (request : Request) (b : Bridge F)
      → IsConsistent b
      → Step draw request
          ((answer draw request b).0)
          (leases_of b)
          b.factory
          (leases_of ((answer draw request b).1))
          ((answer draw request b).1.factory)
  answer-Step (allocate id) b c = allocate_vm_interface-Step id b c
  answer-Step (deallocate id) b c = deallocate_vm_interface-Step id b c

  answer-IsConsistent :
      (request : Request) (b : Bridge F) → IsConsistent b → IsConsistent ((answer draw request b).1)
  answer-IsConsistent (allocate id) b c = allocate_vm_interface-IsConsistent draw id b c
  answer-IsConsistent (deallocate id) b c = deallocate_vm_interface-IsConsistent draw id b c

  answers-Steps :
      (requests : List Request) (b : Bridge F)
      → IsConsistent b
      → Steps draw requests
          ((answers draw requests b).0)
          (leases_of b)
          b.factory
          (leases_of ((answers draw requests b).1))
          ((answers draw requests b).1.factory)
  answers-Steps [] b c = no_steps
  answers-Steps (request ∷ requests) b c =
      step (answer-Step request b c) (answers-Steps requests _ (answer-IsConsistent request b c))

  -- Whatever the factory draws, a new manager's replies to a sequence of requests, and the interfaces
  -- that its sessions hold and the factory after them, are those of a run of the leases that begins with
  -- none, in which a session that holds none is refused only with the error of a search of 1000 rounds.
  pub answers-refine :
      (name : Text) (f : F) (requests : List Request)
      → Steps draw requests
          ((answers draw requests (new_bridge name f)).0)
          (λ k. none)
          f
          (leases_of ((answers draw requests (new_bridge name f)).1))
          ((answers draw requests (new_bridge name f)).1.factory)
  unfolding lookup
  answers-refine name f requests =
      answers-Steps requests (new_bridge name f) (new_bridge-IsConsistent name f)
