-- ===== src/Bridge/Calls.antt =====
-- Sequences of calls of a `BridgeManager` (src/agentvm/net/bridge.py).
use agent_vm.Base.{
  ℕ, zero, suc, true, false, Option, none, some, List, [], ◌∷◌, contains, text_eq, ◌≡◌, ◌≢◌, ◌↔◌,
  refl, arith, Nodup, text_beq_iff, beq_refl, ap, ◌⊎◌, inl, inr, Bool-cases,
}
use agent_vm.Python.Result.{Error, Result, ok, raise}
use agent_vm.Python.Dict.{Dict, lookup, lookup-insert}
use agent_vm.Python.Text.{Text, strip, lower}
use agent_vm.Python.Lines.{is_empty}
use agent_vm.Bridge.{
  Draw, mac, stop, failed, Bridge, Interface, new_bridge, allocate_unique_mac, finish,
  find_or_allocate, allocate_vm_interface, deallocate_vm_interface, max_mac_allocation_retries,
  vnet_name,
}
use agent_vm.Bridge.Consistent.{IsConsistent, column, name_of, address_of, contains-column}
use agent_vm.Bridge.Allocation.{
  allocate_vm_interface-IsConsistent, deallocate_vm_interface-IsConsistent,
}

pub data Request : Type 0 where
  allocate deallocate : Text → Request

module _ {F : Type 0} (draw : F → Draw × F) where
  unfoldable pub serve : List Request → Bridge F → Bridge F
  serve [] b = b
  serve (allocate id ∷ requests) b = serve requests (allocate_vm_interface draw id b).1
  serve (deallocate id ∷ requests) b = serve requests (deallocate_vm_interface id b)

  serve-IsConsistent :
      (requests : List Request) (b : Bridge F) → IsConsistent b → IsConsistent (serve requests b)
  unfolding serve
  serve-IsConsistent [] b c = c
  serve-IsConsistent (allocate id ∷ requests) b c =
      serve-IsConsistent requests _ (allocate_vm_interface-IsConsistent draw id b c)
  serve-IsConsistent (deallocate id ∷ requests) b c =
      serve-IsConsistent requests _ (deallocate_vm_interface-IsConsistent draw id b c)

distinct_lookup :
    (part : Interface → Text) (j k : Text) (x y : Interface) (d : Dict Text Interface)
    → Nodup (column part d)
    → j ≢ k
    → lookup j d ≡ some x
    → lookup k d ≡ some y
    → part x ≢ part y
unfolding lookup
distinct_lookup part j k x y [] n ne hx hy e = cc
distinct_lookup part j k x y ((i, w) ∷ d) (fresh, n) ne hx hy e = ground (
  arith,
  distinct_lookup part j k x y d n ne,
  contains-column part j x d,
  contains-column part k y d,
  text_beq_iff i j,
  text_beq_iff i k,
  ap part {x = w} {y = x},
  ap part {x = w} {y = y},
)

pub new_bridge-IsConsistent : {F : Type 0} (name : Text) (f : F) → IsConsistent (new_bridge name f)
new_bridge-IsConsistent name f = record {
  sessions = tt;
  vnets = refl;
  macs = refl;
  distinct_vnets = tt;
  distinct_macs = tt;
  named = tt;
}

-- Whatever the factory draws and whatever sequence of allocations and releases a new manager serves,
-- its sets of names and addresses are those of its interfaces, and two sessions that hold interfaces
-- hold different names and different addresses.
pub serve_distinct :
    {F : Type 0} (draw : F → Draw × F) (name : Text) (f : F) (requests : List Request)
    → IsConsistent (serve draw requests (new_bridge name f))
      × ((j k : Text) (x y : Interface)
          → j ≢ k
          → lookup j (serve draw requests (new_bridge name f)).session_interfaces ≡ some x
          → lookup k (serve draw requests (new_bridge name f)).session_interfaces ≡ some y
          → (name_of x ≢ name_of y) × (address_of x ≢ address_of y))
serve_distinct draw name f requests =
    let c = serve-IsConsistent draw requests (new_bridge name f) (new_bridge-IsConsistent name f) in
    (
      c,
      λ j k x y ne hx hy. (
        distinct_lookup name_of j k x y _ c.distinct_vnets ne hx hy,
        distinct_lookup address_of j k x y _ c.distinct_macs ne hx hy,
      ),
    )

pub Draw-cases :
    (d : Draw) → ((t : Text) × (d ≡ mac t)) ⊎ ((d ≡ stop) ⊎ ((error : Error) × (d ≡ failed error)))
Draw-cases (mac t) = inl (t, refl)
Draw-cases stop = inr (inl refl)
Draw-cases (failed error) = inr (inr (error, refl))

module _ {F : Type 0} (draw : F → Draw × F) where
  -- Within so many rounds the factory draws an address that is not taken, and before it only such
  -- as are.
  pub data Finds : ℕ → List Text → F → Text → Type 0 where
    first :
        {rounds : ℕ} {taken : List Text} {f : F} {address : Text} (t : Text)
        → (draw f).0 ≡ mac t
        → contains (lower t) taken ≡ false
        → address ≡ lower t
        → Finds (suc rounds) taken f address
    later :
        {rounds : ℕ} {taken : List Text} {f : F} {address : Text} (t : Text)
        → (draw f).0 ≡ mac t
        → contains (lower t) taken ≡ true
        → Finds rounds taken (draw f).1 address
        → Finds (suc rounds) taken f address

  Finds-returns :
      {rounds : ℕ} {taken : List Text} {f : F} {address : Text}
      → Finds rounds taken f address
      → (allocate_unique_mac draw rounds taken f).0 ≡ ok address
  unfolding allocate_unique_mac
  Finds-returns (first t drawn new e) = ground arith
  Finds-returns (later t drawn old finds) = ground (arith, Finds-returns finds)

  returns-Finds :
      (rounds : ℕ) (taken : List Text) (f : F) (address : Text)
      → (allocate_unique_mac draw rounds taken f).0 ≡ ok address
      → Finds rounds taken f address
  unfolding allocate_unique_mac
  returns-Finds zero taken f address h = absurd cc
  returns-Finds (suc rounds) taken f address h = elim (Draw-cases (draw f).0) [
    | inl (t, drawn) ↦ elim (Bool-cases (contains (lower t) taken)) [
      | inl old ↦ later t drawn old (returns-Finds rounds taken (draw f).1 address (ground arith))
      | inr new ↦ first t drawn new (ground arith)
    ]
    | inr (inl stopped) ↦ absurd (ground arith)
    | inr (inr (error, raised)) ↦ absurd (ground arith)
  ]

  -- `allocate_unique_mac` returns an address exactly where the factory draws it, new, within the
  -- rounds, after draws that were all taken.
  pub allocate_unique_mac-Finds :
      (rounds : ℕ) (taken : List Text) (f : F) (address : Text)
      → ((allocate_unique_mac draw rounds taken f).0 ≡ ok address) ↔ Finds rounds taken f address
  allocate_unique_mac-Finds rounds taken f address =
      (returns-Finds rounds taken f address, λ finds. Finds-returns finds)

  finish-lookup :
      (id vnet : Text) (b : Bridge F) (i : Interface) (o : Result Text × F)
      → (finish id vnet b o).0 ≡ ok i
      → lookup id (finish id vnet b o).1.session_interfaces ≡ some i
  finish-lookup id vnet b i (raise error, f) h = absurd cc
  finish-lookup id vnet b i (ok address, f) h =
      ground (arith, lookup-insert id id (vnet, address) b.session_interfaces, beq_refl id)

  find_or_allocate-lookup :
      (id : Text) (b : Bridge F) (i : Interface) (o : Option Interface)
      → lookup id b.session_interfaces ≡ o
      → (find_or_allocate draw id b o).0 ≡ ok i
      → lookup id (find_or_allocate draw id b o).1.session_interfaces ≡ some i
  find_or_allocate-lookup id b i (some existing) found h = ground arith
  find_or_allocate-lookup id b i none found h =
      finish-lookup id (vnet_name b.next_vnet_index) b i
        (allocate_unique_mac draw max_mac_allocation_retries b.allocated_macs b.factory) h

  -- Where `allocate_vm_interface` of a session returns an interface, a second call for the session
  -- returns the same, draws nothing and changes nothing.
  pub allocate_vm_interface_again :
      (id : Text) (b : Bridge F) (i : Interface)
      → (allocate_vm_interface draw id b).0 ≡ ok i
      → allocate_vm_interface draw id (allocate_vm_interface draw id b).1
        ≡ (ok i, (allocate_vm_interface draw id b).1)
  unfolding allocate_vm_interface
  allocate_vm_interface_again id b i h = elim (Bool-cases (is_empty (strip id))) [
    | inl blank ↦ absurd (ground arith)
    | inr named ↦
        let kept =
          find_or_allocate-lookup id b i (lookup id b.session_interfaces) refl (rw named at h) in
        rw named (rw kept refl)
  ]
