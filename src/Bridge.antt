-- ===== src/Bridge.antt =====
-- `BridgeManager` of src/agentvm/net/bridge.py. The MAC factory is an argument: a state, and what
-- a call of the factory in that state returns or raises.
pub mod Consistent
pub mod Allocation
pub mod Calls
pub mod Leases
pub mod Refinement
pub mod Mac
mod Tests
use agent_vm.Base.{
  ℕ, zero, suc, ◌+◌, Bool, true, false, not, Option, none, some, List, [], ◌∷◌, ◌++◌, filter,
  contains, if◌then◌else◌, ◌==◌, text_eq,
}
use agent_vm.Python.Result.{Error, Result, ok, raise, value_error, runtime_error}
use agent_vm.Python.Dict.{Dict, lookup, insert, erase}
use agent_vm.Python.Lines.{is_empty}
use agent_vm.Python.Text.{Text, codes, strip, lower, decimal}

-- What `self._mac_factory()` comes to; `stop` is `StopIteration`.
pub data Draw : Type 0 where
  mac : Text → Draw
  stop : Draw
  failed : Error → Draw

abbrev pub Interface : Type 0
Interface = Text × Text

pub record Bridge (F : Type 0) : Type 0 where
  pub bridge_name : Text
  pub factory : F
  pub session_interfaces : Dict Text Interface
  pub allocated_vnets : List Text
  pub allocated_macs : List Text
  pub next_vnet_index : ℕ

abbrev pub max_mac_allocation_retries : ℕ
max_mac_allocation_retries = 1000

-- `__init__`
abbrev pub new_bridge : {F : Type 0} → Text → F → Bridge F
new_bridge bridge_name factory = record {
  bridge_name = bridge_name;
  factory = factory;
  session_interfaces = [];
  allocated_vnets = [];
  allocated_macs = [];
  next_vnet_index = 0;
}

-- `set.add`
unfoldable pub add : Text → List Text → List Text
add a xs = if contains a xs then xs else xs ++ a ∷ []

-- `set.discard`
unfoldable pub discard : Text → List Text → List Text
discard a = filter (λ x. not (x == a))

-- f"vnet{index}"
unfoldable pub vnet_name : ℕ → Text
vnet_name index = codes "vnet" ++ decimal index

module _ {F : Type 0} where
  unfoldable pub ensure_bridge : Bridge F → Text
  ensure_bridge b = b.bridge_name

  -- the loop of `_allocate_unique_mac`, with the rounds that are left
  unfoldable pub allocate_unique_mac : (F → Draw × F) → ℕ → List Text → F → Result Text × F
  allocate_unique_mac draw zero taken f = (raise runtime_error, f)
  allocate_unique_mac draw (suc rounds) taken f =
      let f' = (draw f).1 in
      elim (draw f).0 [
        | mac t ↦ elim (contains (lower t) taken) [
          | true ↦ allocate_unique_mac draw rounds taken f'
          | false ↦ (ok (lower t), f')
        ]
        | stop ↦ (raise runtime_error, f')
        | failed error ↦ (raise error, f')
      ]

  -- The name is taken, whether or not a MAC is found.
  abbrev pub finish : Text → Text → Bridge F → Result Text × F → Result Interface × Bridge F
  finish session_id vnet b (raise error, f) =
      (raise error, record b { factory = f; next_vnet_index = b.next_vnet_index + 1 })
  finish session_id vnet b (ok address, f) = (
    ok (vnet, address),
    record b {
      factory = f;
      next_vnet_index = b.next_vnet_index + 1;
      session_interfaces = insert session_id (vnet, address) b.session_interfaces;
      allocated_vnets = add vnet b.allocated_vnets;
      allocated_macs = add address b.allocated_macs;
    },
  )

  abbrev pub find_or_allocate :
      (F → Draw × F) → Text → Bridge F → Option Interface → Result Interface × Bridge F
  find_or_allocate draw session_id b (some existing) = (ok existing, b)
  find_or_allocate draw session_id b none =
      finish session_id (vnet_name b.next_vnet_index) b
        (allocate_unique_mac draw max_mac_allocation_retries b.allocated_macs b.factory)

  unfoldable pub allocate_vm_interface :
      (F → Draw × F) → Text → Bridge F → Result Interface × Bridge F
  allocate_vm_interface draw session_id b =
      if is_empty (strip session_id)
      then (raise value_error, b)
      else find_or_allocate draw session_id b (lookup session_id b.session_interfaces)

  abbrev pub remove : Text → Bridge F → Option Interface → Bridge F
  remove session_id b none = b
  remove session_id b (some (vnet, address)) = record b {
    session_interfaces = erase session_id b.session_interfaces;
    allocated_vnets = discard vnet b.allocated_vnets;
    allocated_macs = discard address b.allocated_macs;
  }

  unfoldable pub deallocate_vm_interface : Text → Bridge F → Bridge F
  deallocate_vm_interface session_id b =
      remove session_id b (lookup session_id b.session_interfaces)
