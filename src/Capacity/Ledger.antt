-- ===== src/Capacity/Ledger.antt =====
-- What the allocations of the capacity manager (src/agentvm/host/capacity.py) promise: a ledger.
use agent_vm.Base.{
  true, Option, none, some, List, ◌==◌, text_eq, contains, Nodup, if◌then◌else◌, ◌≡◌, refl,
  Bool-cases, Option-cases, inl, inr,
}
use mathlib.Core.Path.{fun_ext}
use agent_vm.Python.Result.{Result, ok, raise, value_error}
use agent_vm.Python.Dict.{Dict, keys, lookup, lookup-insert, insert-Nodup, lookup_absent}
use agent_vm.Python.Dict.Laws.{contains_of_none, erase-Nodup, lookup-erase}
use agent_vm.Python.Requests.{in_turn, Refines, in_turn-Refines}
use agent_vm.Python.Text.{Text}
use agent_vm.Capacity.{Allocation, CapacityManager, allocate, release}

-- The allocation of every VM, without an order.
abbrev pub Ledger : Type 0
Ledger = Text → Option Allocation

pub data Request : Type 0 where
  allocate_request : Text → Allocation → Request
  release_request : Text → Request

-- A call's reply, and what is left.
abbrev pub Replied : Type 0 → Type 0
Replied S = Result (Unit {0}) × S

-- Nothing is given to a VM that holds something.
abbrev pub give : Text → Allocation → Option Allocation → Ledger → Replied Ledger
give id a none ledger = (ok tt, λ other. if id == other then some a else ledger other)
give id a (some _) ledger = (raise value_error, ledger)

abbrev pub meant : Request → Ledger → Replied Ledger
meant (allocate_request id a) ledger = give id a (ledger id) ledger
meant (release_request id) ledger = (ok tt, λ other. if id == other then none else ledger other)

-- A call that raises leaves the manager as it was.
abbrev kept : CapacityManager → Result CapacityManager → Replied CapacityManager
kept m (ok m') = (ok tt, m')
kept m (raise error) = (raise error, m)

abbrev pub served : Request → CapacityManager → Replied CapacityManager
served (allocate_request id a) m = kept m (allocate id a m)
served (release_request id) m = (ok tt, release id m)

-- What the manager's allocations say of every VM.
abbrev pub held : CapacityManager → Ledger
held m id = lookup id m.allocations

holds_some :
    (id : Text) (a : Allocation) (d : Dict Text Allocation)
    → lookup id d ≡ some a
    → contains id (keys d) ≡ true
holds_some id a d found = elim (Bool-cases (contains id (keys d))) [
  | inl known ↦ known
  | inr unknown ↦ let absent = lookup_absent id d unknown in absurd cc
]

abbrev IsDistinct : CapacityManager → Type 0
IsDistinct m = Nodup (keys m.allocations)

allocate-Refines :
    (id : Text) (a : Allocation) (m : CapacityManager)
    → Nodup (keys m.allocations)
    → Refines served meant held IsDistinct
        (served (allocate_request id a) m)
        (meant (allocate_request id a) (held m))
unfolding allocate
allocate-Refines id a m distinct = elim (Option-cases (lookup id m.allocations)) [
  | inl absent ↦
      let unknown = contains_of_none id m.allocations absent in
      rw (unknown, absent)
        (
          refl,
          fun_ext (λ other. lookup-insert id other a m.allocations),
          insert-Nodup id a m.allocations distinct,
        )
  | inr (b, found) ↦
      let known = holds_some id b m.allocations found in rw (known, found) (refl, refl, distinct)
]

served-Refines :
    (request : Request) (m : CapacityManager)
    → Nodup (keys m.allocations)
    → Refines served meant held IsDistinct (served request m) (meant request (held m))
unfolding release
served-Refines (allocate_request id a) m distinct = allocate-Refines id a m distinct
served-Refines (release_request id) m distinct = (
  refl,
  fun_ext (λ other. lookup-erase id other m.allocations distinct),
  erase-Nodup id m.allocations distinct,
)

-- A manager in whose allocations no id stands twice answers any sequence of `allocate` and `release` as
-- the ledger of its allocations does, whether they return or raise; what every VM holds after them is
-- what the ledger says, and no id stands twice.
pub ledger_refines :
    (requests : List Request) (m : CapacityManager)
    → Nodup (keys m.allocations)
    → ((in_turn served requests m).0 ≡ (in_turn meant requests (held m)).0)
      × (held (in_turn served requests m).1 ≡ (in_turn meant requests (held m)).1)
      × Nodup (keys (in_turn served requests m).1.allocations)
ledger_refines = in_turn-Refines served meant held IsDistinct served-Refines
