-- ===== src/Bridge/Tests.antt =====
-- Runs of src/agentvm/net/bridge.py with a factory that counts.
use agent_vm.Base.{
  ◌<◌, ◌%◌, ◌/◌, none, some, List, [], ◌∷◌, contains, text_eq, ◌≡◌, ◌≢◌, ◌↔◌, refl, arith,
}
use agent_vm.Python.Result.{ok, runtime_error}
use agent_vm.Python.Dict.{lookup, insert, erase}
use agent_vm.Python.Text.{Text, codes, strip, lower, decimal}
use agent_vm.Bridge.{
  Draw, mac, stop, failed, Bridge, Interface, new_bridge, add, discard, vnet_name,
  allocate_unique_mac, allocate_vm_interface,
}
use agent_vm.Bridge.Consistent.{IsConsistent, name_of, address_of}
use agent_vm.Bridge.Calls.{
  Request, allocate, deallocate, serve, serve_distinct, Finds, allocate_unique_mac-Finds,
}
use agent_vm.Bridge.Leases.{leased, refused, done, Steps, leases_of, answers}
use agent_vm.Bridge.Refinement.{answers-refine}
use agent_vm.Bridge.Mac.{local_octet, local_octet_bits}

-- A factory that returns the addresses of a list, and then stops.
abbrev next_of : List Text → Draw × List Text
next_of [] = (stop, [])
next_of (t ∷ addresses) = (mac t, addresses)

abbrev addresses : List Text
addresses = codes "02:AA" ∷ codes "02:aa" ∷ codes "02:bb" ∷ []

abbrev requests : List Request
requests = allocate (codes "a") ∷ allocate (codes "b") ∷ deallocate (codes "a") ∷ []

abbrev requests_and_more : List Request
requests_and_more =
    allocate (codes "a") ∷ allocate (codes "b") ∷ deallocate (codes "a") ∷ allocate (codes "c") ∷ []

-- The second request draws the first address again, and skips it.
served :
    (serve next_of requests (new_bridge (codes "br0") addresses)).session_interfaces
    ≡ (codes "b", (codes "vnet1", codes "02:bb")) ∷ []
unfolding serve agent_vm.Bridge.deallocate_vm_interface lookup allocate_vm_interface strip
    allocate_unique_mac contains insert add lower erase vnet_name decimal
served = refl

serve_distinct_example :
    IsConsistent (serve next_of requests (new_bridge (codes "br0") addresses))
    × ((j k : Text) (x y : Interface)
        → j ≢ k
        → lookup j (serve next_of requests (new_bridge (codes "br0") addresses)).session_interfaces
          ≡ some x
        → lookup k (serve next_of requests (new_bridge (codes "br0") addresses)).session_interfaces
          ≡ some y
        → (name_of x ≢ name_of y) × (address_of x ≢ address_of y))
serve_distinct_example = serve_distinct next_of (codes "br0") addresses requests

allocate_unique_mac-Finds_example :
    ((allocate_unique_mac next_of 1000 (codes "02:aa" ∷ []) addresses).0 ≡ ok (codes "02:bb"))
    ↔ Finds next_of 1000 (codes "02:aa" ∷ []) addresses (codes "02:bb")
allocate_unique_mac-Finds_example =
    allocate_unique_mac-Finds next_of 1000 (codes "02:aa" ∷ []) addresses (codes "02:bb")

abbrev bridge : Bridge (List Text)
bridge = new_bridge (codes "br0") addresses

returned : (allocate_vm_interface next_of (codes "a") bridge).0 ≡ ok (codes "vnet0", codes "02:aa")
unfolding allocate_vm_interface strip lookup allocate_unique_mac contains vnet_name lower decimal
returned = refl

local_octet_bits_example :
    (local_octet 255 < 256) × (local_octet 255 % 2 ≡ 0) × (local_octet 255 / 2 % 2 ≡ 1)
local_octet_bits_example = local_octet_bits 255 (omega arith)

-- The replies: two leases, and nothing for the release; the factory has stopped for a fourth request.
replied :
    (answers next_of requests_and_more (new_bridge (codes "br0") addresses)).0
    ≡ leased (codes "vnet0", codes "02:aa")
      ∷ leased (codes "vnet1", codes "02:bb")
      ∷ done
      ∷ refused runtime_error
      ∷ []
unfolding lookup allocate_vm_interface strip allocate_unique_mac contains insert add lower erase
    vnet_name decimal agent_vm.Bridge.deallocate_vm_interface
replied = refl

answers-refine_example :
    Steps next_of requests_and_more
      ((answers next_of requests_and_more (new_bridge (codes "br0") addresses)).0)
      (λ k. none)
      addresses
      (leases_of ((answers next_of requests_and_more (new_bridge (codes "br0") addresses)).1))
      ((answers next_of requests_and_more (new_bridge (codes "br0") addresses)).1.factory)
answers-refine_example = answers-refine next_of (codes "br0") addresses requests_and_more
