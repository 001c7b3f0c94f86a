-- ===== src/Store/Vms/Tests.antt =====
-- Requests to the VM methods of src/agentvm/db/store.py, and their replies.
use agent_vm.Base.{true, List, [], ◌∷◌, map, Nodup, text_eq, ◌≡◌, refl, pos}
use agent_vm.Python.Requests.{in_turn}
use agent_vm.Python.Text.{codes}
use agent_vm.Python.Value.{Object, str, int}
use agent_vm.Store.Schema.{empty_database}
use agent_vm.Store.Connection.{Store}
use agent_vm.Store.Vms.Promise.{
  Request, create, update_with, delete_by, get, end_session, served, meant, table_of,
}
use agent_vm.Store.Vms.Refinement.{vm_table_refines}

abbrev no_vm : Store
no_vm = record { in_memory = true; connected = true; database = empty_database }

abbrev vm_object : Object
vm_object =
    ("id", str (codes "v-1")) ∷ ("session_id", str (codes "s-1")) ∷ ("cpu_cores", int (pos 2)) ∷ []

abbrev requests : List Request
requests =
    create (codes "t1") vm_object
    ∷ create (codes "t2") vm_object
    ∷ update_with (codes "v-1") (("status", str (codes "running")) ∷ [])
    ∷ end_session (codes "s-1")
    ∷ get (codes "v-1")
    ∷ delete_by (codes "v-1")
    ∷ []

vm_table_refines_example :
    ((in_turn served requests no_vm).0 ≡ (in_turn meant requests (table_of no_vm)).0)
    × (table_of (in_turn served requests no_vm).1 ≡ (in_turn meant requests (table_of no_vm)).1)
    × ((in_turn served requests no_vm).1.connected ≡ true)
    × Nodup (map (λ r. r.id) (in_turn served requests no_vm).1.database.vms)
vm_table_refines_example = vm_table_refines requests no_vm refl tt
