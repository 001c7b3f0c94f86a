-- ===== src/Store/Vms/Lookup.antt =====
-- What `get_vm` returns after `create_vm` and `delete_vm` (src/agentvm/db/store.py).
use agent_vm.Base.{
  true, false, none, some, [], ◌∷◌, ◌++◌, map, contains, ◌≡◌, refl, ◌==◌, text_eq, ◌≢◌,
}
use agent_vm.Python.Result.{ok}
use agent_vm.Python.Text.{Text}
use agent_vm.Python.Value.{Object}
use agent_vm.Sql.{insert_unique}
use agent_vm.Sql.Laws.{head?-filter-append_row, filter-delete_self, filter-delete_ne}
use agent_vm.Store.Schema.{VmRow}
use agent_vm.Store.Connection.{Store, execute, query}
use agent_vm.Store.Rows.{vm_row, bind_vm, insert_vm, decode_vm}
use agent_vm.Store.Sessions.{delete_allocation_of}
use agent_vm.Store.Vms.{create_vm, find_vm, get_vm, delete_vm_row, delete_vm}
use agent_vm.Store.Records.{find_allocation, get_allocation_by_vm}

module _ (s : Store) (connected : s.connected ≡ true) where
  -- A row that is new and fits is stored, and reads back.
  pub get_vm-create_vm :
      (now : Text) (vm : Object) (row : VmRow)
      → vm_row now vm ≡ ok row
      → bind_vm row ≡ ok tt
      → contains row.id (map (λ r. r.id) s.database.vms) ≡ false
      → ((create_vm now vm s).0 ≡ ok row.id)
        × ((get_vm row.id (create_vm now vm s).1).0 ≡ ok (some (decode_vm row)))
  unfolding create_vm insert_vm insert_unique execute get_vm query find_vm
  get_vm-create_vm now vm row h fits fresh = (
    rw (h, connected, fits, fresh),
    rw (h, connected, fits, fresh)
        (rw (head?-filter-append_row (λ r. r.id) s.database.vms row fresh)),
  )

  -- The row is the last one.
  pub create_vm-eq :
      (now : Text) (vm : Object) (row : VmRow)
      → vm_row now vm ≡ ok row
      → bind_vm row ≡ ok tt
      → contains row.id (map (λ r. r.id) s.database.vms) ≡ false
      → (create_vm now vm s).1
        ≡ record s { database = record (s.database) { vms = s.database.vms ++ row ∷ [] } }
  unfolding create_vm insert_vm insert_unique execute
  create_vm-eq now vm row h fits fresh = rw (h, connected, fits, fresh) refl

  -- The VM and its allocation are gone, and every other VM reads as before.
  pub get_vm-delete_vm :
      (id : Text)
      → ((delete_vm id s).0 ≡ ok tt)
        × ((get_vm id (delete_vm id s).1).0 ≡ ok none)
        × ((get_allocation_by_vm id (delete_vm id s).1).0 ≡ ok none)
        × ((other : Text) → other ≢ id → (get_vm other (delete_vm id s).1).0 ≡ (get_vm other s).0)
  unfolding delete_vm delete_vm_row delete_allocation_of execute get_vm query find_vm
      get_allocation_by_vm find_allocation
  get_vm-delete_vm id = (
    rw connected,
    rw connected (rw (filter-delete_self (λ r. r.id == id) s.database.vms)),
    rw connected
        (rw (filter-delete_self (λ r. r.vm_id == id) s.database.resource_allocations.rows)),
    λ other ne.
        rw connected (rw (filter-delete_ne (λ (r : VmRow). r.id) other id s.database.vms ne)),
  )
