-- ===== src/Store/Vms.antt =====
-- The VM methods of `MetadataStore` (src/agentvm/db/store.py). `now` is what `_utc_now` returns.
pub mod Lookup
pub mod Promise
pub mod Refinement
mod Tests
use agent_vm.Base.{
  Bool, true, false, ◌||◌, Option, none, some, List, map, filter, head?, ◌==◌, text_eq, string_eq,
}
use mathlib.Core.Option
use agent_vm.Python.Result.{Result, ok}
use agent_vm.Python.Exec.{Exec, pure, lift, ◌>>=◌, ◌>>◌}
use agent_vm.Python.Dict.{merge}
use agent_vm.Python.Text.{Text, codes}
use agent_vm.Python.Value.{Object}
use agent_vm.Sql.{update, delete}
use agent_vm.Sql.Order.{sort, text_leb}
use agent_vm.Store.Schema.{Database, VmRow}
use agent_vm.Store.Connection.{Store, execute, query}
use agent_vm.Store.Rows.{vm_row, insert_vm, set_vm, decode_vm}
use agent_vm.Store.Sessions.{matches, delete_allocation_of}

unfoldable pub create_vm : Text → Object → Exec Store Text
create_vm now vm = do row ← lift (vm_row now vm); execute (insert_vm row)

unfoldable pub find_vm : Text → Database → Option VmRow
find_vm vm_id db = head? (filter (λ r. r.id == vm_id) db.vms)

unfoldable pub get_vm : Text → Exec Store (Option Object)
get_vm vm_id = query (λ db. Option.map decode_vm (find_vm vm_id db))

unfoldable pub newest_vm_of : Text → Database → Option VmRow
newest_vm_of session_id db = head? (
    sort (λ a b. text_leb b.created_at a.created_at)
      (filter (λ r. r.session_id == session_id) db.vms))

unfoldable pub get_vm_by_session : Text → Exec Store (Option Object)
get_vm_by_session session_id = query (λ db. Option.map decode_vm (newest_vm_of session_id db))

unfoldable pub get_vms_by_image : Text → Exec Store (List Object)
get_vms_by_image base_image =
    query (λ db. map decode_vm (filter (λ r. r.base_image == base_image) db.vms))

-- the UPDATE of `update_vm`, for the record that was read
unfoldable pub write_vm : Text → Object → Option Object → Exec Store Bool
write_vm vm_id updates none = pure false
write_vm vm_id updates (some current) = do
  change ← lift (set_vm (merge current updates))
  execute λ db. ok (tt, record db { vms = update (λ r. r.id == vm_id) change db.vms })
  pure true

unfoldable pub update_vm : Text → Object → Exec Store Bool
update_vm vm_id updates = do current ← get_vm vm_id; write_vm vm_id updates current

-- DELETE FROM vms WHERE id = ?
unfoldable pub delete_vm_row : Text → Database → Result (Unit {0} × Database)
delete_vm_row vm_id db = ok (tt, record db { vms = delete (λ r. r.id == vm_id) db.vms })

unfoldable pub delete_vm : Text → Exec Store (Unit {0})
delete_vm vm_id = do execute (delete_allocation_of vm_id); execute (delete_vm_row vm_id)

unfoldable pub list_vms : Option Text → Exec Store (List Object)
list_vms status = query (λ db. map decode_vm (filter (λ r. matches status r.status) db.vms))

unfoldable pub is_active : VmRow → Bool
is_active r = (r.status == codes "running") || (r.status == codes "creating")

unfoldable pub get_active_vms : Exec Store (List Object)
get_active_vms = query (λ db. map decode_vm (filter is_active db.vms))
