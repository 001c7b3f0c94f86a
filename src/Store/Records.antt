-- ===== src/Store/Records.antt =====
-- The methods of `MetadataStore` (src/agentvm/db/store.py) on proxies, shared folders and resource
-- allocations, each found by the session or the VM that it belongs to.
use agent_vm.Base.{ℕ, Option, none, some, filter, head?, ◌==◌, text_eq, string_eq}
use mathlib.Core.Option
use agent_vm.Python.Result.{ok}
use agent_vm.Python.Exec.{Exec, pure, lift, ◌>>=◌}
use agent_vm.Python.Dict.{merge}
use agent_vm.Python.Text.{Text}
use agent_vm.Python.Value.{Object}
use agent_vm.Sql.{update}
use agent_vm.Store.Schema.{Database, ProxyRow, FolderRow, AllocationRow}
use agent_vm.Store.Connection.{Store, execute, query}
use agent_vm.Store.Rows.{
  proxy_row, insert_proxy, set_proxy, decode_proxy, folder_row, insert_folder, decode_folder,
  allocation_row, insert_allocation, decode_allocation,
}
use agent_vm.Store.Sessions.{delete_proxies_of, delete_folders_of, delete_allocation_of}

unfoldable pub create_proxy : Object → Exec Store ℕ
create_proxy proxy = do row ← lift (proxy_row proxy); execute (insert_proxy row)

unfoldable pub find_proxy : Text → Database → Option ProxyRow
find_proxy session_id db = head? (filter (λ r. r.session_id == session_id) db.proxies.rows)

unfoldable pub get_proxy_by_session : Text → Exec Store (Option Object)
get_proxy_by_session session_id = query (λ db. Option.map decode_proxy (find_proxy session_id db))

-- the UPDATE of `update_proxy`, for the record that was read
unfoldable pub write_proxy : Text → Object → Option Object → Exec Store (Unit {0})
write_proxy session_id updates none = pure tt
write_proxy session_id updates (some current) = do
  change ← lift (set_proxy (merge current updates))
  execute λ db. ok (
    tt,
    record db {
      proxies = record (db.proxies) {
        rows = update (λ r. r.session_id == session_id) change db.proxies.rows;
      };
    },
  )

unfoldable pub update_proxy : Text → Object → Exec Store (Unit {0})
update_proxy session_id updates = do
  current ← get_proxy_by_session session_id
  write_proxy session_id updates current

unfoldable pub delete_proxy : Text → Exec Store (Unit {0})
delete_proxy session_id = execute (delete_proxies_of session_id)

unfoldable pub create_shared_folder : Object → Exec Store ℕ
create_shared_folder folder = do row ← lift (folder_row folder); execute (insert_folder row)

unfoldable pub find_folder : Text → Database → Option FolderRow
find_folder session_id db = head? (filter (λ r. r.session_id == session_id) db.shared_folders.rows)

unfoldable pub get_shared_folder_by_session : Text → Exec Store (Option Object)
get_shared_folder_by_session session_id =
    query (λ db. Option.map decode_folder (find_folder session_id db))

unfoldable pub delete_shared_folder : Text → Exec Store (Unit {0})
delete_shared_folder session_id = execute (delete_folders_of session_id)

unfoldable pub create_resource_allocation : Object → Exec Store ℕ
create_resource_allocation allocation = do
  row ← lift (allocation_row allocation)
  execute (insert_allocation row)

unfoldable pub find_allocation : Text → Database → Option AllocationRow
find_allocation vm_id db = head? (filter (λ r. r.vm_id == vm_id) db.resource_allocations.rows)

unfoldable pub get_allocation_by_vm : Text → Exec Store (Option Object)
get_allocation_by_vm vm_id = query (λ db. Option.map decode_allocation (find_allocation vm_id db))

unfoldable pub delete_allocation : Text → Exec Store (Unit {0})
delete_allocation vm_id = execute (delete_allocation_of vm_id)
