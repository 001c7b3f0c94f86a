-- ===== src/Store/Sessions.antt =====
-- The session methods of `MetadataStore` (src/agentvm/db/store.py). `now` is what `_utc_now` returns.
pub mod Lookup
pub mod Delete
pub mod Promise
pub mod Refinement
use agent_vm.Base.{
  Bool, true, false, ◌&&◌, Option, none, some, List, [], ◌∷◌, map, filter, head?, ◌==◌, text_eq,
  string_eq, ℤ,
}
use mathlib.Core.Option
use agent_vm.Python.Result.{Result, ok}
use agent_vm.Python.Exec.{Exec, pure, lift, ◌>>=◌, ◌>>◌}
use agent_vm.Python.Dict.{merge}
use agent_vm.Python.Text.{Text}
use agent_vm.Python.Value.{Object, dumps}
use agent_vm.Sql.{update, delete, Table}
use agent_vm.Sql.Order.{sort, text_leb}
use agent_vm.Store.Schema.{Database, SessionRow}
use agent_vm.Store.Codec.{parse_minutes}
use agent_vm.Store.Connection.{Store, execute, query}
use agent_vm.Store.Rows.{session_row, insert_session, set_session, decode_session}

unfoldable pub create_session : Text → Object → Exec Store Text
create_session now session = do row ← lift (session_row now session); execute (insert_session row)

unfoldable pub find_session : Text → Database → Option SessionRow
find_session session_id db = head? (filter (λ r. r.id == session_id) db.sessions)

unfoldable pub get_session : Text → Exec Store (Option Object)
get_session session_id = query (λ db. Option.map decode_session (find_session session_id db))

-- the UPDATE of `update_session`, for the record that was read
unfoldable pub write_session : Text → Text → Object → Option Object → Exec Store Bool
write_session now session_id updates none = pure false
write_session now session_id updates (some current) = do
  payload ← lift (dumps (merge current updates))
  execute λ db. ok (
    tt,
    record db {
      sessions =
          update (λ r. r.id == session_id) (set_session (merge current updates) now payload)
            db.sessions;
    },
  )
  pure true

unfoldable pub update_session : Text → Text → Object → Exec Store Bool
update_session now session_id updates = do
  current ← get_session session_id
  write_session now session_id updates current

-- `column = ?`, where the filter is given
abbrev pub matches : Option Text → Text → Bool
matches none column = true
matches (some value) column = column == value

unfoldable pub list_sessions : Option Text → Option Text → Exec Store (List Object)
list_sessions owner status = query λ db. map decode_session (
    sort (λ a b. text_leb a.created_at b.created_at)
      (filter (λ r. matches owner r.owner && matches status r.status) db.sessions))

-- DELETE FROM resource_allocations WHERE vm_id = ?
unfoldable pub delete_allocation_of : Text → Database → Result (Unit {0} × Database)
delete_allocation_of vm_id db = ok (
  tt,
  record db {
    resource_allocations = record (db.resource_allocations) {
      rows = delete (λ r. r.vm_id == vm_id) db.resource_allocations.rows;
    };
  },
)

-- the loop of `delete_session` over the VMs of the session
unfoldable pub delete_allocations : List Text → Exec Store (Unit {0})
delete_allocations [] = pure tt
delete_allocations (vm_id ∷ vm_ids) = do
  execute (delete_allocation_of vm_id)
  delete_allocations vm_ids

-- the DELETE statements of `delete_session`, each of which is committed by itself
unfoldable pub delete_vms_of : Text → Database → Result (Unit {0} × Database)
delete_vms_of session_id db =
    ok (tt, record db { vms = delete (λ r. r.session_id == session_id) db.vms })

unfoldable pub delete_proxies_of : Text → Database → Result (Unit {0} × Database)
delete_proxies_of session_id db = ok (
  tt,
  record db {
    proxies = record (db.proxies) {
      rows = delete (λ r. r.session_id == session_id) db.proxies.rows;
    };
  },
)

unfoldable pub delete_folders_of : Text → Database → Result (Unit {0} × Database)
delete_folders_of session_id db = ok (
  tt,
  record db {
    shared_folders = record (db.shared_folders) {
      rows = delete (λ r. r.session_id == session_id) db.shared_folders.rows;
    };
  },
)

unfoldable pub delete_rules_of : Text → Database → Result (Unit {0} × Database)
delete_rules_of session_id db = ok (
  tt,
  record db {
    network_rules = record (db.network_rules) {
      rows = delete (λ r. r.session_id == session_id) db.network_rules.rows;
    };
  },
)

unfoldable pub delete_session_row : Text → Database → Result (Unit {0} × Database)
delete_session_row session_id db =
    ok (tt, record db { sessions = delete (λ r. r.id == session_id) db.sessions })

unfoldable pub vm_ids_of : Text → Database → List Text
vm_ids_of session_id db = map (λ r. r.id) (filter (λ r. r.session_id == session_id) db.vms)

unfoldable pub delete_session : Text → Exec Store (Unit {0})
delete_session session_id = do
  vm_ids ← query (vm_ids_of session_id)
  execute (delete_vms_of session_id)
  execute (delete_proxies_of session_id)
  execute (delete_folders_of session_id)
  execute (delete_rules_of session_id)
  execute (delete_session_row session_id)
  delete_allocations vm_ids

-- `threshold` is the time that many minutes ago, in ISO format; it fails out of `datetime`'s range.
unfoldable pub get_sessions_by_status_and_age :
    (ℤ → Result Text) → Text → Text → Exec Store (List Object)
get_sessions_by_status_and_age threshold status older_than = do
  minutes ← lift (parse_minutes older_than)
  limit ← lift (threshold minutes)
  query λ db.
      map decode_session
        (filter (λ r. (r.status == status) && text_leb r.created_at limit) db.sessions)
