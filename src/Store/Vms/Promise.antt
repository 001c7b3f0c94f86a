-- ===== src/Store/Vms/Promise.antt =====
-- What the VM methods and `delete_session` of `MetadataStore` promise (src/agentvm/db/store.py): a table of
-- the VMs, which forgets the order of the rows, and everything but the VMs.
use mathlib.Core.Option
use agent_vm.Base.{Bool, true, false, Option, none, some, ◌==◌, text_eq, string_eq, if◌then◌else◌}
use agent_vm.Python.Result.{Result, ok, raise, integrity_error}
use agent_vm.Python.Dict.{merge}
use agent_vm.Python.Text.{Text}
use agent_vm.Python.Value.{Object}
use agent_vm.Sql.Find.{find, unless}
use agent_vm.Store.Schema.{VmRow}
use agent_vm.Store.Connection.{Store}
use agent_vm.Store.Rows.{vm_row, bind_vm, set_vm, decode_vm}
use agent_vm.Store.Sessions.{delete_session}
use agent_vm.Store.Vms.{create_vm, get_vm, update_vm, delete_vm}

-- The VMs by their ids.
abbrev pub Table : Type 0
Table = Text → Option VmRow

pub data Request : Type 0 where
  create : Text → Object → Request
  update_with : Text → Object → Request
  delete_by : Text → Request
  get : Text → Request
  end_session : Text → Request

pub data Reply : Type 0 where
  created : Result Text → Reply
  updated : Result Bool → Reply
  removed : Result (Unit {0}) → Reply
  found : Result (Option Object) → Reply

abbrev pub set : Text → Option VmRow → Table → Table
set id entry table other = if id == other then entry else table other

-- An id that is taken is refused.
abbrev pub add : VmRow → Option VmRow → Table → Reply × Table
add row none table = (created (ok row.id), set row.id (some row) table)
add row (some _) table = (created (raise integrity_error), table)

-- A row whose numbers do not fit is refused.
abbrev pub add_bound : VmRow → Result (Unit {0}) → Table → Reply × Table
add_bound row (raise error) table = (created (raise error), table)
add_bound row (ok _) table = add row (table row.id) table

abbrev pub create_in : Result VmRow → Table → Reply × Table
create_in (raise error) table = (created (raise error), table)
create_in (ok row) table = add_bound row (bind_vm row) table

abbrev pub change : Text → VmRow → Result (VmRow → VmRow) → Table → Reply × Table
change id row (raise error) table = (updated (raise error), table)
change id row (ok assign) table = (updated (ok true), set id (some (assign row)) table)

-- A VM that is not there is not made.
abbrev pub update_in : Text → Object → Option VmRow → Table → Reply × Table
update_in id updates none table = (updated (ok false), table)
update_in id updates (some row) table = change id row (set_vm (merge (decode_vm row) updates)) table

abbrev pub meant : Request → Table → Reply × Table
meant (create now vm) table = create_in (vm_row now vm) table
meant (update_with id updates) table = update_in id updates (table id) table
meant (delete_by id) table = (removed (ok tt), set id none table)
meant (get id) table = (found (ok (Option.map decode_vm (table id))), table)
meant (end_session id) table =
    (removed (ok tt), λ vm_id. unless (λ r. r.session_id == id) (table vm_id))

abbrev pub replied : {A : Type 0} → (Result A → Reply) → Result A × Store → Reply × Store
replied reply (result, s) = (reply result, s)

abbrev pub served : Request → Store → Reply × Store
served (create now vm) s = replied created (create_vm now vm s)
served (update_with id updates) s = replied updated (update_vm id updates s)
served (delete_by id) s = replied removed (delete_vm id s)
served (get id) s = replied found (get_vm id s)
served (end_session id) s = replied removed (delete_session id s)

abbrev pub table_of : Store → Table
table_of s id = find (λ r. r.id) id s.database.vms
