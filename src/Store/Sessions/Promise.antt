-- ===== src/Store/Sessions/Promise.antt =====
-- What the session methods of `MetadataStore` promise (src/agentvm/db/store.py): a table that forgets the
-- order of the rows, and everything but the sessions.
use mathlib.Core.Option
use agent_vm.Base.{Bool, true, false, Option, none, some, ◌==◌, text_eq, string_eq, if◌then◌else◌}
use agent_vm.Python.Result.{Result, ok, raise, integrity_error}
use agent_vm.Python.Dict.{merge}
use agent_vm.Python.Text.{Text}
use agent_vm.Python.Value.{Object, Json, dumps}
use agent_vm.Sql.Find.{find}
use agent_vm.Store.Schema.{SessionRow}
use agent_vm.Store.Connection.{Store}
use agent_vm.Store.Rows.{session_row, set_session, decode_session}
use agent_vm.Store.Sessions.{create_session, get_session, update_session, delete_session}

-- The sessions by their ids.
abbrev pub Table : Type 0
Table = Text → Option SessionRow

pub data Request : Type 0 where
  create : Text → Object → Request
  update_with : Text → Text → Object → Request
  delete_by : Text → Request
  get : Text → Request

pub data Reply : Type 0 where
  created : Result Text → Reply
  updated : Result Bool → Reply
  removed : Result (Unit {0}) → Reply
  found : Result (Option Object) → Reply

abbrev pub set : Text → Option SessionRow → Table → Table
set id entry table other = if id == other then entry else table other

-- An id that is taken is refused.
abbrev pub add : SessionRow → Option SessionRow → Table → Reply × Table
add row none table = (created (ok row.id), set row.id (some row) table)
add row (some _) table = (created (raise integrity_error), table)

abbrev pub create_in : Result SessionRow → Table → Reply × Table
create_in (raise error) table = (created (raise error), table)
create_in (ok row) table = add row (table row.id) table

abbrev pub change : Text → Text → Object → SessionRow → Result Json → Table → Reply × Table
change now id merged row (raise error) table = (updated (raise error), table)
change now id merged row (ok payload) table =
    (updated (ok true), set id (some (set_session merged now payload row)) table)

-- A session that is not there is not made.
abbrev pub update_in : Text → Text → Object → Option SessionRow → Table → Reply × Table
update_in now id updates none table = (updated (ok false), table)
update_in now id updates (some row) table =
    let merged = merge (decode_session row) updates in change now id merged row (dumps merged) table

abbrev pub meant : Request → Table → Reply × Table
meant (create now session) table = create_in (session_row now session) table
meant (update_with now id updates) table = update_in now id updates (table id) table
meant (delete_by id) table = (removed (ok tt), set id none table)
meant (get id) table = (found (ok (Option.map decode_session (table id))), table)

abbrev pub replied : {A : Type 0} → (Result A → Reply) → Result A × Store → Reply × Store
replied reply (result, s) = (reply result, s)

abbrev pub served : Request → Store → Reply × Store
served (create now session) s = replied created (create_session now session s)
served (update_with now id updates) s = replied updated (update_session now id updates s)
served (delete_by id) s = replied removed (delete_session id s)
served (get id) s = replied found (get_session id s)

abbrev pub table_of : Store → Table
table_of s id = find (λ r. r.id) id s.database.sessions
