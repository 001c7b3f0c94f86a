-- ===== src/Store/Rows/Proxy.antt =====
-- Rows of `proxies` and `shared_folders`: one for a session, with an AUTOINCREMENT key.
use agent_vm.Base.{ℕ, suc, String, [], ◌∷◌, string_eq, text_eq, pos}
use agent_vm.Python.Result.{Result, ok, ◌>>=◌}
use agent_vm.Python.Dict.{Dict}
use agent_vm.Python.Text.{codes}
use agent_vm.Python.Value.{Value, str, int, Object, dumps}
use agent_vm.Sql.{insert_unique, bind_int}
use agent_vm.Store.Schema.{Database, ProxyRow, FolderRow}
use agent_vm.Store.Codec.{text_field, int_field, decode_row}

-- the parameters of `create_proxy`; the statement gives the row its key
unfoldable pub proxy_row : Object → Result ProxyRow
proxy_row proxy = do
  port ← int_field "port" proxy
  pid ← int_field "pid" proxy
  payload ← dumps proxy
  ok (record {
    id = 0;
    session_id = text_field "session_id" [] proxy;
    port = port;
    pid = pid;
    status = text_field "status" (codes "running") proxy;
    payload = payload;
  })

-- the INSERT of `create_proxy`, with `_lastrowid`
unfoldable pub insert_proxy : ProxyRow → Database → Result (ℕ × Database)
insert_proxy row db = do
  _ ← bind_int row.port
  _ ← bind_int row.pid
  let key = suc db.proxies.sequence
  rows ← insert_unique (λ r. r.session_id) (record row { id = key }) db.proxies.rows
  ok (key, record db { proxies = record { rows = rows; sequence = key } })

-- the SET clause of `update_proxy`, with its parameters read and bound
unfoldable pub set_proxy : Object → Result (ProxyRow → ProxyRow)
set_proxy merged = do
  port ← int_field "port" merged
  pid ← int_field "pid" merged
  payload ← dumps merged
  _ ← bind_int port
  _ ← bind_int pid
  ok λ row. record row {
    port = port;
    pid = pid;
    status = text_field "status" [] merged;
    payload = payload;
  }

abbrev pub proxy_columns : ProxyRow → Dict String Value
proxy_columns row =
    ("id", int (pos row.id))
    ∷ ("session_id", str row.session_id)
    ∷ ("port", int row.port)
    ∷ ("pid", int row.pid)
    ∷ ("status", str row.status)
    ∷ []

unfoldable pub decode_proxy : ProxyRow → Object
decode_proxy row = decode_row (proxy_columns row) row.payload

-- the parameters of `create_shared_folder`
unfoldable pub folder_row : Object → Result FolderRow
folder_row folder = do
  payload ← dumps folder
  ok (record {
    id = 0;
    session_id = text_field "session_id" [] folder;
    host_path = text_field "host_path" [] folder;
    payload = payload;
  })

-- the INSERT of `create_shared_folder`, with `_lastrowid`
unfoldable pub insert_folder : FolderRow → Database → Result (ℕ × Database)
insert_folder row db = do
  let key = suc db.shared_folders.sequence
  rows ← insert_unique (λ r. r.session_id) (record row { id = key }) db.shared_folders.rows
  ok (key, record db { shared_folders = record { rows = rows; sequence = key } })

abbrev pub folder_columns : FolderRow → Dict String Value
folder_columns row =
    ("id", int (pos row.id))
    ∷ ("session_id", str row.session_id)
    ∷ ("host_path", str row.host_path)
    ∷ []

unfoldable pub decode_folder : FolderRow → Object
decode_folder row = decode_row (folder_columns row) row.payload
