-- ===== src/Store/Rows/Session.antt =====
-- Rows of `sessions`.
use agent_vm.Base.{String, [], ◌∷◌, string_eq, text_eq, ◌≡◌, refl}
use agent_vm.Python.Result.{Result, ok, ◌>>=◌}
use agent_vm.Python.Dict.{Dict}
use agent_vm.Python.Text.{Text, codes}
use agent_vm.Python.Value.{Value, str, Object, Json, to_str, dumps}
use agent_vm.Sql.{insert_unique}
use agent_vm.Store.Schema.{Database, SessionRow}
use agent_vm.Store.Codec.{require, text_field, decode_row}

-- the parameters of `create_session`
unfoldable pub session_row : Text → Object → Result SessionRow
session_row now session = do
  id ← require "id" session
  payload ← dumps session
  ok (record {
    id = to_str id;
    owner = text_field "owner" [] session;
    status = text_field "status" (codes "creating") session;
    created_at = text_field "created_at" now session;
    updated_at = now;
    payload = payload;
  })

-- the INSERT of `create_session`
unfoldable pub insert_session : SessionRow → Database → Result (Text × Database)
insert_session row db = do
  rows ← insert_unique (λ r. r.id) row db.sessions
  ok (row.id, record db { sessions = rows })

-- the SET clause of `update_session`
unfoldable pub set_session : Object → Text → Json → SessionRow → SessionRow
set_session merged now payload row = record row {
  owner = text_field "owner" [] merged;
  status = text_field "status" [] merged;
  updated_at = now;
  payload = payload;
}

-- The key stays.
pub set_session-id :
    (merged : Object) (now : Text) (payload : Json) (r : SessionRow)
    → (set_session merged now payload r).id ≡ r.id
unfolding set_session
set_session-id merged now payload r = refl

abbrev pub session_columns : SessionRow → Dict String Value
session_columns row =
    ("id", str row.id)
    ∷ ("owner", str row.owner)
    ∷ ("status", str row.status)
    ∷ ("created_at", str row.created_at)
    ∷ ("updated_at", str row.updated_at)
    ∷ []

unfoldable pub decode_session : SessionRow → Object
decode_session row = decode_row (session_columns row) row.payload
