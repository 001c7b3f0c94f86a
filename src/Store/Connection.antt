-- ===== src/Store/Connection.antt =====
-- The connection of `MetadataStore` (src/agentvm/db/store.py): `__init__`, `initialize`, `close`,
-- `_connection`, `_execute`, `_query_one`, `_query_all`, and the schema version.
use agent_vm.Base.{◌^◌, ◌-◌, Bool, true, false, ◌&&◌, ℤ, pos, negsuc, leb_ℤ, if◌then◌else◌}
use agent_vm.Python.Result.{Result, ok, raise, runtime_error}
use agent_vm.Python.Exec.{Exec, ◌>>◌, lift}
use agent_vm.Store.Schema.{Database, empty_database}

-- `db_path` matters in one way: ":memory:" is a database that ends with its connection.
pub record Store : Type 0 where
  pub in_memory : Bool
  pub connected : Bool
  pub database : Database

-- `__init__`: what stands at the path when the store is made
abbrev pub new_store : Bool → Database → Store
new_store in_memory file = record { in_memory = in_memory; connected = false; database = file }

-- What the steps of an opening come to: making the parent directory, `sqlite3.connect`, and the
-- statements of the pragmas and of `_create_schema`.
pub record Opening : Type 0 where
  pub mkdir : Result (Unit {0})
  pub connected : Result (Unit {0})
  pub set_up : Result (Unit {0})

-- `_conn` is assigned before the statements that set the database up; the tables of a file are kept.
-- A new file has the tables, empty, also where `set_up` fails.
unfoldable pub connect : Result (Unit {0}) → Exec Store (Unit {0})
connect set_up s = (
  set_up,
  record s { connected = true; database = if s.in_memory then empty_database else s.database },
)

unfoldable pub initialize : Opening → Exec Store (Unit {0})
unfolding connect
initialize opening s =
    if s.in_memory
    then (lift opening.connected >> connect opening.set_up) s
    else (lift opening.mkdir >> (lift opening.connected >> connect opening.set_up)) s

-- A database in memory is lost.
unfoldable pub close : Exec Store (Unit {0})
close s = (
  ok tt,
  record s { connected = false; database = if s.in_memory then empty_database else s.database },
)

abbrev pub commit {ℓ} : {A : Type ℓ} → Store → Result (A × Database) → Result A × Store
commit s (ok (a, database)) = (ok a, record s { database = database })
commit s (raise error) = (raise error, s)

-- `_execute`: a statement that fails changes nothing
unfoldable pub execute {ℓ} :
    {A : Type ℓ} → (Database → Result (A × Database)) → Store → Result A × Store
execute statement s =
    if s.connected then commit s (statement s.database) else (raise runtime_error, s)

-- `_query_one` and `_query_all`
unfoldable pub query {ℓ} : {A : Type ℓ} → (Database → A) → Store → Result A × Store
query select s = (if s.connected then ok (select s.database) else raise runtime_error, s)

-- `_query_all` where binding a parameter can fail
unfoldable pub query_bound {ℓ} : {A : Type ℓ} → (Database → Result A) → Store → Result A × Store
query_bound select s = (if s.connected then select s.database else raise runtime_error, s)

unfoldable pub get_schema_version : Exec Store ℤ
unfolding query
get_schema_version = query (λ db. db.user_version)

-- SQLite keeps the version in 32 bits, and reads 0 from a number that does not fit.
unfoldable pub run_migrations : ℤ → Exec Store (Unit {0})
unfolding execute
run_migrations target_version = execute λ db. ok (
  tt,
  record db {
    user_version =
        if leb_ℤ (negsuc (2 ^ 31 - 1)) target_version && leb_ℤ target_version (pos (2 ^ 31 - 1))
        then target_version
        else pos 0;
  },
)
