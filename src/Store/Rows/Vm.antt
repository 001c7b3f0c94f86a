-- ===== src/Store/Rows/Vm.antt =====
-- Rows of `vms`.
use agent_vm.Base.{String, [], ◌∷◌, string_eq, text_eq}
use agent_vm.Python.Result.{Result, ok, ◌>>=◌}
use agent_vm.Python.Dict.{Dict}
use agent_vm.Python.Text.{Text, codes}
use agent_vm.Python.Value.{Value, str, int, Object, to_str, dumps}
use agent_vm.Sql.{insert_unique, bind_int}
use agent_vm.Store.Schema.{Database, VmRow}
use agent_vm.Store.Codec.{require, text_field, int_field, decode_row}

-- the parameters of `create_vm`
unfoldable pub vm_row : Text → Object → Result VmRow
vm_row now vm = do
  id ← require "id" vm
  cpu_cores ← int_field "cpu_cores" vm
  memory_mb ← int_field "memory_mb" vm
  disk_gb ← int_field "disk_gb" vm
  payload ← dumps vm
  ok (record {
    id = to_str id;
    session_id = text_field "session_id" [] vm;
    name = text_field "name" [] vm;
    status = text_field "status" (codes "creating") vm;
    base_image = text_field "base_image" [] vm;
    cpu_cores = cpu_cores;
    memory_mb = memory_mb;
    disk_gb = disk_gb;
    created_at = text_field "created_at" now vm;
    payload = payload;
  })

-- the numbers of a row, as parameters of a statement
unfoldable pub bind_vm : VmRow → Result (Unit {0})
bind_vm row = do
  _ ← bind_int row.cpu_cores
  _ ← bind_int row.memory_mb
  _ ← bind_int row.disk_gb
  ok tt

-- the INSERT of `create_vm`
unfoldable pub insert_vm : VmRow → Database → Result (Text × Database)
insert_vm row db = do
  _ ← bind_vm row
  rows ← insert_unique (λ r. r.id) row db.vms
  ok (row.id, record db { vms = rows })

-- the SET clause of `update_vm`, with its parameters read and bound
unfoldable pub set_vm : Object → Result (VmRow → VmRow)
set_vm merged = do
  cpu_cores ← int_field "cpu_cores" merged
  memory_mb ← int_field "memory_mb" merged
  disk_gb ← int_field "disk_gb" merged
  payload ← dumps merged
  _ ← bind_int cpu_cores
  _ ← bind_int memory_mb
  _ ← bind_int disk_gb
  ok λ row. record row {
    session_id = text_field "session_id" [] merged;
    name = text_field "name" [] merged;
    status = text_field "status" [] merged;
    base_image = text_field "base_image" [] merged;
    cpu_cores = cpu_cores;
    memory_mb = memory_mb;
    disk_gb = disk_gb;
    payload = payload;
  }

abbrev pub vm_columns : VmRow → Dict String Value
vm_columns row =
    ("id", str row.id)
    ∷ ("session_id", str row.session_id)
    ∷ ("name", str row.name)
    ∷ ("status", str row.status)
    ∷ ("base_image", str row.base_image)
    ∷ ("cpu_cores", int row.cpu_cores)
    ∷ ("memory_mb", int row.memory_mb)
    ∷ ("disk_gb", int row.disk_gb)
    ∷ ("created_at", str row.created_at)
    ∷ []

unfoldable pub decode_vm : VmRow → Object
decode_vm row = decode_row (vm_columns row) row.payload
