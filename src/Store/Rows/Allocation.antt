-- ===== src/Store/Rows/Allocation.antt =====
-- Rows of `resource_allocations`, one for a VM, and of `audit_log`.
use agent_vm.Base.{ℕ, suc, String, [], ◌∷◌, ◌++◌, string_eq, text_eq, pos}
use agent_vm.Python.Result.{Result, ok, ◌>>=◌}
use agent_vm.Python.Dict.{Dict}
use agent_vm.Python.Text.{Text, codes}
use agent_vm.Python.Value.{Value, str, int, Object, dumps}
use agent_vm.Sql.{insert_unique, bind_int}
use agent_vm.Store.Schema.{Database, AllocationRow, AuditRow}
use agent_vm.Store.Codec.{text_field, int_field, decode_row}

-- the parameters of `create_resource_allocation`
unfoldable pub allocation_row : Object → Result AllocationRow
allocation_row allocation = do
  cpu_cores ← int_field "cpu_cores" allocation
  memory_mb ← int_field "memory_mb" allocation
  disk_gb ← int_field "disk_gb" allocation
  payload ← dumps allocation
  ok (record {
    id = 0;
    vm_id = text_field "vm_id" [] allocation;
    cpu_cores = cpu_cores;
    memory_mb = memory_mb;
    disk_gb = disk_gb;
    payload = payload;
  })

-- the INSERT of `create_resource_allocation`, with `_lastrowid`
unfoldable pub insert_allocation : AllocationRow → Database → Result (ℕ × Database)
insert_allocation row db = do
  _ ← bind_int row.cpu_cores
  _ ← bind_int row.memory_mb
  _ ← bind_int row.disk_gb
  let key = suc db.resource_allocations.sequence
  rows ← insert_unique (λ r. r.vm_id) (record row { id = key }) db.resource_allocations.rows
  ok (key, record db { resource_allocations = record { rows = rows; sequence = key } })

abbrev pub allocation_columns : AllocationRow → Dict String Value
allocation_columns row =
    ("id", int (pos row.id))
    ∷ ("vm_id", str row.vm_id)
    ∷ ("cpu_cores", int row.cpu_cores)
    ∷ ("memory_mb", int row.memory_mb)
    ∷ ("disk_gb", int row.disk_gb)
    ∷ []

unfoldable pub decode_allocation : AllocationRow → Object
decode_allocation row = decode_row (allocation_columns row) row.payload

-- the parameters of `insert_audit_event`
unfoldable pub audit_row : Text → Object → Result AuditRow
audit_row now event = do
  payload ← dumps event
  ok (record {
    id = 0;
    session_id = text_field "session_id" [] event;
    event_type = text_field "event_type" (codes "unknown") event;
    timestamp = text_field "timestamp" now event;
    payload = payload;
  })

-- the INSERT of `insert_audit_event`, with `_lastrowid`
unfoldable pub insert_audit : AuditRow → Database → Result (ℕ × Database)
insert_audit row db =
    let key = suc db.audit_log.sequence in
    ok (
      key,
      record db {
        audit_log = record {
          rows = db.audit_log.rows ++ record row { id = key } ∷ [];
          sequence = key;
        };
      },
    )

abbrev pub audit_columns : AuditRow → Dict String Value
audit_columns row =
    ("id", int (pos row.id))
    ∷ ("session_id", str row.session_id)
    ∷ ("event_type", str row.event_type)
    ∷ ("timestamp", str row.timestamp)
    ∷ []

unfoldable pub decode_audit : AuditRow → Object
decode_audit row = decode_row (audit_columns row) row.payload
