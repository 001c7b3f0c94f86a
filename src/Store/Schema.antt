-- ===== src/Store/Schema.antt =====
-- The tables of `_create_schema` (src/agentvm/db/store.py), a record for each row. A `data` column
-- holds the text of `json.dumps`, represented by what `json.loads` reads from it.
use agent_vm.Base.{ℕ, Option, List, [], ℤ, pos}
use agent_vm.Python.Text.{Text}
use agent_vm.Python.Value.{Json}
use agent_vm.Sql.{Table, no_rows}

pub record SessionRow : Type 0 where
  pub id : Text
  pub owner : Text
  pub status : Text
  pub created_at : Text
  pub updated_at : Text
  pub payload : Json

pub record VmRow : Type 0 where
  pub id : Text
  pub session_id : Text
  pub name : Text
  pub status : Text
  pub base_image : Text
  pub cpu_cores : ℤ
  pub memory_mb : ℤ
  pub disk_gb : ℤ
  pub created_at : Text
  pub payload : Json

pub record ProxyRow : Type 0 where
  pub id : ℕ
  pub session_id : Text
  pub port : ℤ
  pub pid : ℤ
  pub status : Text
  pub payload : Json

pub record FolderRow : Type 0 where
  pub id : ℕ
  pub session_id : Text
  pub host_path : Text
  pub payload : Json

pub record AllocationRow : Type 0 where
  pub id : ℕ
  pub vm_id : Text
  pub cpu_cores : ℤ
  pub memory_mb : ℤ
  pub disk_gb : ℤ
  pub payload : Json

pub record AuditRow : Type 0 where
  pub id : ℕ
  pub session_id : Text
  pub event_type : Text
  pub timestamp : Text
  pub payload : Json

pub record RuleRow : Type 0 where
  pub id : ℕ
  pub session_id : Text
  pub domain : Text
  pub action : Text
  pub source : Text
  pub created_at : Text
  pub removed_at : Option Text
  pub payload : Json

pub record Database : Type 0 where
  pub sessions : List SessionRow
  pub vms : List VmRow
  pub proxies : Table ProxyRow
  pub shared_folders : Table FolderRow
  pub resource_allocations : Table AllocationRow
  pub audit_log : Table AuditRow
  pub network_rules : Table RuleRow
  pub user_version : ℤ

-- The database that `_create_schema` makes of an empty file.
abbrev pub empty_database : Database
empty_database = record {
  sessions = [];
  vms = [];
  proxies = no_rows;
  shared_folders = no_rows;
  resource_allocations = no_rows;
  audit_log = no_rows;
  network_rules = no_rows;
  user_version = pos 0;
}
