-- ===== src/Store/WellFormed.antt =====
-- The constraints of `_create_schema` (src/agentvm/db/store.py) as an invariant: primary keys,
-- UNIQUE columns and AUTOINCREMENT keys.
pub mod Statements
pub mod Changes
pub mod Preserved
use agent_vm.Base.{Nodup, map, text_eq, nat_eq, List, []}
use agent_vm.Sql.{Table}
use agent_vm.Sql.Keys.{IsKeyed}
use agent_vm.Store.Schema.{Database, empty_database}

pub record IsWellFormed (db : Database) : Type 0 where
  pub sessions : Nodup (map (λ r. r.id) db.sessions)
  pub vms : Nodup (map (λ r. r.id) db.vms)
  pub proxies : Nodup (map (λ r. r.session_id) db.proxies.rows)
  pub proxy_keys : IsKeyed (λ r. r.id) db.proxies
  pub folders : Nodup (map (λ r. r.session_id) db.shared_folders.rows)
  pub folder_keys : IsKeyed (λ r. r.id) db.shared_folders
  pub allocations : Nodup (map (λ r. r.vm_id) db.resource_allocations.rows)
  pub allocation_keys : IsKeyed (λ r. r.id) db.resource_allocations
  pub audit_keys : IsKeyed (λ r. r.id) db.audit_log
  pub rule_keys : IsKeyed (λ r. r.id) db.network_rules

pub empty-IsWellFormed : IsWellFormed empty_database
empty-IsWellFormed = record {
  sessions = tt;
  vms = tt;
  proxies = tt;
  proxy_keys = record { distinct = tt; below = tt };
  folders = tt;
  folder_keys = record { distinct = tt; below = tt };
  allocations = tt;
  allocation_keys = record { distinct = tt; below = tt };
  audit_keys = record { distinct = tt; below = tt };
  rule_keys = record { distinct = tt; below = tt };
}
