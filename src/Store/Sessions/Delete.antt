-- ===== src/Store/Sessions/Delete.antt =====
-- What `delete_session` (src/agentvm/db/store.py) removes and what it leaves.
use agent_vm.Base.{
  Bool, true, false, List, [], ◌∷◌, filter, contains, ◌≡◌, refl, arith, ◌==◌, text_eq, ◌≢◌, ◌∙◌, ap,
  sym, text_beq_iff, text_beq, Bool-cases, inl, inr,
}
use agent_vm.Python.Result.{ok}
use agent_vm.Python.Text.{Text}
use agent_vm.Sql.{delete}
use agent_vm.Sql.Laws.{filter-delete_self, filter-delete_ne, filter-delete_nil}
use agent_vm.Store.Schema.{Database, SessionRow, VmRow, ProxyRow, FolderRow, AllocationRow, RuleRow}
use agent_vm.Store.Connection.{Store, execute, query}
use agent_vm.Store.Sessions.{
  delete_allocations, delete_allocation_of, delete_session, delete_vms_of, delete_proxies_of,
  delete_folders_of, delete_rules_of, delete_session_row, vm_ids_of,
}

-- The allocations that the loop leaves.
delete_all : List Text → List AllocationRow → List AllocationRow
delete_all [] rows = rows
delete_all (id ∷ ids) rows = delete_all ids (delete (λ r. r.vm_id == id) rows)

-- The database that `delete_session` leaves.
pub deleted : Text → Database → Database
deleted id db = record db {
  sessions = delete (λ r. r.id == id) db.sessions;
  vms = delete (λ r. r.session_id == id) db.vms;
  proxies = record (db.proxies) { rows = delete (λ r. r.session_id == id) db.proxies.rows };
  shared_folders = record (db.shared_folders) {
    rows = delete (λ r. r.session_id == id) db.shared_folders.rows;
  };
  network_rules = record (db.network_rules) {
    rows = delete (λ r. r.session_id == id) db.network_rules.rows;
  };
  resource_allocations = record (db.resource_allocations) {
    rows = delete_all (vm_ids_of id db) db.resource_allocations.rows;
  };
}

pub deleted-sessions :
    (id : Text) (db : Database) → (deleted id db).sessions ≡ delete (λ r. r.id == id) db.sessions
unfolding deleted
deleted-sessions id db = refl

pub deleted-vms :
    (id : Text) (db : Database) → (deleted id db).vms ≡ delete (λ r. r.session_id == id) db.vms
unfolding deleted
deleted-vms id db = refl

abbrev online : Bool → Database → Store
online in_memory db = record { in_memory = in_memory; connected = true; database = db }

delete_allocations-eq :
    (ids : List Text) (m : Bool) (db : Database)
    → delete_allocations ids (online m db) ≡ (
      ok tt,
      online m (record db {
        resource_allocations = record (db.resource_allocations) {
          rows = delete_all ids db.resource_allocations.rows;
        };
      }),
    )
unfolding delete_allocations delete_all execute delete_allocation_of
delete_allocations-eq [] m db = refl
delete_allocations-eq (id ∷ ids) m db = delete_allocations-eq ids m (record db {
  resource_allocations = record (db.resource_allocations) {
    rows = delete (λ r. r.vm_id == id) db.resource_allocations.rows;
  };
})

delete_session-online :
    (id : Text) (m : Bool) (db : Database)
    → delete_session id (online m db) ≡ (ok tt, online m (deleted id db))
unfolding delete_session deleted execute query delete_vms_of delete_proxies_of delete_folders_of
    delete_rules_of delete_session_row
delete_session-online id m db = delete_allocations-eq (vm_ids_of id db) m _

pub delete_session-eq :
    (id : Text) (s : Store)
    → s.connected ≡ true
    → delete_session id s ≡ (ok tt, record s { database = deleted id s.database })
delete_session-eq id s c =
    let e : s ≡ online s.in_memory s.database = λ i. record s { connected = c i } in
    ap (delete_session id) e ∙ delete_session-online id s.in_memory s.database ∙ λ i.
    (ok tt, record s { connected = sym c i; database = deleted id s.database })

delete_all_nil :
    (v : Text) (ids : List Text) (rows : List AllocationRow)
    → filter (λ r. r.vm_id == v) rows ≡ []
    → filter (λ r. r.vm_id == v) (delete_all ids rows) ≡ []
unfolding delete_all
delete_all_nil v [] rows h = h
delete_all_nil v (id ∷ ids) rows h =
    delete_all_nil v ids (delete (λ r. r.vm_id == id) rows) (filter-delete_nil _ _ rows h)

delete_all_gone :
    (v : Text) (ids : List Text) (rows : List AllocationRow)
    → contains v ids ≡ true
    → filter (λ r. r.vm_id == v) (delete_all ids rows) ≡ []
unfolding delete_all contains
delete_all_gone v [] rows h = cc
delete_all_gone v (id ∷ ids) rows h = elim (Bool-cases (text_beq v id)) [
  | inl same ↦
      let e : v ≡ id = (text_beq_iff v id).0 same in
      delete_all_nil v ids (delete (λ r. r.vm_id == id) rows)
        (rw e (filter-delete_self (λ r. r.vm_id == id) rows))
  | inr other ↦ delete_all_gone v ids (delete (λ r. r.vm_id == id) rows) (rw other at h)
]

delete_all_other :
    (v : Text) (ids : List Text) (rows : List AllocationRow)
    → contains v ids ≡ false
    → filter (λ r. r.vm_id == v) (delete_all ids rows) ≡ filter (λ r. r.vm_id == v) rows
unfolding delete_all contains
delete_all_other v [] rows h = refl
delete_all_other v (id ∷ ids) rows h =
    let ne : v ≢ id = λ e. ground (arith, text_beq_iff v id) in
    delete_all_other v ids (delete (λ r. r.vm_id == id) rows) (ground arith)
    ∙ filter-delete_ne (λ (r : AllocationRow). r.vm_id) v id rows ne

-- Nothing of the session is left, and everything else is as it was.
pub record IsDeletedFrom (id : Text) (before after : Database) : Type 0 where
  pub session : filter (λ r. r.id == id) after.sessions ≡ []
  pub vms : filter (λ r. r.session_id == id) after.vms ≡ []
  pub proxies : filter (λ r. r.session_id == id) after.proxies.rows ≡ []
  pub folders : filter (λ r. r.session_id == id) after.shared_folders.rows ≡ []
  pub rules : filter (λ r. r.session_id == id) after.network_rules.rows ≡ []
  pub allocations :
      (vm_id : Text)
      → contains vm_id (vm_ids_of id before) ≡ true
      → filter (λ r. r.vm_id == vm_id) after.resource_allocations.rows ≡ []
  pub other_sessions :
      (other : Text)
      → other ≢ id
      → filter (λ r. r.id == other) after.sessions ≡ filter (λ r. r.id == other) before.sessions
  pub other_vms :
      (other : Text)
      → other ≢ id
      → filter (λ r. r.session_id == other) after.vms
        ≡ filter (λ r. r.session_id == other) before.vms
  pub other_proxies :
      (other : Text)
      → other ≢ id
      → filter (λ r. r.session_id == other) after.proxies.rows
        ≡ filter (λ r. r.session_id == other) before.proxies.rows
  pub other_folders :
      (other : Text)
      → other ≢ id
      → filter (λ r. r.session_id == other) after.shared_folders.rows
        ≡ filter (λ r. r.session_id == other) before.shared_folders.rows
  pub other_rules :
      (other : Text)
      → other ≢ id
      → filter (λ r. r.session_id == other) after.network_rules.rows
        ≡ filter (λ r. r.session_id == other) before.network_rules.rows
  pub other_allocations :
      (vm_id : Text)
      → contains vm_id (vm_ids_of id before) ≡ false
      → filter (λ r. r.vm_id == vm_id) after.resource_allocations.rows
        ≡ filter (λ r. r.vm_id == vm_id) before.resource_allocations.rows
  pub audit_log : after.audit_log ≡ before.audit_log

deleted-IsDeletedFrom : (id : Text) (db : Database) → IsDeletedFrom id db (deleted id db)
unfolding deleted
deleted-IsDeletedFrom id db = record {
  session = filter-delete_self _ db.sessions;
  vms = filter-delete_self _ db.vms;
  proxies = filter-delete_self _ db.proxies.rows;
  folders = filter-delete_self _ db.shared_folders.rows;
  rules = filter-delete_self _ db.network_rules.rows;
  allocations = λ v h. delete_all_gone v (vm_ids_of id db) db.resource_allocations.rows h;
  other_sessions = λ j h. filter-delete_ne (λ (r : SessionRow). r.id) j id db.sessions h;
  other_vms = λ j h. filter-delete_ne (λ (r : VmRow). r.session_id) j id db.vms h;
  other_proxies = λ j h. filter-delete_ne (λ (r : ProxyRow). r.session_id) j id db.proxies.rows h;
  other_folders =
      λ j h. filter-delete_ne (λ (r : FolderRow). r.session_id) j id db.shared_folders.rows h;
  other_rules =
      λ j h. filter-delete_ne (λ (r : RuleRow). r.session_id) j id db.network_rules.rows h;
  other_allocations = λ v h. delete_all_other v (vm_ids_of id db) db.resource_allocations.rows h;
  audit_log = refl;
}

-- On an open store `delete_session` returns. No session, VM, proxy, shared folder or network rule of
-- that session is left, and no resource allocation of its VMs; those of other sessions and of other
-- VMs are as they were, and so is the audit log.
pub delete_session-IsDeletedFrom :
    (id : Text) (s : Store)
    → s.connected ≡ true
    → ((delete_session id s).0 ≡ ok tt)
      × IsDeletedFrom id s.database (delete_session id s).1.database
delete_session-IsDeletedFrom id s c =
    rw (delete_session-eq id s c) (refl, deleted-IsDeletedFrom id s.database)
