-- ===== src/Store/WellFormed/Statements.antt =====
-- Each statement of src/agentvm/db/store.py, applied to a well-formed database, leaves one.
use agent_vm.Base.{suc, [], ◌∷◌, ◌++◌, text_eq, nat_eq, ◌≡◌, refl}
use agent_vm.Python.Result.{Result, ok, >>=-eq-ok}
use agent_vm.Python.Text.{Text}
use agent_vm.Python.Value.{Float, Value}
use agent_vm.Sql.{insert_unique, bind_int}
use agent_vm.Sql.Laws.{insert_unique-Nodup, insert_unique-eq-ok}
use agent_vm.Sql.Keys.{IsKeyed, append-IsKeyed}
use agent_vm.Store.Schema.{
  Database, SessionRow, VmRow, ProxyRow, FolderRow, AllocationRow, AuditRow, RuleRow,
}
use agent_vm.Store.WellFormed.{IsWellFormed}
use agent_vm.Store.Rows.{
  insert_session, insert_vm, bind_vm, insert_proxy, insert_folder, insert_allocation, insert_audit,
  insert_rule, bind_text,
}

-- A statement that leaves a well-formed database, where it returns.
abbrev pub KeepsRows : {A : Type 0} → (Database → Result (A × Database)) → Type 0
KeepsRows {A} statement =
    (db : Database) (a : A) (db' : Database)
    → IsWellFormed db
    → statement db ≡ ok (a, db')
    → IsWellFormed db'

pub insert_session-KeepsRows : (row : SessionRow) → KeepsRows (insert_session row)
unfolding insert_session
insert_session-KeepsRows row db a db' w h =
    let (rows, inserted, e) = >>=-eq-ok (insert_unique (λ r. r.id) row db.sessions) _ h in
    let e' : db' ≡ record db { sessions = rows } = cc in
    let d = insert_unique-Nodup (λ r. r.id) row db.sessions inserted w.sessions in
    rw e' (assumption d)

pub insert_vm-KeepsRows : (row : VmRow) → KeepsRows (insert_vm row)
unfolding insert_vm
insert_vm-KeepsRows row db a db' w h =
    let (_, _, bound) = >>=-eq-ok (bind_vm row) _ h in
    let (rows, inserted, e) = >>=-eq-ok (insert_unique (λ r. r.id) row db.vms) _ bound in
    let e' : db' ≡ record db { vms = rows } = cc in
    let d = insert_unique-Nodup (λ r. r.id) row db.vms inserted w.vms in rw e' (assumption d)

pub insert_proxy-KeepsRows : (row : ProxyRow) → KeepsRows (insert_proxy row)
unfolding insert_proxy
insert_proxy-KeepsRows row db a db' w h =
    let key = suc db.proxies.sequence in
    let row' = record row { id = key } in
    let (_, _, bound) = >>=-eq-ok (bind_int row.port) _ h in
    let (_, _, bound') = >>=-eq-ok (bind_int row.pid) _ bound in
    let (rows, inserted, e) =
      >>=-eq-ok (insert_unique (λ r. r.session_id) row' db.proxies.rows) _ bound' in
    let (fresh, grown) = insert_unique-eq-ok (λ r. r.session_id) row' db.proxies.rows inserted in
    let e' : db' ≡ record db { proxies = record { rows = rows; sequence = key } } = cc in
    let d = insert_unique-Nodup (λ r. r.session_id) row' db.proxies.rows inserted w.proxies in
    let k : IsKeyed (λ r. r.id) (record { rows = rows; sequence = key }) =
      rw grown (append-IsKeyed (λ r. r.id) db.proxies row' refl w.proxy_keys) in
    rw e' (assumption (d, k))

pub insert_folder-KeepsRows : (row : FolderRow) → KeepsRows (insert_folder row)
unfolding insert_folder
insert_folder-KeepsRows row db a db' w h =
    let key = suc db.shared_folders.sequence in
    let row' = record row { id = key } in
    let (rows, inserted, e) =
      >>=-eq-ok (insert_unique (λ r. r.session_id) row' db.shared_folders.rows) _ h in
    let (fresh, grown) =
      insert_unique-eq-ok (λ r. r.session_id) row' db.shared_folders.rows inserted in
    let e' : db' ≡ record db { shared_folders = record { rows = rows; sequence = key } } = cc in
    let d =
      insert_unique-Nodup (λ r. r.session_id) row' db.shared_folders.rows inserted w.folders in
    let k : IsKeyed (λ r. r.id) (record { rows = rows; sequence = key }) =
      rw grown (append-IsKeyed (λ r. r.id) db.shared_folders row' refl w.folder_keys) in
    rw e' (assumption (d, k))

pub insert_allocation-KeepsRows : (row : AllocationRow) → KeepsRows (insert_allocation row)
unfolding insert_allocation
insert_allocation-KeepsRows row db a db' w h =
    let table = db.resource_allocations in
    let key = suc table.sequence in
    let row' = record row { id = key } in
    let (_, _, bound) = >>=-eq-ok (bind_int row.cpu_cores) _ h in
    let (_, _, bound') = >>=-eq-ok (bind_int row.memory_mb) _ bound in
    let (_, _, bound'') = >>=-eq-ok (bind_int row.disk_gb) _ bound' in
    let (rows, inserted, e) = >>=-eq-ok (insert_unique (λ r. r.vm_id) row' table.rows) _ bound'' in
    let (fresh, grown) = insert_unique-eq-ok (λ r. r.vm_id) row' table.rows inserted in
    let e' : db' ≡ record db { resource_allocations = record { rows = rows; sequence = key } } =
      cc in
    let d = insert_unique-Nodup (λ r. r.vm_id) row' table.rows inserted w.allocations in
    let k : IsKeyed (λ r. r.id) (record { rows = rows; sequence = key }) =
      rw grown (append-IsKeyed (λ r. r.id) table row' refl w.allocation_keys) in
    rw e' (assumption (d, k))

pub insert_audit-KeepsRows : (row : AuditRow) → KeepsRows (insert_audit row)
unfolding insert_audit
insert_audit-KeepsRows row db a db' w h =
    let key = suc db.audit_log.sequence in
    let row' = record row { id = key } in
    let e' : db' ≡ record db {
      audit_log = record { rows = db.audit_log.rows ++ row' ∷ []; sequence = key };
    } =
      cc in
    let k = append-IsKeyed (λ r. r.id) db.audit_log row' refl w.audit_keys in rw e' (assumption k)

pub insert_rule-KeepsRows :
    (real_text : Float → Text) (row : RuleRow) (removed : Value)
    → KeepsRows (insert_rule real_text row removed)
unfolding insert_rule
insert_rule-KeepsRows real_text row removed db a db' w h =
    let (removed_at, _, inserted) = >>=-eq-ok (bind_text real_text removed) _ h in
    let key = suc db.network_rules.sequence in
    let row' = record row { id = key; removed_at = removed_at } in
    let e' : db' ≡ record db {
      network_rules = record { rows = db.network_rules.rows ++ row' ∷ []; sequence = key };
    } =
      cc in
    let k = append-IsKeyed (λ r. r.id) db.network_rules row' refl w.rule_keys in
    rw e' (assumption k)
