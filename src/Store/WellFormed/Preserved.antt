-- ===== src/Store/WellFormed/Preserved.antt =====
-- Every call of `MetadataStore` leaves a well-formed database, whether it returns or raises.
use agent_vm.Base.{
  Bool, true, Option, none, some, List, [], ◌∷◌, map, Nodup, ◌≡◌, refl, arith, ◌==◌, text_eq,
  nat_eq, string_eq, ℤ,
}
use agent_vm.Python.Result.{Result, ok, raise}
use agent_vm.Python.Exec.{Exec, Keeps, Keeps-bind, Keeps-pure, keeps_rules, ◌>>=◌, lift}
use agent_vm.Python.Dict.{merge}
use agent_vm.Python.Text.{Text}
use agent_vm.Python.Value.{Object}
use agent_vm.Sql.{update, with_int}
use agent_vm.Sql.Laws.{map-update}
use agent_vm.Sql.Keys.{update-IsKeyed}
use agent_vm.Store.Schema.{Database, SessionRow, VmRow, ProxyRow}
use agent_vm.Store.Connection.{Store, execute, query, commit, connect, close, run_migrations}
use agent_vm.Store.Rows.{set_session-id, set_vm, set_proxy}
use agent_vm.Store.Sessions.{
  create_session, get_session, update_session, write_session, delete_session, delete_allocations,
  delete_allocation_of,
}
use agent_vm.Store.Vms.{create_vm, get_vm, update_vm, write_vm, delete_vm, delete_vm_row}
use agent_vm.Store.Records.{
  create_proxy, get_proxy_by_session, update_proxy, write_proxy, delete_proxy, create_shared_folder,
  delete_shared_folder, create_resource_allocation, delete_allocation,
}
use agent_vm.Store.Logs.{
  mark_removed, has_id, insert_audit_event, create_network_rule, deactivate_network_rule,
  deactivate_all_network_rules, delete_network_rules,
}
use agent_vm.Store.Connection.{get_schema_version, query_bound}
use agent_vm.Store.Sessions.{list_sessions, get_sessions_by_status_and_age}
use agent_vm.Store.Vms.{get_vm_by_session, get_vms_by_image, list_vms, get_active_vms}
use agent_vm.Store.Records.{get_shared_folder_by_session, get_allocation_by_vm}
use agent_vm.Store.Logs.{query_audit_log, get_network_rules}
use agent_vm.Store.Calls.Kept.{initialize-Keeps}
use agent_vm.Store.Calls.{
  Call, perform, perform_all, initialize_call, delete_vm_call, deactivate_network_rule_call,
}
use agent_vm.Store.WellFormed.{IsWellFormed, empty-IsWellFormed}
use agent_vm.Store.WellFormed.Statements.{
  KeepsRows, insert_session-KeepsRows, insert_vm-KeepsRows, insert_proxy-KeepsRows,
  insert_folder-KeepsRows, insert_allocation-KeepsRows, insert_audit-KeepsRows,
  insert_rule-KeepsRows,
}
use agent_vm.Store.WellFormed.Changes.{
  delete_vm_row-KeepsRows, delete_vms_of-KeepsRows, delete_session_row-KeepsRows,
  delete_proxies_of-KeepsRows, delete_folders_of-KeepsRows, delete_rules_of-KeepsRows,
  delete_allocation_of-KeepsRows, mark_removed-KeepsRows, with_int-KeepsRows, set_vm-id,
  set_proxy-keys,
}

-- The store's database is well-formed.
abbrev pub IsValid : Store → Type 0
IsValid s = IsWellFormed s.database

module _ {A : Type 0} where
  commit-IsValid :
      (s : Store) (r : Result (A × Database))
      → ((a : A) (db : Database) → r ≡ ok (a, db) → IsWellFormed db)
      → IsWellFormed s.database
      → IsWellFormed (commit s r).1.database
  commit-IsValid s (ok (a, db)) keep w = keep a db refl
  commit-IsValid s (raise error) keep w = w

  execute-Keeps : (f : Database → Result (A × Database)) → KeepsRows f → Keeps IsValid (execute f)
  unfolding execute
  execute-Keeps f keep = record {
    after = λ s w.
        ground (arith, commit-IsValid s (f s.database) (λ a db h. keep s.database a db w h) w);
  }

  query-Keeps : (f : Database → A) → Keeps IsValid (query f)
  unfolding query
  query-Keeps f = record { after = λ s w. w }

  query_bound-Keeps : (select : Database → Result A) → Keeps IsValid (query_bound select)
  unfolding query_bound
  query_bound-Keeps select = record { after = λ s held. held }

ruleset rules = (
  keeps_rules, execute-Keeps, query-Keeps, query_bound-Keeps, insert_session-KeepsRows,
  insert_vm-KeepsRows, insert_proxy-KeepsRows, insert_folder-KeepsRows, insert_allocation-KeepsRows,
  insert_audit-KeepsRows, insert_rule-KeepsRows, delete_vms_of-KeepsRows,
  delete_session_row-KeepsRows, delete_proxies_of-KeepsRows, delete_folders_of-KeepsRows,
  delete_rules_of-KeepsRows, delete_allocation_of-KeepsRows, mark_removed-KeepsRows,
)

create_session-Keeps : (now : Text) (session : Object) → Keeps IsValid (create_session now session)
unfolding create_session
create_session-Keeps now session = search rules

delete_allocations-Keeps : (ids : List Text) → Keeps IsValid (delete_allocations ids)
unfolding delete_allocations
delete_allocations-Keeps [] = search rules
delete_allocations-Keeps (id ∷ ids) =
    Keeps-bind (execute (delete_allocation_of id)) (λ _. delete_allocations ids)
      (execute-Keeps _ (delete_allocation_of-KeepsRows id)) (λ _. delete_allocations-Keeps ids)

delete_session-Keeps : (id : Text) → Keeps IsValid (delete_session id)
unfolding delete_session
delete_session-Keeps id = search (rules, delete_allocations-Keeps) depth 16

-- UPDATE sessions … WHERE id = ?, where the SET clause leaves the key alone
update_sessions-KeepsRows :
    (p : SessionRow → Bool) (change : SessionRow → SessionRow)
    → ((r : SessionRow) → (change r).id ≡ r.id)
    → KeepsRows {A = Unit {0}} (λ db. ok (tt, record db { sessions = update p change db.sessions }))
update_sessions-KeepsRows p change same db a db' w h =
    let e : db' ≡ record db { sessions = update p change db.sessions } = cc in
    let d : Nodup (map (λ r. r.id) (update p change db.sessions)) =
      rw (map-update (λ (r : SessionRow). r.id) p change same) w.sessions in
    rw e (assumption d)

update_vms-KeepsRows :
    (p : VmRow → Bool) (change : VmRow → VmRow)
    → ((r : VmRow) → (change r).id ≡ r.id)
    → KeepsRows {A = Unit {0}} (λ db. ok (tt, record db { vms = update p change db.vms }))
update_vms-KeepsRows p change same db a db' w h =
    let e : db' ≡ record db { vms = update p change db.vms } = cc in
    let d : Nodup (map (λ r. r.id) (update p change db.vms)) =
      rw (map-update (λ (r : VmRow). r.id) p change same) w.vms in
    rw e (assumption d)

update_proxies-KeepsRows :
    (p : ProxyRow → Bool) (change : ProxyRow → ProxyRow)
    → ((r : ProxyRow) → ((change r).id ≡ r.id) × ((change r).session_id ≡ r.session_id))
    → KeepsRows {A = Unit {0}} (λ db.
      ok (
        tt,
        record db { proxies = record (db.proxies) { rows = update p change db.proxies.rows } },
      ))
update_proxies-KeepsRows p change same db a db' w h =
    let table = db.proxies in
    let e : db' ≡ record db { proxies = record table { rows = update p change table.rows } } = cc in
    let d : Nodup (map (λ r. r.session_id) (update p change table.rows)) =
      rw (map-update (λ (r : ProxyRow). r.session_id) p change (λ r. (same r).1)) w.proxies in
    let k = update-IsKeyed (λ r. r.id) table p change (λ r. (same r).0) w.proxy_keys in
    rw e (assumption (d, k))

write_session-Keeps :
    (now id : Text) (updates : Object) (o : Option Object)
    → Keeps IsValid (write_session now id updates o)
unfolding write_session
write_session-Keeps now id updates none = search keeps_rules
write_session-Keeps now id updates (some current) =
    search (rules, update_sessions-KeepsRows, set_session-id)

update_session-Keeps :
    (now id : Text) (updates : Object) → Keeps IsValid (update_session now id updates)
unfolding update_session get_session
update_session-Keeps now id updates = search (rules, write_session-Keeps)

-- the rest of a block may use what a `Result` returned
Keeps-bind-lift :
    {A B : Type 0} (r : Result A) (f : A → Exec Store B)
    → ((a : A) → r ≡ ok a → Keeps IsValid (f a))
    → Keeps IsValid (lift r >>= f)
Keeps-bind-lift (ok a) f kf = record { after = λ s w. (kf a refl).after s w }
Keeps-bind-lift (raise error) f kf = record { after = λ s w. w }

write_vm-Keeps :
    (id : Text) (updates : Object) (o : Option Object) → Keeps IsValid (write_vm id updates o)
unfolding write_vm
write_vm-Keeps id updates none = search keeps_rules
write_vm-Keeps id updates (some current) =
    Keeps-bind-lift (set_vm (merge current updates)) _ λ change h.
      Keeps-bind _ _
        (execute-Keeps _ (
          update_vms-KeepsRows (λ r. r.id == id) change
            (set_vm-id (merge current updates) change h)))
        (λ _. Keeps-pure true)

write_proxy-Keeps :
    (id : Text) (updates : Object) (o : Option Object) → Keeps IsValid (write_proxy id updates o)
unfolding write_proxy
write_proxy-Keeps id updates none = search keeps_rules
write_proxy-Keeps id updates (some current) =
    Keeps-bind-lift (set_proxy (merge current updates)) _ λ change h. execute-Keeps _ (
      update_proxies-KeepsRows (λ r. r.session_id == id) change
        (set_proxy-keys (merge current updates) change h))

connect-Keeps : (set_up : Result (Unit {0})) → Keeps IsValid (connect set_up)
unfolding connect
connect-Keeps set_up = record { after = λ s w. ground (arith, empty-IsWellFormed) }

close-Keeps : Keeps IsValid close
unfolding close
close-Keeps = record { after = λ s w. ground (arith, empty-IsWellFormed) }

run_migrations-Keeps : (version : ℤ) → Keeps IsValid (run_migrations version)
unfolding run_migrations execute
run_migrations-Keeps version = record { after = λ s w. ground arith }

ruleset call_rules = (
  rules, create_session-Keeps, delete_session-Keeps, update_session-Keeps, write_vm-Keeps,
  write_proxy-Keeps, close-Keeps, run_migrations-Keeps,
)

perform-Keeps : (call : Call) → Keeps IsValid (perform call)
unfolding perform create_vm get_vm update_vm delete_vm create_proxy get_proxy_by_session
    update_proxy delete_proxy create_shared_folder delete_shared_folder create_resource_allocation
    delete_allocation insert_audit_event create_network_rule deactivate_network_rule
    deactivate_all_network_rules delete_network_rules list_sessions get_sessions_by_status_and_age
    get_vm_by_session get_vms_by_image list_vms get_active_vms get_shared_folder_by_session
    get_allocation_by_vm query_audit_log get_network_rules get_schema_version get_session
perform-Keeps (deactivate_network_rule_call now id) =
    execute-Keeps (λ db. with_int id λ bound. mark_removed (λ r. has_id bound r.id) now db)
      (with_int-KeepsRows id (λ bound. mark_removed (λ r. has_id bound r.id) now)
        (λ bound. mark_removed-KeepsRows (λ r. has_id bound r.id) now))
perform-Keeps (initialize_call opening) = initialize-Keeps opening (connect-Keeps (opening.set_up))
perform-Keeps (delete_vm_call id) =
    Keeps-bind (execute (delete_allocation_of id)) (λ _. execute (delete_vm_row id))
      (execute-Keeps _ (delete_allocation_of-KeepsRows id))
      (λ _. execute-Keeps _ (delete_vm_row-KeepsRows id))
perform-Keeps _ = search call_rules depth 8

-- Whatever calls are made of a store whose database is well-formed, in any order, and whether they
-- return or raise, its database is well-formed: no primary key and no UNIQUE value stands twice,
-- and every AUTOINCREMENT key is new.
pub perform_all-IsWellFormed :
    (calls : List Call) (s : Store)
    → IsWellFormed s.database
    → IsWellFormed (perform_all calls s).database
unfolding perform_all
perform_all-IsWellFormed [] s w = w
perform_all-IsWellFormed (call ∷ calls) s w =
    perform_all-IsWellFormed calls (perform call s).1 ((perform-Keeps call).after s w)
