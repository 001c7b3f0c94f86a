-- ===== src/Store/Calls/Kept.antt =====
-- The calls of a `MetadataStore` leave its `db_path` alone (src/agentvm/db/store.py).
use agent_vm.Base.{Bool, true, if◌then◌else◌, false, Option, none, some, List, [], ◌∷◌, ◌≡◌, arith}
use agent_vm.Python.Result.{Result, ok, raise}
use agent_vm.Python.Exec.{Keeps, Keeps-bind, Keeps-lift, keeps_rules, lift, ◌>>◌}
use agent_vm.Python.Text.{Text}
use agent_vm.Python.Value.{Object}
use agent_vm.Store.Schema.{Database}
use agent_vm.Store.Connection.{
  Store, Opening, commit, connect, initialize, execute, query, close, run_migrations,
}
use agent_vm.Store.Sessions.{
  create_session, get_session, update_session, write_session, delete_session, delete_allocations,
  delete_allocation_of,
}
use agent_vm.Store.Vms.{create_vm, get_vm, update_vm, write_vm, delete_vm}
use agent_vm.Store.Records.{
  create_proxy, get_proxy_by_session, update_proxy, write_proxy, delete_proxy, create_shared_folder,
  delete_shared_folder, create_resource_allocation, delete_allocation,
}
use agent_vm.Store.Logs.{
  insert_audit_event, create_network_rule, deactivate_network_rule, deactivate_all_network_rules,
  delete_network_rules,
}
use agent_vm.Store.Connection.{get_schema_version, query_bound}
use agent_vm.Store.Sessions.{list_sessions, get_sessions_by_status_and_age}
use agent_vm.Store.Vms.{get_vm_by_session, get_vms_by_image, list_vms, get_active_vms}
use agent_vm.Store.Records.{get_shared_folder_by_session, get_allocation_by_vm}
use agent_vm.Store.Logs.{query_audit_log, get_network_rules}
use agent_vm.Store.Calls.{Call, perform, perform_all, initialize_call}

abbrev IsFile : Store → Type 0
IsFile s = s.in_memory ≡ false

module _ {A : Type 0} where
  commit-IsFile : (s : Store) (r : Result (A × Database)) → IsFile s → IsFile (commit s r).1
  commit-IsFile s (ok _) held = held
  commit-IsFile s (raise error) held = held

  execute-IsFile : (statement : Database → Result (A × Database)) → Keeps IsFile (execute statement)
  unfolding execute
  execute-IsFile statement = record {
    after = λ s held. ground (arith, commit-IsFile s (statement s.database) held);
  }

  query-IsFile : (select : Database → A) → Keeps IsFile (query select)
  unfolding query
  query-IsFile select = record { after = λ s held. held }

  query_bound-IsFile : (select : Database → Result A) → Keeps IsFile (query_bound select)
  unfolding query_bound
  query_bound-IsFile select = record { after = λ s held. held }

ruleset rules = (keeps_rules, execute-IsFile, query-IsFile, query_bound-IsFile)

write_session-IsFile :
    (now id : Text) (updates : Object) (o : Option Object)
    → Keeps IsFile (write_session now id updates o)
unfolding write_session
write_session-IsFile now id updates none = search rules
write_session-IsFile now id updates (some current) = search rules

write_vm-IsFile :
    (id : Text) (updates : Object) (o : Option Object) → Keeps IsFile (write_vm id updates o)
unfolding write_vm
write_vm-IsFile id updates none = search rules
write_vm-IsFile id updates (some current) = search rules

write_proxy-IsFile :
    (id : Text) (updates : Object) (o : Option Object) → Keeps IsFile (write_proxy id updates o)
unfolding write_proxy
write_proxy-IsFile id updates none = search rules
write_proxy-IsFile id updates (some current) = search rules

delete_allocations-IsFile : (ids : List Text) → Keeps IsFile (delete_allocations ids)
unfolding delete_allocations
delete_allocations-IsFile [] = search rules
delete_allocations-IsFile (id ∷ ids) =
    Keeps-bind (execute (delete_allocation_of id)) (λ _. delete_allocations ids)
      (execute-IsFile (delete_allocation_of id)) (λ _. delete_allocations-IsFile ids)

connect-IsFile : (set_up : Result (Unit {0})) → Keeps IsFile (connect set_up)
unfolding connect
connect-IsFile set_up = record { after = λ s held. held }

if-Holds :
    {X : Type 0} (Holds : X → Type 0) (b : Bool) {x y : X}
    → Holds x
    → Holds y
    → Holds (if b then x else y)
if-Holds Holds true first second = first
if-Holds Holds false first second = second

-- What an opening keeps, whichever of its steps fail.
pub initialize-Keeps :
    {Holds : Store → Type 0} (opening : Opening)
    → Keeps Holds (connect (opening.set_up))
    → Keeps Holds (initialize opening)
unfolding initialize
initialize-Keeps {Holds = Holds} opening kept =
    let opened =
      Keeps-bind (lift opening.connected) (λ _. connect (opening.set_up))
        (Keeps-lift opening.connected) (λ _. kept) in
    let made =
      Keeps-bind (lift opening.mkdir) (λ _. lift opening.connected >> connect (opening.set_up))
        (Keeps-lift opening.mkdir) (λ _. opened) in
    record {
      after = λ s held.
          if-Holds (λ (outcome : Result (Unit {0}) × Store). Holds outcome.1) s.in_memory
            (opened.after s held) (made.after s held);
    }

initialize-IsFile : (opening : Opening) → Keeps IsFile (initialize opening)
initialize-IsFile opening = initialize-Keeps opening (connect-IsFile (opening.set_up))

close-IsFile : Keeps IsFile close
unfolding close
close-IsFile = record { after = λ s held. held }

ruleset call_rules = (
  rules, write_session-IsFile, write_vm-IsFile, write_proxy-IsFile, delete_allocations-IsFile,
  initialize-IsFile, close-IsFile,
)

perform-IsFile : (call : Call) → Keeps IsFile (perform call)
unfolding perform create_session get_session update_session delete_session create_vm get_vm
    update_vm delete_vm create_proxy get_proxy_by_session update_proxy delete_proxy
    create_shared_folder delete_shared_folder create_resource_allocation delete_allocation
    insert_audit_event create_network_rule deactivate_network_rule deactivate_all_network_rules
    delete_network_rules run_migrations list_sessions get_sessions_by_status_and_age
    get_vm_by_session get_vms_by_image list_vms get_active_vms get_shared_folder_by_session
    get_allocation_by_vm query_audit_log get_network_rules get_schema_version
perform-IsFile (initialize_call opening) = initialize-IsFile opening
perform-IsFile _ = search call_rules depth 20

-- The store of a file stays that, whatever calls are made of it.
pub perform_all-in_memory :
    (calls : List Call) (s : Store) → s.in_memory ≡ false → (perform_all calls s).in_memory ≡ false
unfolding perform_all
perform_all-in_memory [] s held = held
perform_all-in_memory (call ∷ calls) s held =
    perform_all-in_memory calls (perform call s).1 ((perform-IsFile call).after s held)
