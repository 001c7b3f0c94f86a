-- ===== src/Store/Calls.antt =====
-- The methods of `MetadataStore` (src/agentvm/db/store.py) as data, and sequences of calls.
pub mod Closed
pub mod Kept
use agent_vm.Base.{Bool, Option, List, [], ◌∷◌, ℤ}
use agent_vm.Python.Result.{Result}
use agent_vm.Python.Exec.{Exec, ◌>>◌, pure}
use agent_vm.Python.Text.{Text}
use agent_vm.Python.Value.{Float, Object}
use agent_vm.Store.Connection.{
  Store, Opening, initialize, close, run_migrations, get_schema_version,
}
use agent_vm.Store.Sessions.{
  create_session, update_session, delete_session, get_session, list_sessions,
  get_sessions_by_status_and_age,
}
use agent_vm.Store.Vms.{
  create_vm, update_vm, delete_vm, get_vm, get_vm_by_session, get_vms_by_image, list_vms,
  get_active_vms,
}
use agent_vm.Store.Records.{
  get_proxy_by_session, get_shared_folder_by_session, get_allocation_by_vm, create_proxy,
  update_proxy, delete_proxy, create_shared_folder, delete_shared_folder,
  create_resource_allocation, delete_allocation,
}
use agent_vm.Store.Logs.{
  query_audit_log, get_network_rules, insert_audit_event, create_network_rule,
  deactivate_network_rule, deactivate_all_network_rules, delete_network_rules,
}

-- A call with its arguments; `now` is the clock's text at the call.
pub data Call : Type 0 where
  initialize_call : Opening → Call
  close_call : Call
  create_session_call : Text → Object → Call
  update_session_call : Text → Text → Object → Call
  delete_session_call : Text → Call
  create_vm_call : Text → Object → Call
  update_vm_call : Text → Object → Call
  delete_vm_call : Text → Call
  create_proxy_call : Object → Call
  update_proxy_call : Text → Object → Call
  delete_proxy_call : Text → Call
  create_shared_folder_call : Object → Call
  delete_shared_folder_call : Text → Call
  create_resource_allocation_call : Object → Call
  delete_allocation_call : Text → Call
  insert_audit_event_call : Text → Object → Call
  create_network_rule_call : (Float → Text) → Text → Object → Call
  deactivate_network_rule_call : Text → ℤ → Call
  deactivate_all_network_rules_call : Text → Text → Call
  delete_network_rules_call : Text → Call
  run_migrations_call : ℤ → Call
  get_session_call : Text → Call
  list_sessions_call : Option Text → Option Text → Call
  get_sessions_by_status_and_age_call : (ℤ → Result Text) → Text → Text → Call
  get_vm_call : Text → Call
  get_vm_by_session_call : Text → Call
  get_vms_by_image_call : Text → Call
  list_vms_call : Option Text → Call
  get_active_vms_call : Call
  get_proxy_by_session_call : Text → Call
  get_shared_folder_by_session_call : Text → Call
  get_allocation_by_vm_call : Text → Call
  query_audit_log_call : Option Text → Option Text → ℤ → Call
  get_network_rules_call : Text → Bool → Call
  get_schema_version_call : Call

-- The call, its result dropped.
unfoldable pub perform : Call → Exec Store (Unit {0})
perform (initialize_call opening) = initialize opening
perform close_call = close
perform (create_session_call now session) = create_session now session >> pure tt
perform (update_session_call now id updates) = update_session now id updates >> pure tt
perform (delete_session_call id) = delete_session id
perform (create_vm_call now vm) = create_vm now vm >> pure tt
perform (update_vm_call id updates) = update_vm id updates >> pure tt
perform (delete_vm_call id) = delete_vm id
perform (create_proxy_call proxy) = create_proxy proxy >> pure tt
perform (update_proxy_call id updates) = update_proxy id updates
perform (delete_proxy_call id) = delete_proxy id
perform (create_shared_folder_call folder) = create_shared_folder folder >> pure tt
perform (delete_shared_folder_call id) = delete_shared_folder id
perform (create_resource_allocation_call allocation) =
    create_resource_allocation allocation >> pure tt
perform (delete_allocation_call id) = delete_allocation id
perform (insert_audit_event_call now event) = insert_audit_event now event >> pure tt
perform (create_network_rule_call real_text now rule) =
    create_network_rule real_text now rule >> pure tt
perform (deactivate_network_rule_call now id) = deactivate_network_rule now id
perform (deactivate_all_network_rules_call now id) = deactivate_all_network_rules now id
perform (delete_network_rules_call id) = delete_network_rules id
perform (run_migrations_call version) = run_migrations version
perform (get_session_call id) = get_session id >> pure tt
perform (list_sessions_call owner status) = list_sessions owner status >> pure tt
perform (get_sessions_by_status_and_age_call cutoff status age) =
    get_sessions_by_status_and_age cutoff status age >> pure tt
perform (get_vm_call id) = get_vm id >> pure tt
perform (get_vm_by_session_call id) = get_vm_by_session id >> pure tt
perform (get_vms_by_image_call image) = get_vms_by_image image >> pure tt
perform (list_vms_call status) = list_vms status >> pure tt
perform get_active_vms_call = get_active_vms >> pure tt
perform (get_proxy_by_session_call id) = get_proxy_by_session id >> pure tt
perform (get_shared_folder_by_session_call id) = get_shared_folder_by_session id >> pure tt
perform (get_allocation_by_vm_call id) = get_allocation_by_vm id >> pure tt
perform (query_audit_log_call id since limit) = query_audit_log id since limit >> pure tt
perform (get_network_rules_call id active_only) = get_network_rules id active_only >> pure tt
perform get_schema_version_call = get_schema_version >> pure tt

-- Calls one after another; an exception ends only its own call.
unfoldable pub perform_all : List Call → Store → Store
perform_all [] s = s
perform_all (call ∷ calls) s = perform_all calls (perform call s).1
