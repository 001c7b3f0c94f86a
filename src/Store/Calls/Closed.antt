-- ===== src/Store/Calls/Closed.antt =====
-- The calls of a `MetadataStore` that is not connected (src/agentvm/db/store.py).
use agent_vm.Base.{◌⊎◌, inl, inr, Bool, true, false, List, [], ◌∷◌, All, ◌≡◌, refl}
use agent_vm.Python.Result.{Error, Result, ok, raise, runtime_error}
use agent_vm.Python.Exec.{Exec, lift, ◌>>=◌}
use agent_vm.Store.Schema.{Database}
use agent_vm.Store.Connection.{Store, execute, query, run_migrations}
use agent_vm.Store.Sessions.{create_session, get_session, update_session, delete_session}
use agent_vm.Store.Vms.{create_vm, get_vm, update_vm, delete_vm}
use agent_vm.Store.Records.{
  create_proxy, get_proxy_by_session, update_proxy, delete_proxy, create_shared_folder,
  delete_shared_folder, create_resource_allocation, delete_allocation,
}
use agent_vm.Store.Logs.{
  insert_audit_event, create_network_rule, deactivate_network_rule, deactivate_all_network_rules,
  delete_network_rules,
}
use agent_vm.Store.Connection.{get_schema_version, query_bound}
use agent_vm.Store.Sessions.{list_sessions, get_sessions_by_status_and_age}
use agent_vm.Store.Vms.{get_vm_by_session, get_vms_by_image, list_vms, get_active_vms}
use agent_vm.Store.Records.{get_shared_folder_by_session, get_allocation_by_vm}
use agent_vm.Store.Logs.{query_audit_log, get_network_rules}
use agent_vm.Store.Calls.{Call, perform, perform_all, initialize_call, close_call}

-- The calls that open or close the connection.
abbrev pub is_connection_call : Call → Bool
is_connection_call (initialize_call opening) = true
is_connection_call close_call = true
is_connection_call _ = false

-- The action raises a `RuntimeError` on the store and leaves it as it was, or it raises at its arguments,
-- whatever the store, and leaves that as it was.
data Refused {A : Type 0} (s : Store) (action : Exec Store A) : Type 0 where
  not_connected : action s ≡ (raise runtime_error, s) → Refused s action
  bad_arguments :
      (error : Error) → ((s' : Store) → action s' ≡ (raise error, s')) → Refused s action

module _ {A : Type 0} {s : Store} (closed : s.connected ≡ false) where
  execute-Refused : (statement : Database → Result (A × Database)) → Refused s (execute statement)
  unfolding execute
  execute-Refused statement = not_connected (rw closed refl)

  query-Refused : (select : Database → A) → Refused s (query select)
  unfolding query
  query-Refused select = not_connected (rw closed refl)

  query_bound-Refused : (select : Database → Result A) → Refused s (query_bound select)
  unfolding query_bound
  query_bound-Refused select = not_connected (rw closed refl)

module _ {A B : Type 0} {s : Store} where
  Refused->>= :
      (first : Exec Store A) (next : A → Exec Store B)
      → Refused s first
      → Refused s (first >>= next)
  Refused->>= first next (not_connected same) = not_connected (rw same refl)
  Refused->>= first next (bad_arguments error same) = bad_arguments error (λ s'. rw (same s') refl)

  lift-Refused :
      (r : Result A) (next : A → Exec Store B)
      → ((value : A) → Refused s (next value))
      → Refused s (lift r >>= next)
  lift-Refused (ok value) next refused = refused value
  lift-Refused (raise error) next refused = bad_arguments error (λ s'. refl)

ruleset rules = (execute-Refused, query-Refused, query_bound-Refused, Refused->>=, lift-Refused)

perform-Refused :
    (call : Call) (s : Store)
    → s.connected ≡ false
    → is_connection_call call ≡ false
    → Refused s (perform call)
unfolding perform create_session get_session update_session delete_session create_vm get_vm
    update_vm delete_vm create_proxy get_proxy_by_session update_proxy delete_proxy
    create_shared_folder delete_shared_folder create_resource_allocation delete_allocation
    insert_audit_event create_network_rule deactivate_network_rule deactivate_all_network_rules
    delete_network_rules run_migrations list_sessions get_sessions_by_status_and_age
    get_vm_by_session get_vms_by_image list_vms get_active_vms get_shared_folder_by_session
    get_allocation_by_vm query_audit_log get_network_rules get_schema_version
perform-Refused (initialize_call opening) s closed other = absurd cc
perform-Refused close_call s closed other = absurd cc
perform-Refused _ s closed other = search rules depth 8

-- A store that is not connected refuses every call of its methods that neither opens nor closes the
-- connection, and nothing changes: the call raises a `RuntimeError`, or the error that its arguments
-- raise on any store.
pub perform-closed :
    (call : Call) (s : Store)
    → s.connected ≡ false
    → is_connection_call call ≡ false
    → (perform call s ≡ (raise runtime_error, s))
      ⊎ ((error : Error) × ((s' : Store) → perform call s' ≡ (raise error, s')))
perform-closed call s closed other = elim (perform-Refused call s closed other) [
  | not_connected same ↦ inl same
  | bad_arguments error same ↦ inr (error, same)
]

unchanged :
    (call : Call) (s : Store)
    → s.connected ≡ false
    → is_connection_call call ≡ false
    → (perform call s).1 ≡ s
unchanged call s closed other = elim (perform-closed call s closed other) [
  | inl same ↦ rw same refl
  | inr (error, same) ↦ rw (same s) refl
]

pub perform_all-closed :
    (calls : List Call) (s : Store)
    → s.connected ≡ false
    → All (λ call. is_connection_call call ≡ false) calls
    → perform_all calls s ≡ s
unfolding perform_all
perform_all-closed [] s closed others = refl
perform_all-closed (call ∷ calls) s closed (other, others) =
    rw (unchanged call s closed other) (perform_all-closed calls s closed others)
