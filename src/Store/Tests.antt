-- ===== src/Store/Tests.antt =====
-- Runs of src/agentvm/db/store.py on small databases.
use agent_vm.Base.{
  if◌then◌else◌, String, true, false, ◌&&◌, none, some, List, [], ◌∷◌, map, filter, length,
  contains, ◌≡◌, ◌≢◌, refl, ◌==◌, text_eq, string_eq, pos, Nodup, ◌⊎◌,
}
use mathlib.Core.List.{Perm}
use agent_vm.Python.Result.{Error, ok, raise, overflow_error, runtime_error}
use agent_vm.Python.Dict.{Dict, lookup, or_else, merge, keys}
use agent_vm.Python.Text.{Text, codes}
use agent_vm.Python.Value.{float_text, null, str, Object, Json, object, dumps, to_str, has_bytes}
use agent_vm.Sql.{insert_unique, bind_int}
use agent_vm.Sql.Order.{IsSorted}
use agent_vm.Sql.Laws.{IsInt64}
use agent_vm.Store.Schema.{SessionRow, VmRow, AuditRow, RuleRow, empty_database}
use agent_vm.Store.Codec.{payload_object, require, text_field, int_field, as_int}
use agent_vm.Store.Connection.{Store, Opening, new_store, initialize, connect, execute, query}
use agent_vm.Store.Rows.{
  insert_session, vm_row, bind_vm, insert_vm, audit_row, insert_audit, rule_row, insert_rule,
  bind_text, session_row, session_columns, decode_session, decode_audit,
}
use agent_vm.Store.Sessions.{
  create_session, get_session, find_session, update_session, matches, delete_session,
}
use agent_vm.Store.Vms.{create_vm}
use agent_vm.Store.Logs.{
  insert_audit_event, create_network_rule, query_audit_log, not_before, rules_of, get_network_rules,
  deactivate_all_network_rules,
}
use agent_vm.Store.Calls.{
  Call, create_session_call, create_vm_call, insert_audit_event_call, create_network_rule_call,
  initialize_call, perform, perform_all,
}
use agent_vm.Store.WellFormed.{IsWellFormed, empty-IsWellFormed}
use agent_vm.Store.WellFormed.Preserved.{perform_all-IsWellFormed}
use agent_vm.Store.Calls.Closed.{perform-closed}
use agent_vm.Store.Lists.{IsLimited, latest_first, query_audit_log_lem}
use agent_vm.Store.Rules.{get_network_rules-deactivate_all}
use agent_vm.Store.Sessions.Lookup.{
  get_session-create_session, get_session-update_session, update_session-updated_at,
}
use agent_vm.Python.Requests.{in_turn}
use agent_vm.Store.Sessions.Promise.{
  Request, create, update_with, delete_by, get, served, meant, table_of,
}
use agent_vm.Store.Sessions.Refinement.{table_refines}
use agent_vm.Store.Sessions.Delete.{IsDeletedFrom, delete_session-IsDeletedFrom}

abbrev session_object : Object
session_object = ("id", str (codes "s-1")) ∷ ("owner", str (codes "ann")) ∷ []

abbrev vm_object : Object
vm_object = ("id", str (codes "v-1")) ∷ ("session_id", str (codes "s-1")) ∷ []

abbrev rule_object : Object
rule_object = ("session_id", str (codes "s-1")) ∷ ("removed_at", null) ∷ []

abbrev start : Store
start = new_store true empty_database

abbrev opened : Opening
opened = record { mkdir = ok tt; connected = ok tt; set_up = ok tt }

abbrev calls : List Call
calls =
    initialize_call opened
    ∷ create_session_call (codes "t1") session_object
    ∷ create_session_call (codes "t2") session_object
    ∷ create_vm_call (codes "t3") vm_object
    ∷ insert_audit_event_call (codes "t4") session_object
    ∷ create_network_rule_call float_text (codes "t5") rule_object
    ∷ []

abbrev session_1 : SessionRow
session_1 = record {
  id = codes "s-1";
  owner = codes "ann";
  status = codes "creating";
  created_at = codes "t1";
  updated_at = codes "t1";
  payload = object session_object;
}

abbrev vm_1 : VmRow
vm_1 = record {
  id = codes "v-1";
  session_id = codes "s-1";
  name = codes "v-1";
  status = codes "creating";
  base_image = [];
  cpu_cores = pos 1;
  memory_mb = pos 1;
  disk_gb = pos 1;
  created_at = codes "t3";
  payload = object vm_object;
}

-- A store with one session.
abbrev one_session : Store
one_session = record {
  in_memory = true;
  connected = true;
  database = record empty_database { sessions = session_1 ∷ [] };
}

abbrev no_session : Store
no_session = record { in_memory = true; connected = true; database = empty_database }

row_1 : session_row (codes "t1") session_object ≡ ok session_1
unfolding session_row require text_field lookup to_str dumps has_bytes
row_1 = refl

found_1 : find_session (codes "s-1") (one_session.database) ≡ some session_1
unfolding find_session filter
found_1 = refl

-- The second `create_session` of the list raises, and the other calls do their work.
run :
    (length (perform_all calls start).database.sessions ≡ 1)
    × (length (perform_all calls start).database.vms ≡ 1)
    × (length (perform_all calls start).database.network_rules.rows ≡ 1)
unfolding perform_all perform initialize connect execute query create_session session_row require
    text_field lookup to_str dumps has_bytes insert_session insert_unique contains bind_int
    create_vm vm_row int_field as_int bind_vm insert_vm insert_audit_event audit_row insert_audit
    create_network_rule rule_row insert_rule bind_text
run = (refl, refl, refl)

perform_all-IsWellFormed_example : IsWellFormed (perform_all calls start).database
perform_all-IsWellFormed_example = perform_all-IsWellFormed calls start empty-IsWellFormed

perform-closed_example :
    (perform (create_session_call (codes "t2") session_object) start ≡ (raise runtime_error, start))
    ⊎ ((error : Error) × ((s : Store)
          → perform (create_session_call (codes "t2") session_object) s ≡ (raise error, s)))
perform-closed_example =
    perform-closed (create_session_call (codes "t2") session_object) start refl refl

delete_session-IsDeletedFrom_example :
    ((delete_session (codes "s-1") one_session).0 ≡ ok tt)
    × IsDeletedFrom
        (codes "s-1")
        (one_session.database)
        (delete_session (codes "s-1") one_session).1.database
delete_session-IsDeletedFrom_example = delete_session-IsDeletedFrom (codes "s-1") one_session refl

get_session-create_session_example :
    (d : Object) × ((create_session (codes "t1") session_object no_session).0 ≡ ok (codes "s-1"))
    × ((id : Text)
        → (get_session id (create_session (codes "t1") session_object no_session).1).0
          ≡ (if codes "s-1" == id then ok (some d) else (get_session id no_session).0))
    × ((name : String)
        → lookup name d
          ≡ or_else (lookup name session_object) (lookup name (session_columns session_1)))
unfolding contains
get_session-create_session_example =
    get_session-create_session (codes "t1") session_object no_session refl session_1 row_1 refl

abbrev changes : Object
changes = ("status", str (codes "running")) ∷ []

abbrev updated_payload : Json
updated_payload = object (merge (decode_session session_1) changes)

dumped : dumps (merge (decode_session session_1) changes) ≡ ok updated_payload
unfolding dumps merge agent_vm.Python.Dict.insert decode_session agent_vm.Store.Codec.decode_row
    lookup
dumped = refl

one_change : Nodup (keys changes)
unfolding contains
one_change = (refl, tt)

get_session-update_session_example :
    (d : Object) × ((update_session (codes "t2") (codes "s-1") changes one_session).0 ≡ ok true)
    × ((get_session
          (codes "s-1")
          (update_session (codes "t2") (codes "s-1") changes one_session).1).0
        ≡ ok (some d))
    × ((name : String)
        → lookup name d ≡ or_else (lookup name changes) (lookup name (decode_session session_1)))
get_session-update_session_example =
    get_session-update_session (codes "t2") (codes "s-1") changes one_session refl session_1
      updated_payload found_1 dumped one_change

unnamed : lookup "updated_at" changes ≡ none
unfolding lookup
unnamed = refl

update_session-updated_at_example :
    (row' : SessionRow) × (d : Object) × (find_session
        (codes "s-1")
        (update_session (codes "t2") (codes "s-1") changes one_session).1.database
      ≡ some row')
    × (row'.updated_at ≡ codes "t2")
    × ((get_session
          (codes "s-1")
          (update_session (codes "t2") (codes "s-1") changes one_session).1).0
        ≡ ok (some d))
    × (lookup "updated_at" d ≡ lookup "updated_at" (decode_session session_1))
update_session-updated_at_example =
    update_session-updated_at (codes "t2") (codes "s-1") changes one_session refl session_1
      updated_payload found_1 dumped one_change unnamed

abbrev one_vm : Store
one_vm = record one_session { database = record (one_session.database) { vms = vm_1 ∷ [] } }

on : (perform_all calls start).connected ≡ true
unfolding perform_all perform initialize connect execute query create_session session_row require
    text_field lookup to_str dumps has_bytes insert_session insert_unique contains bind_int
    create_vm vm_row int_field as_int bind_vm insert_vm insert_audit_event audit_row insert_audit
    create_network_rule rule_row insert_rule bind_text
on = refl

query_audit_log_lem_example :
    ((¬ IsInt64 (pos 5))
      × ((query_audit_log none none (pos 5) (perform_all calls start)).0 ≡ raise overflow_error))
    ⊎ ((IsInt64 (pos 5))
        × ((rows : List AuditRow) × (kept : List AuditRow) × ((query_audit_log none none
                (pos 5)
                (perform_all calls start)).0
              ≡ ok (map decode_audit kept))
            × (IsLimited (pos 5) rows kept)
            × Perm rows (
                filter
                  (λ r. matches none r.session_id && not_before none r.timestamp)
                  ((perform_all calls start).database.audit_log.rows))
            × IsSorted latest_first rows))
query_audit_log_lem_example = query_audit_log_lem none none (pos 5) (perform_all calls start) on

get_network_rules-deactivate_all_example :
    ((get_network_rules
        (codes "s-1")
        true
        (deactivate_all_network_rules (codes "t6") (codes "s-1") (perform_all calls start)).1).0
      ≡ ok [])
    × ((other : Text)
        → other ≢ codes "s-1"
        → (get_network_rules other true
            (deactivate_all_network_rules (codes "t6") (codes "s-1") (perform_all calls start)).1).0
          ≡ (get_network_rules other true (perform_all calls start)).0)
    × ((other : Text)
        → length (
            rules_of other false
              (deactivate_all_network_rules
                (codes "t6")
                (codes "s-1")
                (perform_all calls start)).1.database)
          ≡ length (rules_of other false (perform_all calls start).database))
get_network_rules-deactivate_all_example =
    get_network_rules-deactivate_all (codes "t6") (codes "s-1") (perform_all calls start) on

abbrev rule_1 : RuleRow
rule_1 = record {
  id = 1;
  session_id = codes "s-1";
  domain = [];
  action = codes "allow";
  source = codes "user";
  created_at = codes "t5";
  removed_at = none;
  payload = object rule_object;
}

hidden : lookup "removed_at" (payload_object (rule_1.payload)) ≡ some null
unfolding lookup payload_object
hidden = refl

abbrev requests : List Request
requests =
    create (codes "t2") session_object
    ∷ update_with (codes "t3") (codes "s-1") (("status", str (codes "running")) ∷ [])
    ∷ get (codes "s-1")
    ∷ delete_by (codes "s-1")
    ∷ get (codes "s-1")
    ∷ []

table_refines_example :
    ((in_turn served requests no_session).0 ≡ (in_turn meant requests (table_of no_session)).0)
    × (table_of (in_turn served requests no_session).1
        ≡ (in_turn meant requests (table_of no_session)).1)
    × ((in_turn served requests no_session).1.connected ≡ true)
table_refines_example = table_refines requests no_session refl
