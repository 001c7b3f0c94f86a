-- ===== src/Store/Logs.antt =====
-- The methods of `MetadataStore` (src/agentvm/db/store.py) on the audit log and the network rules.
-- `now` is what `_utc_now` returns.
use agent_vm.Base.{
  ℕ, Bool, true, false, ◌&&◌, Option, none, some, List, map, filter, take, ◌==◌, nat_eq, text_eq,
  string_eq, if◌then◌else◌, ℤ, pos, negsuc,
}
use agent_vm.Python.Result.{Result, ok}
use agent_vm.Python.Exec.{Exec, lift, ◌>>=◌}
use agent_vm.Python.Dict.{get_or}
use agent_vm.Python.Text.{Text}
use agent_vm.Python.Value.{Float, Object, null}
use agent_vm.Sql.{update, with_int}
use agent_vm.Sql.Order.{sort, text_leb}
use agent_vm.Store.Schema.{Database, RuleRow}
use agent_vm.Store.Connection.{Store, execute, query, query_bound}
use agent_vm.Store.Rows.{audit_row, insert_audit, decode_audit, rule_row, insert_rule, decode_rule}
use agent_vm.Store.Sessions.{matches, delete_rules_of}

unfoldable pub insert_audit_event : Text → Object → Exec Store ℕ
insert_audit_event now event = do row ← lift (audit_row now event); execute (insert_audit row)

-- LIMIT: a negative limit is none
abbrev pub limited {ℓ} : {A : Type ℓ} → ℤ → List A → List A
limited (pos n) rows = take n rows
limited (negsuc n) rows = rows

abbrev pub not_before : Option Text → Text → Bool
not_before none column = true
not_before (some since) column = text_leb since column

-- the SELECT, its limit a parameter of 64 bits
abbrev pub audit_of : Option Text → Option Text → ℤ → Database → Result (List Object)
audit_of session_id since limit db = with_int limit λ bound. ok (
    map decode_audit (
      limited bound (
        sort (λ a b. text_leb b.timestamp a.timestamp)
          (filter (λ r. matches session_id r.session_id && not_before since r.timestamp)
            db.audit_log.rows))))

unfoldable pub query_audit_log : Option Text → Option Text → ℤ → Exec Store (List Object)
query_audit_log session_id since limit = query_bound (audit_of session_id since limit)

unfoldable pub create_network_rule : (Float → Text) → Text → Object → Exec Store ℕ
create_network_rule real_text now rule = do
  row ← lift (rule_row now rule)
  execute (insert_rule real_text row (get_or "removed_at" null rule))

-- `removed_at IS NULL`
abbrev pub is_null : Option Text → Bool
is_null none = true
is_null (some _) = false

unfoldable pub rules_of : Text → Bool → Database → List RuleRow
rules_of session_id active_only db =
    if active_only
    then filter (λ r. (r.session_id == session_id) && is_null r.removed_at) db.network_rules.rows
    else filter (λ r. r.session_id == session_id) db.network_rules.rows

unfoldable pub get_network_rules : Text → Bool → Exec Store (List Object)
get_network_rules session_id active_only =
    query (λ db. map decode_rule (rules_of session_id active_only db))

abbrev pub has_id : ℤ → ℕ → Bool
has_id (pos n) id = id == n
has_id (negsuc n) id = false

-- UPDATE network_rules SET removed_at = ? WHERE …
unfoldable pub mark_removed : (RuleRow → Bool) → Text → Database → Result (Unit {0} × Database)
mark_removed selected now db = ok (
  tt,
  record db {
    network_rules = record (db.network_rules) {
      rows = update selected (λ r. record r { removed_at = some now }) db.network_rules.rows;
    };
  },
)

unfoldable pub deactivate_network_rule : Text → ℤ → Exec Store (Unit {0})
deactivate_network_rule now rule_id =
    execute λ db. with_int rule_id λ bound. mark_removed (λ r. has_id bound r.id) now db

unfoldable pub deactivate_all_network_rules : Text → Text → Exec Store (Unit {0})
deactivate_all_network_rules now session_id =
    execute (mark_removed (λ r. r.session_id == session_id) now)

unfoldable pub delete_network_rules : Text → Exec Store (Unit {0})
delete_network_rules session_id = execute (delete_rules_of session_id)
