-- ===== src/Store/Rules.antt =====
-- Network rules that are deactivated (src/agentvm/db/store.py).
use agent_vm.Base.{
  true, false, ◌&&◌, some, List, [], ◌∷◌, filter, length, ◌==◌, ◌≡◌, refl, arith, ◌≢◌, text_eq,
  string_eq, text_beq_iff, ◌∙◌,
}
use agent_vm.Python.Result.{ok}
use agent_vm.Python.Dict.{lookup}
use agent_vm.Python.Text.{Text}
use agent_vm.Python.Value.{Value}
use agent_vm.Sql.{update}
use agent_vm.Store.Schema.{RuleRow}
use agent_vm.Store.Codec.{decode_row, payload_object}
use agent_vm.Store.Connection.{Store, execute, query}
use agent_vm.Store.Rows.{decode_rule, rule_columns}
use agent_vm.Store.Logs.{
  mark_removed, rules_of, is_null, get_network_rules, deactivate_all_network_rules,
}
use agent_vm.Store.Payload.{lookup-set_defaults}

abbrev pub removed : Text → RuleRow → RuleRow
removed now r = record r { removed_at = some now }

module _ (now id : Text) where
  active_after :
      (rows : List RuleRow)
      → filter
          (λ r. (r.session_id == id) && is_null r.removed_at)
          (update (λ r. r.session_id == id) (removed now) rows)
        ≡ []
  unfolding filter update
  active_after [] = refl
  active_after (r ∷ rows) = ground (arith, active_after rows)

  active_other :
      (other : Text) (rows : List RuleRow)
      → other ≢ id
      → filter
          (λ r. (r.session_id == other) && is_null r.removed_at)
          (update (λ r. r.session_id == id) (removed now) rows)
        ≡ filter (λ r. (r.session_id == other) && is_null r.removed_at) rows
  unfolding filter update
  active_other other [] h = refl
  active_other other (r ∷ rows) h = ground (
    arith,
    active_other other rows h,
    text_beq_iff r.session_id other,
    text_beq_iff r.session_id id,
  )

  length_all :
      (other : Text) (rows : List RuleRow)
      → length (
          filter (λ r. r.session_id == other) (update (λ r. r.session_id == id) (removed now) rows))
        ≡ length (filter (λ r. r.session_id == other) rows)
  unfolding filter update
  length_all other [] = refl
  length_all other (r ∷ rows) = ground (arith, length_all other rows)

  -- On an open store, after `deactivate_all_network_rules` of a session no rule of it is active, the
  -- active rules of any other session are the same, and no rule of any session is dropped.
  pub get_network_rules-deactivate_all :
      (s : Store)
      → s.connected ≡ true
      → ((get_network_rules id true (deactivate_all_network_rules now id s).1).0 ≡ ok [])
        × ((other : Text)
            → other ≢ id
            → (get_network_rules other true (deactivate_all_network_rules now id s).1).0
              ≡ (get_network_rules other true s).0)
        × ((other : Text)
            → length (rules_of other false (deactivate_all_network_rules now id s).1.database)
              ≡ length (rules_of other false s.database))
  unfolding get_network_rules deactivate_all_network_rules execute query mark_removed rules_of
  get_network_rules-deactivate_all s c = (
    rw c (rw (active_after s.database.network_rules.rows)),
    λ other h. rw c (rw (active_other other s.database.network_rules.rows h)),
    λ other. rw c (length_all other s.database.network_rules.rows),
  )

-- Where the record that made a rule has a value under "removed_at", a reading of the rule that is
-- deactivated shows that value, whatever the time at which it was deactivated.
pub decode_rule-removed_at :
    (row : RuleRow) (now : Text) (v : Value)
    → lookup "removed_at" (payload_object row.payload) ≡ some v
    → lookup "removed_at" (decode_rule (removed now row)) ≡ some v
unfolding decode_rule decode_row
decode_rule-removed_at row now v h =
    lookup-set_defaults "removed_at" (rule_columns (removed now row)) (payload_object row.payload)
    ∙ rw h
