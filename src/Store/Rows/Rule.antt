-- ===== src/Store/Rows/Rule.antt =====
-- Rows of `network_rules`.
use agent_vm.Base.{
  ℕ, suc, String, [], ◌∷◌, ◌++◌, string_eq, text_eq, pos, Option, none, some, if◌then◌else◌,
}
use agent_vm.Python.Result.{Result, ok, raise, ◌>>=◌, programming_error}
use agent_vm.Python.Dict.{Dict}
use agent_vm.Python.Text.{Text, codes, int_text}
use agent_vm.Python.Value.{
  Value, null, bool, int, float, str, bytes, nested, nan, Float, Object, dumps,
}
use agent_vm.Sql.{bind_int}
use agent_vm.Store.Schema.{Database, RuleRow}
use agent_vm.Store.Codec.{text_field, decode_row}

-- Any value as a parameter for the TEXT column `removed_at`: NULL for `None` and for a float that
-- is no number; a list or a dict cannot be bound. `real_text` is the text that SQLite makes of a number
-- with a fraction.
unfoldable pub bind_text : (Float → Text) → Value → Result (Option Text)
bind_text real_text null = ok none
bind_text real_text (bool b) = ok (some (if b then codes "1" else codes "0"))
bind_text real_text (int z) = do _ ← bind_int z; ok (some (int_text z))
bind_text real_text (float nan) = ok none
bind_text real_text (float f) = ok (some (real_text f))
bind_text real_text (str t) = ok (some t)
bind_text real_text (bytes t content) = ok (some content)
bind_text real_text (nested t) = raise programming_error

-- the parameters of `create_network_rule`, `removed_at` apart
unfoldable pub rule_row : Text → Object → Result RuleRow
rule_row now rule = do
  payload ← dumps rule
  ok (record {
    id = 0;
    session_id = text_field "session_id" [] rule;
    domain = text_field "domain" [] rule;
    action = text_field "action" (codes "allow") rule;
    source = text_field "source" (codes "runtime") rule;
    created_at = text_field "created_at" now rule;
    removed_at = none;
    payload = payload;
  })

-- the INSERT of `create_network_rule`, with `_lastrowid`
unfoldable pub insert_rule : (Float → Text) → RuleRow → Value → Database → Result (ℕ × Database)
insert_rule real_text row removed db = do
  removed_at ← bind_text real_text removed
  let key = suc db.network_rules.sequence
  ok (
    key,
    record db {
      network_rules = record {
        rows = db.network_rules.rows ++ record row { id = key; removed_at = removed_at } ∷ [];
        sequence = key;
      };
    },
  )

abbrev pub nullable : Option Text → Value
nullable none = null
nullable (some t) = str t

abbrev pub rule_columns : RuleRow → Dict String Value
rule_columns row =
    ("id", int (pos row.id))
    ∷ ("session_id", str row.session_id)
    ∷ ("domain", str row.domain)
    ∷ ("action", str row.action)
    ∷ ("source", str row.source)
    ∷ ("created_at", str row.created_at)
    ∷ ("removed_at", nullable row.removed_at)
    ∷ []

unfoldable pub decode_rule : RuleRow → Object
decode_rule row = decode_row (rule_columns row) row.payload
