-- ===== src/Store/Sessions/Lookup.antt =====
-- What `get_session` returns after `create_session` and `update_session` (src/agentvm/db/store.py).
use agent_vm.Base.{
  String, true, false, none, some, map, Nodup, contains, ◌≡◌, refl, arith, text_eq, string_eq, ◌≢◌,
  ◌∙◌, ◌==◌, text_beq_iff, if◌then◌else◌, Bool-cases, inl, inr,
}
use agent_vm.Python.Result.{ok, raise, integrity_error}
use agent_vm.Python.Dict.{lookup, merge, or_else, lookup-merge, keys}
use agent_vm.Python.Text.{Text}
use agent_vm.Python.Value.{Object, Json, dumps}
use agent_vm.Sql.{insert_unique}
use agent_vm.Sql.Laws.{head?-filter-append_row, filter-append_row_ne, head?-filter-update}
use agent_vm.Store.Schema.{SessionRow}
use agent_vm.Store.Codec.{payload_object, decode_row}
use agent_vm.Store.Connection.{Store, execute, query}
use agent_vm.Store.Rows.{
  session_row, insert_session, set_session, set_session-id, decode_session, session_columns,
}
use agent_vm.Store.Sessions.{
  create_session, find_session, get_session, write_session, update_session,
}
use agent_vm.Store.Payload.{lookup-set_defaults}

-- A record that is stored reads back with its own fields, and with the columns that it lacks.
pub lookup-decode_session :
    (name : String) (row : SessionRow)
    → lookup name (decode_session row)
      ≡ or_else (lookup name (payload_object row.payload)) (lookup name (session_columns row))
unfolding decode_session decode_row
lookup-decode_session name row =
    lookup-set_defaults name (session_columns row) (payload_object row.payload)

-- All rows have the same columns.
session_columns-none :
    (name : String) (a b : SessionRow)
    → lookup name (session_columns a) ≡ none
    → lookup name (session_columns b) ≡ none
unfolding lookup
session_columns-none name a b h = ground arith

pub session_row-payload :
    (now : Text) (session : Object) {row : SessionRow}
    → session_row now session ≡ ok row
    → payload_object row.payload ≡ session
unfolding session_row dumps payload_object
session_row-payload now session h = ground arith

module _ (now : Text) (session : Object) (s : Store) (connected : s.connected ≡ true) where
  get_session-create_session_ne :
      (other : Text) (row : SessionRow)
      → session_row now session ≡ ok row
      → row.id ≢ other
      → (get_session other (create_session now session s).1).0 ≡ (get_session other s).0
  unfolding create_session insert_session insert_unique execute get_session query find_session
  get_session-create_session_ne other row h ne =
      ground (arith, filter-append_row_ne (λ r. r.id) other s.database.sessions row ne)

  get_session-create_session_same :
      (row : SessionRow)
      → session_row now session ≡ ok row
      → contains row.id (map (λ r. r.id) s.database.sessions) ≡ false
      → (get_session row.id (create_session now session s).1).0 ≡ ok (some (decode_session row))
  unfolding create_session insert_session insert_unique execute get_session query find_session
  get_session-create_session_same row h fresh =
      rw (h, connected, fresh)
        (rw (head?-filter-append_row (λ r. r.id) s.database.sessions row fresh))

  -- On an open store, where the record makes a row and its id is new, `create_session` returns the
  -- id, and `get_session` of the id then returns the record's own fields, and where it lacks one,
  -- the columns of the row; of any other id it returns what it did before.
  pub get_session-create_session :
      (row : SessionRow)
      → session_row now session ≡ ok row
      → contains row.id (map (λ r. r.id) s.database.sessions) ≡ false
      → (d : Object) × ((create_session now session s).0 ≡ ok row.id)
        × ((id : Text)
            → (get_session id (create_session now session s).1).0
              ≡ (if row.id == id then ok (some d) else (get_session id s).0))
        × ((name : String)
            → lookup name d ≡ or_else (lookup name session) (lookup name (session_columns row)))
  unfolding create_session insert_session insert_unique execute
  get_session-create_session row h fresh = (
    decode_session row,
    rw (h, connected, fresh),
    λ id. elim (Bool-cases (row.id == id)) [
      | inl same ↦
          let equal : row.id ≡ id = (text_beq_iff row.id id).0 same in
          rw (same, ← equal) (get_session-create_session_same row h fresh)
      | inr other ↦ rw other (
          get_session-create_session_ne id row h
            (λ e. absurd (cc (other, (text_beq_iff row.id id).1 e))))
    ],
    λ name. rw (← session_row-payload now session h) (lookup-decode_session name row),
  )

  -- An id that is taken is refused, and nothing is written.
  pub create_session_duplicate :
      (row : SessionRow)
      → session_row now session ≡ ok row
      → contains row.id (map (λ r. r.id) s.database.sessions) ≡ true
      → create_session now session s ≡ (raise integrity_error, s)
  unfolding create_session insert_session insert_unique execute
  create_session_duplicate row h taken = rw (h, connected, taken)

module _ (now id : Text) (updates : Object) (s : Store) (connected : s.connected ≡ true) where
  -- The row that `update_session` leaves.
  updated_row : SessionRow → Json → SessionRow
  updated_row row payload = set_session (merge (decode_session row) updates) now payload row

  find_session-update_session :
      (row : SessionRow) (payload : Json)
      → find_session id s.database ≡ some row
      → dumps (merge (decode_session row) updates) ≡ ok payload
      → ((update_session now id updates s).0 ≡ ok true)
        × (find_session id (update_session now id updates s).1.database
            ≡ some (updated_row row payload))
        × ((get_session id (update_session now id updates s).1).0
            ≡ ok (some (decode_session (updated_row row payload))))
  unfolding update_session get_session write_session query execute find_session updated_row
  find_session-update_session row payload found dumped =
      let kept =
        head?-filter-update (λ (r : SessionRow). r.id) id
          (set_session (merge (decode_session row) updates) now payload) s.database.sessions row
          (set_session-id (merge (decode_session row) updates) now payload) found in
      (
        rw (connected, found, dumped),
        rw (connected, found, dumped) kept,
        rw (connected, found, dumped) (rw kept),
      )

  dumps-payload : (d : Object) {payload : Json} → dumps d ≡ ok payload → payload_object payload ≡ d
  unfolding dumps payload_object
  dumps-payload d h = ground arith

  updated_row-payload :
      (row : SessionRow) (payload : Json) → (updated_row row payload).payload ≡ payload
  unfolding updated_row set_session
  updated_row-payload row payload = refl

  -- On an open store, `update_session` of a session that is there, with updates of distinct names
  -- such that JSON can hold the merged record, returns true, and `get_session` then returns, under
  -- every name, the update, and where there is none, what it returned before.
  pub get_session-update_session :
      (row : SessionRow) (payload : Json)
      → find_session id s.database ≡ some row
      → dumps (merge (decode_session row) updates) ≡ ok payload
      → Nodup (keys updates)
      → (d : Object) × ((update_session now id updates s).0 ≡ ok true)
        × ((get_session id (update_session now id updates s).1).0 ≡ ok (some d))
        × ((name : String)
            → lookup name d ≡ or_else (lookup name updates) (lookup name (decode_session row)))
  get_session-update_session row payload found dumped distinct =
      let (done, _, reads) = find_session-update_session row payload found dumped in
      (
        decode_session (updated_row row payload),
        done,
        reads,
        λ name. ground (
          arith,
          lookup-decode_session name (updated_row row payload),
          updated_row-payload row payload,
          dumps-payload (merge (decode_session row) updates) dumped,
          lookup-merge name (decode_session row) updates distinct,
          lookup-decode_session name row,
          session_columns-none name row (updated_row row payload),
        ),
      )

  updated_row-updated_at :
      (row : SessionRow) (payload : Json) → (updated_row row payload).updated_at ≡ now
  unfolding updated_row set_session
  updated_row-updated_at row payload = refl

  -- On an open store, `update_session` of a session that is there, with updates of distinct names,
  -- none of them "updated_at", such that JSON can hold the merged record, writes the time to the
  -- row's `updated_at`, but what `get_session` then returns under "updated_at" is what it returned
  -- before.
  pub update_session-updated_at :
      (row : SessionRow) (payload : Json)
      → find_session id s.database ≡ some row
      → dumps (merge (decode_session row) updates) ≡ ok payload
      → Nodup (keys updates)
      → lookup "updated_at" updates ≡ none
      → (row' : SessionRow) × (d : Object) × (find_session id
            (update_session now id updates s).1.database
          ≡ some row')
        × (row'.updated_at ≡ now)
        × ((get_session id (update_session now id updates s).1).0 ≡ ok (some d))
        × (lookup "updated_at" d ≡ lookup "updated_at" (decode_session row))
  update_session-updated_at row payload found dumped distinct absent =
      let (_, kept, _) = find_session-update_session row payload found dumped in
      let (d, _, reads, names) = get_session-update_session row payload found dumped distinct in
      (
        updated_row row payload,
        d,
        kept,
        updated_row-updated_at row payload,
        reads,
        names "updated_at" ∙ rw absent,
      )

  -- A session that is not there is not made: the answer is false, and nothing is written.
  pub update_session_absent :
      find_session id s.database ≡ none → update_session now id updates s ≡ (ok false, s)
  unfolding update_session get_session write_session query
  update_session_absent absent = rw (connected, absent)
