-- ===== src/Store/Sessions/Refinement.antt =====
-- The session methods of `MetadataStore` (src/agentvm/db/store.py) refine the table of the sessions.
use mathlib.Core.Path.{fun_ext}
use agent_vm.Base.{
  true, Option, none, some, List, text_eq, string_eq, ◌≡◌, refl, ◌∙◌, ap, Option-cases, inl, inr,
}
use agent_vm.Python.Result.{Result, ok, raise}
use agent_vm.Python.Dict.{merge}
use agent_vm.Python.Requests.{in_turn, Refines, in_turn-Refines}
use agent_vm.Python.Text.{Text}
use agent_vm.Python.Value.{Object, Json, dumps}
use agent_vm.Sql.{insert_unique}
use agent_vm.Sql.Find.{find, find-append, find-update, find-delete, find-none, find-some}
use agent_vm.Store.Schema.{SessionRow}
use agent_vm.Store.Connection.{Store, execute, query}
use agent_vm.Store.Rows.{session_row, insert_session, set_session, set_session-id, decode_session}
use agent_vm.Store.Sessions.{
  create_session, find_session, get_session, write_session, update_session,
}
use agent_vm.Store.Sessions.Delete.{deleted-sessions, delete_session-eq}
use agent_vm.Store.Sessions.Promise.{
  Table, Request, create, update_with, delete_by, get, Reply, add, create_in, change, update_in,
  meant, served, table_of,
}

abbrev IsOpen : Store → Type 0
IsOpen s = s.connected ≡ true

abbrev Meets : Reply × Store → Reply × Table → Type 0
Meets = Refines served meant table_of IsOpen

module _ (s : Store) (connected : s.connected ≡ true) where
  insert-Meets :
      (row : SessionRow) (now : Text) (session : Object)
      → session_row now session ≡ ok row
      → Meets (served (create now session) s) (add row (table_of s row.id) (table_of s))
  unfolding create_session execute insert_session insert_unique
  insert-Meets row now session made = elim (Option-cases (table_of s row.id)) [
    | inl absent ↦
        let fresh = find-none (λ (r : SessionRow). r.id) row.id s.database.sessions absent in
        rw (made, connected, fresh, absent)
          (
            refl,
            fun_ext (λ other.
                find-append (λ (r : SessionRow). r.id) row s.database.sessions other fresh),
            refl,
          )
    | inr (taken, there) ↦
        let known = find-some (λ (r : SessionRow). r.id) row.id s.database.sessions taken there in
        rw (made, connected, known, there) (refl, refl, refl)
  ]

  create-Meets :
      (now : Text) (session : Object) (r : Result SessionRow)
      → session_row now session ≡ r
      → Meets (served (create now session) s) (create_in r (table_of s))
  unfolding create_session
  create-Meets now session (raise error) failed = rw failed (refl, refl, connected)
  create-Meets now session (ok row) made = insert-Meets row now session made

  write-Meets :
      (now id : Text) (updates : Object) (row : SessionRow) (r : Result Json)
      → table_of s id ≡ some row
      → dumps (merge (decode_session row) updates) ≡ r
      → Meets
          (served (update_with now id updates) s)
          (change now id (merge (decode_session row) updates) row r (table_of s))
  unfolding update_session get_session find_session write_session query execute
  write-Meets now id updates row (raise error) there failed =
      rw (connected, there, failed) (refl, refl, refl)
  write-Meets now id updates row (ok payload) there dumped =
      let merged = merge (decode_session row) updates in
      rw (connected, there, dumped)
        (
          refl,
          fun_ext (λ other.
              find-update (λ (r : SessionRow). r.id) id (set_session merged now payload)
                s.database.sessions row other (set_session-id merged now payload) there),
          refl,
        )

  update-Meets :
      (now id : Text) (updates : Object) (entry : Option SessionRow)
      → table_of s id ≡ entry
      → Meets (served (update_with now id updates) s) (update_in now id updates entry (table_of s))
  unfolding update_session get_session find_session write_session query
  update-Meets now id updates none absent = rw (connected, absent) (refl, refl, refl)
  update-Meets now id updates (some row) there =
      write-Meets now id updates row (dumps (merge (decode_session row) updates)) there refl

  delete-Meets : (id : Text) → Meets (served (delete_by id) s) (meant (delete_by id) (table_of s))
  delete-Meets id = rw (delete_session-eq id s connected) (
    refl,
    fun_ext (λ other.
        ap (find (λ (r : SessionRow). r.id) other) (deleted-sessions id s.database)
        ∙ find-delete (λ (r : SessionRow). r.id) id s.database.sessions other),
    connected,
  )

  get-Meets : (id : Text) → Meets (served (get id) s) (meant (get id) (table_of s))
  unfolding get_session query find_session
  get-Meets id = rw connected (refl, refl, refl)

  served-Meets : (request : Request) → Meets (served request s) (meant request (table_of s))
  served-Meets (create now session) = create-Meets now session (session_row now session) refl
  served-Meets (update_with now id updates) = update-Meets now id updates (table_of s id) refl
  served-Meets (delete_by id) = delete-Meets id
  served-Meets (get id) = get-Meets id

-- On an open store, `create_session`, `update_session`, `delete_session` and `get_session`, in any order and
-- whether they return or raise, answer as the table of the sessions does, where an id that is taken
-- is refused with an `IntegrityError` and an update tells whether the session is there, and leave the
-- store open with the sessions that the table then has. A row of the table is made, changed and read as
-- `session_row`, `set_session` and `decode_session` do.
pub table_refines :
    (requests : List Request) (s : Store)
    → s.connected ≡ true
    → ((in_turn served requests s).0 ≡ (in_turn meant requests (table_of s)).0)
      × (table_of (in_turn served requests s).1 ≡ (in_turn meant requests (table_of s)).1)
      × ((in_turn served requests s).1.connected ≡ true)
table_refines =
    in_turn-Refines served meant table_of IsOpen
      (λ request s connected. served-Meets s connected request)
