-- ===== src/Store/Vms/Refinement.antt =====
-- The VM methods and `delete_session` of `MetadataStore` (src/agentvm/db/store.py) refine the table of the VMs.
use mathlib.Core.Path.{fun_ext}
use agent_vm.Base.{
  true, Option, none, some, List, [], ◌∷◌, ◌++◌, map, ◌==◌, text_eq, string_eq, Nodup, Nodup-concat,
  ◌≡◌, refl, ap, ◌∙◌, Option-cases, inl, inr,
}
use agent_vm.Python.Result.{Result, ok, raise}
use agent_vm.Python.Dict.{merge}
use agent_vm.Python.Requests.{in_turn, Refines, in_turn-Refines}
use agent_vm.Python.Text.{Text}
use agent_vm.Python.Value.{Object}
use agent_vm.Sql.{insert_unique, update}
use agent_vm.Sql.Find.{
  find, find-append, find-update, find-delete, find-delete_by, find-none, find-some,
}
use agent_vm.Sql.Laws.{map-append_row, map-update, delete-Nodup}
use agent_vm.Store.Schema.{VmRow}
use agent_vm.Store.Connection.{Store, execute, query}
use agent_vm.Store.Rows.{vm_row, bind_vm, insert_vm, set_vm, decode_vm}
use agent_vm.Store.Sessions.{delete_allocation_of}
use agent_vm.Store.Sessions.Delete.{deleted, deleted-vms, delete_session-eq}
use agent_vm.Store.Vms.{create_vm, find_vm, get_vm, write_vm, update_vm, delete_vm_row, delete_vm}
use agent_vm.Store.WellFormed.Changes.{set_vm-id}
use agent_vm.Store.Vms.Promise.{
  Table, Request, create, update_with, delete_by, get, end_session, Reply, add, add_bound,
  create_in, change, update_in, meant, served, table_of,
}

abbrev key : VmRow → Text
key r = r.id

-- The store is open, and no id stands twice.
abbrev IsOpen : Store → Type 0
IsOpen s = (s.connected ≡ true) × Nodup (map (λ r. r.id) s.database.vms)

abbrev Meets : Reply × Store → Reply × Table → Type 0
Meets = Refines served meant table_of IsOpen

module _ (s : Store) (connected : s.connected ≡ true)
    (distinct : Nodup (map key s.database.vms)) where
  insert-Meets :
      (row : VmRow) (now : Text) (vm : Object)
      → vm_row now vm ≡ ok row
      → bind_vm row ≡ ok tt
      → Meets (served (create now vm) s) (add row (table_of s row.id) (table_of s))
  unfolding create_vm execute insert_vm insert_unique
  insert-Meets row now vm made fits = elim (Option-cases (table_of s row.id)) [
    | inl absent ↦
        let fresh = find-none key row.id s.database.vms absent in
        let kept : Nodup (map key (s.database.vms ++ row ∷ [])) =
          rw (map-append_row key s.database.vms row)
            (Nodup-concat (map key s.database.vms) row.id distinct fresh) in
        rw (made, connected, fits, fresh, absent)
          (refl, fun_ext (λ other. find-append key row s.database.vms other fresh), (refl, kept))
    | inr (taken, there) ↦
        let known = find-some key row.id s.database.vms taken there in
        rw (made, connected, fits, known, there) (refl, refl, (refl, distinct))
  ]

  bind-Meets :
      (row : VmRow) (now : Text) (vm : Object) (bound : Result (Unit {0}))
      → vm_row now vm ≡ ok row
      → bind_vm row ≡ bound
      → Meets (served (create now vm) s) (add_bound row bound (table_of s))
  unfolding create_vm execute insert_vm
  bind-Meets row now vm (raise error) made failed =
      rw (made, connected, failed) (refl, refl, (refl, distinct))
  bind-Meets row now vm (ok _) made fits = insert-Meets row now vm made fits

  create-Meets :
      (now : Text) (vm : Object) (r : Result VmRow)
      → vm_row now vm ≡ r
      → Meets (served (create now vm) s) (create_in r (table_of s))
  unfolding create_vm
  create-Meets now vm (raise error) failed = rw failed (refl, refl, (connected, distinct))
  create-Meets now vm (ok row) made = bind-Meets row now vm (bind_vm row) made refl

  write-Meets :
      (id : Text) (updates : Object) (row : VmRow) (r : Result (VmRow → VmRow))
      → table_of s id ≡ some row
      → set_vm (merge (decode_vm row) updates) ≡ r
      → Meets (served (update_with id updates) s) (change id row r (table_of s))
  unfolding update_vm get_vm find_vm write_vm query execute
  write-Meets id updates row (raise error) there failed =
      rw (connected, there, failed) (refl, refl, (refl, distinct))
  write-Meets id updates row (ok assign) there made =
      let same = set_vm-id (merge (decode_vm row) updates) assign made in
      let kept : Nodup (map key (update (λ r. r.id == id) assign s.database.vms)) =
        rw (map-update key (λ r. r.id == id) assign same s.database.vms) distinct in
      rw (connected, there, made)
        (
          refl,
          fun_ext (λ other. find-update key id assign s.database.vms row other same there),
          (refl, kept),
        )

  update-Meets :
      (id : Text) (updates : Object) (entry : Option VmRow)
      → table_of s id ≡ entry
      → Meets (served (update_with id updates) s) (update_in id updates entry (table_of s))
  unfolding update_vm get_vm find_vm write_vm query
  update-Meets id updates none absent = rw (connected, absent) (refl, refl, (refl, distinct))
  update-Meets id updates (some row) there =
      write-Meets id updates row (set_vm (merge (decode_vm row) updates)) there refl

  delete-Meets : (id : Text) → Meets (served (delete_by id) s) (meant (delete_by id) (table_of s))
  unfolding delete_vm delete_allocation_of delete_vm_row execute
  delete-Meets id = rw connected (
    refl,
    fun_ext (λ other. find-delete key id s.database.vms other),
    (refl, delete-Nodup key (λ r. r.id == id) s.database.vms distinct),
  )

  get-Meets : (id : Text) → Meets (served (get id) s) (meant (get id) (table_of s))
  unfolding get_vm query find_vm
  get-Meets id = rw connected (refl, refl, (refl, distinct))

  end_session-Meets :
      (id : Text) → Meets (served (end_session id) s) (meant (end_session id) (table_of s))
  end_session-Meets id =
      let left = deleted-vms id s.database in
      let kept : Nodup (map key (deleted id s.database).vms) =
        rw left (delete-Nodup key (λ r. r.session_id == id) s.database.vms distinct) in
      rw (delete_session-eq id s connected) (
        refl,
        fun_ext (λ vm_id.
            ap (find key vm_id) left
            ∙ find-delete_by key (λ r. r.session_id == id) vm_id s.database.vms distinct),
        (connected, kept),
      )

  served-Meets : (request : Request) → Meets (served request s) (meant request (table_of s))
  served-Meets (create now vm) = create-Meets now vm (vm_row now vm) refl
  served-Meets (update_with id updates) = update-Meets id updates (table_of s id) refl
  served-Meets (delete_by id) = delete-Meets id
  served-Meets (get id) = get-Meets id
  served-Meets (end_session id) = end_session-Meets id

-- On an open store in which no VM's id stands twice, `create_vm`, `update_vm`, `delete_vm`, `get_vm` and
-- `delete_session`, in any order and whether they return or raise, answer as the table of the VMs
-- does, where an id that is taken is refused with an `IntegrityError`, an update tells whether the VM is
-- there, and `delete_session` removes exactly the session's VMs (a row of the table is made, changed and
-- read as `vm_row`, `bind_vm`, `set_vm` and `decode_vm` do); and they leave the store open
-- with the VMs that the table then has, no id twice.
pub vm_table_refines :
    (requests : List Request) (s : Store)
    → s.connected ≡ true
    → Nodup (map (λ r. r.id) s.database.vms)
    → ((in_turn served requests s).0 ≡ (in_turn meant requests (table_of s)).0)
      × (table_of (in_turn served requests s).1 ≡ (in_turn meant requests (table_of s)).1)
      × ((in_turn served requests s).1.connected ≡ true)
      × Nodup (map (λ r. r.id) (in_turn served requests s).1.database.vms)
vm_table_refines requests s connected distinct =
    let (replies, left, open_) =
      in_turn-Refines served meant table_of IsOpen
        (λ request s held. served-Meets s held.0 held.1 request) requests s (connected, distinct) in
    (replies, left, open_.0, open_.1)
