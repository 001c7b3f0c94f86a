-- ===== src/Store/Lists.antt =====
-- What the list queries of src/agentvm/db/store.py select, and in which order.
use mathlib.Core.Path.{subst}
use mathlib.Core.List.{Perm, Mem, mem-cons_self}
use mathlib.Core.List.Perm.{eq-nil}
use mathlib.Core.List.Perm
use agent_vm.Base.{
  ℕ, Bool, true, ◌&&◌, Option, none, some, List, [], ◌∷◌, map, filter, head?, take, length, ◌==◌,
  ◌≡◌, refl, sym, arith, text_eq, string_eq, All, pos, ◌≤◌, ◌⊎◌, inl, inr, zero, suc, ℤ, negsuc,
  ◌++◌, ap,
}
use agent_vm.Python.Result.{ok, raise, overflow_error}
use agent_vm.Python.Text.{Text}
use agent_vm.Sql.Laws.{IsInt64, bind_int-cases}
use agent_vm.Sql.Order.{
  sort, sort-perm, All-of-sort, sort-IsSorted, IsSorted, text_leb, text_leb_total, text_leb_trans,
  text_leb_refl,
}
use agent_vm.Store.Schema.{SessionRow, VmRow, AuditRow}
use agent_vm.Store.Connection.{Store, query, query_bound}
use agent_vm.Store.Rows.{decode_session, decode_vm, decode_audit}
use agent_vm.Store.Sessions.{list_sessions, matches}
use agent_vm.Store.Vms.{newest_vm_of, get_vm_by_session}
use agent_vm.Store.Logs.{query_audit_log, not_before, limited}

-- Earlier rows first.
abbrev pub by_creation : SessionRow → SessionRow → Bool
by_creation a b = text_leb a.created_at b.created_at

-- On an open store, `list_sessions` returns the sessions that meet the filters, each as often as it is stored, in
-- ascending order of their creation time.
pub list_sessions_lem :
    (owner status : Option Text) (s : Store)
    → s.connected ≡ true
    → (rows : List SessionRow) × ((list_sessions owner status s).0 ≡ ok (map decode_session rows))
      × Perm rows
          (filter (λ r. matches owner r.owner && matches status r.status) s.database.sessions)
      × IsSorted by_creation rows
unfolding list_sessions query
list_sessions_lem owner status s c =
    let kept = filter (λ r. matches owner r.owner && matches status r.status) s.database.sessions in
    (
      sort by_creation kept,
      rw c,
      sort-perm by_creation kept,
      sort-IsSorted by_creation (λ a b h. text_leb_total a.created_at b.created_at h)
          (λ a b d h k. text_leb_trans a.created_at b.created_at d.created_at h k) kept,
    )

-- Later rows first.
abbrev pub newest_first : VmRow → VmRow → Bool
newest_first a b = text_leb b.created_at a.created_at

newest_cases :
    (rows sorted : List VmRow)
    → sort newest_first rows ≡ sorted
    → ((rows ≡ []) × (head? sorted ≡ none))
      ⊎ ((row : VmRow) × (head? sorted ≡ some row)
          × Mem row rows
          × All (λ r. text_leb r.created_at row.created_at ≡ true) rows)
newest_cases rows [] e = inl (eq-nil (Perm.symm (rw e at (sort-perm newest_first rows))), refl)
newest_cases rows (row ∷ rest) e =
    let ordered : IsSorted newest_first (row ∷ rest) = subst (IsSorted newest_first) e (
      sort-IsSorted newest_first (λ a b h. text_leb_total b.created_at a.created_at h)
        (λ a b d h k. text_leb_trans d.created_at b.created_at a.created_at k h) rows) in
    let all : All (λ r. text_leb r.created_at row.created_at ≡ true) (sort newest_first rows) =
      subst (All (λ r. text_leb r.created_at row.created_at ≡ true)) (sym e)
        (text_leb_refl row.created_at, ordered.0) in
    inr (
      row,
      refl,
      Perm.subset (rw e at (sort-perm newest_first rows)) row mem-cons_self,
      All-of-sort newest_first _ rows all,
    )

-- On an open store, `get_vm_by_session` returns nothing exactly where the session has no VM, and otherwise a VM of the
-- session that no other VM of it was created after.
pub get_vm_by_session_lem :
    (id : Text) (s : Store)
    → s.connected ≡ true
    → ((filter (λ r. r.session_id == id) s.database.vms ≡ [])
        × ((get_vm_by_session id s).0 ≡ ok none))
      ⊎ ((row : VmRow) × ((get_vm_by_session id s).0 ≡ ok (some (decode_vm row)))
          × Mem row (filter (λ r. r.session_id == id) s.database.vms)
          × All
              (λ r. text_leb r.created_at row.created_at ≡ true)
              (filter (λ r. r.session_id == id) s.database.vms))
unfolding get_vm_by_session query newest_vm_of
get_vm_by_session_lem id s c =
    elim (newest_cases (filter (λ r. r.session_id == id) s.database.vms) _ refl) [
      | inl (empty, nothing) ↦ inl (empty, rw c (rw nothing))
      | inr (row, first, member, newest) ↦ inr (row, rw c (rw first), member, newest)
    ]

-- Later entries first.
abbrev pub latest_first : AuditRow → AuditRow → Bool
latest_first a b = text_leb b.timestamp a.timestamp

-- What the LIMIT leaves of the rows: the first so many of them, or all where there are fewer; a
-- negative one leaves all.
abbrev pub IsLimited : ℤ → List AuditRow → List AuditRow → Type 0
IsLimited (pos n) rows kept =
    (rest : List AuditRow) × (rows ≡ kept ++ rest)
    × (length kept ≤ n)
    × ((length kept ≡ n) ⊎ (rest ≡ []))
IsLimited (negsuc n) rows kept = kept ≡ rows

take-IsLimited : (n : ℕ) (rows : List AuditRow) → IsLimited (pos n) rows (take n rows)
take-IsLimited zero rows = (rows, refl, omega arith, inl refl)
take-IsLimited (suc n) [] = ([], refl, omega arith, inr refl)
take-IsLimited (suc n) (row ∷ rows) =
    let (rest, split, short, full) = take-IsLimited n rows in
    (
      rest,
      ap (◌∷◌ row) split,
      omega (arith, short),
      elim full [ inl same ↦ inl (ap suc same) | inr none_left ↦ inr none_left ],
    )

limited-IsLimited : (limit : ℤ) (rows : List AuditRow) → IsLimited limit rows (limited limit rows)
limited-IsLimited (pos n) rows = take-IsLimited n rows
limited-IsLimited (negsuc n) rows = refl

-- On an open store, `query_audit_log` raises an `OverflowError` where the limit has more than 64 bits, and
-- otherwise returns, of the entries that meet the filters, the latest first, the first ones up to the
-- limit, or all where the limit is negative.
pub query_audit_log_lem :
    (session_id since : Option Text) (limit : ℤ) (s : Store)
    → s.connected ≡ true
    → ((¬ IsInt64 limit) × ((query_audit_log session_id since limit s).0 ≡ raise overflow_error))
      ⊎ ((IsInt64 limit)
          × ((rows : List AuditRow) × (kept : List AuditRow) × ((query_audit_log session_id since
                  limit s).0
                ≡ ok (map decode_audit kept))
              × (IsLimited limit rows kept)
              × Perm rows (
                  filter
                    (λ r. matches session_id r.session_id && not_before since r.timestamp)
                    s.database.audit_log.rows)
              × IsSorted latest_first rows))
unfolding query_audit_log query_bound
query_audit_log_lem session_id since limit s c =
    let selected =
      filter (λ r. matches session_id r.session_id && not_before since r.timestamp)
        s.database.audit_log.rows in
    elim (bind_int-cases limit) [
      | inr (wide, refused) ↦ inl (wide, rw (c, refused) refl)
      | inl (fits, bound) ↦ inr (
        fits,
        (
          sort latest_first selected,
          limited limit (sort latest_first selected),
          rw (c, bound) refl,
          limited-IsLimited limit (sort latest_first selected),
          sort-perm latest_first selected,
          sort-IsSorted latest_first (λ a b h. text_leb_total b.timestamp a.timestamp h)
              (λ a b d h k. text_leb_trans d.timestamp b.timestamp a.timestamp k h) selected,
        ),
      )
    ]
