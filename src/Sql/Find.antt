-- ===== src/Sql/Find.antt =====
-- SELECT … WHERE key = ? LIMIT 1 after a statement, for every key.
use agent_vm.Base.{
  Nodup, Bool, true, false, Option, none, some, List, [], ◌∷◌, ◌++◌, map, Eq, ◌==◌, contains,
  filter, head?, if◌then◌else◌, ◌≡◌, refl, sym, ap, Bool-cases, inl, inr, ◌≢◌, arith,
}
use agent_vm.Sql.{update, delete}
use agent_vm.Sql.Laws.{
  contains-delete, filter_absent, head?-filter-append_row, filter-append_row_ne, filter-delete_self,
  filter-delete_ne, head?-filter-update, filter-update_ne,
}

module _ {ℓ} {R : Type ℓ} where
  -- What a DELETE with another condition leaves of the row that is found.
  abbrev pub unless : (R → Bool) → Option R → Option R
  unless p none = none
  unless p (some row) = if p row then none else some row

module _ {ℓ} {R K : Type ℓ} ⦃e : Eq K⦄ (key : R → K) where
  -- The first row with the key.
  abbrev pub find : K → List R → Option R
  find k rows = head? (filter (λ r. key r == k) rows)

  ne_of_test : (j k : K) → (j == k) ≡ false → k ≢ j
  ne_of_test j k other same = absurd (cc (other, (e.beq_iff j k).1 (sym same)))

  pub find-append :
      (row : R) (rows : List R) (other : K)
      → contains (key row) (map key rows) ≡ false
      → find other (rows ++ row ∷ []) ≡ (if key row == other then some row else find other rows)
  find-append row rows other fresh = elim (Bool-cases (key row == other)) [
    | inl same ↦
        let equal = (e.beq_iff (key row) other).0 same in
        rw (same, ← equal) (head?-filter-append_row key rows row fresh)
    | inr differs ↦ rw differs (
        ap head? (
          filter-append_row_ne key other rows row
            (λ h. ne_of_test (key row) other differs (sym h))))
  ]

  pub find-update :
      (k : K) (f : R → R) (rows : List R) (row : R) (other : K)
      → ((r : R) → key (f r) ≡ key r)
      → find k rows ≡ some row
      → find other (update (λ r. key r == k) f rows)
        ≡ (if k == other then some (f row) else find other rows)
  find-update k f rows row other same found = elim (Bool-cases (k == other)) [
    | inl here ↦
        let equal = (e.beq_iff k other).0 here in
        rw (here, ← equal) (head?-filter-update key k f rows row same found)
    | inr differs ↦
        rw differs
          (ap head? (filter-update_ne key other k f rows same (ne_of_test k other differs)))
  ]

  pub find-delete :
      (k : K) (rows : List R) (other : K)
      → find other (delete (λ r. key r == k) rows) ≡ (if k == other then none else find other rows)
  find-delete k rows other = elim (Bool-cases (k == other)) [
    | inl here ↦
        let equal = (e.beq_iff k other).0 here in
        rw (here, ← equal) (ap head? (filter-delete_self (λ r. key r == k) rows))
    | inr differs ↦
        rw differs (ap head? (filter-delete_ne key other k rows (ne_of_test k other differs)))
  ]

  pub find-none : (k : K) (rows : List R) → find k rows ≡ none → contains k (map key rows) ≡ false
  unfolding filter contains
  find-none k [] h = refl
  find-none k (r ∷ rows) h =
      ground (arith, find-none k rows, e.beq_iff (key r) k, e.beq_iff k (key r))

  pub find-some :
      (k : K) (rows : List R) (row : R) → find k rows ≡ some row → contains k (map key rows) ≡ true
  find-some k rows row found = elim (Bool-cases (contains k (map key rows))) [
    | inl there ↦ there
    | inr absent ↦ let nothing = ap head? (filter_absent key k rows absent) in absurd cc
  ]

  pub find-delete_by :
      (p : R → Bool) (k : K) (rows : List R)
      → Nodup (map key rows)
      → find k (delete p rows) ≡ unless p (find k rows)
  unfolding filter delete
  find-delete_by p k [] _ = refl
  find-delete_by p k (r ∷ rows) (fresh, distinct) = elim (Bool-cases (key r == k)) [
    | inl same ↦
        let equal = (e.beq_iff (key r) k).0 same in
        let gone =
          filter_absent key (key r) (delete p rows) (contains-delete key (key r) p rows fresh) in
        elim (Bool-cases (p r)) [
          | inl dropped ↦ rw (dropped, same, dropped, ← equal) (ap head? gone)
          | inr stays ↦ rw (stays, same, stays) refl
        ]
    | inr differs ↦
        let rest = find-delete_by p k rows distinct in
        elim (Bool-cases (p r)) [
          | inl dropped ↦ rw (dropped, differs) rest
          | inr stays ↦ rw (stays, differs) rest
        ]
  ]
