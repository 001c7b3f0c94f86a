-- ===== src/Sql/Laws.antt =====
-- How the statements treat a column's values and the rows that they do not name.
use agent_vm.Base.{
  Bool, true, false, List, [], ◌∷◌, ◌++◌, map, Eq, ◌==◌, contains, filter, Nodup, Nodup-concat, All,
  ◌≡◌, refl, ap, arith, Bool-cases, inl, inr, head?, some, filter-append, beq_refl, append-nil, ◌≢◌,
  ℤ, pos, negsuc, ◌<◌, ◌^◌, ◌-◌, leb_ℤ, ◌&&◌, ◌↔◌, ◌⊎◌,
}
use agent_vm.Python.Result.{ok, raise, overflow_error}
use agent_vm.Sql.{update, delete, insert_unique, bind_int}

module _ {ℓ} {R K : Type ℓ} ⦃e : Eq K⦄ (key : R → K) where
  pub map-append_row :
      (rows : List R) (row : R) → map key (rows ++ row ∷ []) ≡ map key rows ++ key row ∷ []
  map-append_row [] row = refl
  map-append_row (r ∷ rows) row = ap (◌∷◌ (key r)) (map-append_row rows row)

  -- A statement that leaves a column alone keeps its values.
  pub map-update :
      (p : R → Bool) (f : R → R)
      → ((r : R) → key (f r) ≡ key r)
      → (rows : List R) → map key (update p f rows) ≡ map key rows
  unfolding update
  map-update p f keep [] = refl
  map-update p f keep (r ∷ rows) = ground (arith, keep r, map-update p f keep rows)

  pub contains-delete :
      (k : K) (p : R → Bool) (rows : List R)
      → contains k (map key rows) ≡ false
      → contains k (map key (delete p rows)) ≡ false
  unfolding delete contains
  contains-delete k p [] h = refl
  contains-delete k p (r ∷ rows) h = ground (arith, contains-delete k p rows)

  pub delete-Nodup :
      (p : R → Bool) (rows : List R) → Nodup (map key rows) → Nodup (map key (delete p rows))
  unfolding delete
  delete-Nodup p [] _ = tt
  delete-Nodup p (r ∷ rows) (fresh, h) =
      ground (arith, delete-Nodup p rows h, contains-delete (key r) p rows fresh)

  -- A row that is inserted stands last, and its key is new.
  pub insert_unique-eq-ok :
      (row : R) (rows : List R) {rows' : List R}
      → insert_unique key row rows ≡ ok rows'
      → (contains (key row) (map key rows) ≡ false) × (rows' ≡ rows ++ row ∷ [])
  unfolding insert_unique
  insert_unique-eq-ok row rows h = ground arith

  pub insert_unique-Nodup :
      (row : R) (rows : List R) {rows' : List R}
      → insert_unique key row rows ≡ ok rows'
      → Nodup (map key rows)
      → Nodup (map key rows')
  insert_unique-Nodup row rows h d =
      let (fresh, grown) = insert_unique-eq-ok row rows h in
      rw (grown, map-append_row) (Nodup-concat (map key rows) (key row) d fresh)

module _ {ℓ} {R : Type ℓ} where
  -- A row that the condition does not select is neither changed nor dropped.
  pub filter-delete :
      (p q : R → Bool) (rows : List R)
      → ((r : R) → q r ≡ true → p r ≡ false)
      → filter q (delete p rows) ≡ filter q rows
  unfolding filter delete
  filter-delete p q [] h = refl
  filter-delete p q (r ∷ rows) h = ground (arith, h r, filter-delete p q rows h)

  pub filter-delete_self : (p : R → Bool) (rows : List R) → filter p (delete p rows) ≡ []
  unfolding filter delete
  filter-delete_self p [] = refl
  filter-delete_self p (r ∷ rows) = ground (arith, filter-delete_self p rows)

  -- What is not there is not there after a DELETE.
  pub filter-delete_nil :
      (p q : R → Bool) (rows : List R) → filter q rows ≡ [] → filter q (delete p rows) ≡ []
  unfolding filter delete
  filter-delete_nil p q [] h = refl
  filter-delete_nil p q (r ∷ rows) h = ground (arith, filter-delete_nil p q rows)

  pub filter-update :
      (p q : R → Bool) (f : R → R) (rows : List R)
      → ((r : R) → q (f r) ≡ q r)
      → ((r : R) → q r ≡ true → p r ≡ false)
      → filter q (update p f rows) ≡ filter q rows
  unfolding filter update
  filter-update p q f [] same h = refl
  filter-update p q f (r ∷ rows) same h =
      ground (arith, same r, h r, filter-update p q f rows same h)

  -- Where the condition's column is left alone, the selected rows are the old ones, changed.
  pub filter-update_self :
      (p : R → Bool) (f : R → R) (rows : List R)
      → ((r : R) → p (f r) ≡ p r)
      → filter p (update p f rows) ≡ map f (filter p rows)
  unfolding filter update
  filter-update_self p f [] same = refl
  filter-update_self p f (r ∷ rows) same = ground (arith, same r, filter-update_self p f rows same)

  pub All-delete {κ} :
      (P : R → Type κ) (p : R → Bool) (rows : List R) → All P rows → All P (delete p rows)
  unfolding delete
  All-delete P p [] _ = tt
  All-delete P p (r ∷ rows) (hr, h) = ground (arith, All-delete P p rows h)

  pub All-update {κ} :
      (P : R → Type κ) (p : R → Bool) (f : R → R) (rows : List R)
      → ((r : R) → P r → P (f r))
      → All P rows
      → All P (update p f rows)
  unfolding update
  All-update P p f [] keep _ = tt
  All-update P p f (r ∷ rows) keep (hr, h) = elim (Bool-cases (p r)) [
    | inl here ↦ rw here (keep r hr, All-update P p f rows keep h)
    | inr other ↦ rw other (hr, All-update P p f rows keep h)
  ]

module _ {ℓ} {R K : Type ℓ} ⦃e : Eq K⦄ (key : R → K) where
  -- SELECT … WHERE key = ?, of rows in which the key does not stand
  pub filter_absent :
      (k : K) (rows : List R)
      → contains k (map key rows) ≡ false
      → filter (λ r. key r == k) rows ≡ []
  unfolding filter contains
  filter_absent k [] _ = refl
  filter_absent k (r ∷ rows) h =
      ground (arith, filter_absent k rows, e.beq_iff (key r) k, e.beq_iff k (key r))

  -- The row that was inserted under a new key is the one that is found.
  pub head?-filter-append_row :
      (rows : List R) (row : R)
      → contains (key row) (map key rows) ≡ false
      → head? (filter (λ r. key r == key row) (rows ++ row ∷ [])) ≡ some row
  head?-filter-append_row rows row h =
      rw (filter-append, filter_absent (key row) rows h) (unfold filter in rw (beq_refl (key row)))

  pub filter-append_row_ne :
      (k : K) (rows : List R) (row : R)
      → key row ≢ k
      → filter (λ r. key r == k) (rows ++ row ∷ []) ≡ filter (λ r. key r == k) rows
  filter-append_row_ne k rows row h = rw filter-append (
      unfold filter in
      ground (arith, e.beq_iff (key row) k, append-nil (filter (λ r. key r == k) rows)))

  -- Equal to one value, a column is not equal to another.
  pub ne_of_eq : (j k : K) (r : R) → j ≢ k → (key r == j) ≡ true → (key r == k) ≡ false
  ne_of_eq j k r h p = ground (arith, e.beq_iff (key r) j, e.beq_iff (key r) k)

  pub filter-delete_ne :
      (j k : K) (rows : List R)
      → j ≢ k
      → filter (λ r. key r == j) (delete (λ r. key r == k) rows) ≡ filter (λ r. key r == j) rows
  filter-delete_ne j k rows h =
      filter-delete (λ r. key r == k) (λ r. key r == j) rows (λ r p. ne_of_eq j k r h p)

  pub filter-update_ne :
      (j k : K) (f : R → R) (rows : List R)
      → ((r : R) → key (f r) ≡ key r)
      → j ≢ k
      → filter (λ r. key r == j) (update (λ r. key r == k) f rows) ≡ filter (λ r. key r == j) rows
  filter-update_ne j k f rows same h =
      filter-update (λ r. key r == k) (λ r. key r == j) f rows (λ r. ap (λ x. x == j) (same r))
        (λ r p. ne_of_eq j k r h p)

  pub head?-filter-update :
      (k : K) (f : R → R) (rows : List R) (row : R)
      → ((r : R) → key (f r) ≡ key r)
      → head? (filter (λ r. key r == k) rows) ≡ some row
      → head? (filter (λ r. key r == k) (update (λ r. key r == k) f rows)) ≡ some (f row)
  unfolding filter update
  head?-filter-update k f [] row same h = cc
  head?-filter-update k f (r ∷ rows) row same h =
      ground (arith, same r, head?-filter-update k f rows row same)

-- An integer of 64 bits with a sign.
abbrev pub IsInt64 : ℤ → Type 0
IsInt64 (pos n) = n < 2 ^ 63
IsInt64 (negsuc n) = n < 2 ^ 63

is_int64 :
    (z : ℤ) → ((leb_ℤ (negsuc (2 ^ 63 - 1)) z && leb_ℤ z (pos (2 ^ 63 - 1))) ≡ true) ↔ IsInt64 z
is_int64 (pos n) = (λ h. ground arith, λ h. ground arith)
is_int64 (negsuc n) = (λ h. ground arith, λ h. ground arith)

-- A parameter is bound exactly where it has 64 bits.
pub bind_int-cases :
    (z : ℤ)
    → ((IsInt64 z) × (bind_int z ≡ ok z)) ⊎ ((¬ IsInt64 z) × (bind_int z ≡ raise overflow_error))
unfolding bind_int
bind_int-cases z = elim (Bool-cases (leb_ℤ (negsuc (2 ^ 63 - 1)) z && leb_ℤ z (pos (2 ^ 63 - 1)))) [
  | inl small ↦ inl ((is_int64 z).0 small, rw small refl)
  | inr large ↦ inr (λ fits. let small = (is_int64 z).1 fits in absurd cc, rw large refl)
]
