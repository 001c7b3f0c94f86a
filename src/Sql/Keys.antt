-- ===== src/Sql/Keys.antt =====
-- AUTOINCREMENT keys: no key stands twice, and none is above the last one given.
use agent_vm.Base.{
  ℕ, suc, ◌≤◌, ◌<◌, Bool, false, List, [], ◌∷◌, ◌++◌, map, nat_eq, contains, Nodup, Nodup-concat,
  All, All-append, ◌≡◌, refl, arith,
}
use agent_vm.Sql.{Table, update, delete}
use agent_vm.Sql.Laws.{map-append_row, map-update, delete-Nodup, All-delete, All-update}

pub record IsKeyed {R : Type 0} (key : R → ℕ) (t : Table R) : Type 0 where
  pub distinct : Nodup (map key t.rows)
  pub below : All (λ r. key r ≤ t.sequence) t.rows

module _ {R : Type 0} (key : R → ℕ) where
  All-weaken :
      (m n : ℕ) (rows : List R) → m ≤ n → All (λ r. key r ≤ m) rows → All (λ r. key r ≤ n) rows
  All-weaken m n [] h _ = tt
  All-weaken m n (r ∷ rows) h (hr, k) = (omega arith, All-weaken m n rows h k)

  fresh_above :
      (n : ℕ) (k : ℕ) (rows : List R)
      → n < k
      → All (λ r. key r ≤ n) rows
      → contains k (map key rows) ≡ false
  unfolding contains
  fresh_above n k [] h _ = refl
  fresh_above n k (r ∷ rows) h (hr, below) = ground (arith, fresh_above n k rows h below)

  -- The next key is new.
  pub append-IsKeyed :
      (t : Table R) (row : R)
      → key row ≡ suc t.sequence
      → IsKeyed key t
      → IsKeyed key (record { rows = t.rows ++ row ∷ []; sequence = suc t.sequence })
  append-IsKeyed t row next k = record {
    distinct = rw map-append_row (
        Nodup-concat (map key t.rows) (key row) k.distinct
          (fresh_above t.sequence (key row) t.rows (omega arith) k.below));
    below =
        All-append _ t.rows (row ∷ [])
          (All-weaken t.sequence (suc t.sequence) t.rows (omega arith) k.below) (omega arith, tt);
  }

  pub delete-IsKeyed :
      (t : Table R) (p : R → Bool)
      → IsKeyed key t
      → IsKeyed key (record t { rows = delete p t.rows })
  delete-IsKeyed t p k = record {
    distinct = delete-Nodup key p t.rows k.distinct;
    below = All-delete _ p t.rows k.below;
  }

  pub update-IsKeyed :
      (t : Table R) (p : R → Bool) (f : R → R)
      → ((r : R) → key (f r) ≡ key r)
      → IsKeyed key t
      → IsKeyed key (record t { rows = update p f t.rows })
  update-IsKeyed t p f same k = record {
    distinct = rw (map-update key p f same) k.distinct;
    below = All-update _ p f t.rows (λ r h. rw (same r) h) k.below;
  }
