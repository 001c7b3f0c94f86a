-- ===== src/Sql.antt =====
-- The part of SQLite that db/store.py uses: tables as lists of rows in the order of their row ids,
-- UNIQUE columns, AUTOINCREMENT, 64-bit integers, and ORDER BY on a text column.
pub mod Laws
pub mod Keys
pub mod Find
pub mod Order
use agent_vm.Base.{
  ℕ, zero, suc, ◌+◌, ◌^◌, ◌-◌, ◌≤◌, Bool, true, false, ◌&&◌, ◌||◌, Option, none, some, List, [],
  ◌∷◌, ◌++◌, map, Eq, ◌==◌, contains, if◌then◌else◌, filter, ℤ, pos, negsuc, leb_ℤ,
}
use agent_vm.Python.Result.{Result, ok, raise, ◌>>=◌, overflow_error, integrity_error}

-- A table with an AUTOINCREMENT key, and the last key that was given.
pub record Table (R : Type 0) : Type 0 where
  pub rows : List R
  pub sequence : ℕ

abbrev pub no_rows : {R : Type 0} → Table R
no_rows = record { rows = []; sequence = 0 }

-- A Python `int` as a statement's parameter: SQLite's INTEGER has 64 bits.
unfoldable pub bind_int : ℤ → Result ℤ
bind_int z =
    if leb_ℤ (negsuc (2 ^ 63 - 1)) z && leb_ℤ z (pos (2 ^ 63 - 1))
    then ok z
    else raise overflow_error

-- A statement with such a parameter.
abbrev pub with_int {ℓ} : {A : Type ℓ} → ℤ → (ℤ → Result A) → Result A
with_int z statement = do bound ← bind_int z; statement bound

-- UPDATE … SET … WHERE …
unfoldable pub update {ℓ} : {R : Type ℓ} → (R → Bool) → (R → R) → List R → List R
update p f [] = []
update p f (r ∷ rows) = (if p r then f r else r) ∷ update p f rows

-- DELETE … WHERE …
unfoldable pub delete {ℓ} : {R : Type ℓ} → (R → Bool) → List R → List R
delete p [] = []
delete p (r ∷ rows) = if p r then delete p rows else r ∷ delete p rows

-- INSERT, with a column `key` that is UNIQUE or the primary key
unfoldable pub insert_unique {ℓ} :
    {R K : Type ℓ} ⦃e : Eq K⦄ → (R → K) → R → List R → Result (List R)
insert_unique key row rows =
    if contains (key row) (map key rows) then raise integrity_error else ok (rows ++ row ∷ [])
