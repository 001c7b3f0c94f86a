-- ===== src/Capacity/Accounting.antt =====
-- How `allocate` and `release` (src/agentvm/host/capacity.py) change what is left of the host.
use agent_vm.Base.{
  suc, true, false, [], ◌∷◌, ◌++◌, ℤ, ◌+ℤ◌, int_laws, length, contains, text_eq, ◌≡◌, refl, arith,
  text_beq_iff, ap, text_beq, Bool-cases, inl, inr,
}
use agent_vm.Python.Result.{ok, raise, value_error}
use agent_vm.Python.Dict.{Dict, keys, values, insert, erase}
use agent_vm.Python.Text.{Text}
use agent_vm.Capacity.{Allocation, CapacityManager, total, allocate, release}

-- A new key goes to the end.
insert_new :
    (id : Text) (a : Allocation) (d : Dict Text Allocation)
    → contains id (keys d) ≡ false
    → insert id a d ≡ d ++ (id, a) ∷ []
unfolding insert contains
insert_new id a [] h = refl
insert_new id a ((j, b) ∷ d) h =
    ground (arith, insert_new id a d, text_beq_iff j id, text_beq_iff id j)

erase_last :
    (id : Text) (a : Allocation) (d : Dict Text Allocation)
    → contains id (keys d) ≡ false
    → erase id (d ++ (id, a) ∷ []) ≡ d
unfolding erase contains
erase_last id a [] h = ground (arith, text_beq_iff id id)
erase_last id a ((j, b) ∷ d) h =
    ground (arith, erase_last id a d, text_beq_iff j id, text_beq_iff id j)

pub total-insert_new :
    (part : Allocation → ℤ) (id : Text) (a : Allocation) (d : Dict Text Allocation)
    → contains id (keys d) ≡ false
    → total part (values (insert id a d)) ≡ part a +ℤ total part (values d)
unfolding insert contains total
total-insert_new part id a [] h = refl
total-insert_new part id a ((j, b) ∷ d) h = elim (Bool-cases (text_beq j id)) [
  | inl same ↦ absurd (ground (arith, text_beq_iff j id, text_beq_iff id j))
  | inr other ↦
      let ih = total-insert_new part id a d (ground arith) in rw (other, ih) (omega int_laws)
]

pub length-insert_new :
    (id : Text) (a : Allocation) (d : Dict Text Allocation)
    → contains id (keys d) ≡ false
    → length (insert id a d) ≡ suc (length d)
unfolding insert contains
length-insert_new id a [] h = refl
length-insert_new id a ((j, b) ∷ d) h =
    ground (arith, length-insert_new id a d, text_beq_iff j id, text_beq_iff id j)

-- `allocate` of an id that has no allocation succeeds, and `release` of the id undoes it exactly;
-- `allocate` of an id that has one raises `ValueError`.
pub release-allocate :
    (id : Text) (a : Allocation) (m : CapacityManager)
    → (contains id (keys m.allocations) ≡ false
        → (m' : CapacityManager) × (allocate id a m ≡ ok m') × (release id m' ≡ m))
      × (contains id (keys m.allocations) ≡ true → allocate id a m ≡ raise value_error)
unfolding allocate release
release-allocate id a m = (
  λ fresh. (
    record m { allocations = insert id a m.allocations },
    rw fresh,
    ap (λ d. record m { allocations = d })
        (rw (insert_new id a m.allocations fresh) (erase_last id a m.allocations fresh)),
  ),
  λ taken. rw taken,
)
