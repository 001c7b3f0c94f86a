-- ===== src/Capacity/Reordered.antt =====
-- `reconcile_allocations` (src/agentvm/host/capacity.py) does not depend on the order in which the
-- store's query, which has no ORDER BY, returns the records.
use mathlib.Core.Logic.{∥∥₁_elim, inl, inr}
use mathlib.Core.List.{
  Perm, Mem, mem-cons_self, mem-cons_of_mem, eq-or-mem_of_mem-cons, not-mem-nil,
}
use mathlib.Core.List.Perm
use mathlib.Core.Quot
use text.Mathlib.TextEquality.{IsScalar-prop}
use agent_vm.Base.{
  true, false, none, some, List, [], ◌∷◌, All, ℤ, map, contains, ◌≢◌, text_eq, text_beq_iff, Nodup,
  ◌≡◌, sym, ◌∙◌, ap, arith, Option-cases,
}
use agent_vm.Python.Result.{ok, ok-injective}
use agent_vm.Python.Dict.{lookup}
use agent_vm.Python.Dict.Unordered.{perm_of_lookup}
use agent_vm.Python.Text.{Text}
use agent_vm.Python.Value.{Object}
use agent_vm.Capacity.Readings.{Host}
use agent_vm.Capacity.{Allocation, CapacityManager, check_spec}
use agent_vm.Capacity.Reconcile.{MetadataQueries, fetch_active_vms, vm_id_of, reconcile_allocations}
use agent_vm.Capacity.Rebuild.{entry, last_entry, reconcile_allocations-last_entry}
use agent_vm.Capacity.Returns.{passes, reconcile_allocations-returns}
use agent_vm.Capacity.Unordered.{view, check_view}

module _ {A : Type 0} (P : A → Type 0) where
  All-of_members : (xs : List A) → ((x : A) → Mem x xs → P x) → All P xs
  All-of_members [] h = tt
  All-of_members (x ∷ xs) h =
      (h x mem-cons_self, All-of_members xs (λ y m. h y (mem-cons_of_mem x m)))

  member : ((x : A) → IsProp (P x)) → (xs : List A) (x : A) → All P xs → Mem x xs → P x
  member prop [] x _ m = absurd (not-mem-nil m)
  member prop (y ∷ xs) x (hy, h) m =
      ∥∥₁_elim (eq-or-mem_of_mem-cons m) (prop x)
        λ found. elim found [ inl same ↦ rw same hy | inr later ↦ member prop xs x h later ]

-- An entry is of a record with the id.
entry-id : (id : Text) (vm : Object) (a : Allocation) → entry id vm ≡ some a → vm_id_of vm ≡ id
unfolding entry
entry-id id vm a h = ground (arith, text_beq_iff (vm_id_of vm) id)

-- The last valid record is one of the records.
last_entry-member :
    (id : Text) (vms : List Object) (a : Allocation)
    → last_entry id vms ≡ some a
    → (vm : Object) × Mem vm vms × (entry id vm ≡ some a)
unfolding last_entry
last_entry-member id [] a h = absurd cc
last_entry-member id (vm ∷ vms) a h = elim (Option-cases (last_entry id vms)) [
  | inl absent ↦ (vm, mem-cons_self, rw absent at h)
  | inr (b, later) ↦
      let (w, m, e) = last_entry-member id vms a (later ∙ (rw later at h)) in
      (w, mem-cons_of_mem vm m, e)
]

last_entry-none :
    (id : Text) (vms : List Object) → last_entry id vms ≡ none → All (λ vm. entry id vm ≡ none) vms
unfolding last_entry
last_entry-none id [] h = tt
last_entry-none id (vm ∷ vms) h = (ground arith, last_entry-none id vms (ground arith))

-- Records with the same id are the same.
abbrev IsUnique : List Object → Type 0
IsUnique vms = (v w : Object) → Mem v vms → Mem w vms → vm_id_of v ≡ vm_id_of w → v ≡ w

others_differ :
    (id : Text) (vms : List Object)
    → contains id (map vm_id_of vms) ≡ false
    → All (λ vm. id ≢ vm_id_of vm) vms
unfolding contains
others_differ id [] h = tt
others_differ id (vm ∷ vms) h =
    (ground (arith, text_beq_iff id (vm_id_of vm)), others_differ id vms (ground arith))

Object-IsSet : IsSet Object
Object-IsSet = hlevel IsScalar-prop

ids-IsUnique : (vms : List Object) → Nodup (map vm_id_of vms) → IsUnique vms
ids-IsUnique [] _ v w m n e = absurd (not-mem-nil m)
ids-IsUnique (vm ∷ vms) (fresh, h) v w m n e =
    let differ : (other : Object) → Mem other vms → vm_id_of vm ≢ vm_id_of other = λ other found.
      member _ (λ _. hlevel) vms other (others_differ (vm_id_of vm) vms fresh) found in
    ∥∥₁_elim (eq-or-mem_of_mem-cons m) (Object-IsSet v w) λ first.
      ∥∥₁_elim (eq-or-mem_of_mem-cons n) (Object-IsSet v w) λ second. elim first [
        | inl here ↦ elim second [
          | inl here' ↦ here ∙ sym here'
          | inr later ↦ absurd (differ w later (ap vm_id_of (sym here) ∙ e))
        ]
        | inr later ↦ elim second [
          | inl here' ↦ absurd (differ v later (ap vm_id_of (sym here') ∙ sym e))
          | inr later' ↦ ids-IsUnique vms h v w later later' e
        ]
      ]

last_entry-perm :
    (id : Text) (vms vms' : List Object)
    → Perm vms vms'
    → IsUnique vms
    → last_entry id vms ≡ last_entry id vms'
last_entry-perm id vms vms' p unique = elim (Option-cases (last_entry id vms)) [
  | inl absent ↦ elim (Option-cases (last_entry id vms')) [
    | inl absent' ↦ absent ∙ sym absent'
    | inr (b, found') ↦
        let (w, m, e) = last_entry-member id vms' b found' in
        let none_of =
          member _ (λ _. hlevel) vms w (last_entry-none id vms absent) ((Perm.mem_iff p).1 m) in
        absurd cc
  ]
  | inr (a, found) ↦
      let (v, n, d) = last_entry-member id vms a found in
      elim (Option-cases (last_entry id vms')) [
        | inl absent' ↦
            let none_of =
              member _ (λ _. hlevel) vms' v (last_entry-none id vms' absent')
                ((Perm.mem_iff p).0 n) in
            absurd cc
        | inr (b, found') ↦
            let (w, m, e) = last_entry-member id vms' b found' in
            let same =
              unique v w n ((Perm.mem_iff p).1 m) (entry-id id v a d ∙ sym (entry-id id w b e)) in
            found ∙ sym d ∙ ap (entry id) same ∙ e ∙ sym found'
      ]
]

-- Where two stores' queries return the same active records in different orders, and no id stands twice
-- in them, `reconcile_allocations` returns over the second where it returns over the
-- first; the two managers are then the same up to the order of their allocations, and `check_spec`
-- gives the same answer to every request on every host.
pub reconcile_allocations-perm :
    (store store' : MetadataQueries) (m : CapacityManager) (vms vms' : List Object)
    (m₁ : CapacityManager)
    → fetch_active_vms store ≡ ok vms
    → fetch_active_vms store' ≡ ok vms'
    → Perm vms vms'
    → Nodup (map vm_id_of vms)
    → reconcile_allocations store m ≡ ok m₁
    → (m₂ : CapacityManager) × (reconcile_allocations store' m ≡ ok m₂)
      × (view m₁ ≡ view m₂)
      × ((host : Host) (cpu_cores memory_mb disk_gb : ℤ)
          → check_spec host m₁ cpu_cores memory_mb disk_gb
            ≡ check_spec host m₂ cpu_cores memory_mb disk_gb)
reconcile_allocations-perm store store' m vms vms' m₁ fetched fetched' p distinct_ids returned =
    let passed = (reconcile_allocations-returns store m vms fetched).0 (m₁, returned) in
    let passed' : All (λ vm. passes vm ≡ true) vms' =
      All-of_members _ vms'
        (λ vm found. member _ (λ _. hlevel) vms vm passed ((Perm.mem_iff p).1 found)) in
    let (m₂, returned') = (reconcile_allocations-returns store' m vms' fetched').1 passed' in
    let (read, again, kept, distinct, same) =
      reconcile_allocations-last_entry store m m₁ returned in
    let (read', again', kept', distinct', same') =
      reconcile_allocations-last_entry store' m m₂ returned' in
    let e = ok-injective (sym fetched ∙ again) in
    let e' = ok-injective (sym fetched' ∙ again') in
    let looked_up : (id : Text) → lookup id m₁.allocations ≡ lookup id m₂.allocations = λ id.
      kept id
      ∙ ap (last_entry id) (sym e)
      ∙ last_entry-perm id vms vms' p (ids-IsUnique vms distinct_ids)
      ∙ ap (last_entry id) e'
      ∙ sym (kept' id) in
    let equal : view m₁ ≡ view m₂ = Quot.sound (record {
      configured =
          same'
          ∙ sym (ap (λ (m : CapacityManager). record m { allocations = m₂.allocations }) same);
      allocated = perm_of_lookup m₁.allocations m₂.allocations distinct distinct' looked_up;
    }) in
    (
      m₂,
      returned',
      equal,
      λ host cpu_cores memory_mb disk_gb. ap (check_view host cpu_cores memory_mb disk_gb) equal,
    )
