-- ===== src/CpuMap/Ascending.antt =====
-- Ascending lists, and `sorted(set(…))` (src/agentvm/host/cpu_map.py).
use agent_vm.Base.{
  ℕ, zero, suc, ◌<◌, Bool, List, [], ◌∷◌, nat_eq, contains, All, ◌≡◌, refl, arith, filter, take,
  Bool-cases, inl, inr,
}
use agent_vm.CpuMap.CpuList.{count_up, insert_sorted, sorted_set}

abbrev pub IsAscending : List ℕ → Type 0
IsAscending [] = Unit
IsAscending (x ∷ xs) = All (λ y. x < y) xs × IsAscending xs

All-below : (x y : ℕ) (xs : List ℕ) → x < y → All (λ z. y < z) xs → All (λ z. x < z) xs
All-below x y [] h _ = tt
All-below x y (z ∷ xs) h (hz, k) = (omega (arith, h, hz), All-below x y xs h k)

All-insert_sorted :
    (b x : ℕ) (xs : List ℕ) → b < x → All (λ z. b < z) xs → All (λ z. b < z) (insert_sorted x xs)
unfolding insert_sorted
All-insert_sorted b x [] h _ = (h, tt)
All-insert_sorted b x (y ∷ ys) h (hy, k) = ground (arith, All-insert_sorted b x ys h k)

insert_sorted-IsAscending :
    (x : ℕ) (xs : List ℕ) → IsAscending xs → IsAscending (insert_sorted x xs)
unfolding insert_sorted
insert_sorted-IsAscending x [] _ = (tt, tt)
insert_sorted-IsAscending x (y ∷ ys) (hy, h) =
    ground (arith, insert_sorted-IsAscending x ys h, All-below x y ys, All-insert_sorted y x ys)

pub sorted_set-IsAscending : (xs : List ℕ) → IsAscending (sorted_set xs)
unfolding sorted_set
sorted_set-IsAscending [] = tt
sorted_set-IsAscending (x ∷ xs) =
    insert_sorted-IsAscending x (sorted_set xs) (sorted_set-IsAscending xs)

insert_sorted_first : (x : ℕ) (xs : List ℕ) → All (λ y. x < y) xs → insert_sorted x xs ≡ x ∷ xs
unfolding insert_sorted
insert_sorted_first x [] _ = refl
insert_sorted_first x (y ∷ ys) (h, _) = ground (arith, h)

-- An ascending list is in order already.
pub sorted_set_ascending : (xs : List ℕ) → IsAscending xs → sorted_set xs ≡ xs
unfolding sorted_set
sorted_set_ascending [] _ = refl
sorted_set_ascending (x ∷ xs) (hx, h) = rw (sorted_set_ascending xs h) (insert_sorted_first x xs hx)

contains-insert_sorted :
    (x y : ℕ) (ys : List ℕ) → contains x (insert_sorted y ys) ≡ contains x (y ∷ ys)
unfolding insert_sorted contains
contains-insert_sorted x y [] = refl
contains-insert_sorted x y (z ∷ zs) = ground (arith, contains-insert_sorted x y zs)

-- It has the same elements.
pub contains-sorted_set : (x : ℕ) (xs : List ℕ) → contains x (sorted_set xs) ≡ contains x xs
unfolding sorted_set contains
contains-sorted_set x [] = refl
contains-sorted_set x (y ∷ ys) =
    ground (arith, contains-insert_sorted x y (sorted_set ys), contains-sorted_set x ys)

count_up-above : (b n start : ℕ) → b < start → All (λ x. b < x) (count_up n start)
unfolding count_up
count_up-above b zero start h = tt
count_up-above b (suc n) start h = (h, count_up-above b n (suc start) (omega (arith, h)))

pub count_up-IsAscending : (n start : ℕ) → IsAscending (count_up n start)
unfolding count_up
count_up-IsAscending zero start = tt
count_up-IsAscending (suc n) start =
    (count_up-above start n (suc start) (omega arith), count_up-IsAscending n (suc start))

All-of-filter : (P : ℕ → Type 0) (p : ℕ → Bool) (xs : List ℕ) → All P xs → All P (filter p xs)
unfolding filter
All-of-filter P p [] _ = tt
All-of-filter P p (x ∷ xs) (hx, h) = ground (arith, All-of-filter P p xs h)

pub filter-IsAscending : (p : ℕ → Bool) (xs : List ℕ) → IsAscending xs → IsAscending (filter p xs)
unfolding filter
filter-IsAscending p [] _ = tt
filter-IsAscending p (x ∷ xs) (hx, h) = elim (Bool-cases (p x)) [
  | inl kept ↦ rw kept (All-of-filter (λ y. x < y) p xs hx, filter-IsAscending p xs h)
  | inr dropped ↦ rw dropped (filter-IsAscending p xs h)
]

pub All-take : (P : ℕ → Type 0) (n : ℕ) (xs : List ℕ) → All P xs → All P (take n xs)
All-take P zero xs _ = tt
All-take P (suc n) [] _ = tt
All-take P (suc n) (x ∷ xs) (hx, h) = (hx, All-take P n xs h)

pub take-IsAscending : (n : ℕ) (xs : List ℕ) → IsAscending xs → IsAscending (take n xs)
take-IsAscending zero xs _ = tt
take-IsAscending (suc n) [] _ = tt
take-IsAscending (suc n) (x ∷ xs) (hx, h) = (All-take (λ y. x < y) n xs hx, take-IsAscending n xs h)
