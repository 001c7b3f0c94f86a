-- ===== src/Bridge/Consistent.antt =====
-- The sets of names and addresses mirror the interfaces, and none is given twice
-- (src/agentvm/net/bridge.py).
use agent_vm.Base.{
  ℕ, ◌<◌, ◌≤◌, true, false, some, List, [], ◌∷◌, map, filter, contains, if◌then◌else◌, ◌==◌,
  text_eq, ◌≡◌, refl, ap, arith, All, Nodup, text_beq_iff, text_beq_iff,
}
use agent_vm.Python.Dict.{Dict, keys, values, lookup, erase}
use agent_vm.Python.Text.{Text}
use agent_vm.Python.Text.Decimal.{decimal-injective}
use agent_vm.Bridge.{Bridge, Interface, discard, vnet_name}

-- A column of the interfaces: the names, or the addresses.
abbrev pub column : (Interface → Text) → Dict Text Interface → List Text
column part d = map part (values d)

abbrev pub name_of : Interface → Text
name_of i = i.0

abbrev pub address_of : Interface → Text
address_of i = i.1

-- A name that was given before.
abbrev pub IsOld : ℕ → Text → Type 0
IsOld bound name = (i : ℕ) × (i < bound) × (name ≡ vnet_name i)

pub record IsConsistent {F : Type 0} (b : Bridge F) : Type 0 where
  pub sessions : Nodup (keys b.session_interfaces)
  pub vnets : b.allocated_vnets ≡ column name_of b.session_interfaces
  pub macs : b.allocated_macs ≡ column address_of b.session_interfaces
  pub distinct_vnets : Nodup (column name_of b.session_interfaces)
  pub distinct_macs : Nodup (column address_of b.session_interfaces)
  pub named : All (IsOld b.next_vnet_index) (column name_of b.session_interfaces)

pub vnet_name-injective : (i j : ℕ) → vnet_name i ≡ vnet_name j → i ≡ j
unfolding vnet_name
vnet_name-injective i j e = decimal-injective i j (cc e)

pub fresh_name :
    (n : ℕ) (names : List Text) → All (IsOld n) names → contains (vnet_name n) names ≡ false
unfolding contains
fresh_name n [] _ = refl
fresh_name n (name ∷ names) ((i, old, e), h) =
    ground (arith, fresh_name n names h, text_beq_iff (vnet_name n) name, vnet_name-injective n i)

pub older : (m n : ℕ) (names : List Text) → m ≤ n → All (IsOld m) names → All (IsOld n) names
older m n [] h _ = tt
older m n (name ∷ names) h ((i, old, e), k) = ((i, omega arith, e), older m n names h k)

-- `discard` of what is not there
pub discard_absent : (a : Text) (xs : List Text) → contains a xs ≡ false → discard a xs ≡ xs
unfolding discard filter contains
discard_absent a [] h = refl
discard_absent a (x ∷ xs) h =
    ground (arith, discard_absent a xs, text_beq_iff a x, text_beq_iff x a)

discard_cons :
    (a x : Text) (xs : List Text)
    → discard a (x ∷ xs) ≡ (if x == a then discard a xs else x ∷ discard a xs)
unfolding discard filter
discard_cons a x xs = ground arith

module _ (part : Interface → Text) (k : Text) (i : Interface) where
  pub contains-column :
      (d : Dict Text Interface) → lookup k d ≡ some i → contains (part i) (column part d) ≡ true
  unfolding lookup contains
  contains-column [] h = cc
  contains-column ((j, w) ∷ d) h = ground (arith, contains-column d, text_beq_iff (part i) (part w))

  -- An interface that goes takes its name and its address out of the columns.
  pub column-erase :
      (d : Dict Text Interface)
      → lookup k d ≡ some i
      → Nodup (column part d)
      → column part (erase k d) ≡ discard (part i) (column part d)
  unfolding lookup erase
  column-erase [] h _ = cc
  column-erase ((j, w) ∷ d) h (fresh, n) = ground (
    arith,
    column-erase d,
    discard_cons (part i) (part w) (column part d),
    discard_absent (part w) (column part d) fresh,
    contains-column d,
    text_beq_iff (part w) (part i),
    ap part {x = w} {y = i},
  )

contains-discard :
    (x a : Text) (xs : List Text) → contains x xs ≡ false → contains x (discard a xs) ≡ false
unfolding discard filter contains
contains-discard x a [] h = refl
contains-discard x a (y ∷ xs) h = ground (arith, contains-discard x a xs)

pub discard-Nodup : (a : Text) (xs : List Text) → Nodup xs → Nodup (discard a xs)
unfolding discard filter
discard-Nodup a [] _ = tt
discard-Nodup a (x ∷ xs) (fresh, h) =
    ground (arith, discard-Nodup a xs h, contains-discard x a xs fresh)
