-- ===== src/Bridge/Allocation.antt =====
-- What `allocate_vm_interface` and `deallocate_vm_interface` (src/agentvm/net/bridge.py) do to a
-- consistent manager.
use agent_vm.Base.{
  ℕ, zero, suc, false, Option, none, some, List, [], ◌∷◌, ◌++◌, map, contains, text_eq, ◌≡◌, refl,
  ap, arith, All-append, All-filter, Nodup-concat,
}
use agent_vm.Python.Result.{Result, ok, raise}
use agent_vm.Python.Dict.{Dict, values, lookup, insert, insert-Nodup}
use agent_vm.Python.Dict.Laws.{insert_absent, erase-Nodup, values-append_entry}
use agent_vm.Python.Text.{Text}
use agent_vm.Bridge.{
  Draw, Bridge, Interface, add, discard, vnet_name, allocate_unique_mac, finish, find_or_allocate,
  allocate_vm_interface, remove, deallocate_vm_interface, max_mac_allocation_retries,
}
use agent_vm.Bridge.Consistent.{
  IsConsistent, column, name_of, address_of, fresh_name, older, column-erase, discard-Nodup,
}

map-concat :
    {A B : Type 0} (f : A → B) (xs : List A) (x : A) → map f (xs ++ x ∷ []) ≡ map f xs ++ f x ∷ []
map-concat f [] x = refl
map-concat f (y ∷ xs) x = ap (◌∷◌ (f y)) (map-concat f xs x)

column-insert :
    (part : Interface → Text) (k : Text) (i : Interface) (d : Dict Text Interface)
    → lookup k d ≡ none
    → column part (insert k i d) ≡ column part d ++ part i ∷ []
column-insert part k i d h =
    rw (insert_absent k i d h, values-append_entry) (map-concat part (values d) i)

add_fresh : (a : Text) (xs : List Text) → contains a xs ≡ false → add a xs ≡ xs ++ a ∷ []
unfolding add
add_fresh a xs h = rw h

module _ {F : Type 0} (draw : F → Draw × F) where
  -- An address that the loop returns is new.
  pub allocate_unique_mac-fresh :
      (rounds : ℕ) (taken : List Text) (f : F) (address : Text)
      → (allocate_unique_mac draw rounds taken f).0 ≡ ok address
      → contains address taken ≡ false
  unfolding allocate_unique_mac
  allocate_unique_mac-fresh zero taken f address h = cc
  allocate_unique_mac-fresh (suc rounds) taken f address h =
      ground (arith, allocate_unique_mac-fresh rounds taken (draw f).1 address)

  module _ (session_id : Text) (b : Bridge F) where
    finish-IsConsistent :
        (o : Result Text × F)
        → lookup session_id b.session_interfaces ≡ none
        → ((address : Text) → o.0 ≡ ok address → contains address b.allocated_macs ≡ false)
        → IsConsistent b
        → IsConsistent (finish session_id (vnet_name b.next_vnet_index) b o).1
    finish-IsConsistent (raise e, f) absent fresh c = record {
      sessions = c.sessions;
      vnets = c.vnets;
      macs = c.macs;
      distinct_vnets = c.distinct_vnets;
      distinct_macs = c.distinct_macs;
      named = older _ _ _ (omega arith) c.named;
    }
    finish-IsConsistent (ok address, f) absent fresh c =
        let name = vnet_name b.next_vnet_index in
        let d = b.session_interfaces in
        let i : Interface = (name, address) in
        let new_name = fresh_name b.next_vnet_index (column name_of d) c.named in
        let new_mac : contains address (column address_of d) ≡ false =
          rw (← c.macs) (fresh address refl) in
        record {
          sessions = insert-Nodup session_id i d c.sessions;
          vnets =
              rw (c.vnets, column-insert name_of session_id i d absent)
                (add_fresh name (column name_of d) new_name);
          macs =
              rw (c.macs, column-insert address_of session_id i d absent)
                (add_fresh address (column address_of d) new_mac);
          distinct_vnets =
              rw (column-insert name_of session_id i d absent)
                (Nodup-concat (column name_of d) name c.distinct_vnets new_name);
          distinct_macs =
              rw (column-insert address_of session_id i d absent)
                (Nodup-concat (column address_of d) address c.distinct_macs new_mac);
          named = rw (column-insert name_of session_id i d absent) (
              All-append _ (column name_of d) (name ∷ []) (older _ _ _ (omega arith) c.named)
                ((b.next_vnet_index, omega arith, refl), tt));
        }

    find_or_allocate-IsConsistent :
        (o : Option Interface)
        → lookup session_id b.session_interfaces ≡ o
        → IsConsistent b
        → IsConsistent (find_or_allocate draw session_id b o).1
    find_or_allocate-IsConsistent (some i) found c = c
    find_or_allocate-IsConsistent none absent c =
        finish-IsConsistent
          (allocate_unique_mac draw max_mac_allocation_retries b.allocated_macs b.factory) absent
          (allocate_unique_mac-fresh max_mac_allocation_retries b.allocated_macs b.factory) c

    remove-IsConsistent :
        (o : Option Interface)
        → lookup session_id b.session_interfaces ≡ o
        → IsConsistent b
        → IsConsistent (remove session_id b o)
    remove-IsConsistent none absent c = c
    remove-IsConsistent (some i) found c =
        let d = b.session_interfaces in
        let names = column-erase name_of session_id i d found c.distinct_vnets in
        let addresses = column-erase address_of session_id i d found c.distinct_macs in
        record {
          sessions = erase-Nodup session_id d c.sessions;
          vnets = rw (c.vnets, names);
          macs = rw (c.macs, addresses);
          distinct_vnets = rw names (discard-Nodup i.0 (column name_of d) c.distinct_vnets);
          distinct_macs = rw addresses (discard-Nodup i.1 (column address_of d) c.distinct_macs);
          named = rw names (unfold discard in All-filter _ _ (column name_of d) c.named);
        }

    pub allocate_vm_interface-IsConsistent :
        IsConsistent b → IsConsistent (allocate_vm_interface draw session_id b).1
    unfolding allocate_vm_interface
    allocate_vm_interface-IsConsistent c =
        ground
          (arith, find_or_allocate-IsConsistent (lookup session_id b.session_interfaces) refl c)

    pub deallocate_vm_interface-IsConsistent :
        IsConsistent b → IsConsistent (deallocate_vm_interface session_id b)
    unfolding deallocate_vm_interface
    deallocate_vm_interface-IsConsistent c =
        remove-IsConsistent (lookup session_id b.session_interfaces) refl c
