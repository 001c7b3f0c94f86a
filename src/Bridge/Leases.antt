-- ===== src/Bridge/Leases.antt =====
-- What a `BridgeManager` promises (src/agentvm/net/bridge.py): leases of interfaces to sessions, which
-- forget the order of the entries, the counter and the two sets.
use agent_vm.Base.{
  ℕ, suc, true, false, true, Option, none, some, List, [], ◌∷◌, if◌then◌else◌, ◌==◌, text_eq, ◌≡◌,
  ◌≢◌,
}
use agent_vm.Python.Result.{value_error, runtime_error, Error, Result, ok, raise}
use agent_vm.Python.Dict.{lookup}
use agent_vm.Python.Text.{Text, strip, lower}
use agent_vm.Python.Lines.{is_empty}
use agent_vm.Bridge.{
  Draw, mac, stop, failed, Bridge, Interface, allocate_vm_interface, deallocate_vm_interface,
}
use agent_vm.Bridge.Consistent.{name_of, address_of}
use agent_vm.Bridge.Calls.{Request, allocate, deallocate}

abbrev pub Leases : Type 0
Leases = Text → Option Interface

-- What a release answers with is nothing.
pub data Reply : Type 0 where
  leased : Interface → Reply
  refused : Error → Reply
  done : Reply

-- No session holds the name or the address of the interface.
abbrev pub IsFree : Leases → Interface → Type 0
IsFree leases i =
    (k : Text) (y : Interface)
    → leases k ≡ some y
    → (name_of y ≢ name_of i) × (address_of y ≢ address_of i)

abbrev pub Same : Leases → Leases → Type 0
Same before after = (k : Text) → after k ≡ before k

-- A session holds the address.
abbrev pub IsLeased : Leases → Text → Type 0
IsLeased leases a = (k : Text) × (y : Interface) × (leases k ≡ some y) × (address_of y ≡ a)

-- No session holds it.
abbrev pub IsUnleased : Leases → Text → Type 0
IsUnleased leases a = (k : Text) (y : Interface) → leases k ≡ some y → address_of y ≢ a

module _ {F : Type 0} (draw : F → Draw × F) where
  -- What the search for an address comes to in so many rounds, and the factory after it: the first
  -- address drawn, in lower case, that no session holds, after such as are held; the factory's own error;
  -- or a `RuntimeError` once the rounds, or a factory of finitely many, are used up.
  pub data Search : ℕ → Leases → F → Result Text → F → Type 0 where
    new_address :
        {rounds : ℕ} {leases : Leases} {f : F} (t : Text)
        → (draw f).0 ≡ mac t
        → IsUnleased leases (lower t)
        → Search (suc rounds) leases f (ok (lower t)) (draw f).1
    held_address :
        {rounds : ℕ} {leases : Leases} {f f' : F} {result : Result Text} (t : Text)
        → (draw f).0 ≡ mac t
        → IsLeased leases (lower t)
        → Search rounds leases (draw f).1 result f'
        → Search (suc rounds) leases f result f'
    used_up : {leases : Leases} {f : F} → Search 0 leases f (raise runtime_error) f
    stopped :
        {rounds : ℕ} {leases : Leases} {f : F}
        → (draw f).0 ≡ stop
        → Search (suc rounds) leases f (raise runtime_error) (draw f).1
    broken :
        {rounds : ℕ} {leases : Leases} {f : F} {error : Error}
        → (draw f).0 ≡ failed error
        → Search (suc rounds) leases f (raise error) (draw f).1

  -- What a request does to the leases and the factory: a blank id is refused; a session keeps what it
  -- holds; one that holds none is leased an interface that is free, with the address of a search of 1000
  -- rounds, or is refused with the error of that search, with no change of the leases; a release takes
  -- the session's lease away. Only a search draws from the factory.
  pub data Step : Request → Reply → Leases → F → Leases → F → Type 0 where
    blank_id :
        {id : Text} {before after : Leases} {f : F}
        → is_empty (strip id) ≡ true
        → Same before after
        → Step (allocate id) (refused value_error) before f after f
    kept :
        {id : Text} {i : Interface} {before after : Leases} {f : F}
        → is_empty (strip id) ≡ false
        → before id ≡ some i
        → Same before after
        → Step (allocate id) (leased i) before f after f
    granted :
        {id : Text} {i : Interface} {before after : Leases} {f f' : F}
        → is_empty (strip id) ≡ false
        → before id ≡ none
        → Search 1000 before f (ok (address_of i)) f'
        → IsFree before i
        → ((k : Text) → after k ≡ (if id == k then some i else before k))
        → Step (allocate id) (leased i) before f after f'
    no_address :
        {id : Text} {error : Error} {before after : Leases} {f f' : F}
        → is_empty (strip id) ≡ false
        → before id ≡ none
        → Search 1000 before f (raise error) f'
        → Same before after
        → Step (allocate id) (refused error) before f after f'
    released :
        {id : Text} {before after : Leases} {f : F}
        → ((k : Text) → after k ≡ (if id == k then none else before k))
        → Step (deallocate id) done before f after f

  pub data Steps : List Request → List Reply → Leases → F → Leases → F → Type 0 where
    no_steps : {leases : Leases} {f : F} → Steps [] [] leases f leases f
    step :
        {request : Request} {requests : List Request} {reply : Reply} {replies : List Reply}
        {before between after : Leases} {f f' f'' : F}
        → Step request reply before f between f'
        → Steps requests replies between f' after f''
        → Steps (request ∷ requests) (reply ∷ replies) before f after f''

abbrev pub reply_of : Result Interface → Reply
reply_of (ok i) = leased i
reply_of (raise error) = refused error

module _ {F : Type 0} where
  abbrev pub leases_of : Bridge F → Leases
  leases_of b k = lookup k b.session_interfaces

  abbrev pub answer : (F → Draw × F) → Request → Bridge F → Reply × Bridge F
  answer draw (allocate id) b = let r = allocate_vm_interface draw id b in (reply_of r.0, r.1)
  answer draw (deallocate id) b = (done, deallocate_vm_interface id b)

  -- The replies to the requests, and the manager after them.
  abbrev pub answers : (F → Draw × F) → List Request → Bridge F → List Reply × Bridge F
  answers draw [] b = ([], b)
  answers draw (request ∷ requests) b =
      let first = answer draw request b in
      let rest = answers draw requests first.1 in (first.0 ∷ rest.0, rest.1)
