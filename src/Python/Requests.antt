-- ===== src/Python/Requests.antt =====
-- Requests that are served one after another, and what it is to serve them as an abstract state means.
use agent_vm.Base.{List, [], ◌∷◌, ◌≡◌, refl, ap}

-- The replies to requests, and what is left after them.
unfoldable pub in_turn {ℓ} : {Q P S : Type ℓ} → (Q → S → P × S) → List Q → S → List P × S
in_turn step [] s = ([], s)
in_turn step (request ∷ requests) s =
    let (reply, s) = step request s in
    let (replies, s) = in_turn step requests s in (reply ∷ replies, s)

module _ {ℓ} {Q P S T : Type ℓ} (served : Q → S → P × S) (meant : Q → T → P × T) (view : S → T)
    (Holds : S → Type ℓ) where
  -- The reply and what is left are those that are meant, and the invariant is kept.
  abbrev pub Refines : P × S → P × T → Type ℓ
  Refines done wanted = (done.0 ≡ wanted.0) × (view done.1 ≡ wanted.1) × Holds done.1

  -- Where each request is served as it is meant, any requests in turn are.
  pub in_turn-Refines :
      ((request : Q) (s : S) → Holds s → Refines (served request s) (meant request (view s)))
      → (requests : List Q) (s : S) → Holds s
      → ((in_turn served requests s).0 ≡ (in_turn meant requests (view s)).0)
        × (view (in_turn served requests s).1 ≡ (in_turn meant requests (view s)).1)
        × Holds (in_turn served requests s).1
  unfolding in_turn
  in_turn-Refines each [] s held = (refl, refl, held)
  in_turn-Refines each (request ∷ requests) s held =
      let (same_reply, same_state, held') = each request s held in
      let (replies, left, held'') = in_turn-Refines each requests (served request s).1 held' in
      (
        rw (same_reply, ← same_state) (ap (◌∷◌ (meant request (view s)).0) replies),
        rw (← same_state) left,
        held'',
      )
