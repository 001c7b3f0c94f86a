-- ===== src/Python/Dict/Laws.antt =====
-- Keys that are not in a dictionary, and what a removal leaves.
use agent_vm.Base.{
  ◌≡◌, refl, false, none, [], ◌∷◌, ◌++◌, arith, Eq, contains, Nodup, ap, if◌then◌else◌, ◌==◌,
}
use agent_vm.Python.Dict.{Dict, keys, values, lookup, insert, erase, lookup_absent}

module _ {ℓ} {K V : Type ℓ} ⦃e : Eq K⦄ where
  pub contains_of_none : (k : K) (d : Dict K V) → lookup k d ≡ none → contains k (keys d) ≡ false
  unfolding lookup contains
  contains_of_none k [] h = refl
  contains_of_none k ((j, v) ∷ d) h =
      ground (arith, contains_of_none k d, e.beq_iff j k, e.beq_iff k j)

  -- A new key goes to the end.
  pub insert_absent :
      (k : K) (v : V) (d : Dict K V) → lookup k d ≡ none → insert k v d ≡ d ++ (k, v) ∷ []
  unfolding lookup insert
  insert_absent k v [] h = refl
  insert_absent k v ((j, w) ∷ d) h = ground (arith, insert_absent k v d)

  contains-erase :
      (j k : K) (d : Dict K V) → contains j (keys d) ≡ false → contains j (keys (erase k d)) ≡ false
  unfolding erase contains
  contains-erase j k [] h = refl
  contains-erase j k ((i, w) ∷ d) h = ground (arith, contains-erase j k d)

  pub erase-Nodup : (k : K) (d : Dict K V) → Nodup (keys d) → Nodup (keys (erase k d))
  unfolding erase contains
  erase-Nodup k [] _ = tt
  erase-Nodup k ((j, w) ∷ d) (fresh, h) =
      ground (arith, erase-Nodup k d h, contains-erase j k d fresh)

  -- Without duplicate keys, an erased key is gone and the others keep their value.
  pub lookup-erase :
      (k j : K) (d : Dict K V)
      → Nodup (keys d)
      → lookup j (erase k d) ≡ (if k == j then none else lookup j d)
  unfolding lookup erase
  lookup-erase k j [] _ = ground arith
  lookup-erase k j ((i, w) ∷ d) (fresh, h) = ground (
    arith,
    lookup-erase k j d h,
    lookup_absent i d fresh,
    e.beq_iff i k,
    e.beq_iff i j,
    e.beq_iff k j,
  )

module _ {ℓ} {K V : Type ℓ} where
  pub values-append_entry :
      (k : K) (v : V) (d : Dict K V) → values (d ++ (k, v) ∷ []) ≡ values d ++ v ∷ []
  values-append_entry k v [] = refl
  values-append_entry k v ((j, w) ∷ d) = ap (◌∷◌ w) (values-append_entry k v d)
