-- ===== src/Python/Dict/Unordered.antt =====
-- Dicts up to the order of their entries.
use mathlib.Core.List.{Perm}
use mathlib.Core.List.Perm
use agent_vm.Base.{some, [], ◌∷◌, arith, Eq, ◌==◌, Nodup, ◌≡◌, Bool-cases, inl, inr}
use agent_vm.Python.Dict.{Dict, keys, lookup, erase, lookup_absent}
use agent_vm.Python.Dict.Laws.{erase-Nodup, lookup-erase}

module _ {ℓ} {K V : Type ℓ} ⦃e : Eq K⦄ where
  erase-perm : (k : K) (v : V) (d : Dict K V) → lookup k d ≡ some v → Perm d ((k, v) ∷ erase k d)
  unfolding lookup erase
  erase-perm k v [] h = absurd cc
  erase-perm k v ((j, w) ∷ d) h = elim (Bool-cases (j == k)) [
    | inl same ↦
        let key : j ≡ k = (e.beq_iff j k).0 same in
        let value : w ≡ v = ground arith in rw (same, key, value) (Perm.refl _)
    | inr other ↦ rw other (
        Perm.trans (Perm.cons (j, w) (erase-perm k v d (ground arith)))
          (Perm.swap (k, v) (j, w) (erase k d)))
  ]

  -- Dicts without duplicate keys that look up the same have the same entries.
  pub perm_of_lookup :
      (d d' : Dict K V)
      → Nodup (keys d)
      → Nodup (keys d')
      → ((k : K) → lookup k d ≡ lookup k d')
      → Perm d d'
  unfolding lookup
  perm_of_lookup [] [] _ _ same = Perm.refl []
  perm_of_lookup [] ((k, v) ∷ d') _ _ same = absurd (ground (arith, same k, e.beq_iff k k))
  perm_of_lookup ((k, v) ∷ d) d' (fresh, distinct) distinct' same =
      let found : lookup k d' ≡ some v = ground (arith, same k, e.beq_iff k k) in
      let rest = perm_of_lookup d (erase k d') distinct (erase-Nodup k d' distinct') (λ j.
        ground
          (arith, same j, lookup-erase k j d' distinct', lookup_absent k d fresh, e.beq_iff k j)) in
      Perm.trans (Perm.cons (k, v) rest) (Perm.symm (erase-perm k v d' found))
