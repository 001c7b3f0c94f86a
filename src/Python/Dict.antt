-- ===== src/Python/Dict.antt =====
-- Python's `dict`: entries in insertion order, with keys of any type that has an equality.
pub mod Laws
pub mod Unordered
use agent_vm.Base.{
  ◌≡◌, refl, ◌≢◌, Bool, true, false, Option, none, some, List, [], ◌∷◌, ◌++◌, map, arith, Eq, ◌==◌,
  contains, Nodup, if◌then◌else◌, length, ℕ, ◌+◌,
}

abbrev pub Dict {ℓ} : Type ℓ → Type ℓ → Type ℓ
Dict K V = List (K × V)

-- The first value that is there.
abbrev pub or_else {ℓ} : {V : Type ℓ} → Option V → Option V → Option V
or_else none o = o
or_else (some v) o = some v

module _ {ℓ} {K V : Type ℓ} where
  abbrev pub keys : Dict K V → List K
  keys [] = []
  keys ((k, v) ∷ d) = k ∷ keys d

  abbrev pub values : Dict K V → List V
  values [] = []
  values ((k, v) ∷ d) = v ∷ values d

module _ {ℓ} {K V : Type ℓ} ⦃e : Eq K⦄ where
  -- `d.get(k)`
  unfoldable pub lookup : K → Dict K V → Option V
  lookup k [] = none
  lookup k ((j, v) ∷ d) = if j == k then some v else lookup k d

  -- `d[k] = v`: a key that is there keeps its place
  unfoldable pub insert : K → V → Dict K V → Dict K V
  insert k v [] = (k, v) ∷ []
  insert k v ((j, w) ∷ d) = if j == k then (j, v) ∷ d else (j, w) ∷ insert k v d

  -- `d.pop(k, None)`
  unfoldable pub erase : K → Dict K V → Dict K V
  erase k [] = []
  erase k ((j, w) ∷ d) = if j == k then d else (j, w) ∷ erase k d

  -- `d.get(k, default)`
  abbrev pub get_or : K → V → Dict K V → V
  get_or k default d = elim (lookup k d) [ none ↦ default | some v ↦ v ]

  -- `d.setdefault(k, v)`
  unfoldable pub setdefault : K → V → Dict K V → Dict K V
  setdefault k v d = elim (lookup k d) [ none ↦ insert k v d | some w ↦ d ]

  -- `{**d, **updates}`
  unfoldable pub merge : Dict K V → Dict K V → Dict K V
  merge d [] = d
  merge d ((k, v) ∷ updates) = merge (insert k v d) updates

  pub lookup-insert :
      (k j : K) (v : V) (d : Dict K V)
      → lookup j (insert k v d) ≡ (if k == j then some v else lookup j d)
  unfolding lookup insert
  lookup-insert k j v [] = refl
  lookup-insert k j v ((i, w) ∷ d) =
      ground (arith, e.beq_iff k j, e.beq_iff i k, e.beq_iff i j, lookup-insert k j v d)

  pub lookup-setdefault :
      (k j : K) (v : V) (d : Dict K V)
      → lookup j (setdefault k v d) ≡ or_else (lookup j d) (if k == j then some v else none)
  unfolding setdefault
  lookup-setdefault k j v d = ground (arith, lookup-insert k j v d, e.beq_iff k j)

  pub lookup_absent : (k : K) (d : Dict K V) → contains k (keys d) ≡ false → lookup k d ≡ none
  unfolding lookup contains
  lookup_absent k [] h = refl
  lookup_absent k ((j, v) ∷ d) h = ground (arith, lookup_absent k d, e.beq_iff k j, e.beq_iff j k)

  -- The updates win, and other keys keep their value.
  pub lookup-merge :
      (j : K) (d updates : Dict K V)
      → Nodup (keys updates)
      → lookup j (merge d updates) ≡ or_else (lookup j updates) (lookup j d)
  unfolding lookup merge
  lookup-merge j d [] _ = refl
  lookup-merge j d ((k, v) ∷ updates) (fresh, h) = ground (
    arith,
    lookup-merge j (insert k v d) updates h,
    lookup-insert k j v d,
    lookup_absent k updates fresh,
    e.beq_iff k j,
  )

  pub contains-keys-insert :
      (k j : K) (v : V) (d : Dict K V)
      → contains j (keys (insert k v d)) ≡ (if k == j then true else contains j (keys d))
  unfolding contains insert
  contains-keys-insert k j v [] = ground (arith, e.beq_iff k j, e.beq_iff j k)
  contains-keys-insert k j v ((i, w) ∷ d) = ground (
    arith,
    contains-keys-insert k j v d,
    e.beq_iff k j,
    e.beq_iff j k,
    e.beq_iff i k,
    e.beq_iff i j,
    e.beq_iff j i,
  )

  pub insert-Nodup : (k : K) (v : V) (d : Dict K V) → Nodup (keys d) → Nodup (keys (insert k v d))
  unfolding insert contains
  insert-Nodup k v [] _ = (refl, tt)
  insert-Nodup k v ((j, w) ∷ d) (fresh, h) =
      ground
        (arith, insert-Nodup k v d h, contains-keys-insert k j v d, e.beq_iff j k, e.beq_iff k j)
