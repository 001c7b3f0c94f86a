-- ===== src/Python/Exec.antt =====
-- Methods that change an object and may raise: what was written before a raise stays written, so
-- the state comes back beside the error too.
use agent_vm.Python.Result.{Result, ok, raise}

abbrev pub Exec {ℓ} : Type ℓ → Type ℓ → Type ℓ
Exec S A = S → Result A × S

module _ {ℓ} {S A : Type ℓ} where
  abbrev pub pure : A → Exec S A
  pure a s = (ok a, s)

  abbrev pub lift : Result A → Exec S A
  lift r s = (r, s)

module _ {ℓ} {S A B : Type ℓ} where
  abbrev pub continue : (A → Exec S B) → Result A × S → Result B × S
  continue f (ok a, s) = f a s
  continue f (raise error, s) = (raise error, s)

  infixl 10 ◌>>=◌ ◌>>◌
  abbrev pub ◌>>=◌ : Exec S A → (A → Exec S B) → Exec S B
  ◌>>=◌ m f s = continue f (m s)

  abbrev pub ◌>>◌ : Exec S A → Exec S B → Exec S B
  m >> n = m >>= λ _. n

-- The action preserves `Holds`, whether it returns or raises.
pub record Keeps {ℓ} {State V : Type ℓ} (Holds : State → Type ℓ) (action : Exec State V)
    : Type ℓ where
  pub after : (s : State) → Holds s → Holds (action s).1

module _ {ℓ} {State V : Type ℓ} {Holds : State → Type ℓ} where
  pub Keeps-lift : (result : Result V) → Keeps Holds (lift result)
  Keeps-lift result = record { after = λ s held. held }

  pub Keeps-pure : (value : V) → Keeps Holds (pure value)
  Keeps-pure value = record { after = λ s held. held }

module _ {ℓ} {State V W : Type ℓ} {Holds : State → Type ℓ} where
  continue-keeps :
      (next : V → Exec State W) (outcome : Result V × State)
      → ((value : V) → Keeps Holds (next value))
      → Holds outcome.1
      → Holds (continue next outcome).1
  continue-keeps next (raise error, s) keeps held = held
  continue-keeps next (ok value, s) keeps held = (keeps value).after s held

  pub Keeps-bind :
      (first : Exec State V) (next : V → Exec State W)
      → Keeps Holds first
      → ((value : V) → Keeps Holds (next value))
      → Keeps Holds (first >>= next)
  Keeps-bind first next kept keeps = record {
    after = λ s held. continue-keeps next (first s) keeps (kept.after s held);
  }

pub ruleset keeps_rules = (Keeps-bind, Keeps-lift, Keeps-pure)
