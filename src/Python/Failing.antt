-- ===== src/Python/Failing.antt =====
-- What a result can raise.
pub mod Number
use agent_vm.Base.{Bool, true, false, sym, if◌then◌else◌, ◌≡◌, refl}
use agent_vm.Python.Result.{Error, Result, ok, raise, raise-injective, ◌>>=◌}

-- Every exception of a result passes the test.
pub data Raises {A : Type 0} (test : Error → Bool) : Result A → Type 0 where
  returns : {value : A} → Raises test (ok value)
  raises : {error : Error} → test error ≡ true → Raises test (raise error)

module _ {test : Error → Bool} {A B : Type 0} where
  pub Raises->>= :
      {r : Result A} {next : A → Result B}
      → Raises test r
      → ((v : A) → Raises test (next v))
      → Raises test (r >>= next)
  Raises->>= {r} {next} (returns {value}) h = h value
  Raises->>= (raises passed) h = raises passed

pub weaken :
    {A : Type 0} {r : Result A} {weak strong : Error → Bool}
    → ((error : Error) → strong error ≡ true → weak error ≡ true)
    → Raises strong r
    → Raises weak r
weaken h returns = returns
weaken h (raises {error} passed) = raises (h error passed)

pub Raises-if :
    {test : Error → Bool} {A : Type 0} (b : Bool) {r s : Result A}
    → Raises test r
    → Raises test s
    → Raises test (if b then r else s)
Raises-if true hr hs = hr
Raises-if false hr hs = hs

pub raised :
    {test : Error → Bool} {A : Type 0} {r : Result A} {error : Error}
    → Raises test r
    → r ≡ raise error
    → test error ≡ true
raised returns h = absurd cc
raised (raises passed) h = let same = raise-injective refl h in rw (sym same) passed
