-- ===== src/Python/Failing/Number.antt =====
-- What `int` can raise.
use agent_vm.Base.{nat_beq, ℕ, Bool, true, false, Option, none, some, [], ◌∷◌, ℤ, pos, refl}
use agent_vm.Python.Result.{Error, value_error, type_error, overflow_error}
use agent_vm.Python.Failing.{Raises, returns, raises, Raises-if}
use agent_vm.Python.Text.{Text, parse_int, parse_signed, strip, literal, neg}
use agent_vm.Python.Value.{
  Value, Float, null, bool, int, float, str, bytes, nested, finite, nan, infinity, minus_infinity,
  int_of, truncate,
}

abbrev pub is_int_error : Error → Bool
is_int_error value_error = true
is_int_error type_error = true
is_int_error overflow_error = true
is_int_error _ = false

literal-Raises : (sign : ℕ → ℤ) (o : Option ℕ) → Raises is_int_error (literal sign o)
literal-Raises sign none = raises refl
literal-Raises sign (some n) = returns

parse_signed-Raises : (s : Text) → Raises is_int_error (parse_signed s)
unfolding parse_signed
parse_signed-Raises [] = raises refl
parse_signed-Raises (c ∷ s) =
    Raises-if (nat_beq c 45) (literal-Raises neg _)
      (Raises-if (nat_beq c 43) (literal-Raises pos _) (literal-Raises pos _))

pub parse_int-Raises : (t : Text) → Raises is_int_error (parse_int t)
unfolding parse_int
parse_int-Raises t = parse_signed-Raises (strip t)

pub truncate-Raises : (f : Float) → Raises is_int_error (truncate f)
unfolding truncate
truncate-Raises (finite t n) = returns
truncate-Raises nan = raises refl
truncate-Raises infinity = raises refl
truncate-Raises minus_infinity = raises refl

pub int_of-Raises : (v : Value) → Raises is_int_error (int_of v)
unfolding int_of
int_of-Raises null = raises refl
int_of-Raises (bool b) = returns
int_of-Raises (int z) = returns
int_of-Raises (float f) = truncate-Raises f
int_of-Raises (str t) = parse_int-Raises t
int_of-Raises (bytes t content) = parse_int-Raises content
int_of-Raises (nested t) = raises refl
