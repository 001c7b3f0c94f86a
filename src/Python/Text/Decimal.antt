-- ===== src/Python/Text/Decimal.antt =====
-- The decimal text of a number is read back by `int`.
use agent_vm.Base.{
  ℕ, zero, suc, ◌+◌, ◌*◌, ◌/◌, ◌%◌, ◌≤◌, ◌<◌, Bool, true, false, some, [], ◌∷◌, ◌≡◌, refl, arith,
}
use agent_vm.Python.Text.{Text, scan, emit, decimal}

scan_digit :
    (n m : ℕ) (b : Bool) (out : Text)
    → m < 10
    → scan ((48 + m) ∷ out) b n ≡ scan out true (n * 10 + m)
unfolding scan
scan_digit n m b out h = ground arith

emit_zero : (f : ℕ) (out : Text) → emit f 0 out ≡ out
unfolding emit
emit_zero zero out = refl
emit_zero (suc f) out = refl

scan-emit :
    (f n : ℕ) (b : Bool) (out : Text) → 0 < n → n ≤ f → scan (emit f n out) b 0 ≡ scan out true n
unfolding emit
scan-emit zero n b out h k = absurd (omega arith)
scan-emit (suc f) n b out h k = ground (
  arith,
  emit_zero f ((48 + n % 10) ∷ out),
  scan-emit f (n / 10) b ((48 + n % 10) ∷ out),
  scan_digit (n / 10) (n % 10) true out,
  scan_digit 0 (n % 10) b out,
)

scan_end : (n : ℕ) → scan [] true n ≡ some n
unfolding scan
scan_end n = refl

-- Reading the digits of a number gives the number.
pub scan-decimal : (n : ℕ) → scan (decimal n) false 0 ≡ some n
unfolding decimal
scan-decimal zero = unfold scan in refl
scan-decimal (suc n) = ground (arith, scan-emit (suc n) (suc n) false [], scan_end (suc n))

pub decimal-injective : (m n : ℕ) → decimal m ≡ decimal n → m ≡ n
decimal-injective m n e = cc (scan-decimal m, scan-decimal n)
