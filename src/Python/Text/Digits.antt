-- ===== src/Python/Text/Digits.antt =====
-- `str` of an integer is digits, after a sign if it is negative, and `int` reads the integer back.
use agent_vm.Base.{
  ℕ, zero, suc, ◌+◌, ◌/◌, ◌%◌, Bool, true, false, ◌&&◌, some, [], ◌∷◌, leb, ℤ, pos, negsuc, All,
  ◌≡◌, refl, arith,
}
use agent_vm.Python.Result.{ok}
use agent_vm.Python.Text.{
  Text, strip, strip_left, strip_right, is_space, parse_int, parse_signed, int_text, scan, emit,
  decimal, is_digit,
}
use agent_vm.Python.Text.Decimal.{scan-decimal}

abbrev pub IsDigits : Text → Type 0
IsDigits s = All (λ c. is_digit c ≡ true) s

-- Digits and dashes.
abbrev pub is_plain : ℕ → Bool
is_plain c = leb 45 c && leb c 57

abbrev pub IsPlain : Text → Type 0
IsPlain s = All (λ c. is_plain c ≡ true) s

emit-IsDigits : (f n : ℕ) (out : Text) → IsDigits out → IsDigits (emit f n out)
unfolding emit
emit-IsDigits zero n out h = h
emit-IsDigits (suc f) n out h = ground (arith, emit-IsDigits f (n / 10) ((48 + n % 10) ∷ out))

pub decimal-IsDigits : (n : ℕ) → IsDigits (decimal n)
unfolding decimal
decimal-IsDigits n = ground (arith, emit-IsDigits n n [] tt)

pub IsDigits-IsPlain : (s : Text) → IsDigits s → IsPlain s
IsDigits-IsPlain [] _ = tt
IsDigits-IsPlain (c ∷ s) (hc, h) = (ground arith, IsDigits-IsPlain s h)

is_space_plain : (c : ℕ) → is_plain c ≡ true → is_space c ≡ false
unfolding is_space
is_space_plain c h = ground arith

strip_left_plain : (s : Text) → IsPlain s → strip_left s ≡ s
unfolding strip_left
strip_left_plain [] _ = refl
strip_left_plain (c ∷ s) (hc, _) = rw (is_space_plain c hc) refl

strip_right_plain : (s : Text) → IsPlain s → strip_right s ≡ s
unfolding strip_right
strip_right_plain [] _ = refl
strip_right_plain (c ∷ []) (hc, _) = rw (is_space_plain c hc) refl
strip_right_plain (c ∷ d ∷ s) (_, h) = rw (strip_right_plain (d ∷ s) h) refl

pub strip_plain : (s : Text) → IsPlain s → strip s ≡ s
unfolding strip
strip_plain s h = rw (strip_left_plain s h) (strip_right_plain s h)

parse_signed_digits :
    (s : Text) (n : ℕ) → IsDigits s → scan s false 0 ≡ some n → parse_signed s ≡ ok (pos n)
unfolding parse_signed
parse_signed_digits [] n _ h = absurd (unfold scan in cc)
parse_signed_digits (c ∷ s) n (hc, _) h = ground arith

pub parse_int-decimal : (n : ℕ) → parse_int (decimal n) ≡ ok (pos n)
unfolding parse_int
parse_int-decimal n =
    let digits = decimal-IsDigits n in
    rw (strip_plain (decimal n) (IsDigits-IsPlain (decimal n) digits))
      (parse_signed_digits (decimal n) n digits (scan-decimal n))

-- The text that `str` writes of an integer, `int` reads as that integer.
pub parse_int-int_text : (z : ℤ) → parse_int (int_text z) ≡ ok z
unfolding int_text
parse_int-int_text (pos n) = parse_int-decimal n
parse_int-int_text (negsuc n) =
    let plain = IsDigits-IsPlain (decimal (suc n)) (decimal-IsDigits (suc n)) in
    unfold parse_int parse_signed in
    rw (strip_plain (45 ∷ decimal (suc n)) (refl, plain), scan-decimal (suc n)) refl
