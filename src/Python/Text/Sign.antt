-- ===== src/Python/Text/Sign.antt =====
-- `int` of a text without a minus sign is not negative.
use agent_vm.Base.{
  ℕ, false, [], ◌∷◌, contains, nat_eq, pos, negsuc, ◌≡◌, ◌≢◌, arith, Option, none, some,
}
use agent_vm.Python.Result.{ok}
use agent_vm.Python.Text.{
  Text, strip, strip_left, strip_right, parse_int, parse_signed, scan, literal,
}

strip_left_absent : (c : ℕ) (s : Text) → contains c s ≡ false → contains c (strip_left s) ≡ false
unfolding strip_left contains
strip_left_absent c [] h = h
strip_left_absent c (d ∷ s) h = ground (arith, strip_left_absent c s)

strip_right_absent : (c : ℕ) (s : Text) → contains c s ≡ false → contains c (strip_right s) ≡ false
unfolding strip_right contains
strip_right_absent c [] h = h
strip_right_absent c (d ∷ s) h = ground (arith, strip_right_absent c s)

literal_pos : (o : Option ℕ) (n : ℕ) → literal pos o ≢ ok (negsuc n)
literal_pos none n h = absurd cc
literal_pos (some m) n h = absurd cc

parse_signed_absent : (s : Text) (n : ℕ) → contains 45 s ≡ false → parse_signed s ≢ ok (negsuc n)
unfolding parse_signed contains
parse_signed_absent [] n h e = absurd cc
parse_signed_absent (c ∷ s) n h e =
    ground (arith, literal_pos (scan s false 0) n, literal_pos (scan (c ∷ s) false 0) n)

pub parse_int_nonneg : (s : Text) (n : ℕ) → contains 45 s ≡ false → parse_int s ≢ ok (negsuc n)
unfolding parse_int strip
parse_int_nonneg s n h =
    parse_signed_absent (strip s) n
      (strip_right_absent 45 (strip_left s) (strip_left_absent 45 s h))
