-- ===== src/Bridge/Mac.antt =====
-- `_generate_mac` of src/agentvm/net/bridge.py; the random octets are arguments.
use Prim.Native.Nat.{bit_and, bit_or}
use agent_vm.Base.{
  ℕ, zero, suc, ◌+◌, ◌/◌, ◌%◌, ◌<◌, Bool, true, false, ◌&&◌, List, [], ◌∷◌, map, ltb, nat_beq,
  if◌then◌else◌, ◌≡◌, refl, arith,
}
use agent_vm.Python.Text.{Text, codes, join}

-- one digit of f"{value:x}"
unfoldable pub hex_digit : ℕ → ℕ
hex_digit d = if ltb d 10 then 48 + d else 87 + d

-- f"{value:02x}", for an octet
unfoldable pub hex_octet : ℕ → Text
unfolding hex_digit
hex_octet value = hex_digit (value / 16) ∷ hex_digit (value % 16) ∷ []

unfoldable pub local_octet : ℕ → ℕ
local_octet first_octet = bit_and (bit_or first_octet 0x02) 0xFE

-- the first random octet, and the five that remain
unfoldable pub generate_mac : ℕ → List ℕ → Text
unfolding local_octet hex_octet join
generate_mac first_octet remaining =
    join (codes ":") (map hex_octet (local_octet first_octet ∷ remaining))

-- The test of every number below a bound.
tests : (ℕ → Bool) → ℕ → Bool
tests test zero = true
tests test (suc bound) = if test bound then tests test bound else false

tests_sound :
    (test : ℕ → Bool) {x : ℕ} (bound : ℕ) → x < bound → tests test bound ≡ true → test x ≡ true
unfolding tests
tests_sound test zero below passed = absurd (omega arith)
tests_sound test {x} (suc bound) below passed = ground (arith, tests_sound test {x = x} bound)

abbrev good_octet : ℕ → Bool
good_octet o = ltb o 256 && nat_beq (o % 2) 0 && nat_beq (o / 2 % 2) 1

table : tests (λ r. good_octet (local_octet r)) 256 ≡ true
unfolding tests local_octet
table = refl

-- Of any random octet, the first octet of the generated address is an octet with the group bit clear
-- and the local bit set: the address is unicast and locally administered.
pub local_octet_bits :
    (r : ℕ)
    → r < 256
    → (local_octet r < 256) × (local_octet r % 2 ≡ 0) × (local_octet r / 2 % 2 ≡ 1)
local_octet_bits r h =
    let good = tests_sound (λ x. good_octet (local_octet x)) 256 h table in ground arith

generated : generate_mac 0 (1 ∷ 2 ∷ 255 ∷ 16 ∷ 171 ∷ []) ≡ codes "02:01:02:ff:10:ab"
unfolding generate_mac
generated = refl
