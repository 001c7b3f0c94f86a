-- ===== src/Python/Ip.antt =====
-- The part of Python's `ipaddress` that the sources call, for IPv4; IPv6 texts are left to the two
-- functions of `Ipv6`.
use agent_vm.Base.{
  ℕ, zero, suc, ◌+◌, ◌-◌, ◌*◌, ◌/◌, ◌^◌, Bool, true, false, ◌&&◌, not, Option, none, some, List, [],
  ◌∷◌, length, any, leb, ltb, nat_beq, if◌then◌else◌, ◌≡◌, refl,
}
use agent_vm.Python.Lines.{cut}
use agent_vm.Python.Text.{Text, codes, is_digit}

pub data Address : Type 0 where
  v4 v6 : ℕ → Address

-- A network, by an address in it and the length of its prefix.
pub data Network : Type 0 where
  net4 net6 : ℕ → ℕ → Network

-- `IPv6Address(text)` and `IPv6Network(text, strict=False)`, none where they raise.
pub record Ipv6 : Type 0 where
  pub address : Text → Option ℕ
  pub network : Text → Option (ℕ × ℕ)

unfoldable pub digits_value : ℕ → Text → ℕ
digits_value n [] = n
digits_value n (c ∷ s) = digits_value (n * 10 + (c - 48)) s

-- `text.isascii() and text.isdigit()`
unfoldable pub is_decimal : Text → Bool
is_decimal [] = false
is_decimal (c ∷ s) = not (any (λ d. not (is_digit d)) (c ∷ s))

abbrev pub starts_with_zero : Text → Bool
starts_with_zero [] = false
starts_with_zero (c ∷ s) = nat_beq c 48

-- One part of a dotted quad.
unfoldable pub parse_octet : Text → Option ℕ
parse_octet s =
    if is_decimal s
      && leb (length s) 3
      && not (starts_with_zero s && ltb 1 (length s))
      && leb (digits_value 0 s) 255
    then some (digits_value 0 s)
    else none

abbrev pub quad : Option ℕ → Option ℕ → Option ℕ → Option ℕ → Option ℕ
quad (some a) (some b) (some c) (some d) = some (((a * 256 + b) * 256 + c) * 256 + d)
quad _ _ _ _ = none

abbrev pub parse_parts : List Text → Option ℕ
parse_parts (a ∷ b ∷ c ∷ d ∷ []) =
    quad (parse_octet a) (parse_octet b) (parse_octet c) (parse_octet d)
parse_parts _ = none

-- `IPv4Address(text)`
unfoldable pub parse_ipv4 : Text → Option ℕ
parse_ipv4 s = parse_parts (cut (nat_beq 46) s)

-- The prefix whose mask is the number: a netmask, or where there is none, a host mask.
unfoldable pub find_prefix : (ℕ → ℕ) → ℕ → ℕ → Option ℕ
find_prefix mask_of mask zero = if nat_beq (mask_of 0) mask then some 0 else none
find_prefix mask_of mask (suc p) =
    let rest = find_prefix mask_of mask p in
    if nat_beq (mask_of (suc p)) mask then some (suc p) else rest

abbrev pub prefix_of_mask : ℕ → Option ℕ
prefix_of_mask mask = elim (find_prefix (λ p. 2 ^ 32 - 2 ^ (32 - p)) mask 32) [
  | some p ↦ some p
  | none ↦ find_prefix (λ p. 2 ^ (32 - p) - 1) mask 32
]

abbrev pub prefix_of_address : Option ℕ → Option ℕ
prefix_of_address none = none
prefix_of_address (some mask) = prefix_of_mask mask

-- what follows the slash
unfoldable pub parse_prefix : Text → Option ℕ
parse_prefix s =
    if is_decimal s && leb (digits_value 0 s) 32
    then some (digits_value 0 s)
    else prefix_of_address (parse_ipv4 s)

abbrev pub net_of : Option ℕ → Option ℕ → Option (ℕ × ℕ)
net_of (some address) (some prefix) = some (address, prefix)
net_of _ _ = none

abbrev pub parse_net_parts : List Text → Option (ℕ × ℕ)
parse_net_parts (a ∷ []) = net_of (parse_ipv4 a) (some 32)
parse_net_parts (a ∷ p ∷ []) = net_of (parse_ipv4 a) (parse_prefix p)
parse_net_parts _ = none

-- `ipaddress.ip_address(text)`, none where it raises `ValueError`
unfoldable pub ip_address : Ipv6 → Text → Option Address
ip_address ipv6 s = elim (parse_ipv4 s) [
  | some a ↦ some (v4 a)
  | none ↦ elim (ipv6.address s) [ some a ↦ some (v6 a) | none ↦ none ]
]

-- `ipaddress.ip_network(text, strict=False)`, none where it raises `ValueError`
unfoldable pub ip_network : Ipv6 → Text → Option Network
ip_network ipv6 s = elim (parse_net_parts (cut (nat_beq 47) s)) [
  | some (a, p) ↦ some (net4 a p)
  | none ↦ elim (ipv6.network s) [ some (a, p) ↦ some (net6 a p) | none ↦ none ]
]

-- `address in network`
unfoldable pub in_network : Address → Network → Bool
in_network (v4 a) (net4 n p) = nat_beq (a / 2 ^ (32 - p)) (n / 2 ^ (32 - p))
in_network (v6 a) (net6 n p) = nat_beq (a / 2 ^ (128 - p)) (n / 2 ^ (128 - p))
in_network _ _ = false

no_ipv6 : Ipv6
no_ipv6 = record { address = λ _. none; network = λ _. none }

networks :
    (ip_network no_ipv6 (codes "10.0.0.0/24") ≡ some (net4 167772160 24))
    × (ip_network no_ipv6 (codes "10.0.0.0/255.255.255.0") ≡ some (net4 167772160 24))
    × (ip_network no_ipv6 (codes "10.0.0.0/0.0.0.255") ≡ some (net4 167772160 24))
    × (ip_network no_ipv6 (codes "10.0.0.0/33") ≡ none)
    × (ip_address no_ipv6 (codes "10.0.0.01") ≡ none)
    × (ip_address no_ipv6 (codes "10.0.0.254") ≡ some (v4 167772414))
    × (in_network (v4 167772414) (net4 167772160 24) ≡ true)
unfolding ip_network ip_address in_network parse_ipv4 parse_octet parse_prefix is_decimal
    digits_value find_prefix cut any no_ipv6
networks = (refl, refl, refl, refl, refl, refl, refl)
