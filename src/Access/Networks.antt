-- ===== src/Access/Networks.antt =====
-- access.py: `_parse_ip_list` and `check_ip`. Reading an address or a network from its text is
-- the work of Python's `ipaddress` and a parameter; the test `ip in network` is modelled.
use native.Mathlib.Nat.{pow-suc, mod-lt, div-add-mod}
use native.Mathlib.Nat.{mod-lt, div-add-mod}
use frp_python.Prelude.{
  nat_beq, if◌then◌else◌, nat_beq_iff, is_nil, ℕ, zero, suc, ◌+◌, ◌*◌, ◌/◌, ◌^◌, ◌≤◌, ◌<◌, ◌≡◌, ◌↔◌,
  Bool, true, false, Option, none, some, List, [], ◌∷◌, arith,
}
use frp_python.Py.Text.{Text, split, strip, is_space}

-- An IPv4 or IPv6 address, as its number.
pub data Ip : Type 0 where
  v4 : ℕ → Ip
  v6 : ℕ → Ip

-- A network: the number of one of its addresses, and the number of host bits, 32 or 128 less the
-- length of the prefix.
pub data Network : Type 0 where
  net4 : ℕ → ℕ → Network
  net6 : ℕ → ℕ → Network

-- `ip in network`: the prefixes agree; addresses of the other version are in no network.
unfoldable pub in_network : Ip → Network → Bool
in_network (v4 a) (net4 base host) = nat_beq (a / 2 ^ host) (base / 2 ^ host)
in_network (v6 a) (net6 base host) = nat_beq (a / 2 ^ host) (base / 2 ^ host)
in_network ip net = false

-- `ipaddress.ip_address(s)` and `ipaddress.ip_network(s, strict=False)`; `none` is a `ValueError`.
pub record IpAddress : Type 0 where
  pub ip_address : Text → Option Ip
  pub ip_network : Text → Option Network

module _ (lib : IpAddress) where
  -- `_parse_ip_list`: blank entries are passed over, and bad ones too, with a warning. The source
  -- collects a set; no use depends on order or repetition.
  unfoldable pub parse_ip_entries : List Text → List Network
  parse_ip_entries [] = []
  parse_ip_entries (spec ∷ specs) =
      let rest = parse_ip_entries specs in
      if is_nil (strip is_space spec)
      then rest
      else elim (lib.ip_network (strip is_space spec)) [ none ↦ rest | some n ↦ n ∷ rest ]

  unfoldable pub parse_ip_list : Text → List Network
  parse_ip_list s = parse_ip_entries (split b',' s)

div_window : (a k q : ℕ) → 0 < k → (a / k ≡ q) ↔ ((q * k ≤ a) × (a < q * k + k))
div_window a k q h = (
  λ e. grind (arith, div-add-mod a k, mod-lt a h),
  λ r. grind (arith, div-add-mod a k, mod-lt a h),
)

pow_pos : (n : ℕ) → 0 < 2 ^ n
pow_pos zero = omega arith
pow_pos (suc n) = omega (arith, pow_pos n, pow-suc 2 n)

-- The number of the first address of a network, by its base and its host bits.
abbrev pub first_address : ℕ → ℕ → ℕ
first_address base host = base / 2 ^ host * 2 ^ host

-- An address is in a network of its version exactly when its number is among the 2 ^ host numbers
-- from the first address on.
in_network_iff :
    (a base host : ℕ)
    → let low = first_address base host in
      ((in_network (v4 a) (net4 base host) ≡ true) ↔ ((low ≤ a) × (a < low + 2 ^ host)))
      × ((in_network (v6 a) (net6 base host) ≡ true) ↔ ((low ≤ a) × (a < low + 2 ^ host)))
unfolding in_network
in_network_iff a base host =
    let d = div_window a (2 ^ host) (base / 2 ^ host) (pow_pos host) in
    let e = nat_beq_iff (a / 2 ^ host) (base / 2 ^ host) in
    ((λ t. d.0 (e.0 t), λ r. e.1 (d.1 r)), (λ t. d.0 (e.0 t), λ r. e.1 (d.1 r)))
