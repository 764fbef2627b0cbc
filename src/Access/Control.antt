-- ===== src/Access/Control.antt =====
-- access.py: `AccessControl`, its state, `configure` and `check_ip`.
use frp_python.Prelude.{
  if◌then◌else◌, Bool-cases, ◌≡◌, refl, ◌↔◌, ◌⊎◌, inl, inr, Bool, true, false, Option, none, some,
  List, [], ◌∷◌, arith,
}
use frp_python.Access.Networks.{Ip, Network, IpAddress, in_network, parse_ip_list}
use frp_python.Access.Ports.{Range, parse_port_ranges}
use frp_python.Py.Text.{Text}

pub record AccessControl : Type 0 where
  pub allow_ports : Option (List Range)
  pub ip_whitelist : Option (List Network)
  pub ip_blacklist : List Network

-- `AccessControl.__init__`
abbrev pub open_access : AccessControl
open_access = record { allow_ports = none; ip_whitelist = none; ip_blacklist = [] }

-- An option of the configuration that is missing, `None` or empty leaves its field alone.
abbrev pub given : Option Text → Option Text
given none = none
given (some []) = none
given (some (c ∷ s)) = some (c ∷ s)

unfoldable pub set_ports : Option Text → AccessControl → Option AccessControl
set_ports none ac = some ac
set_ports (some s) ac = elim (parse_port_ranges s) [
  | none ↦ none
  | some rs ↦ some (record ac { allow_ports = some rs })
]

-- `for network in networks: if ip in network`
unfoldable pub in_any : Ip → List Network → Bool
in_any ip [] = false
in_any ip (n ∷ ns) = if in_network ip n then true else in_any ip ns

-- The lists' verdict on an address: the blacklist comes first.
unfoldable pub check_lists : List Network → Option (List Network) → Ip → Bool
check_lists black none ip = if in_any ip black then false else true
check_lists black (some white) ip = if in_any ip black then false else in_any ip white

abbrev pub InSome : Ip → List Network → Type 0
InSome ip [] = ⊥
InSome ip (n ∷ ns) = (in_network ip n ≡ true) ⊎ InSome ip ns

in_any_iff : (ip : Ip) (ns : List Network) → (in_any ip ns ≡ true) ↔ InSome ip ns
unfolding in_any
in_any_iff ip [] = ground arith
in_any_iff ip (n ∷ ns) = ground (arith, in_any_iff ip ns)

abbrev pub InWhitelist : Ip → Option (List Network) → Type 0
InWhitelist ip none = Unit
InWhitelist ip (some ns) = InSome ip ns

check_lists_iff :
    (black : List Network) (white : Option (List Network)) (ip : Ip)
    → (check_lists black white ip ≡ true) ↔ ((¬ (InSome ip black)) × InWhitelist ip white)
unfolding check_lists
check_lists_iff black none ip = (
  (λ h. (λ listed. ground (arith, (in_any_iff ip black).1 listed), tt)),
  (λ h. elim (Bool-cases (in_any ip black)) [
    | inl listed ↦ absurd (h.0 ((in_any_iff ip black).0 listed))
    | inr free ↦ rw free
  ]),
)
check_lists_iff black (some ns) ip = (
  (λ h. (
    λ listed. ground (arith, (in_any_iff ip black).1 listed),
    elim (Bool-cases (in_any ip black)) [
      | inl listed ↦ cc (rw listed at h)
      | inr free ↦ (in_any_iff ip ns).0 (rw free at h)
    ],
  )),
  (λ h. elim (Bool-cases (in_any ip black)) [
    | inl listed ↦ absurd (h.0 ((in_any_iff ip black).0 listed))
    | inr free ↦ rw free ((in_any_iff ip ns).1 h.1)
  ]),
)

unfoldable pub check_parsed : AccessControl → Option Ip → Bool
unfolding check_lists
check_parsed ac none = false
check_parsed ac (some ip) = check_lists ac.ip_blacklist ac.ip_whitelist ip

module _ (lib : IpAddress) where
  unfoldable pub set_whitelist : Option Text → AccessControl → AccessControl
  set_whitelist none ac = ac
  set_whitelist (some s) ac = record ac { ip_whitelist = some (parse_ip_list lib s) }

  unfoldable pub set_blacklist : Option Text → AccessControl → AccessControl
  set_blacklist none ac = ac
  set_blacklist (some s) ac = record ac { ip_blacklist = parse_ip_list lib s }

  -- `AccessControl.configure`; `none` is the `ValueError` of a bad port list.
  unfoldable pub configure :
      Option Text → Option Text → Option Text → AccessControl → Option AccessControl
  unfolding set_ports set_whitelist set_blacklist
  configure ports white black ac = elim (set_ports (given ports) ac) [
    | none ↦ none
    | some ac' ↦ some (set_blacklist (given black) (set_whitelist (given white) ac'))
  ]

  -- `AccessControl.check_ip`
  unfoldable pub check_ip : AccessControl → Text → Bool
  unfolding check_parsed
  check_ip ac s = check_parsed ac (lib.ip_address s)

  -- A client passes exactly when its text is an address, in no network of the blacklist and,
  -- where there is a whitelist, an empty one included, in one of its networks.
  pub check_ip_iff :
      (ac : AccessControl) (s : Text)
      → (check_ip ac s ≡ true) ↔ (
          (ip : Ip) × (lib.ip_address s ≡ some ip)
          × (¬ (InSome ip ac.ip_blacklist))
          × InWhitelist ip ac.ip_whitelist)
  unfolding check_ip
  check_ip_iff ac s = go (lib.ip_address s)
    where
      go :
          (o : Option Ip)
          → (check_parsed ac o ≡ true) ↔ (
              (ip : Ip) × (o ≡ some ip)
              × (¬ (InSome ip ac.ip_blacklist))
              × InWhitelist ip ac.ip_whitelist)
      go none = (λ h. cc, λ h. cc (h.1))
      go (some ip) =
          let iff = check_lists_iff ac.ip_blacklist ac.ip_whitelist ip in
          (
            (λ h. (ip, refl, (iff.0 h).0, (iff.0 h).1)),
            (λ h. let same : ip ≡ h.0 = cc (h.1) in iff.1 (rw same (h.2, h.3))),
          )
