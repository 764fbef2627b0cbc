-- ===== src/Access/Tests.antt =====
-- access.py at concrete inputs. Two addresses and one network stand for Python's `ipaddress`.
use frp_python.Prelude.{codes, ◌≡◌, refl, ◌↔◌, true, none, some, [], ◌∷◌}
use frp_python.Access.Control.{AccessControl, InSome, InWhitelist, check_ip, check_ip_iff}
use frp_python.Access.Networks.{Ip, IpAddress, v4, net4}
use frp_python.Access.Ports.{
  leb_ℤ, check_port, Covers, entries_of, validate_part, validate_parts, validate_allow_ports,
  check_port_iff,
}
use frp_python.Py.Int.{pos, digit_value, digit_step, digits_from, signed, parse_int, digits}
use frp_python.Py.Text.{Text, lstrip, rstrip, strip, split_onto, split}

abbrev web : Text
web = codes "80, 9000-9100"

abbrev trailing : Text
trailing = codes "8080,"

-- A list with a blank entry at its end passes the check of the web administration.
trailing_accepted : validate_allow_ports trailing ≡ []
unfolding validate_allow_ports validate_parts entries_of validate_part split split_onto strip lstrip
    rstrip parse_int signed digits_from digit_step digit_value digits leb_ℤ
trailing_accepted = refl

check_port_iff_example :
    (check_port (some ((pos 1, pos 1023) ∷ [])) (pos 80) ≡ true)
    ↔ Covers (pos 80) ((pos 1, pos 1023) ∷ [])
check_port_iff_example = check_port_iff (pos 1, pos 1023) [] (pos 80)

abbrev local : IpAddress
local = record { ip_address = λ s. some (v4 7); ip_network = λ s. none }

abbrev closed : AccessControl
closed = record { allow_ports = none; ip_whitelist = some (net4 0 2 ∷ []); ip_blacklist = [] }

check_ip_iff_example : (check_ip local closed (codes "0.0.0.7") ≡ true) ↔ (
    (ip : Ip) × (some (v4 7) ≡ some ip)
    × (¬ (InSome ip []))
    × InWhitelist ip (some (net4 0 2 ∷ [])))
check_ip_iff_example = check_ip_iff local closed (codes "0.0.0.7")
