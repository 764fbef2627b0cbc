-- ===== src/Webadmin/Config/Clients/Tests.antt =====
-- webadmin/api/config_manager.py: configurations of a client at concrete inputs.
use frp_python.Prelude.{codes, lookup, ◌≡◌, refl, some, [], ◌∷◌, nat_eq, string_eq, list_eq}
use frp_python.Access.Ports.{leb_ℤ}
use frp_python.Py.Int.{pos}
use frp_python.Webadmin.Config.{
  missing, out_of_range, repeated, in_proxy, as_int, number_in, validate_port_range, joined_errors,
}
use frp_python.Webadmin.Config.Clients.{
  set_key, is_type_of, required_port, type_checks, keyed_name, check_name, check_entry,
  then_entries, check_entries, validate_proxies, validate_server_addr, validate_client_config,
}
use frp_python.Webadmin.Config.Schema.{
  Setting, Config, float, whole_float, text, int, array, object, more, no_more, member, no_members,
  Members, find_member, is_truthy,
}

abbrev proxy : Members
proxy =
    member "name" (text (codes "ssh"))
      (member "local_port" (int (pos 22)) (member "remote_port" (int (pos 70000)) no_members))

-- The same proxy twice, with a port beyond the range, and no address.
errors_found :
    validate_client_config (
      ("server_port", int (pos 7000))
      ∷ ("proxies", array (more (object proxy) (more (object proxy) no_more)))
      ∷ [])
    ≡ some (
        missing "server_addr"
        ∷ in_proxy 0 (out_of_range "remote_port")
        ∷ in_proxy 1 (repeated "name")
        ∷ in_proxy 1 (out_of_range "remote_port")
        ∷ [])
unfolding validate_client_config validate_server_addr required_port validate_port_range number_in
    as_int leb_ℤ validate_proxies check_entries check_entry check_name keyed_name set_key is_truthy
    type_checks is_type_of joined_errors then_entries find_member lookup
errors_found = refl

-- The numbers 1 and 1.0 are one name.
abbrev numbered : Setting → Members
numbered name = member "name" name (member "type" (text (codes "stcp_visitor")) no_members)

abbrev two_numbers : Config
two_numbers =
    ("server_addr", text (codes "frp.example.org"))
    ∷ ("server_port", int (pos 7000))
    ∷ (
      "proxies",
      array (
          more (object (numbered (int (pos 1))))
            (more (object (numbered (float (whole_float (pos 1))))) no_more)),
    )
    ∷ []

one_name : validate_client_config two_numbers ≡ some (in_proxy 1 (repeated "name") ∷ [])
unfolding validate_client_config validate_server_addr required_port validate_port_range number_in
    as_int leb_ℤ validate_proxies check_entries check_entry check_name keyed_name set_key is_truthy
    type_checks is_type_of joined_errors then_entries find_member lookup
one_name = refl
