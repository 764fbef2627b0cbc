-- ===== src/Webadmin/Proxies/Tests.antt =====
-- webadmin/api/routes/proxies.py at concrete inputs.
use frp_python.Prelude.{
  codes, All, lookup, insert, ◌≡◌, refl, false, some, List, [], ◌∷◌, nat_eq, string_eq, list_eq,
}
use frp_python.Access.Ports.{leb_ℤ}
use frp_python.Py.Int.{pos}
use frp_python.Webadmin.Config.{as_int, number_in, validate_port_range, joined_errors}
use frp_python.Webadmin.Config.Clients.{
  set_key, is_type_of, required_port, type_checks, keyed_name, check_name, check_entry,
  then_entries, check_entries, validate_proxies, validate_server_addr, validate_client_config,
}
use frp_python.Webadmin.Config.Schema.{
  text, int, flag, array, object, more, no_more, member, no_members, Members, Config, find_member,
  is_truthy,
}
use frp_python.Webadmin.Proxies.{
  ProxyRequest, create_request, update_request, delete_request, toggle_request, objects_of,
  load_proxies, to_settings, save_proxies, set_member, merge, get_proxy, create_proxy, change_first,
  update_proxy, without_name, delete_proxy, toggle_proxy, serve_proxy, handle_proxy, handle_proxies,
  change_proxies,
}
use frp_python.Webadmin.Proxies.Checks.{
  name_taken, name_errors, port_range, port_errors, text_errors, domains_errors, validate_proxy,
}
use frp_python.Webadmin.Proxies.Kept.{HasNoName, handle_proxies-valid}

abbrev ssh : Members
ssh = member "name" (text (codes "ssh")) (
    member "type" (text (codes "tcp"))
      (member "local_port" (int (pos 22)) (member "remote_port" (int (pos 8022)) no_members)))

abbrev web : Members
web = member "name" (text (codes "web")) (
    member "type" (text (codes "http"))
      (member "local_port" (int (pos 80)) (member "subdomain" (text (codes "www")) no_members)))

abbrev client_config : Config
client_config =
    ("server_addr", text (codes "127.0.0.1"))
    ∷ ("server_port", int (pos 7000))
    ∷ ("proxies", array (more (object ssh) no_more))
    ∷ []

client_config_passes : validate_client_config client_config ≡ some []
unfolding validate_client_config validate_server_addr required_port validate_port_range number_in
    as_int leb_ℤ validate_proxies check_entries check_entry check_name keyed_name set_key is_truthy
    type_checks is_type_of joined_errors then_entries find_member lookup
client_config_passes = refl

abbrev requests : List ProxyRequest
requests =
    create_request web
    ∷ create_request ssh
    ∷ update_request (codes "ssh") (member "remote_port" (int (pos 70000)) no_members)
    ∷ toggle_request (codes "web")
    ∷ delete_request (codes "ssh")
    ∷ []

requests-HasNoName : All HasNoName requests
unfolding find_member
requests-HasNoName = (tt, (tt, (refl, (tt, (tt, tt)))))

handle_proxies-valid_example :
    validate_client_config (handle_proxies requests client_config) ≡ some []
handle_proxies-valid_example =
    handle_proxies-valid requests client_config requests-HasNoName client_config_passes

-- Two of the requests are refused; one proxy is left, and it is off.
left_over :
    handle_proxies requests client_config
    ≡ ("server_addr", text (codes "127.0.0.1"))
      ∷ ("server_port", int (pos 7000))
      ∷ ("proxies", array (more (object (set_member "enabled" (flag false) web)) no_more))
      ∷ []
unfolding handle_proxies handle_proxy change_proxies serve_proxy create_proxy update_proxy
    delete_proxy toggle_proxy validate_proxy joined_errors get_proxy change_first without_name
    save_proxies load_proxies objects_of to_settings merge set_member find_member lookup insert
    is_truthy name_errors name_taken port_errors port_range as_int leb_ℤ text_errors domains_errors
    is_type_of
left_over = refl
