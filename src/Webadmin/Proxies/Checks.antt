-- ===== src/Webadmin/Proxies/Checks.antt =====
-- webadmin/api/routes/proxies.py: `_validate_proxy`.
use frp_python.Prelude.{
  if◌then◌else◌, ◌==◌, is_nil, codes, String, Bool, false, ◌&&◌, ◌||◌, not, Option, none, some,
  List, [], ◌∷◌, ◌++◌, nat_eq, string_eq, list_eq,
}
use frp_python.Access.Ports.{leb_ℤ}
use frp_python.Py.Int.{pos, ℤ}
use frp_python.Py.Text.{Text}
use frp_python.Webadmin.Config.{
  ConfigError, missing, not_string, not_list, bad_type, repeated, out_of_range, as_int,
  joined_errors,
}
use frp_python.Webadmin.Config.Clients.{
  valid_types, is_type_of, local_types, remote_types, visitor_types, type_setting,
}
use frp_python.Webadmin.Config.Schema.{
  Setting, null, text, array, more, no_more, Settings, Members, get_member, is_truthy,
}

-- `name in existing_names`, for a name that is a text
abbrev pub is_named : Text → Setting → Bool
is_named x (text y) = y == x
is_named x v = false

unfoldable pub name_taken : Text → List Members → Bool
name_taken x [] = false
name_taken x (p ∷ ps) = is_named x (get_member "name" p) || name_taken x ps

abbrev pub is_skipped_name : Text → Option Text → Bool
is_skipped_name x none = false
is_skipped_name x (some y) = x == y

unfoldable pub name_errors : Setting → List Members → Option Text → List ConfigError
unfolding name_taken
name_errors (text x) ps skip =
    if is_nil x
    then missing "name" ∷ []
    else if name_taken x ps && not (is_skipped_name x skip)
    then repeated "name" ∷ []
    else []
name_errors v ps skip = if is_truthy v then not_string "name" ∷ [] else missing "name" ∷ []

-- A port that has to be there, as an integer from 1 to 65535.
unfoldable pub port_range : String → Option ℤ → List ConfigError
port_range key none = out_of_range key ∷ []
port_range key (some n) =
    if leb_ℤ (pos 1) n && leb_ℤ n (pos 65535) then [] else out_of_range key ∷ []

unfoldable pub port_errors : String → Setting → List ConfigError
unfolding port_range
port_errors key null = missing key ∷ []
port_errors key v = port_range key (as_int v)

-- A text that has to be there.
unfoldable pub text_errors : String → Setting → List ConfigError
text_errors key (text x) = if is_nil x then missing key ∷ [] else []
text_errors key v = if is_truthy v then not_string key ∷ [] else missing key ∷ []

unfoldable pub domain_errors : Settings → List ConfigError
domain_errors no_more = []
domain_errors (more (text x) vs) =
    let rest = domain_errors vs in if is_nil x then not_string "custom_domains" ∷ rest else rest
domain_errors (more v vs) = not_string "custom_domains" ∷ domain_errors vs

-- The entries of a list of domains that is not empty.
unfoldable pub domains_errors : Setting → List ConfigError
unfolding domain_errors
domains_errors (array vs) = domain_errors vs
domains_errors v = if is_truthy v then not_list ∷ [] else []

abbrev pub http_errors : Members → List ConfigError
http_errors p =
    (if not (is_truthy (get_member "custom_domains" p))
        && not (is_truthy (get_member "subdomain" p))
      then missing "custom_domains" ∷ []
      else [])
    ++ domains_errors (get_member "custom_domains" p)

abbrev pub visitor_errors : Members → List ConfigError
visitor_errors p =
    text_errors "sk" (get_member "sk" p)
    ++ (text_errors "server_name" (get_member "server_name" p)
        ++ port_errors "bind_port" (get_member "bind_port" p))

-- `ptype in (...)`, and the errors of that type
abbrev pub when_type : List Text → Setting → List ConfigError → List ConfigError
when_type types ptype es = if is_type_of types ptype then es else []

abbrev pub proxy_checks : Setting → Members → List Members → Option Text → List (List ConfigError)
proxy_checks ptype p ps skip =
    name_errors (get_member "name" p) ps skip
    ∷ (if is_type_of valid_types ptype then [] else bad_type ∷ [])
    ∷ when_type local_types ptype (port_errors "local_port" (get_member "local_port" p))
    ∷ when_type remote_types ptype (port_errors "remote_port" (get_member "remote_port" p))
    ∷ when_type (codes "http" ∷ []) ptype (http_errors p)
    ∷ when_type (codes "stcp" ∷ []) ptype (text_errors "sk" (get_member "sk" p))
    ∷ when_type visitor_types ptype (visitor_errors p)
    ∷ []

-- `_validate_proxy`
unfoldable pub validate_proxy : Members → List Members → Option Text → List ConfigError
unfolding name_errors port_errors text_errors domains_errors
validate_proxy p ps skip = joined_errors (proxy_checks (type_setting p) p ps skip)
