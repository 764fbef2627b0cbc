-- ===== src/Webadmin/Config.antt =====
-- webadmin/api/config_manager.py: the checks of a server's configuration.
pub mod Schema
pub mod Checked
pub mod Clients
pub mod Store
mod Tests
use frp_python.Prelude.{
  leb, if◌then◌else◌, ◌==◌, is_nil, all, ℕ, String, Bool, ◌&&◌, ◌||◌, Option, none, some, List, [],
  ◌∷◌, ◌++◌, map, nat_eq, string_eq, list_eq,
}
use frp_python.Access.Ports.{PortError, not_text, leb_ℤ, entries_of, validate_allow_ports}
use frp_python.Py.Int.{ℤ, pos}
use frp_python.Py.Text.{Text, split}
use frp_python.Webadmin.Config.Schema.{get_setting, Setting, Config, null, flag, int, text}

-- The messages of the list that a check returns.
pub data ConfigError : Type 0 where
  missing : String → ConfigError
  not_integer : String → ConfigError
  out_of_range : String → ConfigError
  too_small : String → ConfigError
  not_boolean : String → ConfigError
  not_string : String → ConfigError
  bad_ports : PortError → ConfigError
  bad_address : String → Text → ConfigError
  not_list not_object bad_type : ConfigError
  repeated : String → ConfigError
  in_proxy : ℕ → ConfigError → ConfigError

-- `isinstance(v, int)`, which holds of `True` and `False` too, and the number.
unfoldable pub as_int : Setting → Option ℤ
as_int (int n) = some n
as_int (flag b) = some (if b then pos 1 else pos 0)
as_int _ = none

unfoldable pub number_in : String → ℤ → ℤ → Option ℤ → List ConfigError
number_in key low high none = not_integer key ∷ []
number_in key low high (some n) = if leb_ℤ low n && leb_ℤ n high then [] else out_of_range key ∷ []

-- `_validate_port_range`, with its bounds for ports
unfoldable pub validate_port_range : String → Setting → List ConfigError
unfolding number_in as_int
validate_port_range key null = []
validate_port_range key v = number_in key (pos 1) (pos 65535) (as_int v)

unfoldable pub number_from : String → ℤ → Option ℤ → List ConfigError
number_from key low none = too_small key ∷ []
number_from key low (some n) = if leb_ℤ low n then [] else too_small key ∷ []

-- The checks of `max_connections` and `idle_timeout`.
unfoldable pub validate_at_least : String → ℤ → Setting → List ConfigError
unfolding number_from as_int
validate_at_least key low null = []
validate_at_least key low v = number_from key low (as_int v)

-- The check of `tls`.
unfoldable pub validate_boolean : String → Setting → List ConfigError
validate_boolean key null = []
validate_boolean key (flag b) = []
validate_boolean key v = not_boolean key ∷ []

-- The check of `subdomain_host`.
unfoldable pub validate_string : String → Setting → List ConfigError
validate_string key null = []
validate_string key (text s) = []
validate_string key v = not_string key ∷ []

-- `_validate_allow_ports`
unfoldable pub validate_ports_setting : Setting → List ConfigError
validate_ports_setting null = []
validate_ports_setting (text s) = map bad_ports (validate_allow_ports s)
validate_ports_setting v = bad_ports not_text ∷ []

-- `c.isalnum() or c in ".:/"`, within ASCII
abbrev pub is_address_char : ℕ → Bool
is_address_char c =
    (leb b'0' c && leb c b'9')
    || ((leb b'a' c && leb c b'z')
        || ((leb b'A' c && leb c b'Z') || (c == b'.' || (c == b':' || c == b'/'))))

-- The first bad entry ends the loop.
unfoldable pub validate_entries : String → List Text → List ConfigError
validate_entries key [] = []
validate_entries key (part ∷ parts) =
    if all is_address_char part then validate_entries key parts else bad_address key part ∷ []

-- `_validate_ip_list`
unfoldable pub validate_ip_list : String → Setting → List ConfigError
unfolding validate_entries
validate_ip_list key null = []
validate_ip_list key (text s) =
    if is_nil s then [] else validate_entries key (entries_of (split b',' s))
validate_ip_list key v = not_string key ∷ []

unfoldable pub validate_bind_port : Setting → List ConfigError
unfolding validate_port_range
validate_bind_port null = missing "bind_port" ∷ []
validate_bind_port v = validate_port_range "bind_port" v

-- `errors`, which the checks append to in turn
unfoldable pub joined_errors : List (List ConfigError) → List ConfigError
joined_errors [] = []
joined_errors (es ∷ ess) = es ++ joined_errors ess

abbrev pub server_checks : Config → List (List ConfigError)
server_checks c =
    validate_bind_port (get_setting "bind_port" c)
    ∷ validate_at_least "max_connections" (pos 1) (get_setting "max_connections" c)
    ∷ validate_at_least "idle_timeout" (pos 10) (get_setting "idle_timeout" c)
    ∷ validate_boolean "tls" (get_setting "tls" c)
    ∷ validate_port_range "webapi_port" (get_setting "webapi_port" c)
    ∷ validate_ports_setting (get_setting "allow_ports" c)
    ∷ validate_ip_list "ip_whitelist" (get_setting "ip_whitelist" c)
    ∷ validate_ip_list "ip_blacklist" (get_setting "ip_blacklist" c)
    ∷ validate_port_range "vhost_http_port" (get_setting "vhost_http_port" c)
    ∷ validate_string "subdomain_host" (get_setting "subdomain_host" c)
    ∷ validate_port_range "forward_proxy_port" (get_setting "forward_proxy_port" c)
    ∷ []

-- `validate_server_config`
unfoldable pub validate_server_config : Config → List ConfigError
unfolding joined_errors
validate_server_config c = joined_errors (server_checks c)
