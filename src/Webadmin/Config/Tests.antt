-- ===== src/Webadmin/Config/Tests.antt =====
-- webadmin/api/config_manager.py at concrete inputs.
use frp_python.Prelude.{All, lookup, ◌≡◌, refl, [], nat_eq, string_eq, list_eq}
use frp_python.Access.Ports.{leb_ℤ}
use frp_python.Webadmin.Config.{
  as_int, number_in, validate_port_range, number_from, validate_at_least, validate_boolean,
  validate_string, validate_ports_setting, validate_ip_list, validate_bind_port,
  validate_server_config, joined_errors,
}
use frp_python.Webadmin.Config.Checked.{Fits, validate_server_config-Fits}
use frp_python.Webadmin.Config.Schema.{server_schema, defaults}

-- The defaults of the server's schema pass the checks.
defaults_pass : validate_server_config (defaults server_schema) ≡ []
unfolding validate_server_config joined_errors defaults lookup validate_bind_port
    validate_port_range number_in as_int validate_at_least number_from validate_boolean
    validate_string validate_ports_setting validate_ip_list leb_ℤ
defaults_pass = refl

validate_server_config-Fits_example : All (Fits (defaults server_schema)) server_schema
validate_server_config-Fits_example =
    validate_server_config-Fits (defaults server_schema) defaults_pass
