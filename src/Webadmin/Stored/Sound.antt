-- ===== src/Webadmin/Stored/Sound.antt =====
-- webadmin/api: the configuration files through the requests.
use frp_python.Prelude.{
  All, lookup, ◌≡◌, refl, sym, ap, subst, Option, none, some, List, [], ◌∷◌, nat_eq, string_eq,
  list_eq,
}
use frp_python.Access.Ports.{leb_ℤ}
use frp_python.Webadmin.Config.{
  ConfigError, as_int, number_in, validate_port_range, number_from, validate_at_least,
  validate_boolean, validate_string, validate_ports_setting, validate_ip_list, validate_bind_port,
  joined_errors, validate_server_config,
}
use frp_python.Webadmin.Config.Clients.{
  required_port, check_entries, validate_proxies, validate_server_addr, validate_client_config,
}
use frp_python.Webadmin.Config.Schema.{Config, defaults}
use frp_python.Webadmin.Config.Store.{
  parsed, not_json, not_dict, ConfigType, client_type, server_type, Json, ParsedJson, ConfigFiles,
  with_file, validate_config, dict_of, read_config, write_config, write_checked, write_parsed,
  write_raw, save_config_validated, default_config,
}
use frp_python.Webadmin.Proxies.{change_proxies}
use frp_python.Webadmin.Proxies.Kept.{HasNoName, Passes, change_proxies-Passes}
use frp_python.Webadmin.Stored.{
  ConfigRequest, put_config, put_raw, proxy_route, written, proxies_in, handle_config,
  handle_configs,
}

-- What both files are read as passes the checks.
pub record IsSound {T : Type 0} (json : Json T) (fs : ConfigFiles T) : Type 0 where
  pub server_sound :
      (c : Config) × (read_config json server_type fs ≡ some c)
      × (validate_config server_type c ≡ some [])
  pub client_sound :
      (c : Config) × (read_config json client_type fs ≡ some c)
      × (validate_config client_type c ≡ some [])

abbrev pub IsSchemaRequest : {T : Type 0} → ConfigRequest T → Type 0
IsSchemaRequest (proxy_route r) = HasNoName r
IsSchemaRequest r = Unit

module _ {T : Type 0} (json : Json T) where
  -- A file that is written with a text that is read as a valid configuration.
  with_file-IsSound :
      (t : ConfigType) (x : T) (c : Config) (fs : ConfigFiles T)
      → json.loads x ≡ parsed c
      → validate_config t c ≡ some []
      → IsSound json fs
      → IsSound json (with_file t x fs)
  unfolding read_config
  with_file-IsSound server_type x c fs e valid h = record {
    server_sound = (c, ap dict_of e, valid);
    client_sound = h.client_sound;
  }
  with_file-IsSound client_type x c fs e valid h = record {
    server_sound = h.server_sound;
    client_sound = (c, ap dict_of e, valid);
  }

  write_checked-IsSound :
      (o : Option (List ConfigError)) (new fs : ConfigFiles T)
      → (o ≡ some [] → IsSound json new)
      → IsSound json fs
      → IsSound json (write_checked json o new fs).1
  write_checked-IsSound none new fs k h = h
  write_checked-IsSound (some []) new fs k h = k refl
  write_checked-IsSound (some (e ∷ es)) new fs k h = h

  write_parsed-IsSound :
      (t : ConfigType) (p : ParsedJson) (x : T) (fs : ConfigFiles T)
      → json.loads x ≡ p
      → IsSound json fs
      → IsSound json (write_parsed json t p x fs).1
  write_parsed-IsSound t not_json x fs e h = h
  write_parsed-IsSound t not_dict x fs e h = h
  write_parsed-IsSound t (parsed c) x fs e h =
      write_checked-IsSound (validate_config t c) (with_file t x fs) fs
        (λ valid. with_file-IsSound t x c fs e valid h) h

  written-IsSound :
      (o : Option Config) (fs : ConfigFiles T)
      → Passes o
      → IsSound json fs
      → IsSound json (written json o fs)
  unfolding write_config validate_config
  written-IsSound none fs p h = h
  written-IsSound (some c) fs p h =
      with_file-IsSound client_type (json.dumps c) c fs (json.loads-dumps c) p h

  handle_config-IsSound :
      (r : ConfigRequest T) (fs : ConfigFiles T)
      → IsSchemaRequest r
      → IsSound json fs
      → IsSound json (handle_config json r fs)
  unfolding handle_config save_config_validated write_raw write_config validate_config
  handle_config-IsSound (put_config t c) fs s h =
      write_checked-IsSound (validate_config t c) (write_config json t c fs) fs
        (λ valid. with_file-IsSound t (json.dumps c) c fs (json.loads-dumps c) valid h) h
  handle_config-IsSound (put_raw t x) fs s h = write_parsed-IsSound t (json.loads x) x fs refl h
  handle_config-IsSound (proxy_route r) fs s h =
      let (c, e, valid) = h.client_sound in
      subst (λ o. IsSound json (proxies_in json r o fs)) (sym e)
        (written-IsSound (change_proxies r c) fs (change_proxies-Passes r c s valid) h)

server_defaults : validate_server_config (default_config server_type) ≡ []
unfolding validate_server_config joined_errors defaults lookup validate_bind_port
    validate_port_range number_in as_int validate_at_least number_from validate_boolean
    validate_string validate_ports_setting validate_ip_list leb_ℤ
server_defaults = refl

client_defaults : validate_client_config (default_config client_type) ≡ some []
unfolding validate_client_config validate_server_addr required_port validate_port_range number_in
    as_int leb_ℤ validate_proxies check_entries defaults lookup
client_defaults = refl

-- Without files, the defaults of both schemas are read.
empty-IsSound :
    {T : Type 0} (json : Json T) → IsSound json (record { frps_file = none; frpc_file = none })
unfolding read_config validate_config
empty-IsSound json = record {
  server_sound = (default_config server_type, refl, ap some server_defaults);
  client_sound = (default_config client_type, refl, client_defaults);
}

handle_configs-IsSound_lem :
    {T : Type 0} (json : Json T) (rs : List (ConfigRequest T)) (fs : ConfigFiles T)
    → All IsSchemaRequest rs
    → IsSound json fs
    → IsSound json (handle_configs json rs fs)
unfolding handle_configs
handle_configs-IsSound_lem json [] fs s h = h
handle_configs-IsSound_lem json (r ∷ rs) fs s h =
    handle_configs-IsSound_lem json rs (handle_config json r fs) s.1
      (handle_config-IsSound json r fs s.0 h)

-- From no configuration files, after any requests that save configurations, as objects or as
-- text, or change proxies, in any order, let in or refused, both files are read as configurations
-- that pass their checks.
pub handle_configs-IsSound :
    {T : Type 0} (json : Json T) (rs : List (ConfigRequest T))
    → All IsSchemaRequest rs
    → IsSound json (handle_configs json rs (record { frps_file = none; frpc_file = none }))
handle_configs-IsSound json rs s =
    handle_configs-IsSound_lem json rs (record { frps_file = none; frpc_file = none }) s
      (empty-IsSound json)
