-- ===== src/Webadmin/Stored.antt =====
-- webadmin/api/routes/config.py and proxies.py: the requests that change the configuration files.
pub mod Sound
mod Tests
use frp_python.Prelude.{Option, none, some, List, [], ◌∷◌}
use frp_python.Webadmin.Config.Schema.{Config}
use frp_python.Webadmin.Config.Store.{
  ConfigType, client_type, Json, ConfigFiles, read_config, write_config, write_raw,
  save_config_validated,
}
use frp_python.Webadmin.Proxies.{ProxyRequest, handle_proxy, change_proxies}

-- `save_config`, `save_raw_config`, and the routes of proxies
pub data ConfigRequest (T : Type 0) : Type 0 where
  put_config : ConfigType → Config → ConfigRequest T
  put_raw : ConfigType → T → ConfigRequest T
  proxy_route : ProxyRequest → ConfigRequest T

module _ {T : Type 0} (json : Json T) where
  -- A route of proxies reads the file, and writes it where the list was changed.
  abbrev pub written : Option Config → ConfigFiles T → ConfigFiles T
  written none fs = fs
  written (some c) fs = write_config json client_type c fs

  abbrev pub proxies_in : ProxyRequest → Option Config → ConfigFiles T → ConfigFiles T
  proxies_in r none fs = fs
  proxies_in r (some c) fs = written (change_proxies r c) fs

  unfoldable pub handle_config : ConfigRequest T → ConfigFiles T → ConfigFiles T
  unfolding save_config_validated write_raw read_config write_config change_proxies
  handle_config (put_config t c) fs = (save_config_validated json t c fs).1
  handle_config (put_raw t x) fs = (write_raw json t x fs).1
  handle_config (proxy_route r) fs = proxies_in r (read_config json client_type fs) fs

  unfoldable pub handle_configs : List (ConfigRequest T) → ConfigFiles T → ConfigFiles T
  unfolding handle_config
  handle_configs [] fs = fs
  handle_configs (r ∷ rs) fs = handle_configs rs (handle_config r fs)
