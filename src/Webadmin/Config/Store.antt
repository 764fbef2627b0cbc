-- ===== src/Webadmin/Config/Store.antt =====
-- webadmin/api/config_manager.py: the configuration files. `json` is a parameter: what it reads from
-- the text of a file, what it prints, and that it reads back what it printed. A type of
-- configuration that is neither of the two raises before anything is read.
use frp_python.Prelude.{◌≡◌, Option, none, some, List, [], ◌∷◌}
use frp_python.Webadmin.Config.{ConfigError, validate_server_config}
use frp_python.Webadmin.Config.Clients.{validate_client_config}
use frp_python.Webadmin.Config.Schema.{Config, Field, server_schema, client_schema, defaults}

-- `config_type`
pub data ConfigType : Type 0 where
  server_type client_type : ConfigType

-- `json.loads`: a `JSONDecodeError`, a value that is no object, or an object.
pub data ParsedJson : Type 0 where
  not_json not_dict : ParsedJson
  parsed : Config → ParsedJson

pub record Json (T : Type 0) : Type 0 where
  pub loads : T → ParsedJson
  pub dumps : Config → T
  pub loads-dumps : (c : Config) → loads (dumps c) ≡ parsed c

-- The two files, with their text.
pub record ConfigFiles (T : Type 0) : Type 0 where
  pub frps_file : Option T
  pub frpc_file : Option T

abbrev pub file_of : {T : Type 0} → ConfigType → ConfigFiles T → Option T
file_of server_type fs = fs.frps_file
file_of client_type fs = fs.frpc_file

abbrev pub with_file : {T : Type 0} → ConfigType → T → ConfigFiles T → ConfigFiles T
with_file server_type x fs = record fs { frps_file = some x }
with_file client_type x fs = record fs { frpc_file = some x }

-- `get_schema` and `get_default_config`
abbrev pub schema_of : ConfigType → List Field
schema_of server_type = server_schema
schema_of client_type = client_schema

abbrev pub default_config : ConfigType → Config
default_config t = defaults (schema_of t)

-- `validate_config`
unfoldable pub validate_config : ConfigType → Config → Option (List ConfigError)
unfolding validate_server_config validate_client_config
validate_config server_type c = some (validate_server_config c)
validate_config client_type c = validate_client_config c

-- What a request to save is answered.
pub data Saved : Type 0 where
  was_saved : Saved
  invalid : List ConfigError → Saved
  json_error : Saved
  type_error : Saved

abbrev pub dict_of : ParsedJson → Option Config
dict_of (parsed c) = some c
dict_of p = none

module _ {T : Type 0} (json : Json T) where
  abbrev pub config_in : ConfigType → Option T → Option Config
  config_in t none = some (default_config t)
  config_in t (some x) = dict_of (json.loads x)

  -- `read_config`; `none` raises.
  unfoldable pub read_config : ConfigType → ConfigFiles T → Option Config
  read_config t fs = config_in t (file_of t fs)

  -- `write_config`
  unfoldable pub write_config : ConfigType → Config → ConfigFiles T → ConfigFiles T
  write_config t c fs = with_file t (json.dumps c) fs

  abbrev pub text_in : ConfigType → Option T → T
  text_in t none = json.dumps (default_config t)
  text_in t (some x) = x

  -- `read_raw`
  unfoldable pub read_raw : ConfigType → ConfigFiles T → T
  read_raw t fs = text_in t (file_of t fs)

  -- `if errors: return`, or the write
  abbrev pub write_checked :
      Option (List ConfigError) → ConfigFiles T → ConfigFiles T → Saved × ConfigFiles T
  write_checked none new fs = (type_error, fs)
  write_checked (some []) new fs = (was_saved, new)
  write_checked (some (e ∷ es)) new fs = (invalid (e ∷ es), fs)

  abbrev pub write_parsed : ConfigType → ParsedJson → T → ConfigFiles T → Saved × ConfigFiles T
  write_parsed t not_json x fs = (json_error, fs)
  write_parsed t not_dict x fs = (type_error, fs)
  write_parsed t (parsed c) x fs = write_checked (validate_config t c) (with_file t x fs) fs

  -- `write_raw`
  unfoldable pub write_raw : ConfigType → T → ConfigFiles T → Saved × ConfigFiles T
  unfolding validate_config
  write_raw t x fs = write_parsed t (json.loads x) x fs

  -- `save_config_validated`
  unfoldable pub save_config_validated : ConfigType → Config → ConfigFiles T → Saved × ConfigFiles T
  unfolding validate_config write_config
  save_config_validated t c fs = write_checked (validate_config t c) (write_config t c fs) fs
