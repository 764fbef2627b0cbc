-- ===== src/Webadmin/Config/Schema.antt =====
-- webadmin/api/config_manager.py: the schemas, without descriptions, the options of a selection and
-- the shape of a proxy's entry; `get_schema` and `get_default_config`.
use frp_python.Prelude.{
  nat_beq, if◌then◌else◌, ◌==◌, is_nil, codes, Dict, lookup, String, Bool, true, false, not, Option,
  none, some, List, [], ◌∷◌, nat_eq, string_eq, list_eq,
}
use frp_python.Py.Int.{negsuc, ℤ, pos}
use frp_python.Py.Text.{Text}

-- A float: the integer that it is equal to, or its `repr` where it is equal to none. JSON has no
-- float that is not a number.
pub data Float : Type 0 where
  whole_float : ℤ → Float
  other_float : Text → Float

-- A value of a configuration file.
mutual
  pub data Setting : Type 0 where
    null : Setting
    flag : Bool → Setting
    int : ℤ → Setting
    float : Float → Setting
    text : Text → Setting
    array : Settings → Setting
    object : Members → Setting

  pub data Settings : Type 0 where
    more : Setting → Settings → Settings
    no_more : Settings

  pub data Members : Type 0 where
    member : String → Setting → Members → Members
    no_members : Members

abbrev pub Config : Type 0
Config = Dict String Setting

abbrev pub or_null : Option Setting → Setting
or_null none = null
or_null (some v) = v

-- `config.get(key)`
abbrev pub get_setting : String → Config → Setting
get_setting key c = or_null (lookup key c)

pub data FieldType : Type 0 where
  number string select boolean list_of : FieldType

pub record Field : Type 0 where
  pub key : String
  pub type : FieldType
  pub default : Setting
  pub required : Bool
  pub nullable : Bool
  pub min : Option ℤ
  pub max : Option ℤ

abbrev field : String → FieldType → Setting → Bool → Bool → Option ℤ → Option ℤ → Field
field key type default required nullable min max = record {
  key = key;
  type = type;
  default = default;
  required = required;
  nullable = nullable;
  min = min;
  max = max;
}

-- `SERVER_SCHEMA`
abbrev pub server_schema : List Field
server_schema =
    field "bind_port" number (int (pos 7000)) true false (some (pos 1)) (some (pos 65535))
    ∷ field "bind_addr" string (text (codes "0.0.0.0")) false false none none
    ∷ field "log_level" select (text (codes "info")) false false none none
    ∷ field "log_file" string (null) false true none none
    ∷ field "auth_token" string (null) false true none none
    ∷ field "max_connections" number (int (pos 1000)) false false (some (pos 1)) none
    ∷ field "idle_timeout" number (int (pos 300)) false false (some (pos 10)) none
    ∷ field "tls" boolean (flag false) false false none none
    ∷ field "tls_cert_file" string (null) false true none none
    ∷ field "tls_key_file" string (null) false true none none
    ∷ field "webapi_port" number (null) false true (some (pos 1)) (some (pos 65535))
    ∷ field "webapi_addr" string (text (codes "0.0.0.0")) false false none none
    ∷ field "allow_ports" string (null) false true none none
    ∷ field "ip_whitelist" string (null) false true none none
    ∷ field "ip_blacklist" string (null) false true none none
    ∷ field "vhost_http_port" number (null) false true (some (pos 1)) (some (pos 65535))
    ∷ field "subdomain_host" string (null) false true none none
    ∷ field "forward_proxy_port" number (null) false true (some (pos 1)) (some (pos 65535))
    ∷ field "forward_proxy_user" string (null) false true none none
    ∷ field "forward_proxy_pass" string (null) false true none none
    ∷ []

-- `CLIENT_SCHEMA`
abbrev pub client_schema : List Field
client_schema =
    field "server_addr" string (text (codes "127.0.0.1")) true false none none
    ∷ field "server_port" number (int (pos 7000)) true false (some (pos 1)) (some (pos 65535))
    ∷ field "log_level" select (text (codes "info")) false false none none
    ∷ field "log_file" string (null) false true none none
    ∷ field "auth_token" string (null) false true none none
    ∷ field "reconnect" boolean (flag true) false false none none
    ∷ field "reconnect_max_retries" number (int (pos 0)) false false (some (pos 0)) none
    ∷ field "reconnect_base_delay" number (int (pos 1)) false false (some (pos 0)) none
    ∷ field "reconnect_max_delay" number (int (pos 60)) false false (some (pos 1)) none
    ∷ field "tls" boolean (flag false) false false none none
    ∷ field "tls_insecure" boolean (flag false) false false none none
    ∷ field "tls_ca_file" string (null) false true none none
    ∷ field "proxies" list_of (array no_more) false false none none
    ∷ []

-- `get_default_config`, of a schema
unfoldable pub defaults : List Field → Config
defaults [] = []
defaults (f ∷ fs) = (f.key, f.default) ∷ defaults fs

-- `proxy.get(key)` of an object
unfoldable pub find_member : String → Members → Option Setting
find_member key no_members = none
find_member key (member k v ms) = if k == key then some v else find_member key ms

abbrev pub get_member : String → Members → Setting
get_member key ms = or_null (find_member key ms)

abbrev pub or_default : Setting → Option Setting → Setting
or_default d none = d
or_default d (some v) = v

-- `bool(v)`
unfoldable pub is_truthy : Setting → Bool
is_truthy null = false
is_truthy (flag b) = b
is_truthy (int (pos n)) = not (nat_beq n 0)
is_truthy (int (negsuc n)) = true
is_truthy (float (whole_float (pos n))) = not (nat_beq n 0)
is_truthy (float x) = true
is_truthy (text x) = not (is_nil x)
is_truthy (array no_more) = false
is_truthy (array (more v vs)) = true
is_truthy (object no_members) = false
is_truthy (object (member k v ms)) = true
