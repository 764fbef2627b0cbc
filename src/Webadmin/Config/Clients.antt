-- ===== src/Webadmin/Config/Clients.antt =====
-- webadmin/api/config_manager.py: `validate_client_config`.
pub mod Fitting
pub mod Passing
pub mod Equal
pub mod Distinct
mod Tests
use frp_python.Prelude.{
  if◌then◌else◌, is_nil, codes, elem, lookup, ℕ, suc, String, Bool, false, Option, none, some, List,
  [], ◌∷◌, ◌++◌, map, nat_eq, string_eq, list_eq,
}
use frp_python.Py.Int.{pos, negsuc}
use frp_python.Py.Text.{Text}
use frp_python.Webadmin.Config.{
  ConfigError, missing, not_string, not_list, not_object, bad_type, repeated, in_proxy,
  validate_port_range, joined_errors,
}
use frp_python.Webadmin.Config.Schema.{
  whole_float, other_float, Setting, null, flag, int, float, text, array, object, more, no_more,
  Settings, Members, Config, get_setting, find_member, get_member, or_default, is_truthy,
}

-- What the set of names compares: texts by their characters, and integers, Booleans and floats by
-- their value, where a float that no integer is equal to has its `repr`; a list or an object cannot be in a set, which raises `TypeError`.
unfoldable pub set_key : Setting → Option (List ℕ)
set_key null = some []
set_key (text x) = some (0 ∷ x)
set_key (int (pos n)) = some (1 ∷ n ∷ [])
set_key (flag b) = some (1 ∷ (if b then 1 else 0) ∷ [])
set_key (int (negsuc n)) = some (2 ∷ n ∷ [])
set_key (float (whole_float (pos n))) = some (1 ∷ n ∷ [])
set_key (float (whole_float (negsuc n))) = some (2 ∷ n ∷ [])
set_key (float (other_float x)) = some (3 ∷ x)
set_key v = none

abbrev pub valid_types : List Text
valid_types = map codes ("tcp" ∷ "udp" ∷ "http" ∷ "https" ∷ "ftp" ∷ "stcp" ∷ "stcp_visitor" ∷ [])

-- `v in types`
unfoldable pub is_type_of : List Text → Setting → Bool
is_type_of types (text x) = elem x types
is_type_of types v = false

abbrev pub local_types : List Text
local_types = map codes ("tcp" ∷ "udp" ∷ "http" ∷ "stcp" ∷ [])

abbrev pub remote_types : List Text
remote_types = map codes ("tcp" ∷ "udp" ∷ [])

abbrev pub visitor_types : List Text
visitor_types = codes "stcp_visitor" ∷ []

-- `proxy.get("type", "tcp")`
abbrev pub type_setting : Members → Setting
type_setting p = or_default (text (codes "tcp")) (find_member "type" p)

-- A port that has to be there.
unfoldable pub required_port : String → Setting → List ConfigError
required_port key null = missing key ∷ []
required_port key v = validate_port_range key v

-- The checks of one proxy but for its name.
unfoldable pub type_checks : Setting → Members → List (List ConfigError)
type_checks ptype p =
    (if is_type_of valid_types ptype then [] else bad_type ∷ [])
    ∷ (if is_type_of local_types ptype
        then required_port "local_port" (get_member "local_port" p)
        else [])
    ∷ (if is_type_of remote_types ptype
        then required_port "remote_port" (get_member "remote_port" p)
        else [])
    ∷ (if is_type_of visitor_types ptype
        then validate_port_range "bind_port" (get_member "bind_port" p)
        else [])
    ∷ []

-- The names so far and the errors; `none` is a `TypeError`.
abbrev pub Checked : Type 0
Checked = Option (List (List ℕ) × List ConfigError)

abbrev pub mapped : {A B : Type 0} → (A → B) → Option A → Option B
mapped f none = none
mapped f (some a) = some (f a)

unfoldable pub keyed_name : Option (List ℕ) → List (List ℕ) → Checked
keyed_name none names = none
keyed_name (some k) names =
    some (if elem k names then (names, repeated "name" ∷ []) else (k ∷ names, []))

unfoldable pub check_name : Setting → List (List ℕ) → Checked
unfolding keyed_name
check_name v names =
    if is_truthy v then keyed_name (set_key v) names else some (names, missing "name" ∷ [])

-- One entry of the array.
unfoldable pub check_entry : Setting → List (List ℕ) → Checked
unfolding check_name type_checks joined_errors
check_entry (object p) names =
    mapped (λ r. (r.0, r.1 ++ joined_errors (type_checks (type_setting p) p)))
      (check_name (get_member "name" p) names)
check_entry v names = some (names, not_object ∷ [])

unfoldable pub then_entries :
    ℕ → Option (List ConfigError) → List ConfigError → Option (List ConfigError)
then_entries idx none es = none
then_entries idx (some later) es = some (map (in_proxy idx) es ++ later)

-- `for idx, proxy in enumerate(proxies)`
unfoldable pub check_entries : ℕ → Settings → List (List ℕ) → Option (List ConfigError)
unfolding check_entry then_entries
check_entries idx no_more names = some []
check_entries idx (more v vs) names = elim (check_entry v names) [
  | none ↦ none
  | some (names', es) ↦ then_entries idx (check_entries (suc idx) vs names') es
]

-- The check of `proxies`; without the key there is nothing to check.
unfoldable pub validate_proxies : Option Setting → Option (List ConfigError)
unfolding check_entries
validate_proxies none = some []
validate_proxies (some null) = some []
validate_proxies (some (array vs)) = check_entries 0 vs []
validate_proxies (some v) = some (not_list ∷ [])

-- The check of `server_addr`.
unfoldable pub validate_server_addr : Setting → List ConfigError
validate_server_addr (text x) = if is_nil x then missing "server_addr" ∷ [] else []
validate_server_addr v =
    if is_truthy v then not_string "server_addr" ∷ [] else missing "server_addr" ∷ []

-- `validate_client_config`
unfoldable pub validate_client_config : Config → Option (List ConfigError)
unfolding validate_server_addr required_port validate_proxies
validate_client_config c =
    mapped
      (λ es.
        validate_server_addr (get_setting "server_addr" c)
        ++ (required_port "server_port" (get_setting "server_port" c) ++ es))
      (validate_proxies (lookup "proxies" c))
