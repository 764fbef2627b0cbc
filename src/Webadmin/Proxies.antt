-- ===== src/Webadmin/Proxies.antt =====
-- webadmin/api/routes/proxies.py: the list of proxies in the client's configuration, and the routes
-- that change it. A proxy is an object; of a list with an entry that is none, only the loading is
-- modelled, which raises.
pub mod Checks
pub mod Valid
pub mod Keyed
pub mod Changes
pub mod Kept
mod Tests
use frp_python.Prelude.{
  nat_beq, if◌then◌else◌, ◌==◌, is_some, length, insert, String, Bool, true, false, not, Option,
  none, some, List, [], ◌∷◌, ◌++◌, nat_eq, string_eq, list_eq,
}
use frp_python.Access.Ports.{leb_ℤ}
use frp_python.Py.Int.{pos, ℤ}
use frp_python.Py.Text.{Text}
use frp_python.Webadmin.Config.{
  ConfigError, missing, not_string, not_list, bad_type, repeated, out_of_range, as_int,
  joined_errors,
}
use frp_python.Webadmin.Config.Clients.{
  valid_types, is_type_of, local_types, remote_types, visitor_types, type_setting, mapped,
}
use frp_python.Webadmin.Config.Schema.{
  Setting, null, flag, text, array, object, more, no_more, member, no_members, Settings, Members,
  Config, find_member, get_member, or_default, is_truthy, get_setting,
}
use frp_python.Webadmin.Proxies.Checks.{is_named, validate_proxy}

-- `_load_proxies`, from the file's configuration; `none` is the `AttributeError` of an entry that
-- is no object.
unfoldable pub objects_of : Settings → Option (List Members)
objects_of no_more = some []
objects_of (more (object p) vs) = mapped (λ ps. p ∷ ps) (objects_of vs)
objects_of (more v vs) = none

unfoldable pub load_proxies : Setting → Option (List Members)
unfolding objects_of
load_proxies (array vs) = objects_of vs
load_proxies v = some []

-- `config["proxies"] = proxies`
unfoldable pub to_settings : List Members → Settings
to_settings [] = no_more
to_settings (p ∷ ps) = more (object p) (to_settings ps)

unfoldable pub save_proxies : List Members → Config → Config
unfolding to_settings
save_proxies ps c = insert "proxies" (array (to_settings ps)) c

-- `d[key] = v`
unfoldable pub set_member : String → Setting → Members → Members
set_member key v no_members = member key v no_members
set_member key v (member k u ms) =
    let rest = set_member key v ms in if k == key then member k v ms else member k u rest

-- `{**p, **update}`
unfoldable pub merge : Members → Members → Members
unfolding set_member
merge p no_members = p
merge p (member k v update) = merge (set_member k v p) update

-- What a route answers: the refusal, or the new list.
pub data Changed : Type 0 where
  refused : List ConfigError → Changed
  not_there : Changed
  changed : List Members → Changed

abbrev pub if_valid : List ConfigError → List Members → Changed
if_valid [] ps = changed ps
if_valid (e ∷ es) ps = refused (e ∷ es)

-- `get_proxy`
unfoldable pub get_proxy : Text → List Members → Option Members
get_proxy x [] = none
get_proxy x (p ∷ ps) = if is_named x (get_member "name" p) then some p else get_proxy x ps

-- `create_proxy`
unfoldable pub create_proxy : Members → List Members → Changed
unfolding validate_proxy
create_proxy p ps = if_valid (validate_proxy p ps none) (ps ++ p ∷ [])

-- `proxies[idx] = f(proxies[idx])`, at the first proxy of that name
unfoldable pub change_first : Text → (Members → Members) → List Members → List Members
change_first x f [] = []
change_first x f (p ∷ ps) =
    let rest = change_first x f ps in
    if is_named x (get_member "name" p) then f p ∷ ps else p ∷ rest

abbrev pub updated : Text → Members → List Members → Option Members → Changed
updated x update ps none = not_there
updated x update ps (some old) =
    if_valid (validate_proxy (merge old update) ps (some x))
      (change_first x (λ p. merge p update) ps)

-- `update_proxy`
unfoldable pub update_proxy : Text → Members → List Members → Changed
unfolding get_proxy change_first merge
update_proxy x update ps = updated x update ps (get_proxy x ps)

unfoldable pub without_name : Text → List Members → List Members
without_name x [] = []
without_name x (p ∷ ps) =
    let rest = without_name x ps in if is_named x (get_member "name" p) then rest else p ∷ rest

-- `delete_proxy`
unfoldable pub delete_proxy : Text → List Members → Changed
unfolding without_name
delete_proxy x ps =
    let left = without_name x ps in
    if nat_beq (length left) (length ps) then not_there else changed left

-- `not p.get("enabled", True)`
abbrev pub toggled : Members → Members
toggled p =
    set_member "enabled" (flag (not (is_truthy (or_default (flag true) (find_member "enabled" p)))))
      p

abbrev pub if_there : Bool → List Members → Changed
if_there false ps = not_there
if_there true ps = changed ps

-- `toggle_proxy`
unfoldable pub toggle_proxy : Text → List Members → Changed
unfolding get_proxy change_first set_member
toggle_proxy x ps = if_there (is_some (get_proxy x ps)) (change_first x toggled ps)

-- A request of the router that changes the list.
pub data ProxyRequest : Type 0 where
  create_request : Members → ProxyRequest
  update_request : Text → Members → ProxyRequest
  delete_request toggle_request : Text → ProxyRequest

unfoldable pub serve_proxy : ProxyRequest → List Members → Changed
unfolding create_proxy update_proxy delete_proxy toggle_proxy
serve_proxy (create_request p) ps = create_proxy p ps
serve_proxy (update_request x update) ps = update_proxy x update ps
serve_proxy (delete_request x) ps = delete_proxy x ps
serve_proxy (toggle_request x) ps = toggle_proxy x ps

-- What is saved: a refusal saves nothing.
abbrev pub saved_list : Config → Changed → Option Config
saved_list c (changed ps) = some (save_proxies ps c)
saved_list c r = none

abbrev pub loaded : Config → ProxyRequest → Option (List Members) → Option Config
loaded c r none = none
loaded c r (some ps) = saved_list c (serve_proxy r ps)

-- The configuration that a request writes, where it writes one.
unfoldable pub change_proxies : ProxyRequest → Config → Option Config
unfolding serve_proxy save_proxies load_proxies
change_proxies r c = loaded c r (load_proxies (get_setting "proxies" c))

abbrev pub or_old : Config → Option Config → Config
or_old c none = c
or_old c (some c') = c'

-- A request to the configuration of the client, and requests in turn.
unfoldable pub handle_proxy : ProxyRequest → Config → Config
unfolding change_proxies
handle_proxy r c = or_old c (change_proxies r c)

unfoldable pub handle_proxies : List ProxyRequest → Config → Config
unfolding handle_proxy
handle_proxies [] c = c
handle_proxies (r ∷ rs) c = handle_proxies rs (handle_proxy r c)
