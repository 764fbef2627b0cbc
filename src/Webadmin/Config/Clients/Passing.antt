-- ===== src/Webadmin/Config/Clients/Passing.antt =====
-- webadmin/api/config_manager.py: the configurations of a client that pass the check.
use frp_python.Prelude.{
  if◌then◌else◌, lookup, ℕ, suc, String, ◌≡◌, refl, ◌↔◌, ◌⊎◌, inl, inr, Bool, true, false, Option,
  none, some, List, [], ◌∷◌, arith, nat_eq, string_eq, list_eq,
}
use frp_python.Py.Int.{pos}
use frp_python.Webadmin.Config.{as_int, number_in, validate_port_range, joined_errors}
use frp_python.Webadmin.Config.Checked.{InPorts}
use frp_python.Webadmin.Config.Clients.{
  check_entry, is_type_of, local_types, remote_types, visitor_types, type_setting, required_port,
  type_checks, keyed_name, check_name, then_entries, check_entries, validate_proxies,
  validate_server_addr, validate_client_config,
}
use frp_python.Webadmin.Config.Clients.Fitting.{
  Needed, IfSet, IsProxy, IsEntry, AreProxies, FitsProxies, IsAddress,
  validate_client_config-FitsProxies,
}
use frp_python.Webadmin.Config.Schema.{
  Setting, null, more, no_more, Settings, Members, Config, get_setting, get_member,
}

number_in-passes :
    (key : String) (v : Setting) → InPorts v → number_in key (pos 1) (pos 65535) (as_int v) ≡ []
unfolding number_in
number_in-passes key v (n, here, low, high) = rw here (rw low (rw high refl))

port_range-passes : (key : String) (v : Setting) → InPorts v → validate_port_range key v ≡ []
unfolding validate_port_range
port_range-passes key null h = refl
port_range-passes key v h = number_in-passes key v h

required_port-passes : (key : String) (v : Setting) → InPorts v → required_port key v ≡ []
unfolding required_port as_int
required_port-passes key null h = cc (h.1)
required_port-passes key v h = port_range-passes key v h

if_set-passes :
    (key : String) (v : Setting) → (v ≡ null) ⊎ InPorts v → validate_port_range key v ≡ []
unfolding validate_port_range
if_set-passes key v (inl unset) = rw unset refl
if_set-passes key v (inr h) = port_range-passes key v h

needed :
    (b : Bool) (key : String) (v : Setting)
    → Needed b v
    → (if b then required_port key v else []) ≡ []
needed true key v h = required_port-passes key v h
needed false key v h = refl

if_set :
    (b : Bool) (key : String) (v : Setting)
    → IfSet b v
    → (if b then validate_port_range key v else []) ≡ []
if_set true key v h = if_set-passes key v h
if_set false key v h = refl

joined-passes : (p : Members) → IsProxy p → joined_errors (type_checks (type_setting p) p) ≡ []
unfolding joined_errors type_checks
joined-passes p h =
    let t = type_setting p in
    rw h.type_valid (
      rw (needed (is_type_of local_types t) "local_port" (get_member "local_port" p) h.local_port) (
        rw
          (needed (is_type_of remote_types t) "remote_port" (get_member "remote_port" p)
            h.remote_port)
          (rw
            (if_set (is_type_of visitor_types t) "bind_port" (get_member "bind_port" p) h.bind_port)
            refl)))

check_entry-passes :
    (v : Setting) (seen : List (List ℕ)) (k : List ℕ)
    → IsEntry seen v k
    → check_entry v seen ≡ some (k ∷ seen, [])
unfolding check_entry check_name keyed_name
check_entry-passes v seen k h = rw h.is_object (
    rw h.is_proxy.name_set
      (rw h.key_eq (rw h.is_new (rw (joined-passes h.members h.is_proxy) refl))))

check_entries-passes :
    (idx : ℕ) (vs : Settings) (seen : List (List ℕ))
    → AreProxies seen vs
    → check_entries idx vs seen ≡ some []
unfolding check_entries then_entries
check_entries-passes idx no_more seen h = refl
check_entries-passes idx (more v vs) seen (k, e, rest) =
    ground (arith, check_entry-passes v seen k e, check_entries-passes (suc idx) vs (k ∷ seen) rest)

proxies-passes : (o : Option Setting) → FitsProxies o → validate_proxies o ≡ some []
unfolding validate_proxies
proxies-passes none h = refl
proxies-passes (some v) (inl unset) = rw unset refl
proxies-passes (some v) (inr (vs, is_array, a)) = rw is_array (check_entries-passes 0 vs [] a)

address-passes : (v : Setting) → IsAddress v → validate_server_addr v ≡ []
unfolding validate_server_addr
address-passes v (x, is_text, filled) = rw is_text (rw filled refl)

-- A configuration passes validate_client_config exactly when the address of the server is a text
-- that is not empty, its port an integer from 1 to 65535, and the proxies, where there are any,
-- are objects with types that there are, the ports that these types need, from 1 to 65535 too, and
-- names whose keys differ.
pub validate_client_config-keyed_iff :
    (c : Config)
    → (validate_client_config c ≡ some []) ↔ (
        IsAddress (get_setting "server_addr" c)
        × InPorts (get_setting "server_port" c)
        × FitsProxies (lookup "proxies" c))
unfolding validate_client_config
validate_client_config-keyed_iff c = (
  validate_client_config-FitsProxies c,
  (λ (addr, port, proxies). rw (proxies-passes (lookup "proxies" c) proxies) (
      rw (address-passes (get_setting "server_addr" c) addr)
        (rw (required_port-passes "server_port" (get_setting "server_port" c) port) refl))),
)
