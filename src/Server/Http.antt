-- ===== src/Server/Http.antt =====
-- frps.py: `_register_http_proxy`, and the choice of a proxy by host name in
-- `handle_http_vhost_conn`.
pub mod Routing
pub mod Vhost
use frp_python.Prelude.{
  if◌then◌else◌, ◌==◌, is_nil, any, elem, Dict, insert, contains, ℕ, String, Bool, true, false,
  ◌&&◌, ◌||◌, not, Option, none, some, List, [], ◌∷◌, ◌++◌, map, nat_eq, string_eq, list_eq,
}
use frp_python.Py.Text.{Text, lower}
use frp_python.Server.Registry.{note_proxy, Registered}
use frp_python.Server.State.{Server, Reason, HttpProxy, or_zero}
use frp_python.Stats.{on_proxy_register}

-- The host names that a proxy answers, in lower case; `host` is the server's `subdomain_host`,
-- empty where it is not configured.
unfoldable pub domains_of : Text → List Text → Text → List Text
domains_of host custom_domains subdomain =
    map lower custom_domains
    ++ (if is_nil subdomain || is_nil host then [] else (lower subdomain ++ b'.' ∷ lower host) ∷ [])

abbrev pub proxy_domains : Text → HttpProxy → List Text
proxy_domains host p = domains_of host p.custom_domains p.subdomain

-- `if d in existing_domains`, for each of the new domains and each proxy
unfoldable pub in_use : List Text → Text → Dict String HttpProxy → Bool
in_use ds host [] = false
in_use ds host ((name, p) ∷ ps) =
    if any (λ d. elem d (proxy_domains host p)) ds then true else in_use ds host ps

unfoldable pub add_http_proxy :
    ℕ → String → List Text → Text → ℕ → Option String → Server → Registered
unfolding note_proxy
add_http_proxy now proxy_name custom_domains subdomain w session s =
    let p : HttpProxy = record {
      custom_domains = custom_domains;
      subdomain = subdomain;
      control_writer = w;
      session_id = session;
    } in
    let s' =
      note_proxy session proxy_name
        (record s { http_proxies = insert proxy_name p s.http_proxies }) in
    (
      none,
      record s' {
        stats = on_proxy_register proxy_name "http" (or_zero s'.vhost_http_port) now s'.stats;
      },
    )

-- `_register_http_proxy`; a list or text that is missing stands as the empty one.
unfoldable pub register_http_proxy :
    ℕ → String → List Text → Text → ℕ → Option String → Server → Registered
unfolding add_http_proxy domains_of in_use
register_http_proxy now proxy_name custom_domains subdomain w session s =
    if proxy_name == ""
    then (some Reason.missing_proxy_name, s)
    else if is_nil custom_domains && is_nil subdomain
    then (some Reason.domains_required, s)
    else if contains proxy_name s.http_proxies
    then (some Reason.already_registered, s)
    else if not (is_nil subdomain) && is_nil s.subdomain_host
    then (some Reason.no_subdomain_host, s)
    else if in_use (domains_of s.subdomain_host custom_domains subdomain) s.subdomain_host
        s.http_proxies
    then (some Reason.domain_in_use, s)
    else add_http_proxy now proxy_name custom_domains subdomain w session s

-- The search of `handle_http_vhost_conn`: the first proxy that answers the name, if any.
unfoldable pub route : Text → Text → Dict String HttpProxy → Option String
route host hostname [] = none
route host hostname ((name, p) ∷ ps) =
    if elem (lower hostname) (proxy_domains host p) then some name else route host hostname ps
