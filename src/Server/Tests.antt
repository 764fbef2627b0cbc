-- ===== src/Server/Tests.antt =====
-- frps.py at concrete inputs: writers 1 and 2 are the control connections of the two clients.
use frp_python.Prelude.{
  codes, Dict, lookup, insert, lookup-empty, ℕ, String, ◌≡◌, refl, ◌≢◌, Bool, true, false, none,
  some, List, [], ◌∷◌, arith, eq_iff, nat_eq, string_eq, list_eq,
}
use frp_python.Access.Control.{open_access}
use frp_python.Py.Int.{pos}
use frp_python.Py.Text.{lower, lower_char}
use frp_python.Server.Handlers.{Request, handle_register}
use frp_python.Server.Handlers.Allowed.{AllAllowed, handle_register-AllAllowed}
use frp_python.Server.Http.{domains_of, register_http_proxy}
use frp_python.Server.Http.Routing.{
  IsDisjoint, ProxiesDisjoint, register_http_proxy-ProxiesDisjoint,
}
use frp_python.Server.Http.Vhost.{
  handle_http_vhost_conn, IsAnnounced, handle_http_vhost_conn-IsAnnounced,
}
use frp_python.Server.Registry.{Registered, admit_visitor, register_stcp_visitor}
use frp_python.Server.Registry.Admission.{IsAdmitted, register_stcp_visitor-IsAdmitted}
use frp_python.Server.State.{stream_side, Server, StcpConn, Provider, HttpProxy, Conn}
use frp_python.Server.Stcp.{
  handle_stcp_new_visitor, handle_stcp_data, flush_begins, flush_ends, put_conn, visitor,
  relay_found, relay_data, relay_side, relay_to, side_of, other_writer, pending, flushed, held,
  forward_visitor, open_conn,
}
use frp_python.Server.Stcp.Opened.{open-relay}
use frp_python.Server.Stcp.Relay.{
  Flows, RelayEvent, from_visitor, from_provider, ready, delivered, upward, downward, relay_run,
}
use frp_python.Stats.{new_stats}

abbrev all_alive : ℕ → Bool
all_alive w = true

abbrev ssh : Provider
ssh = record { sk = "key"; control_writer = 2; session_id = none }

abbrev server : Server
server = record {
  bind_addr = codes "0.0.0.0";
  auth_token = "secret";
  max_connections = 10;
  idle_timeout = 300;
  data_port = none;
  vhost_http_port = none;
  subdomain_host = [];
  access = open_access;
  stats = new_stats 0;
  total_connections = 0;
  sessions = [];
  proxies = [];
  http_proxies = [];
  stcp_providers = ("ssh", ssh) ∷ [];
  stcp_visitors = [];
  stcp_conns = [];
  conn_pool = [];
  ftp_data_ports = [];
  outbox = [];
  public_out = [];
}

-- Two pieces of data that come before the provider, then its answer, and a last piece.
abbrev talk : List RelayEvent
talk =
    from_visitor (1 ∷ 2 ∷ [])
    ∷ from_visitor (3 ∷ [])
    ∷ ready "ssh"
    ∷ from_provider (9 ∷ [])
    ∷ from_visitor (4 ∷ [])
    ∷ []

one_not_two : ◌≢◌ {A = ℕ} 1 2
one_not_two e = omega arith

open-relay_example : Flows all_alive 1 2 "c" refl refl one_not_two (upward talk) (downward talk) (
    relay_run all_alive 1 2 "c" refl refl one_not_two 7 talk
      (handle_stcp_new_visitor all_alive 7 "ssh" "c" 1 server))
open-relay_example =
    open-relay all_alive 1 2 "c" refl refl one_not_two 7 "ssh" ssh server talk refl
      (unfold lookup in refl) refl (unfold lookup in refl) (unfold delivered in refl)
      (unfold delivered in refl)

-- While the flush of a readiness message waits for its drain, the visitor's next data is handled:
-- the provider gets what was buffered twice.
abbrev waiting : Server
waiting =
    relay_run all_alive 1 2 "c" refl refl one_not_two 7 (from_visitor (1 ∷ 2 ∷ []) ∷ [])
      (handle_stcp_new_visitor all_alive 7 "ssh" "c" 1 server)

abbrev half_open : StcpConn
half_open = record {
  proxy_name = "ssh";
  visitor_writer = some 1;
  provider_writer = some 2;
  visitor_buffer = 1 ∷ 2 ∷ [];
  provider_buffer = [];
  last_activity = 7;
}

sent_twice :
    delivered 2 "c"
      (flush_ends visitor "c" (1 ∷ 2 ∷ []) (
        handle_stcp_data all_alive 7 "c"
          (3 ∷ [])
          1
          (flush_begins 2 "c" (1 ∷ 2 ∷ []) (put_conn "c" half_open waiting)))).outbox
    ≡ 1 ∷ 2 ∷ 1 ∷ 2 ∷ 3 ∷ []
unfolding delivered flush_begins flush_ends handle_stcp_data relay_found relay_data relay_side
    relay_to side_of other_writer pending flushed held handle_stcp_new_visitor forward_visitor
    open_conn lookup insert
sent_twice = refl

abbrev admitted : Registered
admitted = register_stcp_visitor 0 "v" "key" 9000 (some "ssh") 1 none server

register_stcp_visitor-IsAdmitted_example : IsAdmitted "v" "key" "ssh" 9000 server admitted.1
register_stcp_visitor-IsAdmitted_example =
    register_stcp_visitor-IsAdmitted 0 "v" "key" 9000 (some "ssh") 1 none server admitted.1
      (unfold register_stcp_visitor admit_visitor lookup in refl)

abbrev site : HttpProxy
site = record {
  custom_domains = codes "Example.org" ∷ [];
  subdomain = [];
  control_writer = 2;
  session_id = none;
}

abbrev sites : Dict String HttpProxy
sites = ("site", site) ∷ []

sites-IsDisjoint : IsDisjoint [] sites
unfolding lookup
sites-IsDisjoint a b p q d at_a at_b in_p in_q = ground (arith, eq_iff "site" a, eq_iff "site" b)

abbrev with_site : Server
with_site = record server { http_proxies = sites }

register_http_proxy-ProxiesDisjoint_example :
    ProxiesDisjoint (register_http_proxy 0 "other" (codes "example.net" ∷ []) [] 1 none with_site).1
register_http_proxy-ProxiesDisjoint_example =
    register_http_proxy-ProxiesDisjoint 0 "other" (codes "example.net" ∷ []) [] 1 none with_site
      sites-IsDisjoint

handle_http_vhost_conn-IsAnnounced_example :
    IsAnnounced 2 "site" "c"
      (codes "GET /")
      with_site
      (handle_http_vhost_conn all_alive 5 "c" (codes "EXAMPLE.org") (codes "GET /") with_site)
unfolding lookup lower lower_char
handle_http_vhost_conn-IsAnnounced_example =
    handle_http_vhost_conn-IsAnnounced all_alive 5 "c" (codes "EXAMPLE.org") (codes "GET /")
      with_site "site" site (refl, tt) sites-IsDisjoint refl
      (unfold domains_of lower lower_char in refl) refl

abbrev limited : Server
limited = record server {
  access = record {
    allow_ports = some ((pos 8000, pos 9000) ∷ []);
    ip_whitelist = none;
    ip_blacklist = [];
  };
}

limited-AllAllowed : AllAllowed limited
limited-AllAllowed = record { allowed = λ name p e. cc (rw lookup-empty at e) }

abbrev request : Request
request = record {
  proxy_name = "web";
  proxy_type = "tcp";
  remote_port = 8080;
  custom_domains = [];
  subdomain = [];
  sk = "";
  bind_port = 0;
  server_name = none;
}

handle_register-AllAllowed_example : AllAllowed (handle_register true 0 request 1 none limited)
handle_register-AllAllowed_example =
    handle_register-AllAllowed true 0 request 1 none limited limited-AllAllowed

abbrev pooled : Conn
pooled = record {
  proxy_name = "web";
  side = stream_side;
  prepend_data = [];
  client_writer = none;
  client_ready = false;
  last_activity = 100;
}
