-- ===== src/Server/DataChannel/Tests.antt =====
-- frps.py: a data connection that names a session that is not there.
use frp_python.Prelude.{
  codes, lookup, ℕ, String, refl, Bool, true, Option, none, List, [], ◌∷◌, nat_eq, string_eq,
  list_eq,
}
use frp_python.Access.Control.{open_access}
use frp_python.Server.DataChannel.{
  DataMessage, data_auth_msg, data_for_conn, close_of_conn, unexpected, handle_data_conn,
}
use frp_python.Server.DataChannel.Unlinked.{IsUntouched, handle_data_conn-IsUntouched}
use frp_python.Server.State.{Session, Server}
use frp_python.Stats.{new_stats}

abbrev up : {A : Type 0} → A → Bool
up a = true

abbrev no_listener : String → ℕ → Server → Option ℕ × Server
no_listener id port s = (none, s)

abbrev session : Session
session = record {
  control_writer = 1;
  data_writer = none;
  proxies = [];
  last_heartbeat = 0;
  pending_cmds = [];
  cmd_results = [];
}

abbrev serving : Server
serving = record {
  bind_addr = codes "0.0.0.0";
  auth_token = "secret";
  max_connections = 10;
  idle_timeout = 300;
  data_port = none;
  vhost_http_port = none;
  subdomain_host = [];
  access = open_access;
  stats = new_stats 0;
  total_connections = 0;
  sessions = ("s1", session) ∷ [];
  proxies = [];
  http_proxies = [];
  stcp_providers = [];
  stcp_visitors = [];
  stcp_conns = [];
  conn_pool = [];
  ftp_data_ports = [];
  outbox = [];
  public_out = [];
}

abbrev foreign : List (List DataMessage)
foreign =
    (data_for_conn "a" (codes "hi") ∷ [])
    ∷ (unexpected ∷ data_auth_msg "s2" ∷ close_of_conn "a" ∷ [])
    ∷ []

handle_data_conn-IsUntouched_example :
    IsUntouched 2 serving (handle_data_conn no_listener up up 200 2 foreign serving)
unfolding lookup
handle_data_conn-IsUntouched_example =
    handle_data_conn-IsUntouched no_listener up up 200 2 foreign serving
      ((refl, tt), ((refl, (refl, (refl, tt))), tt))
