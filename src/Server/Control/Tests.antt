-- ===== src/Server/Control/Tests.antt =====
-- frps.py: control connections at concrete inputs.
use frp_python.Prelude.{codes, ℕ, String, refl, Bool, true, Option, none, some, List, [], ◌∷◌}
use frp_python.Access.Control.{open_access}
use frp_python.Access.Networks.{v4, IpAddress}
use frp_python.Server.Control.{login_msg, client_msg, handle_control_conn, ControlMessage}
use frp_python.Server.Control.Departed.{IsDeparted}
use frp_python.Server.Control.Stranger.{handle_control_conn-IsRepliedTo, IsRepliedTo}
use frp_python.Server.Handlers.{Request}
use frp_python.Server.Messages.{ClientMessage}
use frp_python.Server.State.{Server}
use frp_python.Stats.{new_stats}

abbrev up : {A : Type 0} → A → Bool
up a = true

-- A library that reads any text as one address.
abbrev lib : IpAddress
lib = record { ip_address = λ s. some (v4 1); ip_network = λ s. none }

abbrev no_listener : String → ℕ → Server → Option ℕ × Server
no_listener id port s = (none, s)

abbrev serving : Server
serving = record {
  bind_addr = codes "0.0.0.0";
  auth_token = "secret";
  max_connections = 10;
  idle_timeout = 300;
  data_port = none;
  vhost_http_port = none;
  subdomain_host = [];
  access = open_access;
  stats = new_stats 0;
  total_connections = 1;
  sessions = [];
  proxies = [];
  http_proxies = [];
  stcp_providers = [];
  stcp_visitors = [];
  stcp_conns = [];
  conn_pool = [];
  ftp_data_ports = [];
  outbox = [];
  public_out = [];
}

abbrev request : Request
request = record {
  proxy_name = "ssh";
  proxy_type = "tcp";
  remote_port = 8022;
  custom_domains = [];
  subdomain = [];
  sk = "";
  bind_port = 0;
  server_name = none;
}

serving-IsDeparted : IsDeparted 2 serving
serving-IsDeparted = record { proxies = tt; http_proxies = tt; providers = tt; visitors = tt }

-- A client logs in, registers a proxy, and leaves.
abbrev visit : List (List ControlMessage)
visit =
    (login_msg 100 "secret" "s1" ∷ client_msg 100 true (ClientMessage.on_register request) ∷ [])
    ∷ (client_msg 110 true ClientMessage.on_ping ∷ [])
    ∷ []

abbrev guesses : List (List ControlMessage)
guesses = [] ∷ (login_msg 100 "guess" "s1" ∷ client_msg 100 true ClientMessage.on_ping ∷ []) ∷ []

handle_control_conn-IsRepliedTo_example :
    IsRepliedTo 2 serving
      (handle_control_conn no_listener up up 2 lib (codes "10.0.0.1") guesses serving)
handle_control_conn-IsRepliedTo_example =
    handle_control_conn-IsRepliedTo lib no_listener up up 2 (codes "10.0.0.1") guesses serving refl
      (tt, ((refl, (refl, tt)), tt)) serving-IsDeparted
