-- ===== src/Server/Remote/Tests.antt =====
-- frps.py: remote commands at concrete inputs.
use frp_python.Prelude.{
  codes, lookup, ℕ, ◌≡◌, refl, inl, inr, Bool, true, false, none, [], ◌∷◌, nat_eq, string_eq,
  list_eq,
}
use frp_python.Access.Control.{open_access}
use frp_python.Server.Remote.{
  cmd_timeout, finish_remote_cmd, begin_cmd, start_remote_cmd, answers_of,
}
use frp_python.Server.Remote.Answers.{finish_remote_cmd-answered}
use frp_python.Server.State.{Session, Server}
use frp_python.Stats.{new_stats}

abbrev up : ℕ → Bool
up w = true

abbrev no_close : ℕ → Bool
no_close w = false

abbrev session : Session
session = record {
  control_writer = 1;
  data_writer = none;
  proxies = [];
  last_heartbeat = 0;
  pending_cmds = "c0" ∷ [];
  cmd_results = [];
}

abbrev serving : Server
serving = record {
  bind_addr = codes "0.0.0.0";
  auth_token = "secret";
  max_connections = 10;
  idle_timeout = 300;
  data_port = none;
  vhost_http_port = none;
  subdomain_host = [];
  access = open_access;
  stats = new_stats 0;
  total_connections = 1;
  sessions = ("s1", session) ∷ [];
  proxies = [];
  http_proxies = [];
  stcp_providers = [];
  stcp_visitors = [];
  stcp_conns = [];
  conn_pool = [];
  ftp_data_ports = [];
  outbox = [];
  public_out = [];
}

abbrev asked : Server
asked =
    answers_of "s1" (("c0", codes "old") ∷ [])
      (start_remote_cmd up no_close "s1" "c1" "sys_info" [] serving).1

finish_remote_cmd-answered_example :
    ((finish_remote_cmd "s1" "c1" (
        answers_of "s1"
          (("c2", codes "late") ∷ [])
          (answers_of "s1" (("c1", codes "linux") ∷ []) asked))).0
      ≡ inr (codes "linux"))
    × ((finish_remote_cmd "s1" "c1" asked).0 ≡ inl cmd_timeout)
unfolding start_remote_cmd begin_cmd lookup
finish_remote_cmd-answered_example =
    finish_remote_cmd-answered up no_close "s1" "c1" "sys_info" [] (codes "linux")
      (("c0", codes "old") ∷ []) (("c2", codes "late") ∷ []) serving refl refl (refl, tt) (refl, tt)
