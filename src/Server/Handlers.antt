-- ===== src/Server/Handlers.antt =====
-- frps.py: `handle_login`, `handle_register`, `handle_init_conn`, `handle_ping` and `handle_close`.
-- The id of a new session, and whether a listener could be started, are arguments.
pub mod Allowed
use frp_python.Prelude.{
  if◌then◌else◌, ◌==◌, lookup, insert, contains, ℕ, String, Bool, true, false, ◌&&◌, ◌||◌, not,
  Option, none, some, List, [], ◌∷◌, nat_eq, string_eq, list_eq,
}
use frp_python.Access.Ports.{check_port}
use frp_python.Protocol.Codec.{Bytes}
use frp_python.Py.Int.{pos}
use frp_python.Py.Text.{Text}
use frp_python.Server.Http.{register_http_proxy}
use frp_python.Server.Registry.{note_proxy, Registered, register_stcp_proxy, register_stcp_visitor}
use frp_python.Server.State.{
  udp_side, PublicSide, Server, Reason, Reply, Proxy, Session, Conn, write, or_zero,
}
use frp_python.Stats.{on_proxy_register}

-- `handle_login`: the id of the session, if the token is the server's. An answer that cannot be
-- written raises, and leaves a session that was entered in the table.
unfoldable pub handle_login : (ℕ → Bool) → String → ℕ → String → ℕ → Server → Option String × Server
handle_login alive session_id now token w s =
    if not (token == s.auth_token)
    then (none, if alive w then write w Reply.login_error s else s)
    else let session : Session = record {
      control_writer = w;
      data_writer = none;
      proxies = [];
      last_heartbeat = now;
      pending_cmds = [];
      cmd_results = [];
    } in
      let with_session = record s { sessions = insert session_id session s.sessions } in
      if alive w
      then (some session_id, write w (Reply.login_ok session_id s.data_port) with_session)
      else (none, with_session)

-- The payload of a REGISTER message. A text or number that is missing stands as the empty one or
-- zero, which the handlers take in the same way.
pub record Request : Type 0 where
  pub proxy_name : String
  pub proxy_type : String
  pub remote_port : ℕ
  pub custom_domains : List Text
  pub subdomain : Text
  pub sk : String
  pub bind_port : ℕ
  pub server_name : Option String

unfoldable pub refuse : ℕ → Reason → Server → Server
refuse w reason s = write w (Reply.error_msg reason) s

-- `if not ok: writer.write(error)`
unfoldable pub answer : ℕ → Registered → Server
unfolding refuse
answer w (none, s) = s
answer w (some reason, s) = refuse w reason s

-- The branches of TCP, UDP and FTP, which differ only in the listener.
unfoldable pub register_port_proxy : Bool → ℕ → Request → ℕ → Option String → Server → Server
unfolding note_proxy
register_port_proxy false now r w session s = s
register_port_proxy true now r w session s =
    let p : Proxy = record {
      kind = r.proxy_type;
      remote_port = r.remote_port;
      control_writer = w;
      session_id = session;
      last_activity = now;
    } in
    let s' =
      note_proxy session r.proxy_name (record s { proxies = insert r.proxy_name p s.proxies }) in
    record s' { stats = on_proxy_register r.proxy_name r.proxy_type r.remote_port now s'.stats }

abbrev pub is_port_type : String → Bool
is_port_type t = t == "tcp" || (t == "udp" || t == "ftp")

-- A name that a proxy of any of three tables has.
abbrev pub is_taken : String → Server → Bool
is_taken name s =
    contains name s.proxies || (contains name s.http_proxies || contains name s.stcp_providers)

unfoldable pub register_by_type : Bool → ℕ → Request → ℕ → Option String → Server → Server
unfolding answer refuse register_port_proxy
register_by_type started now r w session s =
    if is_port_type r.proxy_type
    then register_port_proxy started now r w session s
    else if r.proxy_type == "http"
    then if or_zero s.vhost_http_port == 0
      then refuse w Reason.http_not_enabled s
      else answer w (register_http_proxy now r.proxy_name r.custom_domains r.subdomain w session s)
    else if r.proxy_type == "stcp"
    then answer w (register_stcp_proxy now r.proxy_name r.sk w session s)
    else if r.proxy_type == "stcp_visitor"
    then answer w
        (register_stcp_visitor now r.proxy_name r.sk r.bind_port r.server_name w session s)
    else refuse w Reason.unsupported_type s

-- `handle_register`
unfoldable pub handle_register : Bool → ℕ → Request → ℕ → Option String → Server → Server
unfolding register_by_type refuse
handle_register started now r w session s =
    if r.proxy_name == ""
    then refuse w Reason.missing_proxy_name s
    else if is_port_type r.proxy_type && r.remote_port == 0
    then refuse w Reason.missing_remote_port s
    else if is_port_type r.proxy_type && not (check_port s.access.allow_ports (pos r.remote_port))
    then refuse w Reason.port_not_allowed s
    else if is_taken r.proxy_name s
    then refuse w Reason.already_registered s
    else register_by_type started now r w session s

abbrev pub data_writer_of : Option Session → ℕ → ℕ
data_writer_of none w = w
data_writer_of (some session) w = elim session.data_writer [ none ↦ w | some d ↦ d ]

-- An entry for a datagram has no event that could be set, which raises behind the assignment.
abbrev pub inited : PublicSide → ℕ → ℕ → Conn → Conn
inited udp_side now w c = record c { client_writer = some w }
inited p now w c = record c { client_writer = some w; client_ready = true; last_activity = now }

unfoldable pub init_found : ℕ → String → ℕ → Option Conn → Server → Server
init_found now conn_id w none s = s
init_found now conn_id w (some c) s = record s {
  conn_pool = insert conn_id (inited c.side now w c) s.conn_pool;
}

-- `handle_init_conn`
unfoldable pub handle_init_conn : ℕ → String → ℕ → Option Session → Server → Server
unfolding init_found
handle_init_conn now conn_id w session s =
    init_found now conn_id (data_writer_of session w) (lookup conn_id s.conn_pool) s

unfoldable pub beat : ℕ → Option String → Server → Server
beat now none s = s
beat now (some id) s = elim (lookup id s.sessions) [
  | none ↦ s
  | some session ↦ record s {
    sessions = insert id (record session { last_heartbeat = now }) s.sessions;
  }
]

-- `handle_ping`; a write that fails is passed over.
unfoldable pub handle_ping : (ℕ → Bool) → ℕ → ℕ → Option String → Server → Server
unfolding beat
handle_ping alive now w session s =
    if alive w then write w Reply.pong_msg (beat now session s) else beat now session s

-- `pending_cmds.pop(cmd_id, None)`
unfoldable pub forget : String → List String → List String
forget id [] = []
forget id (i ∷ ids) = let rest = forget id ids in if i == id then rest else i ∷ rest

abbrev pub with_result : String → Bytes → Session → Session
with_result cmd_id result session = record session {
  cmd_results = insert cmd_id result session.cmd_results;
  pending_cmds = forget cmd_id session.pending_cmds;
}

unfoldable pub result_of : String → String → Bytes → Option Session → Server → Server
unfolding forget
result_of id cmd_id result none s = s
result_of id cmd_id result (some session) s = record s {
  sessions = insert id (with_result cmd_id result session) s.sessions;
}

-- `handle_remote_cmd_resp`, with the payload as its bytes
unfoldable pub handle_remote_cmd_resp : String → Bytes → Option String → Server → Server
unfolding result_of
handle_remote_cmd_resp cmd_id result none s = s
handle_remote_cmd_resp cmd_id result (some id) s =
    if cmd_id == "" then s else result_of id cmd_id result (lookup id s.sessions) s
