-- ===== src/Server/Registry.antt =====
-- frps.py: the registrations of `handle_register`.
pub mod Admission
use frp_python.Prelude.{
  if◌then◌else◌, ◌==◌, elem, lookup, insert, contains, ℕ, String, not, Option, none, some, List, [],
  ◌∷◌, ◌++◌, nat_eq, string_eq, list_eq,
}
use frp_python.Server.State.{Server, Reason, Provider, Visitor}
use frp_python.Stats.{on_proxy_register}

-- `session["proxies"].add(name)`
abbrev pub add_once : String → List String → List String
add_once name names = if elem name names then names else names ++ name ∷ []

unfoldable pub note_proxy : Option String → String → Server → Server
note_proxy none name s = s
note_proxy (some id) name s = elim (lookup id s.sessions) [
  | none ↦ s
  | some session ↦ record s {
    sessions = insert id (record session { proxies = add_once name session.proxies }) s.sessions;
  }
]

-- What a registration ends with: `(True, "ok")`, or `(False, reason)`.
abbrev pub Registered : Type 0
Registered = Option Reason × Server

-- `_register_stcp_proxy`; a field that is missing stands as the empty text.
unfoldable pub register_stcp_proxy : ℕ → String → String → ℕ → Option String → Server → Registered
register_stcp_proxy now proxy_name sk w session s =
    if proxy_name == ""
    then (some Reason.missing_proxy_name, s)
    else if sk == ""
    then (some Reason.missing_sk, s)
    else if contains proxy_name s.stcp_providers
    then (some Reason.already_registered, s)
    else let p : Provider = record { sk = sk; control_writer = w; session_id = session } in
      let s' =
        note_proxy session proxy_name
          (record s { stcp_providers = insert proxy_name p s.stcp_providers }) in
      (none, record s' { stats = on_proxy_register proxy_name "stcp" 0 now s'.stats })

unfoldable pub admit_visitor :
    ℕ → String → String → ℕ → String → ℕ → Option String → Option Provider → Server → Registered
unfolding note_proxy
admit_visitor now proxy_name sk bind_port server_name w session none s =
    (some Reason.stcp_not_found, s)
admit_visitor now proxy_name sk bind_port server_name w session (some p) s =
    if not (p.sk == sk)
    then (some Reason.invalid_key, s)
    else if contains proxy_name s.stcp_visitors
    then (some Reason.already_registered, s)
    else let v : Visitor = record {
      sk = sk;
      bind_port = bind_port;
      server_name = server_name;
      control_writer = w;
      session_id = session;
    } in
      let s' =
        note_proxy session proxy_name
          (record s { stcp_visitors = insert proxy_name v s.stcp_visitors }) in
      (
        none,
        record s' { stats = on_proxy_register proxy_name "stcp_visitor" bind_port now s'.stats },
      )

-- `message.get("server_name", proxy_name)`
abbrev pub server_of : String → Option String → String
server_of proxy_name none = proxy_name
server_of proxy_name (some n) = n

-- `_register_stcp_visitor`; the server's name is the proxy's where the message has none.
unfoldable pub register_stcp_visitor :
    ℕ → String → String → ℕ → Option String → ℕ → Option String → Server → Registered
unfolding admit_visitor
register_stcp_visitor now proxy_name sk bind_port server_name w session s =
    if proxy_name == ""
    then (some Reason.missing_proxy_name, s)
    else if sk == ""
    then (some Reason.missing_sk, s)
    else if bind_port == 0
    then (some Reason.missing_bind_port, s)
    else let name = server_of proxy_name server_name in
      admit_visitor now proxy_name sk bind_port name w session (lookup name s.stcp_providers) s
