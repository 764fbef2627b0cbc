-- ===== src/Server/Cleanup.antt =====
-- frps.py: `close_conn`, `handle_close`, `_remove_session`, `_remove_proxy`,
-- `cleanup_client_by_writer` and `_cleanup_idle_connections`. The close of the public socket of a
-- connection is left out.
pub mod Idle
use frp_python.Prelude.{
  ltb, if◌then◌else◌, ◌==◌, Dict, lookup, erase, contains, keys, ℕ, ◌-◌, String, Bool, false, ◌||◌,
  not, Option, none, some, List, [], ◌∷◌, nat_eq, string_eq, list_eq,
}
use frp_python.Server.State.{Server, Conn, StcpConn, HttpProxy, Provider, Visitor, Proxy}
use frp_python.Server.Stcp.{close_stcp_conn}
use frp_python.Stats.{on_disconnect, on_proxy_unregister}

unfoldable pub close_pooled : String → Option Conn → Server → Server
close_pooled conn_id none s = s
close_pooled conn_id (some c) s = record s {
  conn_pool = erase conn_id s.conn_pool;
  stats = on_disconnect conn_id s.stats;
}

-- `close_conn`
unfoldable pub close_conn : String → Server → Server
unfolding close_pooled
close_conn conn_id s = close_pooled conn_id (lookup conn_id s.conn_pool) s

-- `handle_close`
unfoldable pub handle_close : (ℕ → Bool) → String → Server → Server
handle_close alive conn_id s =
    if contains conn_id s.stcp_conns then close_stcp_conn alive conn_id s else close_conn conn_id s

abbrev pub is_session : String → Option String → Bool
is_session id none = false
is_session id (some i) = i == id

abbrev pub is_of : String → Option Conn → Bool
is_of name none = false
is_of name (some c) = c.proxy_name == name

abbrev pub is_stcp_of : String → Option StcpConn → Bool
is_stcp_of name none = false
is_stcp_of name (some c) = c.proxy_name == name

-- The entries that are not of a session.
unfoldable pub without_session :
    {V : Type 0} → (V → Option String) → String → Dict String V → Dict String V
without_session session_of id [] = []
without_session session_of id ((k, v) ∷ d) =
    let rest = without_session session_of id d in
    if is_session id (session_of v) then rest else (k, v) ∷ rest

-- `_remove_session`
unfoldable pub remove_session : String → Server → Server
unfolding without_session
remove_session id s = if id == "" || not (contains id s.sessions) then s else record s {
  sessions = erase id s.sessions;
  stcp_providers = without_session Provider.session_id id s.stcp_providers;
  stcp_visitors = without_session Visitor.session_id id s.stcp_visitors;
  http_proxies = without_session HttpProxy.session_id id s.http_proxies;
}

-- The connections of a proxy, closed one by one in the order of the list of ids.
unfoldable pub close_of_proxy : String → List String → Server → Server
close_of_proxy name [] s = s
close_of_proxy name (id ∷ ids) s =
    close_of_proxy name ids (if is_of name (lookup id s.conn_pool) then close_conn id s else s)

-- `_remove_proxy`, without its listener
unfoldable pub remove_proxy : String → Server → Server
unfolding close_of_proxy
remove_proxy name s =
    let s' = close_of_proxy name (keys s.conn_pool) s in
    record s' { proxies = erase name s'.proxies; stats = on_proxy_unregister name s'.stats }

-- `for cid in list(self.stcp_conns.keys())`
unfoldable pub close_stcp_of : (ℕ → Bool) → String → List String → Server → Server
close_stcp_of alive name [] s = s
close_stcp_of alive name (id ∷ ids) s =
    close_stcp_of alive name ids
      (if is_stcp_of name (lookup id s.stcp_conns) then close_stcp_conn alive id s else s)

-- The names of a table whose entries a writer registered, in its order.
unfoldable pub names_of : {V : Type 0} → (V → ℕ) → ℕ → Dict String V → List String
names_of writer_of w [] = []
names_of writer_of w ((k, v) ∷ d) =
    let rest = names_of writer_of w d in if writer_of v == w then k ∷ rest else rest

abbrev pub remove_proxies : List String → Server → Server
remove_proxies [] s = s
remove_proxies (name ∷ names) s = remove_proxies names (remove_proxy name s)

abbrev pub remove_http : List String → Server → Server
remove_http [] s = s
remove_http (name ∷ names) s = remove_http names (record s {
  http_proxies = erase name s.http_proxies;
  stats = on_proxy_unregister name s.stats;
})

abbrev pub remove_providers : (ℕ → Bool) → List String → Server → Server
remove_providers alive [] s = s
remove_providers alive (name ∷ names) s =
    let s' : Server = record s {
      stcp_providers = erase name s.stcp_providers;
      stats = on_proxy_unregister name s.stats;
    } in
    remove_providers alive names (close_stcp_of alive name (keys s'.stcp_conns) s')

abbrev pub remove_visitors : List String → Server → Server
remove_visitors [] s = s
remove_visitors (name ∷ names) s = remove_visitors names (record s {
  stcp_visitors = erase name s.stcp_visitors;
  stats = on_proxy_unregister name s.stats;
})

-- `cleanup_client_by_writer`
unfoldable pub cleanup_client_by_writer : (ℕ → Bool) → ℕ → Server → Server
unfolding names_of
cleanup_client_by_writer alive w s =
    let a = remove_proxies (names_of Proxy.control_writer w s.proxies) s in
    let b = remove_http (names_of HttpProxy.control_writer w a.http_proxies) a in
    let c = remove_providers alive (names_of Provider.control_writer w b.stcp_providers) b in
    remove_visitors (names_of Visitor.control_writer w c.stcp_visitors) c

-- `conn_info and now - last_activity > idle_timeout`
abbrev pub is_idle : ℕ → ℕ → Option Conn → Bool
is_idle now timeout none = false
is_idle now timeout (some c) = ltb timeout (now - c.last_activity)

abbrev pub is_stcp_idle : ℕ → ℕ → Option StcpConn → Bool
is_stcp_idle now timeout none = false
is_stcp_idle now timeout (some c) = ltb timeout (now - c.last_activity)

unfoldable pub close_idle : ℕ → List String → Server → Server
close_idle now [] s = s
close_idle now (id ∷ ids) s =
    close_idle now ids
      (if is_idle now s.idle_timeout (lookup id s.conn_pool) then close_conn id s else s)

unfoldable pub close_stcp_idle : (ℕ → Bool) → ℕ → List String → Server → Server
close_stcp_idle alive now [] s = s
close_stcp_idle alive now (id ∷ ids) s = close_stcp_idle alive now ids (
    if is_stcp_idle now s.idle_timeout (lookup id s.stcp_conns)
    then close_stcp_conn alive id s
    else s)

-- `_cleanup_idle_connections`
unfoldable pub cleanup_idle_connections : (ℕ → Bool) → ℕ → Server → Server
unfolding close_idle close_stcp_idle
cleanup_idle_connections alive now s =
    let s' = close_idle now (keys s.conn_pool) s in
    close_stcp_idle alive now (keys s'.stcp_conns) s'
