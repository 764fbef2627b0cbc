-- ===== src/Server/Stcp.antt =====
-- frps.py: `handle_stcp_new_visitor`, `handle_stcp_visitor_ready`, the STCP part of `handle_data`,
-- and `close_stcp_conn`, each from its start to its end.
-- `alive w` says whether a write to `w` goes through; a write that does not raises.
pub mod Relay
pub mod Opened
use frp_python.Prelude.{
  if◌then◌else◌, ◌==◌, is_some, is_nil, length, lookup, insert, erase, contains, ℕ, String, Bool,
  false, ◌||◌, not, Option, none, some, [], ◌++◌, nat_eq, string_eq, list_eq,
}
use frp_python.Protocol.Codec.{Bytes}
use frp_python.Server.State.{Server, StcpConn, Provider, Visitor, Reply, write, Reason}
use frp_python.Stats.{on_connect, on_disconnect, on_data_in, on_data_out, on_proxy_register}

-- `if side_writer: side_writer.write(CLOSE)`, where a failure is passed over
unfoldable pub notify : (ℕ → Bool) → Option ℕ → String → Server → Server
notify alive none conn_id s = s
notify alive (some w) conn_id s = if alive w then write w (Reply.conn_close conn_id) s else s

unfoldable pub close_found : (ℕ → Bool) → String → Option StcpConn → Server → Server
close_found alive conn_id none s = s
close_found alive conn_id (some c) s = notify alive c.visitor_writer conn_id (
    notify alive c.provider_writer conn_id
      (record s { stcp_conns = erase conn_id s.stcp_conns; stats = on_disconnect conn_id s.stats }))

-- `close_stcp_conn`
unfoldable pub close_stcp_conn : (ℕ → Bool) → String → Server → Server
unfolding close_found
close_stcp_conn alive conn_id s = close_found alive conn_id (lookup conn_id s.stcp_conns) s

-- Which side a writer is on. `handle_data` assigns a writer that it meets first to a side that
-- has none; `stranger` is a writer that is on neither side of a connection that has both.
pub data Side : Type 0 where
  provider visitor stranger : Side

abbrev pub is_writer : Option ℕ → ℕ → Bool
is_writer none w = false
is_writer (some v) w = v == w

-- The side of the writer, and the connection with the writer assigned.
unfoldable pub side_of : ℕ → StcpConn → Side × StcpConn
side_of w c =
    if is_writer c.provider_writer w
    then (provider, c)
    else if is_writer c.visitor_writer w
    then (visitor, c)
    else if not (is_some c.provider_writer)
    then (provider, record c { provider_writer = some w })
    else if not (is_some c.visitor_writer)
    then (visitor, record c { visitor_writer = some w })
    else (stranger, c)

-- The writer that the data goes to: that of the provider unless it comes from there.
unfoldable pub other_writer : Side → StcpConn → Option ℕ
other_writer provider c = c.visitor_writer
other_writer visitor c = c.provider_writer
other_writer stranger c = c.provider_writer

-- The buffer that is flushed before new data of a side is sent on.
unfoldable pub pending : Side → StcpConn → Bytes
pending provider c = c.provider_buffer
pending visitor c = c.visitor_buffer
pending stranger c = c.visitor_buffer

unfoldable pub flushed : Side → StcpConn → StcpConn
flushed provider c = record c { provider_buffer = [] }
flushed visitor c = record c { visitor_buffer = [] }
flushed stranger c = record c { visitor_buffer = [] }

-- The buffer that data waits in when there is no writer to send it to.
unfoldable pub held : Side → Bytes → StcpConn → StcpConn
held visitor bs c = record c { visitor_buffer = c.visitor_buffer ++ bs }
held provider bs c = record c { provider_buffer = c.provider_buffer ++ bs }
held stranger bs c = record c { provider_buffer = c.provider_buffer ++ bs }

abbrev pub put_conn : String → StcpConn → Server → Server
put_conn conn_id c s = record s { stcp_conns = insert conn_id c s.stcp_conns }

-- A DATA message to the other side, counted as data out.
abbrev pub send_data : ℕ → String → Bytes → Server → Server
send_data w conn_id bs s = record (write w (Reply.conn_data conn_id bs) s) {
  stats = on_data_out conn_id (length bs) s.stats;
}

-- A flush up to its drain, and behind it: a handler that runs in between finds the buffer full.
unfoldable pub flush_begins : ℕ → String → Bytes → Server → Server
flush_begins w conn_id buffered s = write w (Reply.conn_data conn_id buffered) s

abbrev pub clear_found : Side → String → Option StcpConn → Server → Server
clear_found side conn_id none s = s
clear_found side conn_id (some c) s = put_conn conn_id (flushed side c) s

unfoldable pub flush_ends : Side → String → Bytes → Server → Server
flush_ends side conn_id buffered s =
    clear_found side conn_id (lookup conn_id s.stcp_conns)
      (record s { stats = on_data_out conn_id (length buffered) s.stats })

-- With a writer for the other side: what was buffered, then the data, or the connection's end.
unfoldable pub relay_to : (ℕ → Bool) → String → Bytes → Side → ℕ → StcpConn → Server → Server
unfolding flush_begins flush_ends
relay_to alive conn_id bs side w c s =
    if not (alive w)
    then close_stcp_conn alive conn_id s
    else if is_nil (pending side c)
    then send_data w conn_id bs s
    else send_data w conn_id bs
        (flush_ends side conn_id (pending side c) (flush_begins w conn_id (pending side c) s))

unfoldable pub relay_side : (ℕ → Bool) → String → Bytes → Side × StcpConn → Server → Server
relay_side alive conn_id bs (side, c) s = elim (other_writer side c) [
  | some w ↦ relay_to alive conn_id bs side w c (put_conn conn_id c s)
  | none ↦
      let s' = put_conn conn_id (held side bs c) s in
      record s' { stats = on_data_in conn_id (length bs) s'.stats }
]

-- The part of `handle_data` for a connection of `stcp_conns`.
unfoldable pub relay_data : (ℕ → Bool) → ℕ → String → Bytes → ℕ → StcpConn → Server → Server
relay_data alive now conn_id bs w c s =
    relay_side alive conn_id bs (side_of w (record c { last_activity = now })) s

-- What `handle_stcp_new_visitor` adds for a connection id that it has not seen.
unfoldable pub open_conn : ℕ → String → String → ℕ → Server → Server
open_conn now proxy_name conn_id w s =
    if contains conn_id s.stcp_conns
    then s
    else let c : StcpConn = record {
      proxy_name = proxy_name;
      visitor_writer = some w;
      provider_writer = none;
      visitor_buffer = [];
      provider_buffer = [];
      last_activity = now;
    } in
      record s {
        stcp_conns = insert conn_id c s.stcp_conns;
        stats = on_connect proxy_name conn_id "stcp" 0 now s.stats;
      }

unfoldable pub forward_visitor :
    (ℕ → Bool) → ℕ → String → String → ℕ → Option Provider → Server → Server
unfolding open_conn
forward_visitor alive now proxy_name conn_id w none s = s
forward_visitor alive now proxy_name conn_id w (some p) s =
    let s' = open_conn now proxy_name conn_id w s in
    if alive p.control_writer
    then write p.control_writer (Reply.stcp_new_visitor_msg proxy_name conn_id) s'
    else close_stcp_conn alive conn_id s'

-- `handle_stcp_new_visitor`: a name or id that is missing or empty ends it. The secret key of the
-- provider is not asked for.
unfoldable pub handle_stcp_new_visitor : (ℕ → Bool) → ℕ → String → String → ℕ → Server → Server
unfolding forward_visitor
handle_stcp_new_visitor alive now proxy_name conn_id w s =
    if proxy_name == "" || conn_id == ""
    then s
    else forward_visitor alive now proxy_name conn_id w (lookup proxy_name s.stcp_providers) s

-- The provider is linked, and what was buffered for it is flushed.
unfoldable pub link_provider : (ℕ → Bool) → ℕ → String → ℕ → Option StcpConn → Server → Server
unfolding flush_begins flush_ends
link_provider alive now conn_id w none s = s
link_provider alive now conn_id w (some c) s =
    let c' : StcpConn = record c { provider_writer = some w; last_activity = now } in
    if is_nil c.visitor_buffer
    then put_conn conn_id c' s
    else if alive w
    then flush_ends visitor conn_id c.visitor_buffer
        (flush_begins w conn_id c.visitor_buffer (put_conn conn_id c' s))
    else close_stcp_conn alive conn_id (put_conn conn_id c' s)

-- `handle_stcp_visitor_ready`
unfoldable pub handle_stcp_visitor_ready : (ℕ → Bool) → ℕ → String → String → ℕ → Server → Server
unfolding link_provider
handle_stcp_visitor_ready alive now proxy_name conn_id w s =
    if proxy_name == "" || conn_id == ""
    then s
    else link_provider alive now conn_id w (lookup conn_id s.stcp_conns) s

unfoldable pub relay_found : (ℕ → Bool) → ℕ → String → Bytes → ℕ → Option StcpConn → Server → Server
relay_found alive now conn_id bs w none s = s
relay_found alive now conn_id bs w (some c) s = relay_data alive now conn_id bs w c s

-- `handle_data` for an id of `stcp_conns`; for another it goes on to the other tables.
unfoldable pub handle_stcp_data : (ℕ → Bool) → ℕ → String → Bytes → ℕ → Server → Server
unfolding relay_found
handle_stcp_data alive now conn_id bs w s =
    relay_found alive now conn_id bs w (lookup conn_id s.stcp_conns) s
