-- ===== src/Server/Tcp.antt =====
-- frps.py: `handle_tcp_proxy_conn`, `handle_ftp_proxy_conn`, `forward_proxy_data`, `handle_data`,
-- `process_message` of the server, and `datagram_received`. `alive` says to which writers a write
-- goes through, `takes` to which public connections.
pub mod Relayed
pub mod Forwarded
use frp_python.Prelude.{
  if◌then◌else◌, is_some, length, lookup, insert, contains, ℕ, String, Bool, false, ◌&&◌, ◌||◌, not,
  Option, none, some, List, [], ◌∷◌, nat_eq, string_eq, list_eq,
}
use frp_python.Protocol.Codec.{Bytes}
use frp_python.Server.Cleanup.{close_conn}
use frp_python.Server.Ftp.{rewrite_line, handle_ftp_response}
use frp_python.Server.Ftp.Data.{to_public, or_writer, handle_ftp_data_message}
use frp_python.Server.State.{
  PublicSide, stream_side, ftp_side, udp_side, Reply, Proxy, Conn, Server, write,
}
use frp_python.Server.Stcp.{handle_stcp_data}
use frp_python.Stats.{on_connect, on_data_in, on_data_out}

abbrev pub new_conn_entry_for : String → PublicSide → Bytes → ℕ → Conn
new_conn_entry_for name side prepend now = record {
  proxy_name = name;
  side = side;
  prepend_data = prepend;
  client_writer = none;
  client_ready = false;
  last_activity = now;
}

abbrev pub put_pool : String → Conn → Server → Server
put_pool conn_id c s = record s { conn_pool = insert conn_id c s.conn_pool }

abbrev pub touch_proxy : String → ℕ → Option Proxy → Server → Server
touch_proxy name now none s = s
touch_proxy name now (some p) s = record s {
  proxies = insert name (record p { last_activity = now }) s.proxies;
}

-- The connection is counted first; when NEW_CONN cannot be written it is not entered.
unfoldable pub open_public :
    (ℕ → Bool) → ℕ → String → String → PublicSide → Option Proxy → Server → Server
open_public alive now name conn_id side none s = s
open_public alive now name conn_id side (some p) s =
    let counted = record s { stats = on_connect name conn_id p.kind p.remote_port now s.stats } in
    let told = write p.control_writer (Reply.new_conn_msg name conn_id) counted in
    if alive p.control_writer
    then put_pool conn_id (new_conn_entry_for name side [] now) (touch_proxy name now (some p) told)
    else counted

-- `handle_tcp_proxy_conn` and `handle_ftp_proxy_conn`, by whether the address passes
unfoldable pub handle_tcp_proxy_conn : (ℕ → Bool) → ℕ → Bool → String → String → Server → Server
unfolding open_public
handle_tcp_proxy_conn alive now passes name conn_id s =
    if not passes
    then s
    else open_public alive now name conn_id stream_side (lookup name s.proxies) s

unfoldable pub handle_ftp_proxy_conn : (ℕ → Bool) → ℕ → Bool → String → String → Server → Server
unfolding open_public
handle_ftp_proxy_conn alive now passes name conn_id s =
    if not passes
    then s
    else open_public alive now name conn_id (ftp_side []) (lookup name s.proxies) s

abbrev pub count_read : ℕ → String → Bytes → Server → Server
count_read now conn_id bs s = record s { stats = on_data_in conn_id (length bs) s.stats }

-- A DATA message to the client, or the end where there is none or its write raises.
unfoldable pub pass_on :
    (ℕ → Bool) → String → Bytes → Option ℕ → (Server → Server) → Server → Server
unfolding close_conn
pass_on alive conn_id bs none more s = close_conn conn_id s
pass_on alive conn_id bs (some w) more s =
    let later = more (write w (Reply.conn_data conn_id bs) s) in
    if alive w then later else close_conn conn_id s

-- The loop of `forward_proxy_data` over its reads, where an empty one is the end or the timeout.
unfoldable pub forward_public : (ℕ → Bool) → ℕ → String → Conn → List Bytes → Server → Server
unfolding close_conn pass_on
forward_public alive now conn_id c [] s = s
forward_public alive now conn_id c ([] ∷ reads) s = close_conn conn_id s
forward_public alive now conn_id c ((b ∷ bs) ∷ reads) s =
    let c' = record c { last_activity = now } in
    pass_on alive conn_id (b ∷ bs) c.client_writer (forward_public alive now conn_id c' reads)
      (count_read now conn_id (b ∷ bs) (put_pool conn_id c' s))

-- The data that was read before the loop goes first, as a read of it would.
abbrev pub with_prepended : Bytes → List Bytes → List Bytes
with_prepended [] reads = reads
with_prepended (b ∷ bs) reads = (b ∷ bs) ∷ reads

unfoldable pub forward_entry : (ℕ → Bool) → ℕ → String → List Bytes → Option Conn → Server → Server
unfolding forward_public close_conn
forward_entry alive now conn_id reads none s = s
forward_entry alive now conn_id reads (some c) s =
    if c.client_ready
    then forward_public alive now conn_id c (with_prepended c.prepend_data reads) s
    else close_conn conn_id s

-- `forward_proxy_data`, when the client is ready or the wait for it is over
unfoldable pub forward_proxy_data : (ℕ → Bool) → ℕ → String → List Bytes → Server → Server
unfolding forward_entry
forward_proxy_data alive now conn_id reads s =
    forward_entry alive now conn_id reads (lookup conn_id s.conn_pool) s

-- The write to the public side of what has come from the client; a write that raises closes the
-- connection.
unfoldable pub write_public : (String → Bool) → String → Bytes → Server → Server
unfolding close_conn
write_public takes conn_id bs s =
    if takes conn_id then to_public conn_id bs s else close_conn conn_id s

-- An answer of an FTP server is rewritten by its lines, and what is no complete line waits. An
-- entry for a datagram has no `proxy_writer`, which raises.
unfoldable pub write_side :
    (String → ℕ → Server → Option ℕ × Server)
    → (String → Bool)
    → String
    → Bytes
    → Conn
    → PublicSide
    → Server
    → Server
unfolding write_public close_conn
write_side listen takes conn_id bs c udp_side s = close_conn conn_id s
write_side listen takes conn_id bs c stream_side s = write_public takes conn_id bs s
write_side listen takes conn_id bs c (ftp_side buf) s =
    let (out, left, s') =
      handle_ftp_response (rewrite_line (listen conn_id) s.bind_addr) buf bs s in
    write_public takes conn_id out (put_pool conn_id (record c { side = ftp_side left }) s')

abbrev pub client_data :
    (String → ℕ → Server → Option ℕ × Server)
    → (String → Bool)
    → ℕ
    → String
    → Bytes
    → ℕ
    → Conn
    → Server
    → Server
client_data listen takes now conn_id bs w c s =
    let c' = record c { client_writer = or_writer c.client_writer w; last_activity = now } in
    let touched_proxy =
      touch_proxy c.proxy_name now (lookup c.proxy_name s.proxies) (put_pool conn_id c' s) in
    write_side listen takes conn_id bs c' c.side
      (record touched_proxy { stats = on_data_out conn_id (length bs) touched_proxy.stats })

-- An entry for a datagram that no INIT_CONN has reached has no `client_writer`, which raises.
abbrev pub is_unlinked : PublicSide → Conn → Bool
is_unlinked udp_side c = not (is_some c.client_writer)
is_unlinked side c = false

-- Data for a connection of the pool. Where it raises, nothing has changed yet; what the exception
-- ends is with the callers, by `data_raises`.
unfoldable pub pool_data_for :
    (String → ℕ → Server → Option ℕ × Server)
    → (String → Bool)
    → ℕ
    → String
    → Bytes
    → ℕ
    → Option Conn
    → Server
    → Server
unfolding write_side
pool_data_for listen takes now conn_id bs w none s = s
pool_data_for listen takes now conn_id bs w (some c) s =
    if is_unlinked c.side c then s else client_data listen takes now conn_id bs w c s

abbrev pub entry_raises : Option Conn → Bool
entry_raises none = false
entry_raises (some c) = is_unlinked c.side c

-- Whether `handle_data` ends in the `KeyError` of such an entry.
unfoldable pub data_raises : String → Server → Bool
data_raises conn_id s =
    not (contains conn_id s.stcp_conns || contains conn_id s.ftp_data_ports)
    && entry_raises (lookup conn_id s.conn_pool)

-- `handle_data`
unfoldable pub handle_client_data :
    (String → ℕ → Server → Option ℕ × Server)
    → (ℕ → Bool)
    → (String → Bool)
    → ℕ
    → String
    → Bytes
    → ℕ
    → Server
    → Server
unfolding pool_data_for
handle_client_data listen alive takes now conn_id bs w s =
    if contains conn_id s.stcp_conns
    then handle_stcp_data alive now conn_id bs w s
    else if contains conn_id s.ftp_data_ports
    then handle_ftp_data_message takes conn_id bs w s
    else pool_data_for listen takes now conn_id bs w (lookup conn_id s.conn_pool) s

unfoldable pub datagram_for :
    (ℕ → Bool) → ℕ → String → String → Bytes → Option Proxy → Server → Server
datagram_for alive now name conn_id bs none s = s
datagram_for alive now name conn_id bs (some p) s =
    let entered = put_pool conn_id (new_conn_entry_for name udp_side [] now) s in
    let connected = on_connect name conn_id p.kind p.remote_port now entered.stats in
    let counted = record entered { stats = on_data_in conn_id (length bs) connected } in
    if alive p.control_writer
    then write p.control_writer (Reply.conn_data conn_id bs)
        (write p.control_writer (Reply.new_conn_msg name conn_id) counted)
    else counted

-- `datagram_received` of `UDPProxyProtocol`
unfoldable pub receive_datagram : (ℕ → Bool) → ℕ → Bool → String → String → Bytes → Server → Server
unfolding datagram_for
receive_datagram alive now passes name conn_id bs s =
    if not passes then s else datagram_for alive now name conn_id bs (lookup name s.proxies) s
