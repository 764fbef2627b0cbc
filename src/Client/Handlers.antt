-- ===== src/Client/Handlers.antt =====
-- frpc.py: the handlers of `FRPClient` for the messages of the server, and the loops that read
-- from the local side.
pub mod Answered
use frp_python.Prelude.{
  if◌then◌else◌, ◌==◌, codes, lookup, insert, erase, ℕ, Bool, ◌||◌, not, Option, none, some, [],
  ◌∷◌, nat_eq, string_eq, list_eq,
}
use frp_python.Client.State.{
  Surroundings, Peer, local_peer, udp_peer, visitor_peer, control_channel, nat_of, PoolEntry,
  ProxyInfo, handle_of, FtpConn, Client, data_writer_for, send, try_send, text_at, name_key,
  visitor_key, about,
}
use frp_python.Protocol.Codec.{conn_id_key}
use frp_python.Protocol.Message.{Value, Fields, get, MessageType, Message}
use frp_python.Protocol.Roundtrip.{typed}
use frp_python.Py.Text.{Text}

abbrev pub close_peer : Peer → Client → Client
close_peer p s = record s { closed = handle_of p ∷ s.closed }

-- `close_conn`
unfoldable pub close_conn : Text → Client → Client
close_conn conn_id s = elim (lookup conn_id s.conn_pool) [
  | none ↦ s
  | some c ↦ close_peer c.peer (record s { conn_pool = erase conn_id s.conn_pool })
]

-- `_close_ftp_data_conn`
unfoldable pub close_ftp_data_conn : Text → Client → Client
close_ftp_data_conn data_conn_id s = elim (lookup data_conn_id s.ftp_data_conns) [
  | none ↦ s
  | some c ↦ record s {
    ftp_data_conns = erase data_conn_id s.ftp_data_conns;
    closed = c.local_writer ∷ s.closed;
  }
]

-- The `except` branches of `handle_new_conn` and `handle_stcp_new_visitor`.
unfoldable pub refuse_conn : Surroundings → Text → Client → Client
refuse_conn e conn_id s = try_send e (data_writer_for s) (about MessageType.close conn_id) s

-- The connection is entered and announced with a message; a write that fails leaves it entered.
unfoldable pub enter_conn : Surroundings → Text → PoolEntry → Message → Client → Client
unfolding refuse_conn
enter_conn e conn_id c m s =
    let entered = record s { conn_pool = insert conn_id c s.conn_pool } in
    if e.alive control_channel
    then send control_channel m entered
    else refuse_conn e conn_id entered

abbrev pub new_conn_entry : Surroundings → Text → Peer → PoolEntry
new_conn_entry e name p = record { proxy_name = name; peer = p; last_activity = e.now }

unfoldable pub open_local : Surroundings → Text → Text → Message → Option Peer → Client → Client
unfolding refuse_conn enter_conn
open_local e name conn_id m none s = refuse_conn e conn_id s
open_local e name conn_id m (some p) s = enter_conn e conn_id (new_conn_entry e name p) m s

abbrev pub is_stream_type : Text → Bool
is_stream_type t = t == codes "tcp" || (t == codes "http" || t == codes "ftp")

abbrev pub stream_peer : Option ℕ → Option Peer
stream_peer none = none
stream_peer (some w) = some (local_peer w)

abbrev pub datagram_peer : Option ℕ → Option Peer
datagram_peer none = none
datagram_peer (some w) = some (udp_peer w)

-- `handle_new_conn`, behind the check of the proxy's name
unfoldable pub new_conn_for : Surroundings → Text → Text → Option ProxyInfo → Client → Client
unfolding open_local
new_conn_for e name conn_id none s = s
new_conn_for e name conn_id (some info) s =
    let init = about MessageType.init_conn conn_id in
    if is_stream_type info.kind
    then open_local e name conn_id init (stream_peer (e.connect info.local_ip info.local_port)) s
    else if info.kind == codes "udp"
    then open_local e name conn_id init (datagram_peer (e.datagram info.local_ip info.local_port)) s
    else s

unfoldable pub handle_new_conn : Surroundings → Message → Client → Client
unfolding new_conn_for
handle_new_conn e m s =
    let name = text_at name_key m in
    new_conn_for e name (text_at conn_id_key m) (lookup name s.proxies) s

abbrev pub ready_message : Text → Text → Message
ready_message name conn_id = typed MessageType.stcp_visitor_ready (
    Fields.field name_key (Value.text name)
      (Fields.field visitor_key (Value.text conn_id) Fields.end))

-- `handle_stcp_new_visitor`
unfoldable pub stcp_visitor_for : Surroundings → Text → Text → Option ProxyInfo → Client → Client
unfolding open_local
stcp_visitor_for e name conn_id none s = s
stcp_visitor_for e name conn_id (some info) s =
    if not (info.kind == codes "stcp")
    then s
    else open_local e name conn_id (ready_message name conn_id)
        (stream_peer (e.connect info.local_ip info.local_port)) s

unfoldable pub handle_stcp_new_visitor : Surroundings → Message → Client → Client
unfolding stcp_visitor_for
handle_stcp_new_visitor e m s =
    let name = text_at name_key m in
    stcp_visitor_for e name (text_at visitor_key m) (lookup name s.proxies) s

abbrev pub visitor_message : Text → Text → Message
visitor_message name conn_id = typed MessageType.stcp_new_visitor (
    Fields.field name_key (Value.text name)
      (Fields.field visitor_key (Value.text conn_id) Fields.end))

unfoldable pub visitor_conn_for :
    Surroundings → ℕ → Text → Text → Option ProxyInfo → Client → Client
unfolding close_conn
visitor_conn_for e w name conn_id none s = close_peer (visitor_peer w) s
visitor_conn_for e w name conn_id (some info) s =
    let entered = record s {
      conn_pool = insert conn_id (new_conn_entry e name (visitor_peer w)) s.conn_pool;
    } in
    if not (info.kind == codes "stcp_visitor")
    then close_peer (visitor_peer w) s
    else if e.alive control_channel
    then send control_channel (visitor_message info.server_name conn_id) entered
    else close_conn conn_id entered

-- `_handle_stcp_visitor_conn`, with the id that it generates
unfoldable pub handle_stcp_visitor_conn : Surroundings → ℕ → Text → Text → Client → Client
unfolding visitor_conn_for
handle_stcp_visitor_conn e w name conn_id s =
    visitor_conn_for e w name conn_id (lookup name s.proxies) s

abbrev pub unknown_name : Text
unknown_name = codes "unknown"

-- `handle_ftp_new_data`: the name of the proxy, and its address.
unfoldable pub ftp_proxy_name : Text → Client → Text
ftp_proxy_name ctrl_conn_id s =
    if ctrl_conn_id == []
    then unknown_name
    else elim (lookup ctrl_conn_id s.conn_pool) [ none ↦ unknown_name | some c ↦ c.proxy_name ]

abbrev pub local_ip_of : Option ProxyInfo → Text
local_ip_of none = codes "127.0.0.1"
local_ip_of (some info) = info.local_ip

abbrev pub ftp_ready : Text → Message
ftp_ready data_conn_id =
    typed MessageType.ftp_data_ready
      (Fields.field (codes "data_conn_id") (Value.text data_conn_id) Fields.end)

unfoldable pub ftp_opened : Surroundings → Text → Text → Text → Option ℕ → Client → Client
ftp_opened e name ctrl_conn_id data_conn_id none s = s
ftp_opened e name ctrl_conn_id data_conn_id (some w) s =
    let c : FtpConn = record {
      local_writer = w;
      ctrl_conn_id = ctrl_conn_id;
      proxy_name = name;
      last_activity = e.now;
    } in
    try_send e control_channel (ftp_ready data_conn_id)
      (record s { ftp_data_conns = insert data_conn_id c s.ftp_data_conns })

unfoldable pub ftp_new_data : Surroundings → Text → Text → ℕ → Client → Client
unfolding ftp_opened ftp_proxy_name
ftp_new_data e ctrl_conn_id data_conn_id internal_port s =
    let name = ftp_proxy_name ctrl_conn_id s in
    let opened = e.connect (local_ip_of (lookup name s.proxies)) internal_port in
    if data_conn_id == [] || internal_port == 0
    then s
    else ftp_opened e name ctrl_conn_id data_conn_id opened s

unfoldable pub handle_ftp_new_data : Surroundings → Message → Client → Client
unfolding ftp_new_data
handle_ftp_new_data e m s =
    ftp_new_data e (text_at (codes "ctrl_conn_id") m) (text_at (codes "data_conn_id") m)
      (nat_of (get (codes "internal_port") m.payload)) s
