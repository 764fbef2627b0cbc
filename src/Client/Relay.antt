-- ===== src/Client/Relay.antt =====
-- frpc.py: `handle_data`, `handle_close`, the loops that forward what the local side sends, and
-- `process_message`, `handle_server_messages` and `handle_data_messages`.
use frp_python.Prelude.{
  if◌then◌else◌, ◌==◌, lookup, insert, contains, ℕ, Bool, false, Option, none, some, List, [], ◌∷◌,
  ◌++◌, nat_eq, string_eq, list_eq,
}
use frp_python.Client.Handlers.{
  close_ftp_data_conn, handle_new_conn, handle_ftp_new_data, close_conn, handle_stcp_new_visitor,
}
use frp_python.Client.State.{
  Surroundings, PoolEntry, handle_of, FtpConn, Client, data_writer_for, send, try_send, text_of,
  text_at,
}
use frp_python.Protocol.Codec.{Bytes, Json, conn_id_key, data_key}
use frp_python.Protocol.Message.{Value, get, MessageType, type_name, Message}
use frp_python.Protocol.Roundtrip.{data_message}
use frp_python.Protocol.Stream.{receive}
use frp_python.Py.Text.{Text}

-- `payload.get("data", b"")`, where a writer takes nothing but bytes
unfoldable pub data_of : Message → Option Bytes
data_of m = elim (get data_key m.payload) [
  | none ↦ some []
  | some (Value.raw bs) ↦ some bs
  | some v ↦ none
]

abbrev pub deliver : ℕ → Bytes → Client → Client
deliver w bs s = record s { delivered = s.delivered ++ (w, bs) ∷ [] }

-- A write to the local side goes through, or raises.
unfoldable pub taken : Surroundings → ℕ → Message → Option Bytes
unfolding data_of
taken e w m = if e.takes w then data_of m else none

abbrev pub touched : Surroundings → Text → PoolEntry → Client → Client
touched e conn_id c s = record s {
  conn_pool = insert conn_id (record c { last_activity = e.now }) s.conn_pool;
}

abbrev pub ftp_touched : Surroundings → Text → FtpConn → Client → Client
ftp_touched e conn_id c s = record s {
  ftp_data_conns = insert conn_id (record c { last_activity = e.now }) s.ftp_data_conns;
}

unfoldable pub pool_data : Surroundings → Text → Message → Option PoolEntry → Client → Client
unfolding taken close_conn
pool_data e conn_id m none s = s
pool_data e conn_id m (some c) s = elim (taken e (handle_of c.peer) m) [
  | none ↦ close_conn conn_id (touched e conn_id c s)
  | some bs ↦ deliver (handle_of c.peer) bs (touched e conn_id c s)
]

unfoldable pub data_for : Surroundings → Text → Message → Option FtpConn → Client → Client
unfolding taken close_ftp_data_conn pool_data
data_for e conn_id m none s = pool_data e conn_id m (lookup conn_id s.conn_pool) s
data_for e conn_id m (some c) s = elim (taken e c.local_writer m) [
  | none ↦ close_ftp_data_conn conn_id (ftp_touched e conn_id c s)
  | some bs ↦ deliver c.local_writer bs (ftp_touched e conn_id c s)
]

-- `handle_data`
unfoldable pub handle_data : Surroundings → Message → Client → Client
unfolding data_for
handle_data e m s =
    let conn_id = text_at conn_id_key m in data_for e conn_id m (lookup conn_id s.ftp_data_conns) s

-- `handle_close`
unfoldable pub handle_close : Message → Client → Client
unfolding close_conn close_ftp_data_conn
handle_close m s =
    let conn_id = text_at conn_id_key m in
    if contains conn_id s.ftp_data_conns
    then close_ftp_data_conn conn_id s
    else close_conn conn_id s

-- `conn_info["last_activity"] = time.time()`, where the entry is still in its table
unfoldable pub touch : Surroundings → Text → Option PoolEntry → Client → Client
touch e conn_id none s = s
touch e conn_id (some c) s = touched e conn_id c s

unfoldable pub ftp_touch : Surroundings → Text → Option FtpConn → Client → Client
ftp_touch e conn_id none s = s
ftp_touch e conn_id (some c) s = ftp_touched e conn_id c s

-- The loop of `forward_local_data` and `_forward_stcp_visitor_data`, over what each read of the
-- local side returns; an empty read is its end.
unfoldable pub forward_reads : Surroundings → Text → List Bytes → Client → Client
unfolding close_conn touch
forward_reads e conn_id [] s = s
forward_reads e conn_id ([] ∷ reads) s = close_conn conn_id s
forward_reads e conn_id ((b ∷ bs) ∷ reads) s =
    let s' = touch e conn_id (lookup conn_id s.conn_pool) s in
    let c = data_writer_for s' in
    let more = forward_reads e conn_id reads (send c (data_message conn_id (b ∷ bs)) s') in
    if e.alive c then more else close_conn conn_id s'

unfoldable pub forward_local_data : Surroundings → Text → List Bytes → Client → Client
unfolding forward_reads
forward_local_data e conn_id reads s =
    if contains conn_id s.conn_pool then forward_reads e conn_id reads s else s

-- `_forward_ftp_data_to_server`
unfoldable pub ftp_reads : Surroundings → Text → List Bytes → Client → Client
unfolding close_ftp_data_conn ftp_touch
ftp_reads e conn_id [] s = s
ftp_reads e conn_id ([] ∷ reads) s = close_ftp_data_conn conn_id s
ftp_reads e conn_id ((b ∷ bs) ∷ reads) s =
    let s' = ftp_touch e conn_id (lookup conn_id s.ftp_data_conns) s in
    let c = data_writer_for s' in
    let more = ftp_reads e conn_id reads (send c (data_message conn_id (b ∷ bs)) s') in
    if e.alive c then more else close_ftp_data_conn conn_id s'

unfoldable pub forward_ftp_data_to_server : Surroundings → Text → List Bytes → Client → Client
unfolding ftp_reads
forward_ftp_data_to_server e conn_id reads s =
    if contains conn_id s.ftp_data_conns then ftp_reads e conn_id reads s else s

-- `datagram_received`, where nothing is closed when the write raises
unfoldable pub datagram_received : Surroundings → Text → Bytes → Client → Client
datagram_received e conn_id bs s = try_send e (data_writer_for s) (data_message conn_id bs) s

-- A test of `message.type == MessageType.…`
abbrev pub has_type : MessageType → Message → Bool
has_type t m = text_of (some m.type) == type_name t

-- A loop that hands the messages of a connection to a handler, one after another.
unfoldable pub each : (Message → Client → Client) → List Message → Client → Client
each h [] s = s
each h (m ∷ ms) s = each h ms (h m s)

-- `process_message`, where `remote` is `handle_remote_cmd`
unfoldable pub process_message :
    (Message → Client → Client) → Surroundings → Message → Client → Client
unfolding handle_new_conn handle_data handle_close handle_stcp_new_visitor handle_ftp_new_data
process_message remote e m s =
    if has_type MessageType.new_conn m
    then handle_new_conn e m s
    else if has_type MessageType.pong m
    then s
    else if has_type MessageType.data_msg m
    then if s.data_open then s else handle_data e m s
    else if has_type MessageType.close m
    then if s.data_open then s else handle_close m s
    else if has_type MessageType.error m
    then s
    else if has_type MessageType.stcp_new_visitor m
    then handle_stcp_new_visitor e m s
    else if has_type MessageType.ftp_new_data m
    then handle_ftp_new_data e m s
    else if has_type MessageType.remote_cmd m
    then remote m s
    else s

-- `handle_server_messages`, over what each read of the control connection returns.
unfoldable pub handle_server_messages :
    Json → (Message → Client → Client) → Surroundings → List Bytes → Client → Client
unfolding each process_message
handle_server_messages j remote e reads s =
    each (process_message remote e) (receive j (some []) reads).0 s

-- The body of the loop of `handle_data_messages`.
unfoldable pub on_data_channel : Surroundings → Message → Client → Client
unfolding handle_data handle_close
on_data_channel e m s =
    if has_type MessageType.data_msg m
    then handle_data e m s
    else if has_type MessageType.close m
    then handle_close m s
    else s

-- `handle_data_messages`, which falls back to the control connection when it ends.
unfoldable pub handle_data_messages : Json → Surroundings → List Bytes → Client → Client
unfolding each on_data_channel
handle_data_messages j e reads s =
    record (each (on_data_channel e) (receive j (some []) reads).0 s) { data_open = false }
