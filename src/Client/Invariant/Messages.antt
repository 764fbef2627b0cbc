-- ===== src/Client/Invariant/Messages.antt =====
-- frpc.py: `process_message` and the loops of the two connections keep the tables in order.
use frp_python.Prelude.{
  if◌then◌else◌, ◌==◌, codes, lookup, insert, contains, insert-IsUnique, ℕ, ◌≡◌, refl, Bool, true,
  Option, none, some, List, [], ◌∷◌, nat_eq, string_eq, list_eq,
}
use frp_python.Client.Handlers.{
  close_conn, handle_stcp_new_visitor, close_ftp_data_conn, new_conn_entry, open_local,
  new_conn_for, handle_new_conn, stcp_visitor_for, visitor_conn_for, handle_stcp_visitor_conn,
  ftp_ready, ftp_opened, ftp_new_data, handle_ftp_new_data, is_stream_type, stream_peer,
  datagram_peer,
}
use frp_python.Client.Invariant.{
  IsWellFormed, AreKnown-lookup, enter, same_tables, close_conn-IsWellFormed,
  close_ftp_data_conn-IsWellFormed, either, try_send-IsWellFormed, open_local-IsWellFormed,
}
use frp_python.Client.Relay.{
  deliver, taken, touched, ftp_touched, pool_data, data_for, handle_data, process_message,
  handle_close, forward_reads, ftp_reads, on_data_channel, has_type, touch, ftp_touch,
}
use frp_python.Client.State.{
  control_channel, visitor_peer, ProxyInfo, handle_of, PoolEntry, FtpConn, Client, Surroundings,
  about,
}
use frp_python.Protocol.Codec.{Bytes}
use frp_python.Protocol.Message.{MessageType, Message}
use frp_python.Py.Text.{Text}

module _ (e : Surroundings) where
  new_conn_for-IsWellFormed :
      (name k : Text) (o : Option ProxyInfo) (s : Client)
      → lookup name s.proxies ≡ o
      → IsWellFormed s
      → IsWellFormed (new_conn_for e name k o s)
  unfolding new_conn_for
  new_conn_for-IsWellFormed name k none s h w = w
  new_conn_for-IsWellFormed name k (some info) s h w =
      let there : contains name s.proxies ≡ true = rw h refl in
      let init = about MessageType.init_conn k in
      let stream = stream_peer (e.connect info.local_ip info.local_port) in
      let datagram = datagram_peer (e.datagram info.local_ip info.local_port) in
      let by_stream = open_local e name k init stream s in
      let by_datagram = open_local e name k init datagram s in
      let is_udp = info.kind == codes "udp" in
      either (is_stream_type info.kind) by_stream (if is_udp then by_datagram else s)
        (open_local-IsWellFormed e name k init stream s there w)
        (either is_udp by_datagram s (open_local-IsWellFormed e name k init datagram s there w) w)

  handle_new_conn-IsWellFormed :
      (m : Message) (s : Client) → IsWellFormed s → IsWellFormed (handle_new_conn e m s)
  unfolding handle_new_conn
  handle_new_conn-IsWellFormed m s w = new_conn_for-IsWellFormed _ _ _ s refl w

  stcp_visitor_for-IsWellFormed :
      (name k : Text) (o : Option ProxyInfo) (s : Client)
      → lookup name s.proxies ≡ o
      → IsWellFormed s
      → IsWellFormed (stcp_visitor_for e name k o s)
  unfolding stcp_visitor_for
  stcp_visitor_for-IsWellFormed name k none s h w = w
  stcp_visitor_for-IsWellFormed name k (some info) s h w =
      either _ _ _ w (open_local-IsWellFormed e name k _ _ s (rw h refl) w)

  handle_stcp_new_visitor-IsWellFormed :
      (m : Message) (s : Client) → IsWellFormed s → IsWellFormed (handle_stcp_new_visitor e m s)
  unfolding handle_stcp_new_visitor
  handle_stcp_new_visitor-IsWellFormed m s w = stcp_visitor_for-IsWellFormed _ _ _ s refl w

  visitor_conn_for-IsWellFormed :
      (v : ℕ) (name k : Text) (o : Option ProxyInfo) (s : Client)
      → lookup name s.proxies ≡ o
      → IsWellFormed s
      → IsWellFormed (visitor_conn_for e v name k o s)
  unfolding visitor_conn_for
  visitor_conn_for-IsWellFormed v name k none s h w = same_tables s _ _ _ w
  visitor_conn_for-IsWellFormed v name k (some info) s h w =
      let c = new_conn_entry e name (visitor_peer v) in
      let entered = record s { conn_pool = insert k c s.conn_pool } in
      let in_pool : IsWellFormed entered = enter k c s (rw h refl) w in
      either _ _ _ (same_tables s _ _ _ w) (
        either _ _ _ (same_tables entered _ _ _ in_pool)
          (close_conn-IsWellFormed k entered in_pool))

  -- A connection to a visitor's port, with the id that is made for it, keeps the tables in order.
  pub handle_stcp_visitor_conn-IsWellFormed :
      (v : ℕ) (name k : Text) (s : Client)
      → IsWellFormed s
      → IsWellFormed (handle_stcp_visitor_conn e v name k s)
  unfolding handle_stcp_visitor_conn
  handle_stcp_visitor_conn-IsWellFormed v name k s w =
      visitor_conn_for-IsWellFormed v name k _ s refl w

  enter_ftp :
      (k : Text) (c : FtpConn) (s : Client)
      → IsWellFormed s
      → IsWellFormed (record s { ftp_data_conns = insert k c s.ftp_data_conns })
  enter_ftp k c s w = record {
    unique_conns = w.unique_conns;
    unique_ftp = insert-IsUnique k c s.ftp_data_conns w.unique_ftp;
    known = w.known;
  }

  ftp_opened-IsWellFormed :
      (name ctrl k : Text) (o : Option ℕ) (s : Client)
      → IsWellFormed s
      → IsWellFormed (ftp_opened e name ctrl k o s)
  unfolding ftp_opened
  ftp_opened-IsWellFormed name ctrl k none s w = w
  ftp_opened-IsWellFormed name ctrl k (some p) s w =
      try_send-IsWellFormed e control_channel (ftp_ready k) _ (enter_ftp k _ s w)

  handle_ftp_new_data-IsWellFormed :
      (m : Message) (s : Client) → IsWellFormed s → IsWellFormed (handle_ftp_new_data e m s)
  unfolding handle_ftp_new_data ftp_new_data
  handle_ftp_new_data-IsWellFormed m s w = either _ _ _ w (ftp_opened-IsWellFormed _ _ _ _ s w)

  pool_data-IsWellFormed :
      (k : Text) (m : Message) (o : Option PoolEntry) (s : Client)
      → lookup k s.conn_pool ≡ o
      → IsWellFormed s
      → IsWellFormed (pool_data e k m o s)
  unfolding pool_data
  pool_data-IsWellFormed k m none s h w = w
  pool_data-IsWellFormed k m (some c) s h w = go (taken e (handle_of c.peer) m)
    where
      there : IsWellFormed (touched e k c s)
      there = enter k _ s (AreKnown-lookup s.proxies k c s.conn_pool h w.known) w

      go :
          (o : Option Bytes)
          → IsWellFormed (elim o [
            | none ↦ close_conn k (touched e k c s)
            | some bs ↦ deliver (handle_of c.peer) bs (touched e k c s)
          ])
      go none = close_conn-IsWellFormed k _ there
      go (some bs) = same_tables (touched e k c s) _ _ _ there

  data_for-IsWellFormed :
      (k : Text) (m : Message) (o : Option FtpConn) (s : Client)
      → IsWellFormed s
      → IsWellFormed (data_for e k m o s)
  unfolding data_for
  data_for-IsWellFormed k m none s w = pool_data-IsWellFormed k m _ s refl w
  data_for-IsWellFormed k m (some c) s w = go (taken e c.local_writer m)
    where
      there : IsWellFormed (ftp_touched e k c s)
      there = enter_ftp k _ s w

      go :
          (o : Option Bytes)
          → IsWellFormed (elim o [
            | none ↦ close_ftp_data_conn k (ftp_touched e k c s)
            | some bs ↦ deliver c.local_writer bs (ftp_touched e k c s)
          ])
      go none = close_ftp_data_conn-IsWellFormed k _ there
      go (some bs) = same_tables (ftp_touched e k c s) _ _ _ there

  handle_data-IsWellFormed :
      (m : Message) (s : Client) → IsWellFormed s → IsWellFormed (handle_data e m s)
  unfolding handle_data
  handle_data-IsWellFormed m s w = data_for-IsWellFormed _ m _ s w

  handle_close-IsWellFormed :
      (m : Message) (s : Client) → IsWellFormed s → IsWellFormed (handle_close m s)
  unfolding handle_close
  handle_close-IsWellFormed m s w =
      either _ _ _ (close_ftp_data_conn-IsWellFormed _ s w) (close_conn-IsWellFormed _ s w)

  -- Whatever message the server sends, the tables stay in order: no id stands twice, and every
  -- connection of the pool belongs to a proxy of this client, where remote commands keep it so.
  pub process_message-IsWellFormed :
      (remote : Message → Client → Client)
      → ((m : Message) (s : Client) → IsWellFormed s → IsWellFormed (remote m s))
      → (m : Message) (s : Client) → IsWellFormed s
      → IsWellFormed (process_message remote e m s)
  unfolding process_message
  process_message-IsWellFormed remote keeps m s w =
      let is : MessageType → Bool = λ t. has_type t m in
      either (is MessageType.new_conn) _ _ (handle_new_conn-IsWellFormed m s w) (
        either (is MessageType.pong) _ _ w (
          either (is MessageType.data_msg) _ _
            (either s.data_open _ _ w (handle_data-IsWellFormed m s w))
            (either (is MessageType.close) _ _
              (either s.data_open _ _ w (handle_close-IsWellFormed m s w))
              (either (is MessageType.error) _ _ w (
                either (is MessageType.stcp_new_visitor) _ _
                  (handle_stcp_new_visitor-IsWellFormed m s w)
                  (either (is MessageType.ftp_new_data) _ _ (handle_ftp_new_data-IsWellFormed m s w)
                    (either (is MessageType.remote_cmd) _ _ (keeps m s w) w)))))))

  pub on_data_channel-IsWellFormed :
      (m : Message) (s : Client) → IsWellFormed s → IsWellFormed (on_data_channel e m s)
  unfolding on_data_channel
  on_data_channel-IsWellFormed m s w =
      either _ _ _ (handle_data-IsWellFormed m s w)
        (either _ _ _ (handle_close-IsWellFormed m s w) w)

  touch-IsWellFormed :
      (k : Text) (o : Option PoolEntry) (s : Client)
      → lookup k s.conn_pool ≡ o
      → IsWellFormed s
      → IsWellFormed (touch e k o s)
  unfolding touch
  touch-IsWellFormed k none s h w = w
  touch-IsWellFormed k (some c) s h w =
      enter k _ s (AreKnown-lookup s.proxies k c s.conn_pool h w.known) w

  ftp_touch-IsWellFormed :
      (k : Text) (o : Option FtpConn) (s : Client)
      → IsWellFormed s
      → IsWellFormed (ftp_touch e k o s)
  unfolding ftp_touch
  ftp_touch-IsWellFormed k none s w = w
  ftp_touch-IsWellFormed k (some c) s w = enter_ftp k _ s w

  pub forward_reads-IsWellFormed :
      (k : Text) (reads : List Bytes) (s : Client)
      → IsWellFormed s
      → IsWellFormed (forward_reads e k reads s)
  unfolding forward_reads
  forward_reads-IsWellFormed k [] s w = w
  forward_reads-IsWellFormed k ([] ∷ reads) s w = close_conn-IsWellFormed k s w
  forward_reads-IsWellFormed k ((b ∷ bs) ∷ reads) s w =
      let s' = touch e k (lookup k s.conn_pool) s in
      let v = touch-IsWellFormed k (lookup k s.conn_pool) s refl w in
      either _ _ _ (forward_reads-IsWellFormed k reads _ (same_tables s' _ _ _ v))
        (close_conn-IsWellFormed k s' v)

  pub ftp_reads-IsWellFormed :
      (k : Text) (reads : List Bytes) (s : Client)
      → IsWellFormed s
      → IsWellFormed (ftp_reads e k reads s)
  unfolding ftp_reads
  ftp_reads-IsWellFormed k [] s w = w
  ftp_reads-IsWellFormed k ([] ∷ reads) s w = close_ftp_data_conn-IsWellFormed k s w
  ftp_reads-IsWellFormed k ((b ∷ bs) ∷ reads) s w =
      let s' = ftp_touch e k (lookup k s.ftp_data_conns) s in
      let v = ftp_touch-IsWellFormed k (lookup k s.ftp_data_conns) s w in
      either _ _ _ (ftp_reads-IsWellFormed k reads _ (same_tables s' _ _ _ v))
        (close_ftp_data_conn-IsWellFormed k s' v)
