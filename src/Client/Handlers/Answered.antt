-- ===== src/Client/Handlers/Answered.antt =====
-- frpc.py: `handle_new_conn` answers the server.
use frp_python.Prelude.{
  if◌then◌else◌, ◌==◌, ==_refl, Bool-cases, codes, lookup, lookup-insert, ◌≡◌, refl, inl, inr, Bool,
  true, ◌||◌, Option, none, some, [], ◌∷◌, ◌++◌, nat_eq, string_eq, list_eq,
}
use frp_python.Client.Handlers.{
  is_stream_type, open_local, stream_peer, datagram_peer, refuse_conn, enter_conn, new_conn_entry,
  new_conn_for, handle_new_conn,
}
use frp_python.Client.State.{
  control_channel, Peer, ProxyInfo, PoolEntry, Client, Surroundings, data_writer_for, text_at,
  name_key, about,
}
use frp_python.Protocol.Codec.{conn_id_key}
use frp_python.Protocol.Message.{MessageType, Message}
use frp_python.Py.Text.{Text}

abbrev pub is_udp_type : Text → Bool
is_udp_type t = t == codes "udp"

-- The local side that a connection to the proxy gets, if it can be reached.
abbrev pub peer_for : Surroundings → ProxyInfo → Option Peer
peer_for e info =
    if is_stream_type info.kind
    then stream_peer (e.connect info.local_ip info.local_port)
    else datagram_peer (e.datagram info.local_ip info.local_port)

-- One message was sent: INIT_CONN for a connection that is in the pool now, or CLOSE for one that
-- is not entered.
abbrev pub IsAnswered : Option Peer → Text → Client → Client → Type 0
IsAnswered none conn_id s after =
    (after.outbox ≡ s.outbox ++ (data_writer_for s, about MessageType.close conn_id) ∷ [])
    × (after.conn_pool ≡ s.conn_pool)
IsAnswered (some p) conn_id s after =
    (after.outbox ≡ s.outbox ++ (control_channel, about MessageType.init_conn conn_id) ∷ [])
    × (c : PoolEntry) × (lookup conn_id after.conn_pool ≡ some c)
    × (c.peer ≡ p)

module _ (e : Surroundings) (s : Client) (control_up : e.alive control_channel ≡ true)
    (writer_up : e.alive (data_writer_for s) ≡ true) where
  open_local-IsAnswered :
      (name k : Text) (p : Option Peer)
      → IsAnswered p k s (open_local e name k (about MessageType.init_conn k) p s)
  unfolding open_local enter_conn refuse_conn
  open_local-IsAnswered name k none = rw writer_up (refl, refl)
  open_local-IsAnswered name k (some p) =
      rw control_up (refl, new_conn_entry e name p, simp (lookup-insert, ==_refl), refl)

  new_conn_for-eq-open_local :
      (name k : Text) (info : ProxyInfo)
      → (is_stream_type info.kind || is_udp_type info.kind) ≡ true
      → new_conn_for e name k (some info) s
        ≡ open_local e name k (about MessageType.init_conn k) (peer_for e info) s
  unfolding new_conn_for
  new_conn_for-eq-open_local name k info h = elim (Bool-cases (is_stream_type info.kind)) [
    | inl stream ↦ simp stream
    | inr other ↦ let udp : is_udp_type info.kind ≡ true = simp other at h in simp (other, udp)
  ]

-- A NEW_CONN for a TCP, HTTP, FTP or UDP proxy of the client is answered with exactly one message
-- while the connections to the server take it: with INIT_CONN, and the connection is in the pool
-- with the local side that was opened, or, where that cannot be reached, with CLOSE, and the pool
-- is as before.
pub handle_new_conn-IsAnswered :
    (e : Surroundings) (m : Message) (s : Client) (info : ProxyInfo)
    → lookup (text_at name_key m) s.proxies ≡ some info
    → (is_stream_type info.kind || is_udp_type info.kind) ≡ true
    → e.alive control_channel ≡ true
    → e.alive (data_writer_for s) ≡ true
    → IsAnswered (peer_for e info) (text_at conn_id_key m) s (handle_new_conn e m s)
unfolding handle_new_conn
handle_new_conn-IsAnswered e m s info found kind control_up writer_up =
    let name = text_at name_key m in
    let k = text_at conn_id_key m in
    rw (found, new_conn_for-eq-open_local e s control_up writer_up name k info kind)
      (open_local-IsAnswered e s control_up writer_up name k (peer_for e info))
