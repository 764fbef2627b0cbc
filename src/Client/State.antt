-- ===== src/Client/State.antt =====
-- frpc.py: `ClientState`, the writers of `FRPClient`, and what the client has written to them.
-- Proxy names and connection ids are texts; the empty text stands for one that is missing.
use frp_python.Prelude.{if◌then◌else◌, codes, Dict, ℕ, Bool, Option, some, List, [], ◌∷◌, ◌++◌}
use frp_python.Protocol.Codec.{Bytes, conn_id_key}
use frp_python.Protocol.Message.{Value, Fields, get, MessageType, Message}
use frp_python.Protocol.Roundtrip.{typed}
use frp_python.Py.Text.{Text}

-- An entry of `self.state.proxies`, without what nothing but the list of proxies reads.
pub record ProxyInfo : Type 0 where
  pub kind : Text
  pub local_ip : Text
  pub local_port : ℕ
  pub sk : Text
  pub server_name : Text

-- The other side of a connection by its writer or transport: `local_writer`, `visitor_writer` or
-- `udp_transport`.
pub data Peer : Type 0 where
  local_peer : ℕ → Peer
  visitor_peer : ℕ → Peer
  udp_peer : ℕ → Peer

abbrev pub handle_of : Peer → ℕ
handle_of (local_peer w) = w
handle_of (visitor_peer w) = w
handle_of (udp_peer w) = w

-- An entry of `conn_pool`, and one of `ftp_data_conns`.
pub record PoolEntry : Type 0 where
  pub proxy_name : Text
  pub peer : Peer
  pub last_activity : ℕ

pub record FtpConn : Type 0 where
  pub local_writer : ℕ
  pub ctrl_conn_id : Text
  pub proxy_name : Text
  pub last_activity : ℕ

-- The two connections to the server.
pub data Channel : Type 0 where
  control_channel data_channel : Channel

-- `data_open` says that there is a data writer that is not closing. `outbox` has the messages
-- for the server, `delivered` the bytes for the local side, `closed` the writers that were closed.
pub record Client : Type 0 where
  pub data_open : Bool
  pub session_id : Text
  pub data_port : ℕ
  pub proxies : Dict Text ProxyInfo
  pub conn_pool : Dict Text PoolEntry
  pub ftp_data_conns : Dict Text FtpConn
  pub outbox : List (Channel × Message)
  pub delivered : List (ℕ × Bytes)
  pub closed : List ℕ

-- What the surroundings do: a connection to a local service gives a writer or fails, a write to a
-- channel or to a local writer goes through or raises.
pub record Surroundings : Type 0 where
  pub now : ℕ
  pub connect : Text → ℕ → Option ℕ
  pub datagram : Text → ℕ → Option ℕ
  pub alive : Channel → Bool
  pub takes : ℕ → Bool

-- `_data_writer_for`
abbrev pub data_writer_for : Client → Channel
data_writer_for s = if s.data_open then data_channel else control_channel

-- `writer.write(Protocol.encode(message))` and `await writer.drain()`
abbrev pub send : Channel → Message → Client → Client
send c m s = record s { outbox = s.outbox ++ (c, m) ∷ [] }

-- The same where an exception is passed over.
abbrev pub try_send : Surroundings → Channel → Message → Client → Client
try_send e c m s = if e.alive c then send c m s else s

-- `payload.get(key)`, where the payload should have a text or a number
abbrev pub text_of : Option Value → Text
text_of (some (Value.text t)) = t
text_of _ = []

abbrev pub nat_of : Option Value → ℕ
nat_of (some (Value.num n)) = n
nat_of _ = 0

abbrev pub text_at : Text → Message → Text
text_at key m = text_of (get key m.payload)

abbrev pub name_key : Text
name_key = codes "proxy_name"

abbrev pub visitor_key : Text
visitor_key = codes "visitor_conn_id"

-- A message about a connection, with its id and nothing else.
abbrev pub about : MessageType → Text → Message
about t conn_id = typed t (Fields.field conn_id_key (Value.text conn_id) Fields.end)
