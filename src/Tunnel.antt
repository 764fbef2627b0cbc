-- ===== src/Tunnel.antt =====
-- frps.py and frpc.py together: from a public connection of the server to the local service of the
-- client, over the data channel between them.
mod Tests
use frp_python.Prelude.{
  if◌then◌else◌, ◌==◌, ==_refl, codes, length, All, all, lookup, contains, ℕ, String, ◌≡◌, refl,
  sym, ap, ◌∙◌, Bool, true, Option, none, some, List, [], ◌∷◌, ◌++◌, nat_eq, string_eq, list_eq,
}
use frp_python.Client.Delivery.{
  encode_all, data_messages, FitsFrame, writes, IsConnected, handle_data_messages-delivers,
  receive-data_messages,
}
use frp_python.Client.Forwarding.{on_channel, IsNonempty, forward_local_data-eq-messages}
use frp_python.Client.Relay.{handle_data_messages, data_of, forward_local_data}
use frp_python.Client.State.{Surroundings, Client, Channel, data_writer_for, text_at}
use frp_python.ForwardProxy.Request.{connected}
use frp_python.Protocol.Codec.{Bytes, Json, conn_id_key}
use frp_python.Protocol.Message.{Message, get}
use frp_python.Protocol.Roundtrip.{data_message}
use frp_python.Protocol.Stream.{concat, receive}
use frp_python.Py.Bytes.{AreBytes}
use frp_python.Py.Text.{Text}
use frp_python.Py.Uuid.{uuid_text}
use frp_python.Server.State.{Reply, Conn, Server}
use frp_python.Server.Tcp.{forward_proxy_data, with_prepended}
use frp_python.Server.Tcp.Forwarded.{conn_datas, AreSome, forward_proxy_data-IsForwarded}
use frp_python.Server.Tcp.Relayed.{IsStream, public_writes, client_datas, client_datas-IsPassedOn}

-- The DATA messages that the server writes, as `Message` objects.
abbrev pub as_messages : List (ℕ × Reply) → List Message
as_messages [] = []
as_messages ((w, Reply.conn_data conn_id bs) ∷ out) =
    data_message (codes conn_id) bs ∷ as_messages out
as_messages ((w, m) ∷ out) = as_messages out

as_messages-conn_datas :
    (w : ℕ) (conn_id : String) (ds : List Bytes)
    → as_messages (conn_datas w conn_id ds) ≡ data_messages (codes conn_id) ds
as_messages-conn_datas w conn_id [] = refl
as_messages-conn_datas w conn_id (d ∷ ds) =
    ap (λ ms. data_message (codes conn_id) d ∷ ms) (as_messages-conn_datas w conn_id ds)

-- What a public client sends is written to the local service complete and in order, first what the
-- server had read before and then one write for a read, however the bytes of the data channel are
-- cut into pieces. The server has written nothing else to the channel, its connection is ready and
-- its writes go through; the client has the connection, under the same id, which is the text of a
-- UUID, and its local service takes what it is given; every read fits a frame.
pub forward_proxy_data-delivers :
    (j : Json) (e : Surroundings) (alive : ℕ → Bool) (now w v : ℕ) (conn_id : String) (u : Bytes)
    (c : Conn) (reads pieces : List Bytes) (s : Server) (client : Client)
    → AreBytes u
    → length u ≡ 16
    → codes conn_id ≡ uuid_text u
    → s.outbox ≡ []
    → lookup conn_id s.conn_pool ≡ some c
    → c.client_ready ≡ true
    → c.client_writer ≡ some w
    → alive w ≡ true
    → AreSome reads
    → All FitsFrame (with_prepended c.prepend_data reads)
    → e.takes v ≡ true
    → IsConnected (uuid_text u) v client
    → encode_all j (as_messages (forward_proxy_data alive now conn_id (reads ++ [] ∷ []) s).outbox)
      ≡ some (concat pieces)
    → (handle_data_messages j e pieces client).delivered
      ≡ client.delivered ++ writes v (with_prepended c.prepend_data reads)
forward_proxy_data-delivers j e alive now w v conn_id u c reads pieces s client bytes sixteen id_eq
      fresh there ready writer up some_reads fits takes connected encoded =
    let ds = with_prepended c.prepend_data reads in
    let t = forward_proxy_data alive now conn_id (reads ++ [] ∷ []) s in
    let f =
      forward_proxy_data-IsForwarded alive now w conn_id c reads s there ready writer up
        some_reads in
    let out : t.outbox ≡ conn_datas w conn_id ds =
      f.sent ∙ ap (λ o. o ++ conn_datas w conn_id ds) fresh in
    let all : as_messages t.outbox ≡ data_messages (uuid_text u) ds =
      ap as_messages out
      ∙ as_messages-conn_datas w conn_id ds
      ∙ ap (λ i. data_messages i ds) id_eq in
    handle_data_messages-delivers j e u v ds pieces client bytes sixteen fits takes connected
      (ap (encode_all j) (sym all) ∙ encoded)

-- The data of the messages for a connection.
unfoldable pub payloads : Text → List Message → List Bytes
payloads conn_id [] = []
payloads conn_id (m ∷ ms) =
    let rest = payloads conn_id ms in
    if text_at conn_id_key m == conn_id
    then elim (data_of m) [ none ↦ rest | some bs ↦ bs ∷ rest ]
    else rest

payloads-data_messages :
    (conn_id : Text) (ds : List Bytes) → payloads conn_id (data_messages conn_id ds) ≡ ds
unfolding payloads data_of get
payloads-data_messages conn_id [] = refl
payloads-data_messages conn_id (d ∷ ds) =
    let same : (conn_id == conn_id) ≡ true = ==_refl conn_id in
    rw same (ap (λ ps. d ∷ ps) (payloads-data_messages conn_id ds))

abbrev pub sent_messages : List (Channel × Message) → List Message
sent_messages [] = []
sent_messages ((c, m) ∷ out) = m ∷ sent_messages out

sent_messages-on_channel : (c : Channel) (ms : List Message) → sent_messages (on_channel c ms) ≡ ms
sent_messages-on_channel c [] = refl
sent_messages-on_channel c (m ∷ ms) = ap (λ rest. m ∷ rest) (sent_messages-on_channel c ms)

-- The other direction: what the local service sends is written to the public connection complete
-- and in order, one write for a read, however the bytes of the channel are cut into pieces. The
-- client has written nothing else to the channel, has the connection and its writes go through;
-- the server has the connection, of a TCP or HTTP proxy and under the same id, which is the text of
-- a UUID, and its public side takes what it is given; every read fits a frame.
pub forward_local_data-delivers :
    (j : Json) (e : Surroundings) (listen : String → ℕ → Server → Option ℕ × Server)
    (alive : ℕ → Bool) (takes : String → Bool) (now w : ℕ) (conn_id : String) (u : Bytes)
    (reads pieces : List Bytes) (s : Server) (client : Client)
    → AreBytes u
    → length u ≡ 16
    → codes conn_id ≡ uuid_text u
    → client.outbox ≡ []
    → contains (uuid_text u) client.conn_pool ≡ true
    → e.alive (data_writer_for client) ≡ true
    → All IsNonempty reads
    → All FitsFrame reads
    → takes conn_id ≡ true
    → IsStream conn_id s
    → encode_all j
        (sent_messages (forward_local_data e (uuid_text u) (reads ++ [] ∷ []) client).outbox)
      ≡ some (concat pieces)
    → (client_datas listen alive takes now conn_id w
        (payloads (codes conn_id) (receive j (some []) pieces).0)
        s).public_out
      ≡ s.public_out ++ public_writes conn_id reads
forward_local_data-delivers j e listen alive takes now w conn_id u reads pieces s client bytes
      sixteen id_eq fresh there up some_reads fits ok stream encoded =
    let after = forward_local_data e (uuid_text u) (reads ++ [] ∷ []) client in
    let c = data_writer_for client in
    let ms = data_messages (uuid_text u) reads in
    let f = forward_local_data-eq-messages e (uuid_text u) reads client there some_reads up in
    let out : after.outbox ≡ on_channel c ms = f.0 ∙ ap (λ o. o ++ on_channel c ms) fresh in
    let all : sent_messages after.outbox ≡ ms =
      ap sent_messages out ∙ sent_messages-on_channel c ms in
    let (wire_bytes, g, got_all) = receive-data_messages j u bytes sixteen reads fits in
    let h : encode_all j ms ≡ some (concat pieces) = ap (encode_all j) (sym all) ∙ encoded in
    let same : concat pieces ≡ wire_bytes = cc (h, g) in
    let data_eq : payloads (codes conn_id) (receive j (some []) pieces).0 ≡ reads =
      ap (λ r. payloads (codes conn_id) r.0) (got_all pieces same)
      ∙ ap (λ i. payloads i ms) id_eq
      ∙ payloads-data_messages (uuid_text u) reads in
    ap (λ ds. (client_datas listen alive takes now conn_id w ds s).public_out) data_eq
    ∙ (client_datas-IsPassedOn listen alive takes now conn_id w ok reads s stream).0
