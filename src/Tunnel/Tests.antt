-- ===== src/Tunnel/Tests.antt =====
-- frps.py and frpc.py: a request in two parts, of which the server has read the first before.
use frp_python.Prelude.{
  codes, lookup, insert, erase, ℕ, String, ◌≡◌, refl, true, Option, none, some, List, [], ◌∷◌, ◌++◌,
  arith, nat_eq, string_eq, list_eq,
}
use frp_python.Access.Control.{open_access}
use frp_python.Client.Delivery.{encode_all, writes, IsConnected}
use frp_python.Client.Relay.{handle_data_messages, touch, forward_reads, forward_local_data}
use frp_python.Client.State.{local_peer, PoolEntry, Client, Surroundings}
use frp_python.Protocol.Codec.{
  Bytes, Json, pack_header, data_field, conn_id_field, encode_data, encode_type, encode,
}
use frp_python.Protocol.Message.{get, type_to_code}
use frp_python.Protocol.Stream.{concat, receive}
use frp_python.Py.Bytes.{rev_onto, to_le, to_be, hex_digit, hexlify}
use frp_python.Py.Int.{digit_value, digit_step, digits_from}
use frp_python.Py.Text.{starts_with, lstrip, rstrip, strip, remove_from, remove}
use frp_python.Py.Uuid.{hex_tail, hex_digits, drop_plus, uuid_hex, uuid_bytes, uuid_text}
use frp_python.Server.Cleanup.{close_pooled, close_conn}
use frp_python.Server.State.{stream_side, Conn, Server}
use frp_python.Server.Tcp.{pass_on, forward_public, forward_entry, forward_proxy_data}
use frp_python.Server.Tcp.Relayed.{IsStream, public_writes, client_datas}
use frp_python.Stats.{new_stats, on_disconnect, on_data_in}
use frp_python.Tunnel.{
  as_messages, forward_proxy_data-delivers, payloads, sent_messages, forward_local_data-delivers,
}

abbrev id : String
id = "01020304-0506-0708-090a-0b0c0d0e0f10"

abbrev ids : Bytes
ids = 1 ∷ 2 ∷ 3 ∷ 4 ∷ 5 ∷ 6 ∷ 7 ∷ 8 ∷ 9 ∷ 10 ∷ 11 ∷ 12 ∷ 13 ∷ 14 ∷ 15 ∷ 16 ∷ []

abbrev page : Conn
page = record {
  proxy_name = "web";
  side = stream_side;
  prepend_data = codes "GET ";
  client_writer = some 1;
  client_ready = true;
  last_activity = 100;
}

abbrev serving : Server
serving = record {
  bind_addr = codes "0.0.0.0";
  auth_token = "secret";
  max_connections = 10;
  idle_timeout = 300;
  data_port = none;
  vhost_http_port = none;
  subdomain_host = [];
  access = open_access;
  stats = new_stats 0;
  total_connections = 0;
  sessions = [];
  proxies = [];
  http_proxies = [];
  stcp_providers = [];
  stcp_visitors = [];
  stcp_conns = [];
  conn_pool = (id, page) ∷ [];
  ftp_data_ports = [];
  outbox = [];
  public_out = [];
}

abbrev calm : Surroundings
calm = record {
  now = 9;
  connect = λ ip port. some 40;
  datagram = λ ip port. some 41;
  alive = λ c. true;
  takes = λ w. true;
}

abbrev entry : PoolEntry
entry = record { proxy_name = codes "web"; peer = local_peer 7; last_activity = 3 }

abbrev client : Client
client = record {
  data_open = true;
  session_id = codes "s1";
  data_port = 7001;
  proxies = [];
  conn_pool = (codes id, entry) ∷ [];
  ftp_data_conns = [];
  outbox = [];
  delivered = [];
  closed = [];
}

abbrev no_json : Json
no_json = record { dumps = λ fs. none; loads = λ bs. none }

abbrev request : List Bytes
request = codes "/" ∷ []

-- Two frames in two pieces that are cut inside the first.
abbrev pieces : List Bytes
pieces =
    (0xAA ∷ 1 ∷ 10 ∷ [])
    ∷ (0 ∷ 0 ∷ 0 ∷ 0 ∷ 20 ∷ ids
        ++ (codes "GET " ++ (0xAA ∷ 1 ∷ 10 ∷ 0 ∷ 0 ∷ 0 ∷ 0 ∷ 17 ∷ ids ++ codes "/")))
    ∷ []

id_text : codes id ≡ uuid_text ids
unfolding uuid_text hexlify hex_digit
id_text = refl

page_there : lookup id serving.conn_pool ≡ some page
unfolding lookup
page_there = refl

encoded :
    encode_all no_json
      (as_messages (forward_proxy_data (λ w. true) 200 id (request ++ [] ∷ []) serving).outbox)
    ≡ some (concat pieces)
unfolding forward_proxy_data forward_entry forward_public pass_on close_conn close_pooled lookup
    encode_all encode encode_type encode_data conn_id_field data_field get type_to_code pack_header
    uuid_bytes uuid_hex hex_digits hex_tail drop_plus strip lstrip rstrip remove remove_from
    starts_with digits_from digit_step digit_value to_be to_le rev_onto on_data_in on_disconnect
    insert erase
encoded = refl

client-IsConnected : IsConnected (uuid_text ids) 7 client
unfolding lookup uuid_text hexlify hex_digit
client-IsConnected = record { no_ftp = refl; entry = entry; there = refl; peer_is = refl }

forward_proxy_data-delivers_example :
    (handle_data_messages no_json calm pieces client).delivered
    ≡ writes 7 (codes "GET " ∷ codes "/" ∷ [])
forward_proxy_data-delivers_example =
    forward_proxy_data-delivers no_json calm (λ w. true) 200 1 7 id ids page request pieces serving
      client (omega arith) refl id_text refl page_there refl refl refl ((λ e. cc e), tt)
      (omega arith) refl client-IsConnected encoded

-- One frame in two pieces.
abbrev reply : List Bytes
reply = codes "200 OK" ∷ []

abbrev reply_pieces : List Bytes
reply_pieces = (0xAA ∷ 1 ∷ 10 ∷ 0 ∷ []) ∷ (0 ∷ 0 ∷ 0 ∷ 22 ∷ ids ++ codes "200 OK") ∷ []

reply_encoded :
    encode_all no_json
      (sent_messages (forward_local_data calm (uuid_text ids) (reply ++ [] ∷ []) client).outbox)
    ≡ some (concat reply_pieces)
unfolding forward_local_data forward_reads touch lookup insert erase
    frp_python.Client.Handlers.close_conn uuid_text hexlify hex_digit encode_all encode encode_type
    encode_data conn_id_field data_field get type_to_code pack_header uuid_bytes uuid_hex hex_digits
    hex_tail drop_plus strip lstrip rstrip remove remove_from starts_with digits_from digit_step
    digit_value to_be to_le rev_onto
reply_encoded = refl

page-IsStream : IsStream id serving
unfolding lookup
page-IsStream = record {
  no_stcp = refl;
  no_ftp_data = refl;
  entry = page;
  there = refl;
  stream = refl;
}

abbrev no_listener : String → ℕ → Server → Option ℕ × Server
no_listener ctrl port s = (none, s)

forward_local_data-delivers_example :
    (client_datas no_listener
      (λ w. true)
      (λ i. true)
      200
      id
      1
      (payloads (codes id) (receive no_json (some []) reply_pieces).0)
      serving).public_out
    ≡ public_writes id reply
forward_local_data-delivers_example =
    forward_local_data-delivers no_json calm no_listener (λ w. true) (λ i. true) 200 1 id ids reply
      reply_pieces serving client (omega arith) refl id_text refl (rw client-IsConnected.there refl)
      refl ((λ e. cc e), tt) (omega arith) refl page-IsStream reply_encoded
