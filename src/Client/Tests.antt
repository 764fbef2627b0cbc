-- ===== src/Client/Tests.antt =====
-- frpc.py at concrete inputs. Every local service can be reached, and every write goes through.
use frp_python.Prelude.{
  ==_refl, codes, drop, All, lookup, ℕ, ◌≤◌, ◌≡◌, refl, true, false, none, some, List, [], ◌∷◌,
  ◌++◌, arith, nat_eq, string_eq, list_eq,
}
use frp_python.Client.Backoff.{Reconnect, Round, start, IsDelay, start_bounds}
use frp_python.Client.Delivery.{encode_all, data_messages, IsConnected}
use frp_python.Client.Handlers.{handle_new_conn}
use frp_python.Client.Handlers.Answered.{peer_for, IsAnswered, handle_new_conn-IsAnswered}
use frp_python.Client.Invariant.{IsWellFormed}
use frp_python.Client.Invariant.Runs.{ClientEvent, client_run, client_run-IsWellFormed}
use frp_python.Client.Session.{ProxyConfig}
use frp_python.Client.State.{local_peer, ProxyInfo, PoolEntry, Client, Surroundings, name_key}
use frp_python.Protocol.Codec.{
  Bytes, Json, pack_header, data_field, conn_id_field, conn_id_key, encode_data, encode_type,
  encode,
}
use frp_python.Protocol.Message.{
  Value, Fields, get, MessageType, type_to_code, Message, to_dict, IsPlain,
}
use frp_python.Protocol.Roundtrip.{IsFrameOf, typed, encode_json-IsFrameOf}
use frp_python.Protocol.Stream.{concat}
use frp_python.Py.Bytes.{rev_onto, to_le, to_be, hex_digit, hexlify}
use frp_python.Py.Int.{digit_value, digit_step, digits_from}
use frp_python.Py.Text.{starts_with, lstrip, rstrip, strip, remove_from, remove}
use frp_python.Py.Uuid.{hex_tail, hex_digits, drop_plus, uuid_hex, uuid_bytes, uuid_text}

-- A codec that writes and reads one dictionary.
abbrev answer_text : Bytes
answer_text = codes "ok"

abbrev answer_fields : Fields
answer_fields =
    Fields.field (codes "status") (Value.text (codes "ok"))
      (Fields.field (codes "session_id") (Value.text (codes "s1")) Fields.end)

abbrev login_reply : Message
login_reply = typed MessageType.login_resp answer_fields

abbrev one_json : Json
one_json = record {
  dumps = λ fs. some answer_text;
  loads = λ bs. some (Value.obj (to_dict login_reply));
}

abbrev calm : Surroundings
calm = record {
  now = 9;
  connect = λ ip port. some 40;
  datagram = λ ip port. some 41;
  alive = λ c. true;
  takes = λ w. true;
}

abbrev ids : Bytes
ids = 1 ∷ 2 ∷ 3 ∷ 4 ∷ 5 ∷ 6 ∷ 7 ∷ 8 ∷ 9 ∷ 10 ∷ 11 ∷ 12 ∷ 13 ∷ 14 ∷ 15 ∷ 16 ∷ []

abbrev web : ProxyInfo
web = record {
  kind = codes "http";
  local_ip = codes "127.0.0.1";
  local_port = 8080;
  sk = [];
  server_name = codes "web";
}

abbrev entry : PoolEntry
entry = record { proxy_name = codes "web"; peer = local_peer 7; last_activity = 3 }

-- A client with the proxy `web` and one connection to it.
abbrev busy : Client
busy = record {
  data_open = true;
  session_id = codes "s1";
  data_port = 7001;
  proxies = (codes "web", web) ∷ [];
  conn_pool = (uuid_text ids, entry) ∷ [];
  ftp_data_conns = [];
  outbox = [];
  delivered = [];
  closed = [];
}

abbrev idle : Client
idle = record busy { data_open = false; conn_pool = [] }

abbrev hello : List Bytes
hello = (104 ∷ 105 ∷ []) ∷ (33 ∷ []) ∷ []

-- Two frames in three reads.
abbrev frame_of : ℕ → Bytes → Bytes
frame_of n bs = 0xAA ∷ 1 ∷ 10 ∷ 0 ∷ 0 ∷ 0 ∷ 0 ∷ n ∷ ids ++ bs

abbrev reads : List Bytes
reads = (0xAA ∷ 1 ∷ []) ∷ drop 2 (frame_of 18 (104 ∷ 105 ∷ [])) ∷ frame_of 17 (33 ∷ []) ∷ []

hello_encoded : encode_all one_json (data_messages (uuid_text ids) hello) ≡ some (concat reads)
unfolding encode_all encode encode_type encode_data conn_id_field data_field get type_to_code
    pack_header uuid_bytes uuid_text uuid_hex hex_digits hex_tail drop_plus strip lstrip rstrip
    remove remove_from starts_with digits_from digit_step digit_value to_be to_le rev_onto hexlify
    hex_digit
hello_encoded = refl

busy-IsConnected : IsConnected (uuid_text ids) 7 busy
unfolding lookup
busy-IsConnected = record { no_ftp = refl; entry = entry; there = simp ==_refl; peer_is = refl }

-- The frame of the login_reply.
login_reply-IsFrame :
    (out : Bytes) × (encode one_json login_reply ≡ some out) × IsFrameOf one_json out login_reply
login_reply-IsFrame =
    let plain : IsPlain answer_fields =
      unfold get in record { no_type = refl; no_msg_type = refl; no_self = refl } in
    encode_json-IsFrameOf one_json MessageType.login_resp answer_fields answer_text (λ h. cc h)
      plain refl refl (omega arith)

abbrev shop : ProxyConfig
shop = record {
  name = codes "shop";
  kind = codes "tcp";
  enabled = true;
  local_ip = codes "127.0.0.1";
  local_port = some 80;
  remote_port = some 8000;
  custom_domains = [];
  subdomain = [];
  sk = [];
  bind_addr = codes "127.0.0.1";
  bind_port = none;
  server_name = codes "shop";
}

abbrev configs : List ProxyConfig
configs = record shop { enabled = false } ∷ shop ∷ []

abbrev new_conn : Message
new_conn = typed MessageType.new_conn (
    Fields.field name_key (Value.text (codes "web"))
      (Fields.field conn_id_key (Value.text (codes "c2")) Fields.end))

handle_new_conn-IsAnswered_example :
    IsAnswered (peer_for calm web) (codes "c2") busy (handle_new_conn calm new_conn busy)
unfolding get lookup
handle_new_conn-IsAnswered_example =
    handle_new_conn-IsAnswered calm new_conn busy web refl refl refl refl

busy-IsWellFormed : IsWellFormed busy
unfolding lookup
busy-IsWellFormed = record { unique_conns = (refl, tt); unique_ftp = tt; known = (refl, tt) }

abbrev events : List (Surroundings × ClientEvent)
events =
    (calm, ClientEvent.on_control new_conn)
    ∷ (calm, ClientEvent.local_reads (codes "c2") ([] ∷ []))
    ∷ (calm, ClientEvent.visitor 50 (codes "web") (codes "c3"))
    ∷ []

client_run-IsWellFormed_example : IsWellFormed (client_run (λ m s. s) events busy)
client_run-IsWellFormed_example =
    client_run-IsWellFormed (λ m s. s) (λ m s w. w) events busy busy-IsWellFormed

abbrev twice : Reconnect
twice = record { reconnect = true; max_retries = 2; base_delay = 1; max_delay = 60 }

abbrev rounds : List Round
rounds =
    Round.ended false false
    ∷ Round.ended false false
    ∷ Round.ended false false
    ∷ Round.ended false false
    ∷ []

start_bounds_example :
    let t = start twice 0 rounds in (t.connections ≤ 3) × All (IsDelay twice) t.delays
start_bounds_example = start_bounds twice rounds (omega arith)
