-- ===== src/Client/Session.antt =====
-- frpc.py: `_login`, `_connect_data_channel` and `register_proxies`.
pub mod Answers
pub mod Registration
use frp_python.Prelude.{
  if◌then◌else◌, ◌==◌, codes, insert, ℕ, Bool, true, false, ◌||◌, not, Option, none, some, List, [],
  ◌∷◌, ◌++◌, nat_eq, string_eq, list_eq,
}
use frp_python.Client.Relay.{has_type}
use frp_python.Client.State.{
  control_channel, data_channel, ProxyInfo, Client, Surroundings, send, nat_of, text_at, name_key,
}
use frp_python.LogBuffer.{last}
use frp_python.Protocol.Codec.{raised, got, Bytes, Json, Decoded, decode}
use frp_python.Protocol.Message.{Value, Fields, Items, get, MessageType, Message}
use frp_python.Protocol.Roundtrip.{typed}
use frp_python.Py.Text.{Text}

-- The loops that wait for an answer: each read is appended to the buffer and at most one message
-- is taken off it. `none` is an exception: the connection ends or is silent too long, or the bytes
-- are not decoded. `judge` says which messages are answers.
abbrev pub judged {ℓ} :
    {A : Type ℓ} → (Message → Option A) → Decoded → (Bytes → Option A) → Option A
judged judge raised more = none
judged judge (got none rest) more = more rest
judged judge (got (some m) rest) more = elim (judge m) [ none ↦ more rest | some a ↦ some a ]

unfoldable pub wait_for {ℓ} :
    {A : Type ℓ} → Json → (Message → Option A) → Bytes → List Bytes → Option A
wait_for j judge buf [] = none
wait_for j judge buf (chunk ∷ reads) =
    judged judge (decode j (buf ++ chunk)) (λ rest. wait_for j judge rest reads)

-- The answers to LOGIN: the session and the server's data port, or a `PermissionError`.
pub data LoginAnswer : Type 0 where
  accepted : Text → ℕ → LoginAnswer
  denied : LoginAnswer

abbrev pub is_ok : Message → Bool
is_ok m = text_at (codes "status") m == codes "ok"

unfoldable pub login_answer : Message → Option LoginAnswer
login_answer m =
    if has_type MessageType.login_resp m
    then if is_ok m
      then some
          (accepted (text_at (codes "session_id") m) (nat_of (get (codes "data_port") m.payload)))
      else some denied
    else if has_type MessageType.error m
    then some denied
    else none

-- The port that the configuration sets comes first.
abbrev pub logged_in : Text → ℕ → Client → Client
logged_in session_id port s = record s {
  session_id = session_id;
  data_port = if s.data_port == 0 then port else s.data_port;
}

-- `_login` with the payload of the LOGIN message; `false` is an exception.
unfoldable pub login_with : Json → Surroundings → Fields → List Bytes → Client → Bool × Client
unfolding login_answer
login_with j e fields reads s =
    let sent = send control_channel (typed MessageType.login fields) s in
    if not (e.alive control_channel) then (false, s) else elim (wait_for j login_answer [] reads) [
      | none ↦ (false, sent)
      | some denied ↦ (false, sent)
      | some (accepted session_id port) ↦ (true, logged_in session_id port sent)
    ]

unfoldable pub auth_answer : Message → Option Bool
auth_answer m = if has_type MessageType.data_auth_resp m then some (is_ok m) else none

abbrev pub data_auth_message : Text → Message
data_auth_message session_id =
    typed MessageType.data_auth
      (Fields.field (codes "session_id") (Value.text session_id) Fields.end)

-- `_connect_data_channel`, by whether the connection is opened, and whether its writer is closing
-- when the wait is over; `false` is an exception. The writer is assigned before the server has
-- answered, and stays assigned.
unfoldable pub connect_data_channel :
    Json → Surroundings → Bool → Bool → List Bytes → Client → Bool × Client
unfolding auth_answer
connect_data_channel j e false closing reads s = (false, s)
connect_data_channel j e true closing reads s =
    let opened = record s { data_open = not closing } in
    let sent = send data_channel (data_auth_message s.session_id) opened in
    if not (e.alive data_channel)
    then (false, opened)
    else elim (wait_for j auth_answer [] reads) [ none ↦ (false, sent) | some ok ↦ (ok, sent) ]

-- An entry of `proxies` in the configuration, with the defaults of `proxy.get`.
pub record ProxyConfig : Type 0 where
  pub name : Text
  pub kind : Text
  pub enabled : Bool
  pub local_ip : Text
  pub local_port : Option ℕ
  pub remote_port : Option ℕ
  pub custom_domains : List Text
  pub subdomain : Text
  pub sk : Text
  pub bind_addr : Text
  pub bind_port : Option ℕ
  pub server_name : Text

abbrev pub port_value : Option ℕ → Value
port_value none = Value.null
port_value (some p) = Value.num p

abbrev pub texts : List Text → Items
texts [] = Items.nil
texts (t ∷ ts) = Items.cons (Value.text t) (texts ts)

abbrev pub local_fields : ProxyConfig → Fields → Fields
local_fields p fs =
    Fields.field (codes "local_port") (port_value p.local_port)
      (Fields.field (codes "local_ip") (Value.text p.local_ip) fs)

-- What stands behind the name and the type in a REGISTER message.
unfoldable pub register_fields : ProxyConfig → Fields
register_fields p =
    if p.kind == codes "http"
    then local_fields p (
        Fields.field (codes "custom_domains") (Value.arr (texts p.custom_domains))
          (Fields.field (codes "subdomain") (Value.text p.subdomain) Fields.end))
    else if p.kind == codes "stcp"
    then local_fields p (Fields.field (codes "sk") (Value.text p.sk) Fields.end)
    else if p.kind == codes "stcp_visitor"
    then Fields.field (codes "sk") (Value.text p.sk) (
        Fields.field (codes "bind_port") (port_value p.bind_port) (
          Fields.field (codes "bind_addr") (Value.text p.bind_addr)
            (Fields.field (codes "server_name") (Value.text p.server_name) Fields.end)))
    else Fields.field (codes "local_port") (port_value p.local_port) (
        Fields.field (codes "remote_port") (port_value p.remote_port)
          (Fields.field (codes "local_ip") (Value.text p.local_ip) Fields.end))

unfoldable pub register_message : ProxyConfig → Message
unfolding register_fields
register_message p = typed MessageType.register (
    Fields.field name_key (Value.text p.name)
      (Fields.field (codes "proxy_type") (Value.text p.kind) (register_fields p)))

abbrev pub is_visitor : ProxyConfig → Bool
is_visitor p = p.kind == codes "stcp_visitor"

unfoldable pub proxy_info : ProxyConfig → ProxyInfo
proxy_info p = record {
  kind = p.kind;
  local_ip = p.local_ip;
  local_port = elim p.local_port [ none ↦ 0 | some port ↦ port ];
  sk = if p.kind == codes "stcp" || is_visitor p then p.sk else [];
  server_name = if is_visitor p then p.server_name else p.name;
}

abbrev pub enter_proxy : ProxyConfig → Client → Client
enter_proxy p s = record (send control_channel (register_message p) s) {
  proxies = insert p.name (proxy_info p) s.proxies;
}

-- `register_proxies`; `false` is an exception, which leaves what was registered before.
unfoldable pub register_proxies : Surroundings → List ProxyConfig → Client → Bool × Client
unfolding register_message proxy_info
register_proxies e [] s = (true, s)
register_proxies e (p ∷ ps) s =
    let rest = register_proxies e ps (if p.enabled then enter_proxy p s else s) in
    if not p.enabled then rest else if e.alive control_channel then rest else (false, s)

-- `_connect_and_run` up to the start of its tasks. A data channel that fails is passed over.
unfoldable pub connect_and_run :
    Json
    → Surroundings
    → Bool
    → Fields
    → List ProxyConfig
    → Bool
    → Bool
    → List Bytes
    → List Bytes
    → Client
    → Bool × Client
unfolding login_with register_proxies connect_data_channel
connect_and_run j e has_token fields ps opens closing reads data_reads s =
    let first = if has_token then login_with j e fields reads s else (true, s) in
    let (ok, s') = register_proxies e ps first.1 in
    let last = (connect_data_channel j e opens closing data_reads s').1 in
    if not first.0
    then first
    else if not ok
    then (false, s')
    else if s'.data_port == 0 || s'.session_id == []
    then (true, s')
    else (true, last)
