-- ===== src/Server/Ftp/Data.antt =====
-- frps.py: the data connections of an FTP proxy: `_create_ftp_data_listener`,
-- `_handle_ftp_data_conn` up to its wait, `handle_ftp_data_ready` and `_handle_ftp_data_message`.
-- The id that is made, and the port that is free and listened on, are arguments.
use frp_python.Prelude.{
  if◌then◌else◌, ◌==◌, is_nil, lookup, insert, erase, ℕ, String, Bool, true, false, ◌||◌, not,
  Option, none, some, [], ◌∷◌, ◌++◌, nat_eq, string_eq, list_eq,
}
use frp_python.Protocol.Codec.{Bytes}
use frp_python.Server.State.{Reply, Proxy, FtpData, Server, write}

abbrev pub put_ftp : String → FtpData → Server → Server
put_ftp data_conn_id d s = record s { ftp_data_ports = insert data_conn_id d s.ftp_data_ports }

-- What is written to the public side of a connection.
abbrev pub to_public : String → Bytes → Server → Server
to_public conn_id bs s = record s { public_out = s.public_out ++ (conn_id, bs) ∷ [] }

abbrev pub new_ftp_data : String → ℕ → ℕ → FtpData
new_ftp_data ctrl_conn_id internal_port public_port = record {
  ctrl_conn_id = ctrl_conn_id;
  internal_port = internal_port;
  public_port = public_port;
  is_ready = false;
  is_open = false;
  client_writer = none;
  buffer = [];
}

-- The message to the client; where its write raises, the entry is taken out again.
unfoldable pub announce_data :
    (ℕ → Bool) → String → String → ℕ → ℕ → Proxy → Server → Option ℕ × Server
announce_data alive ctrl_conn_id data_conn_id internal_port public_port p s =
    let entered = put_ftp data_conn_id (new_ftp_data ctrl_conn_id internal_port public_port) s in
    let told =
      write p.control_writer (Reply.ftp_new_data_msg ctrl_conn_id data_conn_id internal_port)
        entered in
    if alive p.control_writer
    then (some public_port, told)
    else (none, record s { ftp_data_ports = erase data_conn_id entered.ftp_data_ports })

unfoldable pub listen_for :
    (ℕ → Bool) → String → String → ℕ → Option ℕ → Option Proxy → Server → Option ℕ × Server
unfolding announce_data
listen_for alive ctrl_conn_id data_conn_id internal_port port none s = (none, s)
listen_for alive ctrl_conn_id data_conn_id internal_port none (some p) s = (none, s)
listen_for alive ctrl_conn_id data_conn_id internal_port (some port) (some p) s =
    announce_data alive ctrl_conn_id data_conn_id internal_port port p s

-- `_create_ftp_data_listener`; `free` is the port that a listener was started on.
unfoldable pub create_ftp_data_listener :
    (ℕ → Bool) → String → Option ℕ → String → ℕ → Server → Option ℕ × Server
unfolding listen_for
create_ftp_data_listener alive data_conn_id free ctrl_conn_id internal_port s =
    elim (lookup ctrl_conn_id s.conn_pool) [
      | none ↦ (none, s)
      | some c ↦
          listen_for alive ctrl_conn_id data_conn_id internal_port free
            (lookup c.proxy_name s.proxies) s
    ]

unfoldable pub open_data : (String → Bool) → String → Option FtpData → Server → Server
open_data takes data_conn_id none s = s
open_data takes data_conn_id (some d) s =
    let opened = put_ftp data_conn_id (record d { is_open = true; buffer = [] }) s in
    if is_nil d.buffer || not (takes data_conn_id)
    then opened
    else to_public data_conn_id d.buffer opened

-- `_handle_ftp_data_conn`: what was buffered goes to the connection that has come.
unfoldable pub handle_ftp_data_conn : (String → Bool) → String → Server → Server
unfolding open_data
handle_ftp_data_conn takes data_conn_id s =
    open_data takes data_conn_id (lookup data_conn_id s.ftp_data_ports) s

unfoldable pub ready_data : String → ℕ → Option FtpData → Server → Server
ready_data data_conn_id w none s = s
ready_data data_conn_id w (some d) s =
    put_ftp data_conn_id (record d { client_writer = some w; is_ready = true }) s

-- `handle_ftp_data_ready`
unfoldable pub handle_ftp_data_ready : String → ℕ → Server → Server
unfolding ready_data
handle_ftp_data_ready data_conn_id w s =
    if data_conn_id == ""
    then s
    else ready_data data_conn_id w (lookup data_conn_id s.ftp_data_ports) s

abbrev pub or_writer : Option ℕ → ℕ → Option ℕ
or_writer none w = some w
or_writer (some v) w = some v

unfoldable pub data_message_for :
    (String → Bool) → String → Bytes → ℕ → Option FtpData → Server → Server
data_message_for takes data_conn_id bs w none s = s
data_message_for takes data_conn_id bs w (some d) s =
    let linked = record d { client_writer = or_writer d.client_writer w } in
    let held = put_ftp data_conn_id (record linked { buffer = d.buffer ++ bs }) s in
    let kept = put_ftp data_conn_id linked s in
    if not d.is_open
    then held
    else if takes data_conn_id
    then to_public data_conn_id bs kept
    else kept

-- `_handle_ftp_data_message`; a write that raises closes the public socket and leaves the entry.
unfoldable pub handle_ftp_data_message : (String → Bool) → String → Bytes → ℕ → Server → Server
unfolding data_message_for
handle_ftp_data_message takes data_conn_id bs w s =
    data_message_for takes data_conn_id bs w (lookup data_conn_id s.ftp_data_ports) s
