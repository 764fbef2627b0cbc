-- ===== src/Server/Messages.antt =====
-- frps.py: `process_message` of the server, by the payload of a message.
use frp_python.Prelude.{
  lookup, ℕ, String, Bool, false, Option, none, some, nat_eq, string_eq, list_eq,
}
use frp_python.Protocol.Codec.{Bytes}
use frp_python.Server.Cleanup.{handle_close}
use frp_python.Server.Ftp.Data.{handle_ftp_data_ready}
use frp_python.Server.Handlers.{
  Request, handle_register, handle_init_conn, handle_ping, handle_remote_cmd_resp,
}
use frp_python.Server.State.{Session, Server}
use frp_python.Server.Stcp.{handle_stcp_new_visitor, handle_stcp_visitor_ready}
use frp_python.Server.Tcp.{handle_client_data, data_raises}

-- A message on a control connection. A name or an id that is missing stands as the empty text.
pub data ClientMessage : Type 0 where
  on_register : Request → ClientMessage
  on_init_conn : String → ClientMessage
  on_ping : ClientMessage
  on_data_msg : String → Bytes → ClientMessage
  on_close : String → ClientMessage
  on_stcp_new_visitor : String → String → ClientMessage
  on_stcp_visitor_ready : String → String → ClientMessage
  on_ftp_data_ready : String → ClientMessage
  on_remote_cmd_resp : String → Bytes → ClientMessage
  on_other : ClientMessage

-- Whether `process_message` ends in the exception of `handle_data`.
abbrev pub message_raises : ClientMessage → Server → Bool
message_raises (ClientMessage.on_data_msg id bs) s = data_raises id s
message_raises m s = false

abbrev pub session_of : Option String → Server → Option Session
session_of none s = none
session_of (some id) s = lookup id s.sessions

-- `started` says for REGISTER whether the listener could be started.
module _ (listen : String → ℕ → Server → Option ℕ × Server) (alive : ℕ → Bool)
    (takes : String → Bool) (started : Bool) (now w : ℕ) (session : Option String) where
  unfoldable pub process_message : ClientMessage → Server → Server
  unfolding handle_register handle_init_conn handle_ping handle_client_data handle_close
      handle_stcp_new_visitor handle_stcp_visitor_ready handle_ftp_data_ready handle_remote_cmd_resp
  process_message (ClientMessage.on_register r) s = handle_register started now r w session s
  process_message (ClientMessage.on_init_conn id) s =
      handle_init_conn now id w (session_of session s) s
  process_message ClientMessage.on_ping s = handle_ping alive now w session s
  process_message (ClientMessage.on_data_msg id bs) s =
      handle_client_data listen alive takes now id bs w s
  process_message (ClientMessage.on_close id) s = handle_close alive id s
  process_message (ClientMessage.on_stcp_new_visitor name id) s =
      handle_stcp_new_visitor alive now name id w s
  process_message (ClientMessage.on_stcp_visitor_ready name id) s =
      handle_stcp_visitor_ready alive now name id w s
  process_message (ClientMessage.on_ftp_data_ready id) s = handle_ftp_data_ready id w s
  process_message (ClientMessage.on_remote_cmd_resp id result) s =
      handle_remote_cmd_resp id result session s
  process_message ClientMessage.on_other s = s
