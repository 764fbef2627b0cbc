-- ===== src/Server/State.antt =====
-- frps.py: the tables of `FRPServer.__init__`, and what the handlers write.
use frp_python.Prelude.{Dict, ℕ, String, Bool, Option, none, some, List, [], ◌∷◌, ◌++◌}
use frp_python.Access.Control.{AccessControl}
use frp_python.Protocol.Codec.{Bytes}
use frp_python.Py.Text.{Text}
use frp_python.Stats.{Stats}

-- The texts of ERROR messages.
pub data Reason : Type 0 where
  missing_proxy_name missing_remote_port port_not_allowed already_registered : Reason
  http_not_enabled domains_required no_subdomain_host domain_in_use : Reason
  missing_sk missing_bind_port stcp_not_found invalid_key : Reason
  unsupported_type connection_limit authentication_required : Reason

-- The messages that the server writes to its clients.
pub data Reply : Type 0 where
  error_msg : Reason → Reply
  login_ok : String → Option ℕ → Reply
  login_error : Reply
  data_auth_ok data_auth_error : Reply
  new_conn_msg : String → String → Reply
  stcp_new_visitor_msg : String → String → Reply
  conn_data : String → Bytes → Reply
  conn_close : String → Reply
  pong_msg : Reply
  ftp_new_data_msg : String → String → ℕ → Reply
  remote_cmd_msg : String → String → Bytes → Reply

-- A session, without what the client says of its machine.
pub record Session : Type 0 where
  pub control_writer : ℕ
  pub data_writer : Option ℕ
  pub proxies : List String
  pub last_heartbeat : ℕ
  pub pending_cmds : List String
  pub cmd_results : Dict String Bytes

-- An entry of `self.proxies`: a TCP, UDP or FTP proxy.
pub record Proxy : Type 0 where
  pub kind : String
  pub remote_port : ℕ
  pub control_writer : ℕ
  pub session_id : Option String
  pub last_activity : ℕ

pub record HttpProxy : Type 0 where
  pub custom_domains : List Text
  pub subdomain : Text
  pub control_writer : ℕ
  pub session_id : Option String

pub record Provider : Type 0 where
  pub sk : String
  pub control_writer : ℕ
  pub session_id : Option String

pub record Visitor : Type 0 where
  pub sk : String
  pub bind_port : ℕ
  pub server_name : String
  pub control_writer : ℕ
  pub session_id : Option String

-- An entry of `self.stcp_conns`. A buffer that is not there yet is empty.
pub record StcpConn : Type 0 where
  pub proxy_name : String
  pub visitor_writer : Option ℕ
  pub provider_writer : Option ℕ
  pub visitor_buffer : Bytes
  pub provider_buffer : Bytes
  pub last_activity : ℕ

-- The public side of a connection: a stream, the control connection of an FTP proxy with what it
-- has buffered of an answer, or the address that a datagram came from.
pub data PublicSide : Type 0 where
  stream_side : PublicSide
  ftp_side : Text → PublicSide
  udp_side : PublicSide

-- An entry of `self.conn_pool`. Data to send before the first read is empty where there is none.
pub record Conn : Type 0 where
  pub proxy_name : String
  pub side : PublicSide
  pub prepend_data : Bytes
  pub client_writer : Option ℕ
  pub client_ready : Bool
  pub last_activity : ℕ

-- An entry of `self.ftp_data_ports`; `is_open` says whether there is a public connection.
pub record FtpData : Type 0 where
  pub ctrl_conn_id : String
  pub internal_port : ℕ
  pub public_port : ℕ
  pub is_ready : Bool
  pub is_open : Bool
  pub client_writer : Option ℕ
  pub buffer : Bytes

-- `outbox` has the messages to the clients, `public_out` the bytes to the public side of each
-- connection.
pub record Server : Type 0 where
  pub bind_addr : Text
  pub auth_token : String
  pub max_connections : ℕ
  pub idle_timeout : ℕ
  pub data_port : Option ℕ
  pub vhost_http_port : Option ℕ
  pub subdomain_host : Text
  pub access : AccessControl
  pub stats : Stats
  pub total_connections : ℕ
  pub sessions : Dict String Session
  pub proxies : Dict String Proxy
  pub http_proxies : Dict String HttpProxy
  pub stcp_providers : Dict String Provider
  pub stcp_visitors : Dict String Visitor
  pub stcp_conns : Dict String StcpConn
  pub conn_pool : Dict String Conn
  pub ftp_data_ports : Dict String FtpData
  pub outbox : List (ℕ × Reply)
  pub public_out : List (String × Bytes)

-- `writer.write(Protocol.encode(message))` and `await writer.drain()`
abbrev pub write : ℕ → Reply → Server → Server
write w m s = record s { outbox = s.outbox ++ (w, m) ∷ [] }

-- A port that may be `None`, as the statistics keep it.
abbrev pub or_zero : Option ℕ → ℕ
or_zero none = 0
or_zero (some p) = p
