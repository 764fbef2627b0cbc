-- ===== src/Server/Control.antt =====
-- frps.py: `handle_control_conn`, over the messages that it decodes from each read. The parsing of
-- an address and which writes raise are parameters; what other tasks do between two messages is
-- left out.
pub mod Named
pub mod Tables
pub mod Departed
pub mod Stranger
mod Tests
use frp_python.Prelude.{
  leb, if◌then◌else◌, ◌==◌, ℕ, ◌+◌, ◌-◌, String, Bool, true, false, not, Option, none, some, List,
  [], ◌∷◌, nat_eq, string_eq, list_eq,
}
use frp_python.Access.Control.{check_ip}
use frp_python.Access.Networks.{IpAddress}
use frp_python.Py.Text.{Text}
use frp_python.Server.Cleanup.{remove_session, cleanup_client_by_writer}
use frp_python.Server.Handlers.{handle_login}
use frp_python.Server.Messages.{ClientMessage, process_message, message_raises}
use frp_python.Server.State.{Server, write, Reply, Reason}

-- A message with the time of its handling: LOGIN with its token and the id that a session would
-- get, or one for `process_message`, with whether a listener for it could be started.
pub data ControlMessage : Type 0 where
  login_msg : ℕ → String → String → ControlMessage
  client_msg : ℕ → Bool → ClientMessage → ControlMessage

-- The variables of the loop; `stopped` says that it returned or ended in an exception.
pub record Loop : Type 0 where
  pub authenticated : Bool
  pub session : Option String
  pub stopped : Bool
  pub server : Server

unfoldable pub login_result : Option String × Server → Loop → Loop
login_result (none, s) l = record l {
  authenticated = false;
  session = none;
  stopped = true;
  server = s;
}
login_result (some id, s) l = record l { authenticated = true; session = some id; server = s }

module _ (listen : String → ℕ → Server → Option ℕ × Server) (alive : ℕ → Bool)
    (takes : String → Bool) (w : ℕ) where
  -- A message before the login, and one behind it.
  unfoldable pub control_message : Bool → ControlMessage → Loop → Loop
  unfolding login_result
  control_message false (login_msg now token id) l =
      login_result (handle_login alive id now token w l.server) l
  control_message false (client_msg now started m) l = record l {
    stopped = true;
    server = write w (Reply.error_msg Reason.authentication_required) l.server;
  }
  control_message true (login_msg now token id) l = l
  control_message true (client_msg now started m) l =
      let handled = process_message listen alive takes started now w l.session m l.server in
      if message_raises m l.server
      then record l { stopped = true }
      else record l { server = handled }

  -- The messages of one read.
  unfoldable pub control_messages : List ControlMessage → Loop → Loop
  unfolding control_message
  control_messages [] l = l
  control_messages (m ∷ ms) l =
      let next = control_message l.authenticated m l in
      let rest = control_messages ms next in if next.stopped then next else rest

  -- The reads, up to the end of the connection, the timeout or the stop of the server.
  unfoldable pub control_reads : List (List ControlMessage) → Loop → Loop
  unfolding control_messages
  control_reads [] l = l
  control_reads (ms ∷ reads) l =
      let next = control_messages ms l in
      let rest = control_reads reads next in if next.stopped then next else rest

  unfoldable pub remove_own_session : Option String → Server → Server
  remove_own_session none s = s
  remove_own_session (some id) s = remove_session id s

  -- The `finally` part.
  unfoldable pub close_control : Loop → Server
  unfolding remove_own_session
  close_control l = cleanup_client_by_writer alive w (
      remove_own_session l.session
        (record l.server { total_connections = l.server.total_connections - 1 }))

  -- `self.total_connections += 1` and what the loop starts with
  abbrev pub entered : Server → Loop
  entered s = record {
    authenticated = s.auth_token == "";
    session = none;
    stopped = false;
    server = record s { total_connections = s.total_connections + 1 };
  }

  -- `handle_control_conn`
  unfoldable pub handle_control_conn :
      IpAddress → Text → List (List ControlMessage) → Server → Server
  unfolding control_reads close_control
  handle_control_conn lib ip reads s =
      if not (check_ip lib s.access ip)
      then s
      else if leb s.max_connections s.total_connections
      then if alive w then write w (Reply.error_msg Reason.connection_limit) s else s
      else close_control (control_reads reads (entered s))
