-- ===== src/Server/Remote.antt =====
-- frps.py: `send_remote_cmd`, up to its wait and behind it. The id of the command is an argument,
-- as are the payloads of a command and of its answer. A session that was removed during the wait has
-- no answers here.
pub mod Answers
mod Tests
use frp_python.Prelude.{
  if◌then◌else◌, elem, lookup, insert, erase, ℕ, String, ◌⊎◌, inl, inr, Bool, Option, none, some,
  List, [], ◌∷◌, ◌++◌, nat_eq, string_eq, list_eq,
}
use frp_python.Protocol.Codec.{Bytes}
use frp_python.Server.Handlers.{forget, handle_remote_cmd_resp}
use frp_python.Server.State.{Server, Session, Reply, write}

pub data CmdError : Type 0 where
  client_not_found client_disconnected send_failed cmd_timeout no_response : CmdError

abbrev pub put_cmd_session : String → Session → Server → Server
put_cmd_session id session s = record s { sessions = insert id session s.sessions }

-- `pending_cmds[cmd_id] = event`
abbrev pub note_pending : String → List String → List String
note_pending id ids = if elem id ids then ids else ids ++ id ∷ []

-- `pending_cmds.pop(cmd_id, None)` of a session
abbrev pub without_pending : String → Session → Session
without_pending cmd_id session = record session {
  pending_cmds = forget cmd_id session.pending_cmds;
}

unfoldable pub begin_cmd :
    (ℕ → Bool)
    → (ℕ → Bool)
    → String
    → String
    → String
    → Bytes
    → Option Session
    → Server
    → Option CmdError × Server
unfolding forget
begin_cmd alive closing id cmd_id cmd args none s = (some client_not_found, s)
begin_cmd alive closing id cmd_id cmd args (some session) s =
    let w = session.control_writer in
    let noted : Session = record session {
      pending_cmds = note_pending cmd_id session.pending_cmds;
    } in
    if closing w
    then (some client_disconnected, s)
    else if alive w
    then (none, write w (Reply.remote_cmd_msg cmd_id cmd args) (put_cmd_session id noted s))
    else (some send_failed, put_cmd_session id (without_pending cmd_id noted) s)

-- `session["cmd_results"].pop(cmd_id, None)`
abbrev pub without_result : String → Session → Session
without_result cmd_id session = record session { cmd_results = erase cmd_id session.cmd_results }

abbrev pub result_or_error : Option Bytes → CmdError ⊎ Bytes
result_or_error none = inl no_response
result_or_error (some r) = inr r

-- Behind the wait: the event is set when the answer took the command out of the table.
unfoldable pub end_cmd : String → String → Option Session → Server → (CmdError ⊎ Bytes) × Server
unfolding forget
end_cmd id cmd_id none s = (inl cmd_timeout, s)
end_cmd id cmd_id (some session) s =
    if elem cmd_id session.pending_cmds
    then (
      inl cmd_timeout,
      put_cmd_session id (without_result cmd_id (without_pending cmd_id session)) s,
    )
    else (
      result_or_error (lookup cmd_id session.cmd_results),
      put_cmd_session id (without_result cmd_id session) s,
    )

-- `send_remote_cmd`: its two parts, for the session that the server has under an id
unfoldable pub start_remote_cmd :
    (ℕ → Bool) → (ℕ → Bool) → String → String → String → Bytes → Server → Option CmdError × Server
unfolding begin_cmd
start_remote_cmd alive closing id cmd_id cmd args s =
    begin_cmd alive closing id cmd_id cmd args (lookup id s.sessions) s

unfoldable pub finish_remote_cmd : String → String → Server → (CmdError ⊎ Bytes) × Server
unfolding end_cmd
finish_remote_cmd id cmd_id s = end_cmd id cmd_id (lookup id s.sessions) s

-- Answers on the control connection of a session, in turn.
unfoldable pub answers_of : String → List (String × Bytes) → Server → Server
unfolding handle_remote_cmd_resp
answers_of id [] s = s
answers_of id ((cmd_id, result) ∷ rest) s =
    answers_of id rest (handle_remote_cmd_resp cmd_id result (some id) s)
