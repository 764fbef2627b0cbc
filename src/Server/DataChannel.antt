-- ===== src/Server/DataChannel.antt =====
-- frps.py: `handle_data_conn`, from the messages that are decoded of each read. The addresses are
-- checked before.
pub mod Unlinked
mod Tests
use frp_python.Prelude.{
  if◌then◌else◌, lookup, insert, ℕ, String, Bool, true, false, Option, none, some, List, [], ◌∷◌,
  nat_eq, string_eq, list_eq,
}
use frp_python.Protocol.Codec.{Bytes}
use frp_python.Server.Cleanup.{handle_close}
use frp_python.Server.State.{Reply, Session, Server, write}
use frp_python.Server.Tcp.{handle_client_data, data_raises}

-- A message on the data channel, by its payload.
pub data DataMessage : Type 0 where
  data_auth_msg : String → DataMessage
  data_for_conn : String → Bytes → DataMessage
  close_of_conn : String → DataMessage
  unexpected : DataMessage

-- How the messages of one read are taken before the channel belongs to a session: an unknown
-- session ends it, and otherwise the last session that was named is linked, if any.
pub data AuthEnd : Type 0 where
  refused_auth : Server → AuthEnd
  checked_auth : Option String → Server → AuthEnd

abbrev pub put_session : String → Session → Server → Server
put_session id session s = record s { sessions = insert id session s.sessions }

abbrev pub linked_to : ℕ → String → Session → Server → Server
linked_to w id session s =
    write w Reply.data_auth_ok (put_session id (record session { data_writer = some w }) s)

unfoldable pub auth_messages : ℕ → List DataMessage → Option String → Server → AuthEnd
auth_messages w [] id s = checked_auth id s
auth_messages w (data_auth_msg i ∷ ms) id s = elim (lookup i s.sessions) [
  | none ↦ refused_auth (write w Reply.data_auth_error s)
  | some session ↦ auth_messages w ms (some i) (linked_to w i session s)
]
auth_messages w (m ∷ ms) id s = auth_messages w ms id s

-- The session that is linked, if any, the reads that are left, and the state.
abbrev pub Linked : Type 0
Linked = Option String × List (List DataMessage) × Server

abbrev pub after_messages : AuthEnd → List (List DataMessage) → (Server → Linked) → Linked
after_messages (refused_auth s) reads more = (none, [], s)
after_messages (checked_auth none s) reads more = more s
after_messages (checked_auth (some id) s) reads more = (some id, reads, s)

-- The reads up to the one that links a session; those behind it are left.
unfoldable pub auth_reads : ℕ → List (List DataMessage) → Server → Linked
unfolding auth_messages
auth_reads w [] s = (none, [], s)
auth_reads w (ms ∷ reads) s = after_messages (auth_messages w ms none s) reads (auth_reads w reads)

-- `session["data_writer"] = None`, where the session is still there
unfoldable pub unlink : String → Server → Server
unlink id s = elim (lookup id s.sessions) [
  | none ↦ s
  | some session ↦ put_session id (record session { data_writer = none }) s
]

module _ (listen : String → ℕ → Server → Option ℕ × Server) (alive : ℕ → Bool)
    (takes : String → Bool) (now w : ℕ) where
  -- The messages of one read; `false` is an exception, which ends the connection.
  unfoldable pub relay_messages : List DataMessage → Server → Bool × Server
  unfolding handle_client_data data_raises handle_close
  relay_messages [] s = (true, s)
  relay_messages (data_for_conn conn_id bs ∷ ms) s =
      let rest = relay_messages ms (handle_client_data listen alive takes now conn_id bs w s) in
      if data_raises conn_id s then (false, s) else rest
  relay_messages (close_of_conn conn_id ∷ ms) s = relay_messages ms (handle_close alive conn_id s)
  relay_messages (m ∷ ms) s = relay_messages ms s

  abbrev pub relay_reads : List (List DataMessage) → Server → Server
  relay_reads [] s = s
  relay_reads (ms ∷ reads) s =
      let r = relay_messages ms s in let rest = relay_reads reads r.1 in if r.0 then rest else r.1

  unfoldable pub after_auth : Option String → List (List DataMessage) → Server → Server
  unfolding relay_messages unlink
  after_auth none reads s = s
  after_auth (some id) reads s = unlink id (relay_reads reads s)

  -- `handle_data_conn`, over its reads
  unfoldable pub handle_data_conn : List (List DataMessage) → Server → Server
  unfolding auth_reads after_auth
  handle_data_conn reads s = let r = auth_reads w reads s in after_auth r.0 r.1 r.2
