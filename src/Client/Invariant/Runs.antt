-- ===== src/Client/Invariant/Runs.antt =====
-- frpc.py: the tasks of a session, one event after another.
use frp_python.Prelude.{ℕ, false, List, [], ◌∷◌}
use frp_python.Client.Handlers.{handle_stcp_visitor_conn}
use frp_python.Client.Invariant.{IsWellFormed, either, try_send-IsWellFormed}
use frp_python.Client.Invariant.Messages.{
  handle_stcp_visitor_conn-IsWellFormed, process_message-IsWellFormed, on_data_channel-IsWellFormed,
  forward_reads-IsWellFormed, ftp_reads-IsWellFormed,
}
use frp_python.Client.Relay.{
  forward_local_data, forward_ftp_data_to_server, datagram_received, process_message,
  on_data_channel,
}
use frp_python.Client.State.{Client, Surroundings}
use frp_python.Protocol.Codec.{Bytes}
use frp_python.Protocol.Message.{Message}
use frp_python.Py.Text.{Text}

-- What can happen in a session: a message on either connection, the reads of a forwarding task up
-- to where it waits again, a datagram of a local service, a user at a visitor's port, or the
-- data writer starts to close.
pub data ClientEvent : Type 0 where
  on_control : Message → ClientEvent
  on_data : Message → ClientEvent
  local_reads : Text → List Bytes → ClientEvent
  ftp_local_reads : Text → List Bytes → ClientEvent
  datagram : Text → Bytes → ClientEvent
  visitor : ℕ → Text → Text → ClientEvent
  data_writer_closes : ClientEvent

module _ (remote : Message → Client → Client) where
  unfoldable pub client_step : Surroundings → ClientEvent → Client → Client
  client_step e (ClientEvent.on_control m) s = process_message remote e m s
  client_step e (ClientEvent.on_data m) s = on_data_channel e m s
  client_step e (ClientEvent.local_reads k reads) s = forward_local_data e k reads s
  client_step e (ClientEvent.ftp_local_reads k reads) s = forward_ftp_data_to_server e k reads s
  client_step e (ClientEvent.datagram k bs) s = datagram_received e k bs s
  client_step e (ClientEvent.visitor w name k) s = handle_stcp_visitor_conn e w name k s
  client_step e ClientEvent.data_writer_closes s = record s { data_open = false }

  -- Each event meets its own surroundings.
  unfoldable pub client_run : List (Surroundings × ClientEvent) → Client → Client
  unfolding client_step
  client_run [] s = s
  client_run (ev ∷ evs) s = client_run evs (client_step ev.0 ev.1 s)

  module _ (keeps : (m : Message) (s : Client) → IsWellFormed s → IsWellFormed (remote m s)) where
    closed : (s : Client) → IsWellFormed s → IsWellFormed (record s { data_open = false })
    closed s w = record {
      unique_conns = w.unique_conns;
      unique_ftp = w.unique_ftp;
      known = w.known;
    }

    client_step-IsWellFormed :
        (e : Surroundings) (ev : ClientEvent) (s : Client)
        → IsWellFormed s
        → IsWellFormed (client_step e ev s)
    unfolding client_step forward_local_data forward_ftp_data_to_server datagram_received
    client_step-IsWellFormed e (ClientEvent.on_control m) s w =
        process_message-IsWellFormed e remote keeps m s w
    client_step-IsWellFormed e (ClientEvent.on_data m) s w = on_data_channel-IsWellFormed e m s w
    client_step-IsWellFormed e (ClientEvent.local_reads k reads) s w =
        either _ _ _ (forward_reads-IsWellFormed e k reads s w) w
    client_step-IsWellFormed e (ClientEvent.ftp_local_reads k reads) s w =
        either _ _ _ (ftp_reads-IsWellFormed e k reads s w) w
    client_step-IsWellFormed e (ClientEvent.datagram k bs) s w = try_send-IsWellFormed e _ _ s w
    client_step-IsWellFormed e (ClientEvent.visitor v name k) s w =
        handle_stcp_visitor_conn-IsWellFormed e v name k s w
    client_step-IsWellFormed e ClientEvent.data_writer_closes s w = closed s w

    -- In every run of a session, in whatever order the tasks take turns and whatever the
    -- surroundings do, no connection id stands twice in a table, and every connection of the pool
    -- belongs to a proxy that this client has registered. The run begins with such tables, and
    -- remote commands keep them so.
    pub client_run-IsWellFormed :
        (evs : List (Surroundings × ClientEvent)) (s : Client)
        → IsWellFormed s
        → IsWellFormed (client_run evs s)
    unfolding client_run
    client_run-IsWellFormed [] s w = w
    client_run-IsWellFormed (ev ∷ evs) s w =
        client_run-IsWellFormed evs (client_step ev.0 ev.1 s)
          (client_step-IsWellFormed ev.0 ev.1 s w)
