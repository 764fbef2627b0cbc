-- ===== src/Client/Forwarding.antt =====
-- frpc.py: what `forward_local_data` writes to the server.
use frp_python.Prelude.{
  if◌then◌else◌, ◌==◌, ==_refl, All, lookup, contains, lookup-erase, ◌≡◌, refl, ap, ◌∙◌, ◌≢◌, true,
  Option, none, some, List, [], ◌∷◌, ◌++◌, append-nil, append_assoc, arith, nat_eq, string_eq,
  list_eq,
}
use frp_python.Client.Delivery.{data_messages}
use frp_python.Client.Handlers.{close_conn}
use frp_python.Client.Relay.{forward_reads, forward_local_data, touch}
use frp_python.Client.State.{
  data_channel, control_channel, Client, Channel, Surroundings, data_writer_for, send, PoolEntry,
}
use frp_python.Protocol.Codec.{Bytes}
use frp_python.Protocol.Message.{Message}
use frp_python.Protocol.Roundtrip.{data_message}
use frp_python.Py.Text.{Text}

-- The messages that one channel is given.
abbrev pub on_channel : Channel → List Message → List (Channel × Message)
on_channel c [] = []
on_channel c (m ∷ ms) = (c, m) ∷ on_channel c ms

abbrev pub IsNonempty : Bytes → Type 0
IsNonempty d = d ≢ []

module _ (e : Surroundings) (conn_id : Text) where
  outbox-close_conn : (s : Client) → (close_conn conn_id s).outbox ≡ s.outbox
  unfolding close_conn
  outbox-close_conn s = ground arith

  gone-close_conn : (s : Client) → lookup conn_id (close_conn conn_id s).conn_pool ≡ none
  unfolding close_conn
  gone-close_conn s = ground (arith, lookup-erase conn_id conn_id s.conn_pool, self)
    where
      self : (conn_id == conn_id) ≡ true
      self = ==_refl conn_id

  -- Another time of activity changes neither what was sent nor the choice of the channel.
  touch-same :
      (o : Option PoolEntry) (s : Client)
      → ((touch e conn_id o s).outbox ≡ s.outbox) × ((touch e conn_id o s).data_open ≡ s.data_open)
  unfolding touch
  touch-same none s = (refl, refl)
  touch-same (some c) s = (refl, refl)

  forward_reads-lem :
      (reads : List Bytes) (s : Client)
      → All IsNonempty reads
      → e.alive (data_writer_for s) ≡ true
      → let after = forward_reads e conn_id (reads ++ [] ∷ []) s in
        (after.outbox ≡ s.outbox ++ on_channel (data_writer_for s) (data_messages conn_id reads))
        × (lookup conn_id after.conn_pool ≡ none)
  unfolding forward_reads
  forward_reads-lem [] s h a = (rw (append-nil s.outbox) (outbox-close_conn s), gone-close_conn s)
  forward_reads-lem ([] ∷ reads) s h a = absurd (h.0 refl)
  forward_reads-lem ((b ∷ bs) ∷ reads) s h a =
      let s' = touch e conn_id (lookup conn_id s.conn_pool) s in
      let same = touch-same (lookup conn_id s.conn_pool) s in
      let m = data_message conn_id (b ∷ bs) in
      let rest = data_messages conn_id reads in
      let channel : data_writer_for s' ≡ data_writer_for s =
        ap (λ up. if up then data_channel else control_channel) same.1 in
      let a' : e.alive (data_writer_for s') ≡ true = ap e.alive channel ∙ a in
      let (out, gone) = forward_reads-lem reads (send (data_writer_for s') m s') h.1 a' in
      let split =
        append_assoc s'.outbox ((data_writer_for s', m) ∷ [])
          (on_channel (data_writer_for s') rest) in
      let moved : s'.outbox ++ on_channel (data_writer_for s') (m ∷ rest)
          ≡ s.outbox ++ on_channel (data_writer_for s) (m ∷ rest) =
        cc (same.0, channel) in
      rw a' (out ∙ split ∙ moved, gone)

-- While the channel takes what is written, each read of the local service becomes one DATA
-- message, in order and on one channel. When the service closes its side the connection leaves
-- the pool, and nothing more is written: the server is not told.
pub forward_local_data-eq-messages :
    (e : Surroundings) (conn_id : Text) (reads : List Bytes) (s : Client)
    → contains conn_id s.conn_pool ≡ true
    → All IsNonempty reads
    → e.alive (data_writer_for s) ≡ true
    → let after = forward_local_data e conn_id (reads ++ [] ∷ []) s in
      (after.outbox ≡ s.outbox ++ on_channel (data_writer_for s) (data_messages conn_id reads))
      × (lookup conn_id after.conn_pool ≡ none)
unfolding forward_local_data
forward_local_data-eq-messages e conn_id reads s there h a =
    rw there (forward_reads-lem e conn_id reads s h a)
