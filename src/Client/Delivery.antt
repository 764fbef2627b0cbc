-- ===== src/Client/Delivery.antt =====
-- frpc.py: `handle_data_messages` and the forwarding loops, against the bytes that the
-- connections carry.
use frp_python.Prelude.{
  ==_refl, length, All, lookup, lookup-insert, ℕ, ◌+◌, ◌^◌, ◌<◌, ◌≡◌, refl, sym, ap, ◌∙◌, true,
  Option, none, some, List, [], ◌∷◌, ◌++◌, append-nil, append_assoc, arith, nat_eq, string_eq,
  list_eq,
}
use frp_python.Client.Relay.{
  on_data_channel, data_of, deliver, taken, touched, pool_data, data_for, handle_data, each,
  handle_data_messages,
}
use frp_python.Client.State.{handle_of, PoolEntry, Client, Surroundings}
use frp_python.Protocol.Codec.{Json, Bytes, uuid_size, encode}
use frp_python.Protocol.Message.{Message, get}
use frp_python.Protocol.Roundtrip.{data_message, encode_data-IsFrameOf}
use frp_python.Protocol.Stream.{
  receive, Sent, wire, messages, AreFrames, concat, receive-eq-messages,
}
use frp_python.Py.Bytes.{AreBytes}
use frp_python.Py.Text.{Text}
use frp_python.Py.Uuid.{uuid_text}
use frp_python.Py.Uuid.Roundtrip.{uuid_bytes-uuid_text}

-- What a writer puts on the wire for a list of messages, or `none` where one is not encoded.
unfoldable pub encode_all : Json → List Message → Option Bytes
encode_all j [] = some []
encode_all j (m ∷ ms) = elim (encode j m) [
  | none ↦ none
  | some bs ↦ elim (encode_all j ms) [ none ↦ none | some out ↦ some (bs ++ out) ]
]

encode_all-cons :
    (j : Json) (m : Message) (ms : List Message) (bs out : Bytes)
    → encode j m ≡ some bs
    → encode_all j ms ≡ some out
    → encode_all j (m ∷ ms) ≡ some (bs ++ out)
unfolding encode_all
encode_all-cons j m ms bs out e f = ground arith

-- The DATA messages of a connection.
abbrev pub data_messages : Text → List Bytes → List Message
data_messages conn_id [] = []
data_messages conn_id (d ∷ ds) = data_message conn_id d ∷ data_messages conn_id ds

-- Data that fits a frame.
abbrev pub FitsFrame : Bytes → Type 0
FitsFrame d = uuid_size + length d < 2 ^ 32

-- The frames of the messages, and the bytes they make up.
record Framed (j : Json) (ms : List Message) : Type 0 where
  frames : List Sent
  encoded : encode_all j ms ≡ some (wire frames)
  are_frames : AreFrames j frames
  are_messages : messages frames ≡ ms

module _ (j : Json) (u : Bytes) (bytes : AreBytes u) (sixteen : length u ≡ 16) where
  framed : (ds : List Bytes) → All FitsFrame ds → Framed j (data_messages (uuid_text u) ds)
  unfolding encode_all
  framed [] h = record { frames = []; encoded = refl; are_frames = tt; are_messages = refl }
  framed (d ∷ ds) h =
      let (bs, e, f) =
        encode_data-IsFrameOf j (uuid_text u) u d (uuid_bytes-uuid_text u bytes sixteen) sixteen
          h.0 in
      let r = framed ds h.1 in
      record {
        frames = (bs, data_message (uuid_text u) d) ∷ r.frames;
        encoded =
            encode_all-cons j (data_message (uuid_text u) d) (data_messages (uuid_text u) ds) bs
              (wire r.frames) e r.encoded;
        are_frames = (f, r.are_frames);
        are_messages = ap (λ ms. data_message (uuid_text u) d ∷ ms) r.are_messages;
      }

  -- Any number of DATA messages of a connection with a canonical id is encoded, and whoever
  -- reads the bytes, in whatever pieces they come, gets these messages.
  pub receive-data_messages :
      (ds : List Bytes)
      → All FitsFrame ds
      → (out : Bytes) × (encode_all j (data_messages (uuid_text u) ds) ≡ some out)
        × ((reads : List Bytes)
            → concat reads ≡ out
            → receive j (some []) reads ≡ (data_messages (uuid_text u) ds, some []))
  receive-data_messages ds h =
      let r = framed ds h in
      (
        wire r.frames,
        r.encoded,
        λ reads e.
            receive-eq-messages j reads r.frames r.are_frames e
            ∙ ap (λ ms. (ms, some [])) r.are_messages,
      )

-- The bytes that a peer is given, one write for each.
abbrev pub writes : ℕ → List Bytes → List (ℕ × Bytes)
writes w [] = []
writes w (d ∷ ds) = (w, d) ∷ writes w ds

-- The connection with this id is in the pool, and goes to the writer `w`.
pub record IsConnected (conn_id : Text) (w : ℕ) (s : Client) : Type 0 where
  pub no_ftp : lookup conn_id s.ftp_data_conns ≡ none
  pub entry : PoolEntry
  pub there : lookup conn_id s.conn_pool ≡ some entry
  pub peer_is : handle_of entry.peer ≡ w

module _ (e : Surroundings) (conn_id : Text) (w : ℕ) (takes : e.takes w ≡ true) where
  on_data_channel-data :
      (d : Bytes) (s : Client) (c : IsConnected conn_id w s)
      → on_data_channel e (data_message conn_id d) s
        ≡ deliver (handle_of c.entry.peer) d (touched e conn_id c.entry s)
  unfolding on_data_channel handle_data data_for pool_data taken data_of get
  on_data_channel-data d s c =
      let t : e.takes (handle_of c.entry.peer) ≡ true = ap e.takes c.peer_is ∙ takes in
      rw (c.no_ftp, c.there) (ground (arith, t))

  on_data_channel-IsConnected :
      (d : Bytes) (s : Client)
      → IsConnected conn_id w s
      → IsConnected conn_id w (on_data_channel e (data_message conn_id d) s)
  on_data_channel-IsConnected d s c = rw (on_data_channel-data d s c) (record {
    no_ftp = c.no_ftp;
    entry = record c.entry { last_activity = e.now };
    there = simp (lookup-insert, ==_refl);
    peer_is = c.peer_is;
  })

  each-delivers :
      (ds : List Bytes) (s : Client)
      → IsConnected conn_id w s
      → (each (on_data_channel e) (data_messages conn_id ds) s).delivered
        ≡ s.delivered ++ writes w ds
  unfolding each
  each-delivers [] s c = sym (append-nil s.delivered)
  each-delivers (d ∷ ds) s c =
      let step = on_data_channel e (data_message conn_id d) s in
      let now : step.delivered ≡ s.delivered ++ (w, d) ∷ [] =
        rw (on_data_channel-data d s c, c.peer_is) refl in
      let later : (each (on_data_channel e) (data_messages conn_id ds) step).delivered
          ≡ step.delivered ++ writes w ds =
        each-delivers ds step (on_data_channel-IsConnected d s c) in
      later
      ∙ ap (λ out. out ++ writes w ds) now
      ∙ append_assoc s.delivered ((w, d) ∷ []) (writes w ds)

-- What a server writes for one connection, as DATA messages that fit their frames, reaches the
-- connection's local writer complete and in order, one write for a message, however the bytes are
-- cut into reads of the data channel. The connection is in the pool and is no FTP data
-- connection, its id is the text of a UUID, and its writer takes what it is given.
pub handle_data_messages-delivers :
    (j : Json) (e : Surroundings) (u : Bytes) (w : ℕ) (ds reads : List Bytes) (s : Client)
    → AreBytes u
    → length u ≡ 16
    → All FitsFrame ds
    → e.takes w ≡ true
    → IsConnected (uuid_text u) w s
    → encode_all j (data_messages (uuid_text u) ds) ≡ some (concat reads)
    → (handle_data_messages j e reads s).delivered ≡ s.delivered ++ writes w ds
unfolding handle_data_messages
handle_data_messages-delivers j e u w ds reads s bytes sixteen fits takes there encoded =
    let (out, g, got_all) = receive-data_messages j u bytes sixteen ds fits in
    let same : concat reads ≡ out = cc (encoded, g) in
    rw (got_all reads same) (each-delivers e (uuid_text u) w takes ds s there)
