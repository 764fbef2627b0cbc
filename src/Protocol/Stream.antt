-- ===== src/Protocol/Stream.antt =====
-- The read loops of frps.py and frpc.py: what arrives is appended to a buffer, and `decode` takes
-- messages off its front until it returns none.
use frp_python.Prelude.{
  length, take, drop, length-append, length-drop, All, ℕ, zero, suc, ◌+◌, ◌≤◌, ◌<◌, ◌≡◌, refl, sym,
  ap, ◌∙◌, subst, ◌≢◌, Option, none, some, List, [], ◌∷◌, ◌++◌, append_assoc, arith, dec_lt,
}
use frp_python.Protocol.Codec.{
  Bytes, Json, Decoded, got, raised, decode, unpack, magic_byte, header_size, Header, decode_data,
  decode_json, decode_payload, decode_at,
}
use frp_python.Protocol.Message.{Message}
use frp_python.Protocol.Roundtrip.{IsFrameOf}
use frp_python.Py.Bytes.{of_be}

-- `while True: message, buffer = Protocol.decode(buffer); if not message: break; …`, with the
-- messages that it hands on, in order, and the buffer that it leaves, or `none` for an exception.
-- Each round needs one unit of fuel.
abbrev pub after_decode :
    Decoded → (Bytes → List Message × Option Bytes) → List Message × Option Bytes
after_decode raised more = ([], none)
after_decode (got none rest) more = ([], some rest)
after_decode (got (some m) rest) more = (m ∷ (more rest).0, (more rest).1)

pub drain : Json → ℕ → Bytes → List Message × Option Bytes
drain j zero buf = ([], some buf)
drain j (suc fuel) buf = after_decode (decode j buf) (drain j fuel)

abbrev pub drain_all : Json → Bytes → List Message × Option Bytes
drain_all j buf = drain j (suc (length buf)) buf

-- The outer loop, over what each `reader.read` returns until the connection ends.
pub receive : Json → Option Bytes → List Bytes → List Message × Option Bytes
receive j none chunks = ([], none)
receive j (some buf) [] = ([], some buf)
receive j (some buf) (chunk ∷ chunks) =
    let now = drain_all j (buf ++ chunk) in
    let later = receive j now.1 chunks in (now.0 ++ later.0, later.1)

-- A frame on the wire, with the message that it decodes to.
abbrev pub Sent : Type 0
Sent = Bytes × Message

abbrev pub wire : List Sent → Bytes
wire [] = []
wire ((bs, m) ∷ fs) = bs ++ wire fs

abbrev pub messages : List Sent → List Message
messages [] = []
messages ((bs, m) ∷ fs) = m ∷ messages fs

abbrev pub AreFrames : Json → List Sent → Type 0
AreFrames j fs = All (λ f. IsFrameOf j f.0 f.1) fs

abbrev pub concat : List Bytes → Bytes
concat [] = []
concat (c ∷ cs) = c ++ concat cs

pub prefix_of_append :
    (xs ys zs bs : Bytes) → xs ++ ys ≡ zs ++ bs → length xs < length zs → xs ≡ take (length xs) zs
prefix_of_append [] ys zs bs e h = refl
prefix_of_append (x ∷ xs) ys [] bs e h = elim h [ ]
prefix_of_append (x ∷ xs) ys (z ∷ zs) bs e h = ground (arith, prefix_of_append xs ys zs bs)

pub rest_of_append :
    (xs ys zs bs : Bytes)
    → xs ++ ys ≡ zs ++ bs
    → length zs ≤ length xs
    → (rest : Bytes) × (xs ≡ zs ++ rest) × (rest ++ ys ≡ bs)
rest_of_append xs ys [] bs e h = (xs, refl, e)
rest_of_append [] ys (z ∷ zs) bs e h = elim h [ ]
rest_of_append (x ∷ xs) ys (z ∷ zs) bs e h =
    let same : x ≡ z = cc in
    let tails : xs ++ ys ≡ zs ++ bs = cc in
    let (rest, p, q) = rest_of_append xs ys zs bs tails (omega arith) in
    let joined : x ∷ xs ≡ z ∷ (zs ++ rest) = cc (p, same) in (rest, joined, q)

-- No bytes are no frame.
pub IsFrameOf-nonempty : (j : Json) (bs : Bytes) (m : Message) → IsFrameOf j bs m → 0 < length bs
unfolding decode unpack
IsFrameOf-nonempty j [] m h = cc (h.whole [])
IsFrameOf-nonempty j (b ∷ bs) m h = omega arith

-- What is buffered when the loop ends: nothing, or the beginning of the next frame.
abbrev IsShort : Bytes → List Sent → Type 0
IsShort rest [] = rest ≡ []
IsShort rest (f ∷ fs) = length rest < length f.0

-- What one run of the loop has done to a buffer that begins the frames `fs`.
record IsDrained (future : Bytes) (fs : List Sent) (result : List Message × Option Bytes)
    : Type 0 where
  done : List Sent
  left : List Sent
  buffer : Bytes
  split : fs ≡ done ++ left
  drained : result ≡ (messages done, some buffer)
  future_eq : buffer ++ future ≡ wire left
  short : IsShort buffer left

drain-IsDrained :
    (j : Json) (fuel : ℕ) (buf future : Bytes) (fs : List Sent)
    → AreFrames j fs
    → length buf < fuel
    → buf ++ future ≡ wire fs
    → IsDrained future fs (drain j fuel buf)
unfolding drain
drain-IsDrained j zero buf future fs h k e = absurd (omega arith)
drain-IsDrained j (suc fuel) [] future [] h k e = record {
  done = [];
  left = [];
  buffer = [];
  split = refl;
  drained = unfold decode unpack in refl;
  future_eq = e;
  short = refl;
}
drain-IsDrained j (suc fuel) (b ∷ buf) future [] h k e = cc
drain-IsDrained j (suc fuel) buf future ((bs, m) ∷ fs) h k e =
    elim (dec_lt (length buf) (length bs)) [
      | yes few ↦ waits few
      | no enough ↦
          let (rest, p, q) = rest_of_append buf future bs (wire fs) e (omega arith) in
          let n : length buf ≡ length bs + length rest =
            omega (arith, ap length p, length-append bs rest) in
          goes_on rest p (
            drain-IsDrained j fuel rest future fs h.1 (omega (arith, IsFrameOf-nonempty j bs m h.0))
              q)
    ]
  where
    waits : length buf < length bs → IsDrained future ((bs, m) ∷ fs) (drain j (suc fuel) buf)
    waits few =
        let p = prefix_of_append buf future bs (wire fs) e few in
        let stuck : decode j buf ≡ got none buf =
          subst (λ z. decode j z ≡ got none z) (sym p) (h.0.part (length buf) few) in
        record {
          done = [];
          left = (bs, m) ∷ fs;
          buffer = buf;
          split = refl;
          drained = rw stuck;
          future_eq = e;
          short = few;
        }

    goes_on :
        (rest : Bytes)
        → buf ≡ bs ++ rest
        → IsDrained future fs (drain j fuel rest)
        → IsDrained future ((bs, m) ∷ fs) (drain j (suc fuel) buf)
    goes_on rest p d =
        let first : decode j buf ≡ got (some m) rest = ap (decode j) p ∙ h.0.whole rest in
        record {
          done = (bs, m) ∷ d.done;
          left = d.left;
          buffer = d.buffer;
          split = ap (λ l. (bs, m) ∷ l) d.split;
          drained = rw (first, d.drained);
          future_eq = d.future_eq;
          short = d.short;
        }

messages-append : (fs gs : List Sent) → messages (fs ++ gs) ≡ messages fs ++ messages gs
messages-append [] gs = refl
messages-append ((bs, m) ∷ fs) gs = ap (λ l. m ∷ l) (messages-append fs gs)

All-right : (j : Json) (fs gs : List Sent) → AreFrames j (fs ++ gs) → AreFrames j gs
All-right j [] gs h = h
All-right j (f ∷ fs) gs h = All-right j fs gs h.1

receive_frames :
    (j : Json) (buf : Bytes) (chunks : List Bytes) (fs : List Sent)
    → AreFrames j fs
    → IsShort buf fs
    → buf ++ concat chunks ≡ wire fs
    → receive j (some buf) chunks ≡ (messages fs, some [])
unfolding receive
receive_frames j buf [] [] h short e = rw short
receive_frames j buf [] ((bs, m) ∷ fs) h short e =
    absurd (omega (arith, ap length e, length-append buf [], length-append bs (wire fs)))
receive_frames j buf (chunk ∷ chunks) fs h short e =
    let d =
      drain-IsDrained j (suc (length (buf ++ chunk))) (buf ++ chunk) (concat chunks) fs h
        (omega arith) (append_assoc buf chunk (concat chunks) ∙ e) in
    let later =
      receive_frames j d.buffer chunks d.left
        (All-right j d.done d.left (subst (AreFrames j) d.split h)) d.short d.future_eq in
    rw (d.drained, later) (rw d.split (rw (messages-append d.done d.left)))

IsShort-nil : (j : Json) (fs : List Sent) → AreFrames j fs → IsShort [] fs
IsShort-nil j [] h = refl
IsShort-nil j (f ∷ fs) h = IsFrameOf-nonempty j f.0 f.1 h.0

-- The messages of a stream of frames arrive complete and in order, and nothing is left over,
-- however the stream is cut into reads.
pub receive-eq-messages :
    (j : Json) (chunks : List Bytes) (fs : List Sent)
    → AreFrames j fs
    → concat chunks ≡ wire fs
    → receive j (some []) chunks ≡ (messages fs, some [])
receive-eq-messages j chunks fs h e = receive_frames j [] chunks fs h (IsShort-nil j fs h) e

decode_payload_rest :
    (j : Json) (code : ℕ) (payload remaining rest : Bytes) (m : Message)
    → decode_payload j code payload remaining ≡ got (some m) rest
    → rest ≡ remaining
unfolding decode_payload decode_data decode_json
decode_payload_rest j code payload remaining rest m e = ground arith

decode_shrinks :
    (j : Json) (buf rest : Bytes) (m : Message)
    → decode j buf ≡ got (some m) rest
    → length rest < length buf
unfolding decode
decode_shrinks j buf rest m e = go (unpack buf) e
  where
    go : (o : Option Header) → decode_at j buf o ≡ got (some m) rest → length rest < length buf
    go none e = cc
    go (some h) e = ground (
      arith,
      decode_payload_rest j h.code (take h.len (drop header_size buf))
          (drop (header_size + h.len) buf) rest m,
      length-drop (header_size + h.len) buf,
    )

drain_enough :
    (j : Json) (fuel more : ℕ) (buf : Bytes)
    → length buf < fuel
    → fuel ≤ more
    → drain j more buf ≡ drain j fuel buf
unfolding drain
drain_enough j zero more buf h k = absurd (omega arith)
drain_enough j (suc fuel) zero buf h k = absurd (omega arith)
drain_enough j (suc fuel) (suc more) buf h k =
    go (decode j buf) refl (λ r shorter. drain_enough j fuel more r shorter (omega arith))
  where
    go :
        (d : Decoded)
        → decode j buf ≡ d
        → ((r : Bytes) → length r < fuel → drain j more r ≡ drain j fuel r)
        → after_decode d (drain j more) ≡ after_decode d (drain j fuel)
    go raised e ih = refl
    go (got none rest) e ih = refl
    go (got (some m) rest) e ih = rw (ih rest (omega (arith, decode_shrinks j buf rest m e)))

-- The loop ends by itself: whatever fuel is given above the length of the buffer, the result is
-- that of `drain_all`.
pub drain-eq-drain_all :
    (j : Json) (fuel : ℕ) (buf : Bytes) → length buf < fuel → drain j fuel buf ≡ drain_all j buf
drain-eq-drain_all j fuel buf h = drain_enough j (suc (length buf)) fuel buf (omega arith) h

unpack_long :
    (b : ℕ) (rest : Bytes)
    → header_size ≤ length (b ∷ rest)
    → (h : Header) × (unpack (b ∷ rest) ≡ some h) × (h.magic ≡ b)
unfolding unpack
unpack_long b (v ∷ c ∷ f ∷ x ∷ y ∷ z ∷ w ∷ rest) k =
    (record { magic = b; code = c; len = of_be (x ∷ y ∷ z ∷ w ∷ []) }, refl, refl)
unpack_long b _ k = absurd (omega arith)

-- One byte that does not begin a frame ends the loop: it is dropped, and no message of the
-- bytes behind it is taken, complete frames included, until the next read.
drain_all-not_magic :
    (j : Json) (b : ℕ) (rest : Bytes)
    → b ≢ magic_byte
    → header_size ≤ length (b ∷ rest)
    → drain_all j (b ∷ rest) ≡ ([], some rest)
unfolding drain decode
drain_all-not_magic j b rest h k = let (h', p, q) = unpack_long b rest k in rw p (ground arith)
