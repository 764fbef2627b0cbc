-- ===== src/Client/Session/Answers.antt =====
-- frpc.py: the loop of `_login` that waits for the answer.
use frp_python.Prelude.{
  length, length-append, ℕ, ◌+◌, ◌<◌, ◌≡◌, refl, sym, ap, ◌∙◌, subst, true, Option, none, some,
  List, [], ◌∷◌, ◌++◌, append_assoc, arith, dec_lt,
}
use frp_python.Client.Session.{accepted, wait_for, login_answer, logged_in, login_with, judged}
use frp_python.Client.State.{control_channel, Client, Surroundings, send}
use frp_python.Protocol.Codec.{got, Bytes, Json, decode}
use frp_python.Protocol.Message.{Fields, MessageType, Message}
use frp_python.Protocol.Roundtrip.{IsFrameOf, typed}
use frp_python.Protocol.Stream.{concat, prefix_of_append, rest_of_append, IsFrameOf-nonempty}
use frp_python.Py.Text.{Text}
use frp_python.Server.Handlers.{answer}

module _ {ℓ} {A : Type ℓ} (j : Json) (judge : Message → Option A) (bs : Bytes) (m : Message)
    (frame : IsFrameOf j bs m) (a : A) (answers : judge m ≡ some a) where
  judged-frame :
      (rest : Bytes) (more : Bytes → Option A) → judged judge (got (some m) rest) more ≡ some a
  judged-frame rest more = ground (arith, answers)

  wait_for-frame :
      (buf more : Bytes) (reads : List Bytes)
      → length buf < length bs
      → buf ++ concat reads ≡ bs ++ more
      → wait_for j judge buf reads ≡ some a
  unfolding wait_for
  wait_for-frame buf more [] short e =
      let n : length buf ≡ length bs + length more =
        omega (arith, ap length e, length-append buf [], length-append bs more) in
      absurd (omega arith)
  wait_for-frame buf more (chunk ∷ reads) short e =
      let joined : (buf ++ chunk) ++ concat reads ≡ bs ++ more =
        append_assoc buf chunk (concat reads) ∙ e in
      elim (dec_lt (length (buf ++ chunk)) (length bs)) [
        | yes few ↦
            let p = prefix_of_append (buf ++ chunk) (concat reads) bs more joined few in
            let stuck : decode j (buf ++ chunk) ≡ got none (buf ++ chunk) =
              subst (λ z. decode j z ≡ got none z) (sym p)
                (frame.part (length (buf ++ chunk)) few) in
            rw stuck (wait_for-frame (buf ++ chunk) more reads few joined)
        | no enough ↦
            let (rest, p, q) =
              rest_of_append (buf ++ chunk) (concat reads) bs more joined (omega arith) in
            let taken : decode j (buf ++ chunk) ≡ got (some m) rest =
              ap (decode j) p ∙ frame.whole rest in
            rw taken (judged-frame rest (λ left. wait_for j judge left reads))
      ]

-- Where the server writes the frame of a LOGIN_RESP with status "ok" first, the login succeeds
-- with the session of that message however the bytes are cut into reads. What comes behind the
-- frame is not looked at.
login_with-accepted :
    (j : Json) (e : Surroundings) (fields : Fields) (s : Client) (bs more : Bytes) (m : Message)
    (session_id : Text) (port : ℕ) (reads : List Bytes)
    → e.alive control_channel ≡ true
    → IsFrameOf j bs m
    → login_answer m ≡ some (accepted session_id port)
    → concat reads ≡ bs ++ more
    → login_with j e fields reads s
      ≡ (true, logged_in session_id port (send control_channel (typed MessageType.login fields) s))
unfolding login_with
login_with-accepted j e fields s bs more m session_id port reads a frame answer cut =
    let w : wait_for j login_answer [] reads ≡ some (accepted session_id port) =
      wait_for-frame j login_answer bs m frame (accepted session_id port) answer [] more reads
        (IsFrameOf-nonempty j bs m frame) cut in
    rw (a, w) refl
