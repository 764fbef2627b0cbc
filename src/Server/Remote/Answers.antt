-- ===== src/Server/Remote/Answers.antt =====
-- frps.py: the answers that reach a remote command.
use frp_python.Prelude.{
  if◌then◌else◌, ◌==◌, ==_refl, Bool-cases, All, elem, lookup, insert, lookup-insert, ℕ, String,
  ◌≡◌, refl, ◌∙◌, inl, inr, Bool, true, false, Option, none, some, List, [], ◌∷◌, ◌++◌, arith,
  eq_iff, nat_eq, string_eq, list_eq,
}
use frp_python.Protocol.Codec.{Bytes}
use frp_python.Server.Handlers.{forget, result_of, handle_remote_cmd_resp, with_result}
use frp_python.Server.Remote.{
  client_disconnected, send_failed, CmdError, cmd_timeout, finish_remote_cmd, note_pending,
  begin_cmd, start_remote_cmd, answers_of, put_cmd_session, without_pending, end_cmd,
}
use frp_python.Server.State.{Session, Server, Reply, write}

-- The command is waited for.
record IsWaiting (id cmd_id : String) (s : Server) : Type 0 where
  session : Session
  found : lookup id s.sessions ≡ some session
  is_pending : elem cmd_id session.pending_cmds ≡ true

-- The command has its answer.
record HasAnswer (id cmd_id : String) (result : Bytes) (s : Server) : Type 0 where
  session : Session
  found : lookup id s.sessions ≡ some session
  answered : elem cmd_id session.pending_cmds ≡ false
  result_eq : lookup cmd_id session.cmd_results ≡ some result

forget-other :
    (id other : String) (ids : List String)
    → (id == other) ≡ false
    → elem other (forget id ids) ≡ elem other ids
unfolding forget
forget-other id other [] h = refl
forget-other id other (i ∷ ids) h =
    ground (arith, forget-other id other ids h, eq_iff i id, eq_iff i other, eq_iff id other)

forget-gone : (id : String) (ids : List String) → elem id (forget id ids) ≡ false
unfolding forget
forget-gone id [] = refl
forget-gone id (i ∷ ids) = ground (arith, forget-gone id ids)

note_pending-elem : (id : String) (ids : List String) → elem id (note_pending id ids) ≡ true
note_pending-elem id ids = elim (Bool-cases (elem id ids)) [
  | inl there ↦ rw there there
  | inr new ↦ rw new (last ids)
]
  where
    last : (ids : List String) → elem id (ids ++ id ∷ []) ≡ true
    last [] = ground (arith, ==_refl id)
    last (i ∷ ids) = ground (arith, last ids)

lookup-put :
    (id : String) (session : Session) (s : Server)
    → lookup id (insert id session s.sessions) ≡ some session
lookup-put id session s = lookup-insert id id session s.sessions ∙ rw (==_refl id) refl

answer-IsWaiting :
    (id cmd_id other : String) (result : Bytes) (s : Server)
    → (other == cmd_id) ≡ false
    → IsWaiting id cmd_id s
    → IsWaiting id cmd_id (handle_remote_cmd_resp other result (some id) s)
unfolding handle_remote_cmd_resp result_of
answer-IsWaiting id cmd_id other result s h w = elim (Bool-cases (other == "")) [
  | inl unnamed ↦ rw unnamed w
  | inr named ↦ rw named (
      rw w.found (record {
        session = with_result other result w.session;
        found = lookup-put id (with_result other result w.session) s;
        is_pending = forget-other other cmd_id w.session.pending_cmds h ∙ w.is_pending;
      }))
]

answer-HasAnswer :
    (id cmd_id other : String) (r result : Bytes) (s : Server)
    → (other == cmd_id) ≡ false
    → HasAnswer id cmd_id r s
    → HasAnswer id cmd_id r (handle_remote_cmd_resp other result (some id) s)
unfolding handle_remote_cmd_resp result_of
answer-HasAnswer id cmd_id other r result s h a = elim (Bool-cases (other == "")) [
  | inl unnamed ↦ rw unnamed a
  | inr named ↦ rw named (
      rw a.found (record {
        session = with_result other result a.session;
        found = lookup-put id (with_result other result a.session) s;
        answered = forget-other other cmd_id a.session.pending_cmds h ∙ a.answered;
        result_eq = lookup-insert other cmd_id result a.session.cmd_results ∙ rw h a.result_eq;
      }))
]

own-HasAnswer :
    (id cmd_id : String) (result : Bytes) (s : Server)
    → (cmd_id == "") ≡ false
    → IsWaiting id cmd_id s
    → HasAnswer id cmd_id result (handle_remote_cmd_resp cmd_id result (some id) s)
unfolding handle_remote_cmd_resp result_of
own-HasAnswer id cmd_id result s named w = rw named (
    rw w.found (record {
      session = with_result cmd_id result w.session;
      found = lookup-put id (with_result cmd_id result w.session) s;
      answered = forget-gone cmd_id w.session.pending_cmds;
      result_eq =
          lookup-insert cmd_id cmd_id result w.session.cmd_results ∙ rw (==_refl cmd_id) refl;
    }))

-- Answers to other commands.
abbrev pub AreOthers : String → List (String × Bytes) → Type 0
AreOthers cmd_id es = All (λ e. (e.0 == cmd_id) ≡ false) es

others-IsWaiting :
    (id cmd_id : String) (es : List (String × Bytes)) (s : Server)
    → AreOthers cmd_id es
    → IsWaiting id cmd_id s
    → IsWaiting id cmd_id (answers_of id es s)
unfolding answers_of
others-IsWaiting id cmd_id [] s h w = w
others-IsWaiting id cmd_id ((other, r) ∷ es) s h w =
    others-IsWaiting id cmd_id es _ h.1 (answer-IsWaiting id cmd_id other r s h.0 w)

others-HasAnswer :
    (id cmd_id : String) (r : Bytes) (es : List (String × Bytes)) (s : Server)
    → AreOthers cmd_id es
    → HasAnswer id cmd_id r s
    → HasAnswer id cmd_id r (answers_of id es s)
unfolding answers_of
others-HasAnswer id cmd_id r [] s h a = a
others-HasAnswer id cmd_id r ((other, x) ∷ es) s h a =
    others-HasAnswer id cmd_id r es _ h.1 (answer-HasAnswer id cmd_id other r x s h.0 a)

begin_cmd-IsWaiting :
    (alive closing : ℕ → Bool) (id cmd_id cmd : String) (args : Bytes) (o : Option Session)
    (s : Server)
    → (begin_cmd alive closing id cmd_id cmd args o s).0 ≡ none
    → IsWaiting id cmd_id (begin_cmd alive closing id cmd_id cmd args o s).1
unfolding begin_cmd
begin_cmd-IsWaiting alive closing id cmd_id cmd args none s e = cc e
begin_cmd-IsWaiting alive closing id cmd_id cmd args (some session) s e =
    go (closing session.control_writer) (alive session.control_writer) e
  where
    noted : Session
    noted = record session { pending_cmds = note_pending cmd_id session.pending_cmds }

    outcome : Bool → Bool → Option CmdError × Server
    outcome b c =
        if b
        then (some client_disconnected, s)
        else if c
        then (
          none,
          write session.control_writer (Reply.remote_cmd_msg cmd_id cmd args)
              (put_cmd_session id noted s),
        )
        else (some send_failed, put_cmd_session id (without_pending cmd_id noted) s)

    go : (b c : Bool) → (outcome b c).0 ≡ none → IsWaiting id cmd_id (outcome b c).1
    go true c f = cc f
    go false false f = cc f
    go false true f = record {
      session = noted;
      found = lookup-put id noted s;
      is_pending = note_pending-elem cmd_id session.pending_cmds;
    }

finish-answered :
    (id cmd_id : String) (result : Bytes) (s : Server)
    → HasAnswer id cmd_id result s
    → (finish_remote_cmd id cmd_id s).0 ≡ inr result
unfolding finish_remote_cmd end_cmd
finish-answered id cmd_id result s a = rw a.found (rw a.answered (rw a.result_eq refl))

finish-waiting :
    (id cmd_id : String) (s : Server)
    → IsWaiting id cmd_id s
    → (finish_remote_cmd id cmd_id s).0 ≡ inl cmd_timeout
unfolding finish_remote_cmd end_cmd
finish-waiting id cmd_id s w = rw w.found (rw w.is_pending refl)

-- The answer to a remote command reaches the call that sent it, whatever answers to other
-- commands come before and behind it; without it, the call ends with a timeout.
pub finish_remote_cmd-answered :
    (alive closing : ℕ → Bool) (id cmd_id cmd : String) (args result : Bytes)
    (before behind : List (String × Bytes)) (s : Server)
    → (start_remote_cmd alive closing id cmd_id cmd args s).0 ≡ none
    → (cmd_id == "") ≡ false
    → AreOthers cmd_id before
    → AreOthers cmd_id behind
    → let sent = answers_of id before (start_remote_cmd alive closing id cmd_id cmd args s).1 in
      ((finish_remote_cmd id cmd_id
          (answers_of id behind (answers_of id ((cmd_id, result) ∷ []) sent))).0
        ≡ inr result)
      × ((finish_remote_cmd id cmd_id sent).0 ≡ inl cmd_timeout)
unfolding start_remote_cmd answers_of
finish_remote_cmd-answered alive closing id cmd_id cmd args result before behind s sent named h k =
    let w =
      others-IsWaiting id cmd_id before _ h
        (begin_cmd-IsWaiting alive closing id cmd_id cmd args (lookup id s.sessions) s sent) in
    let a =
      others-HasAnswer id cmd_id result behind _ k (own-HasAnswer id cmd_id result _ named w) in
    (finish-answered id cmd_id result _ a, finish-waiting id cmd_id _ w)
