-- ===== src/Server/DataChannel/Unlinked.antt =====
-- frps.py: a data connection that names no session.
use frp_python.Prelude.{
  is_some, All, lookup, contains, ℕ, String, ◌≡◌, refl, ◌⊎◌, inl, inr, Bool, false, Option, none,
  some, List, [], ◌∷◌, arith, nat_eq, string_eq, list_eq,
}
use frp_python.Server.DataChannel.{
  DataMessage, data_auth_msg, data_for_conn, close_of_conn, unexpected, refused_auth, checked_auth,
  auth_messages, auth_reads, after_auth, handle_data_conn,
}
use frp_python.Server.State.{Reply, Server, write, Session}

-- The message names a session of the server.
abbrev pub names_session : Server → DataMessage → Bool
names_session s (data_auth_msg i) = contains i s.sessions
names_session s m = false

abbrev pub AreForeign : Server → List DataMessage → Type 0
AreForeign s ms = All (λ m. names_session s m ≡ false) ms

-- The state as it was, or with one more message: a refusal, to the connection itself.
abbrev pub IsUntouched : ℕ → Server → Server → Type 0
IsUntouched w s t = (t ≡ s) ⊎ (t ≡ write w Reply.data_auth_error s)

-- Messages of one read that name no session leave the state, or a refusal.
auth_messages-foreign :
    (w : ℕ) (ms : List DataMessage) (s : Server)
    → AreForeign s ms
    → (auth_messages w ms none s ≡ checked_auth none s)
      ⊎ (auth_messages w ms none s ≡ refused_auth (write w Reply.data_auth_error s))
unfolding auth_messages
auth_messages-foreign w [] s h = inl refl
auth_messages-foreign w (data_auth_msg i ∷ ms) s h =
    let unknown : lookup i s.sessions ≡ none = go (lookup i s.sessions) h.0 in
    inr (ground (arith, unknown))
  where
    go : (o : Option Session) → is_some o ≡ false → o ≡ none
    go none e = refl
    go (some x) e = cc e
auth_messages-foreign w (data_for_conn i bs ∷ ms) s h = auth_messages-foreign w ms s h.1
auth_messages-foreign w (close_of_conn i ∷ ms) s h = auth_messages-foreign w ms s h.1
auth_messages-foreign w (unexpected ∷ ms) s h = auth_messages-foreign w ms s h.1

auth_reads-foreign :
    (w : ℕ) (reads : List (List DataMessage)) (s : Server)
    → All (AreForeign s) reads
    → let r = auth_reads w reads s in (r.0 ≡ none) × IsUntouched w s r.2
unfolding auth_reads
auth_reads-foreign w [] s h = (refl, inl refl)
auth_reads-foreign w (ms ∷ reads) s h = elim (auth_messages-foreign w ms s h.0) [
  | inl on ↦ rw on (auth_reads-foreign w reads s h.1)
  | inr refused ↦ rw refused (refl, inr refl)
]

-- Whatever arrives on a data connection, while no message of it names a session of the server,
-- the whole state stays as it was, what is written to anyone included, but for one refusal at
-- most, which is written to the connection itself.
pub handle_data_conn-IsUntouched :
    (listen : String → ℕ → Server → Option ℕ × Server) (alive : ℕ → Bool) (takes : String → Bool)
    (now w : ℕ) (reads : List (List DataMessage)) (s : Server)
    → All (AreForeign s) reads
    → IsUntouched w s (handle_data_conn listen alive takes now w reads s)
unfolding handle_data_conn after_auth
handle_data_conn-IsUntouched listen alive takes now w reads s h =
    let r = auth_reads-foreign w reads s h in rw r.0 r.1
