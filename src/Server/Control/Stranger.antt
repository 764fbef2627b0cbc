-- ===== src/Server/Control/Stranger.antt =====
-- frps.py: a control connection without the token of the server.
use frp_python.Prelude.{
  leb, if◌then◌else◌, ◌==◌, All, ℕ, ◌+◌, ◌-◌, String, ◌≡◌, refl, ◌⊎◌, inl, inr, Bool, true, false,
  not, Option, none, List, [], ◌∷◌, arith, nat_eq, string_eq, list_eq,
}
use frp_python.Access.Control.{check_ip}
use frp_python.Access.Networks.{IpAddress}
use frp_python.Py.Text.{Text}
use frp_python.Server.Control.{
  login_msg, client_msg, control_reads, ControlMessage, Loop, login_result, control_messages,
  close_control, handle_control_conn, entered,
}
use frp_python.Server.Control.Departed.{IsDeparted, cleanup-departed}
use frp_python.Server.Handlers.{handle_login}
use frp_python.Server.State.{Reply, Server, write, Reason}

-- The message is a LOGIN with a token.
abbrev pub is_login_with : String → ControlMessage → Bool
is_login_with token (login_msg now t id) = t == token
is_login_with token m = false

abbrev pub AreStrange : String → List ControlMessage → Type 0
AreStrange token ms = All (λ m. is_login_with token m ≡ false) ms

-- As it was, or with one reply to the connection.
abbrev pub IsRepliedTo : ℕ → Server → Server → Type 0
IsRepliedTo w s t = (t ≡ s) ⊎ ((r : Reply) × (t ≡ write w r s))

-- The loop before a login, and behind a refusal.
abbrev waiting : Server → Loop
waiting s = record { authenticated = false; session = none; stopped = false; server = s }

abbrev ended : Server → Loop
ended s = record { authenticated = false; session = none; stopped = true; server = s }

abbrev refused : ℕ → Reply → Server → Loop
refused w r s = ended (write w r s)

abbrev Waits : ℕ → Server → Loop → Type 0
Waits w s l = (l ≡ waiting s) ⊎ (l ≡ ended s) ⊎ ((r : Reply) × (l ≡ refused w r s))

module _ (listen : String → ℕ → Server → Option ℕ × Server) (alive : ℕ → Bool)
    (takes : String → Bool) (w : ℕ) where
  login-refused :
      (now : ℕ) (token id : String) (s : Server)
      → (token == s.auth_token) ≡ false
      → let l = login_result (handle_login alive id now token w s) (waiting s) in
        (l ≡ ended s) ⊎ (l ≡ refused w Reply.login_error s)
  unfolding handle_login login_result
  login-refused now token id s h = rw h (reply_if (alive w))
    where
      reply_if :
          (b : Bool)
          → let l = login_result (none, if b then write w Reply.login_error s else s) (waiting s) in
            (l ≡ ended s) ⊎ (l ≡ refused w Reply.login_error s)
      reply_if true = inr refl
      reply_if false = inl refl

  control_messages-Waits :
      (ms : List ControlMessage) (s : Server)
      → AreStrange s.auth_token ms
      → Waits w s (control_messages listen alive takes w ms (waiting s))
  unfolding control_messages
  control_messages-Waits [] s h = inl refl
  control_messages-Waits (login_msg now token id ∷ ms) s h =
      elim (login-refused now token id s h.0) [
        | inl silent ↦ rw silent (inr (inl refl))
        | inr told ↦ rw told (inr (inr (Reply.login_error, refl)))
      ]
  control_messages-Waits (client_msg now started m ∷ ms) s h = inr (inr (_, refl))

  control_reads-Waits :
      (reads : List (List ControlMessage)) (s : Server)
      → All (AreStrange s.auth_token) reads
      → Waits w s (control_reads listen alive takes w reads (waiting s))
  unfolding control_reads
  control_reads-Waits [] s h = inl refl
  control_reads-Waits (ms ∷ reads) s h = elim (control_messages-Waits ms s h.0) [
    | inl on ↦ rw on (control_reads-Waits reads s h.1)
    | inr (inl off) ↦ rw off (inr (inl refl))
    | inr (inr (r, off)) ↦ inr (inr (r, rw off refl))
  ]

  answered : (r : Reply) (s : Server) → IsDeparted w s → IsDeparted w (write w r s)
  answered r s h = record {
    proxies = h.proxies;
    http_proxies = h.http_proxies;
    providers = h.providers;
    visitors = h.visitors;
  }

  back : (s : Server) → s.total_connections + 1 - 1 ≡ s.total_connections
  back s = omega arith

  counted :
      (s : Server)
      → IsDeparted w s
      → (l : Loop) → Waits w (record s { total_connections = s.total_connections + 1 }) l
      → IsRepliedTo w s (close_control listen alive takes w l)
  unfolding close_control
  counted s h l (inl e) = rw e (inl (rw (back s) (cleanup-departed alive w s h)))
  counted s h l (inr (inl e)) = rw e (inl (rw (back s) (cleanup-departed alive w s h)))
  counted s h l (inr (inr (r, e))) =
      rw e (inr (r, rw (back s) (cleanup-departed alive w _ (answered r s h))))

-- Where the server has a token, a connection of a writer that is not in the tables, which sends
-- no LOGIN with that token, leaves the server as it was but for at most one reply to itself,
-- whatever else it sends in whatever reads. The count of connections is as before too.
pub handle_control_conn-IsRepliedTo :
    (lib : IpAddress) (listen : String → ℕ → Server → Option ℕ × Server) (alive : ℕ → Bool)
    (takes : String → Bool) (w : ℕ) (ip : Text) (reads : List (List ControlMessage)) (s : Server)
    → (s.auth_token == "") ≡ false
    → All (AreStrange s.auth_token) reads
    → IsDeparted w s
    → IsRepliedTo w s (handle_control_conn listen alive takes w lib ip reads s)
unfolding handle_control_conn
handle_control_conn-IsRepliedTo lib listen alive takes w ip reads s token h new =
    keep (not (check_ip lib s.access ip)) (inl refl) (
      keep (leb s.max_connections s.total_connections)
        (keep (alive w) (inr (Reply.error_msg Reason.connection_limit, refl)) (inl refl))
        (counted listen alive takes w s new
          (control_reads listen alive takes w reads (entered listen alive takes w s))
          (rw token (
            control_reads-Waits listen alive takes w reads
              (record s { total_connections = s.total_connections + 1 }) h))))
  where
    keep :
        {t u : Server} (b : Bool)
        → IsRepliedTo w s t
        → IsRepliedTo w s u
        → IsRepliedTo w s (if b then t else u)
    keep true f g = f
    keep false f g = g
