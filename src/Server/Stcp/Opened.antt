-- ===== src/Server/Stcp/Opened.antt =====
-- frps.py: an STCP connection from `handle_stcp_new_visitor` on.
use frp_python.Prelude.{
  ◌==◌, lookup, lookup-insert, ℕ, String, ◌≡◌, refl, ◌∙◌, ◌≢◌, Bool, true, false, ◌||◌, none, some,
  List, [], ◌∷◌, ◌++◌, append-nil, arith, eq_iff, nat_eq, string_eq, list_eq,
}
use frp_python.Server.State.{Server, Reply, Provider}
use frp_python.Server.Stcp.{handle_stcp_new_visitor, forward_visitor, open_conn}
use frp_python.Server.Stcp.Relay.{
  Flows, RelayEvent, delivered, relay_run, upward, downward, relay_run-Flows,
}

-- No data of the connection was ever sent to the writer.
abbrev pub IsFresh : String → ℕ → Server → Type 0
IsFresh conn_id w s = delivered w conn_id s.outbox ≡ []

delivered-skip :
    (w v : ℕ) (i j name : String) (out : List (ℕ × Reply))
    → delivered w i (out ++ (v, Reply.stcp_new_visitor_msg name j) ∷ []) ≡ delivered w i out
unfolding delivered
delivered-skip w v i j name [] = refl
delivered-skip w v i j name ((u, Reply.conn_data k bs) ∷ out) =
    ground (arith, delivered-skip w v i j name out)
delivered-skip w v i j name ((u, m) ∷ out) = delivered-skip w v i j name out

module _ (alive : ℕ → Bool) (v p : ℕ) (conn_id : String) (v_alive : alive v ≡ true)
    (p_alive : alive p ≡ true) (apart : v ≢ p) where
  opened-Flows :
      (now : ℕ) (name : String) (provider : Provider) (s : Server)
      → (name == "" || conn_id == "") ≡ false
      → lookup name s.stcp_providers ≡ some provider
      → alive provider.control_writer ≡ true
      → lookup conn_id s.stcp_conns ≡ none
      → IsFresh conn_id v s
      → IsFresh conn_id p s
      → Flows alive v p conn_id v_alive p_alive apart [] []
          (handle_stcp_new_visitor alive now name conn_id v s)
  unfolding handle_stcp_new_visitor forward_visitor open_conn
  opened-Flows now name provider s named known control new fresh_v fresh_p =
      rw (named, known, control, new)
        (record {
          proxy = name;
          linked = false;
          buffered = [];
          seen = now;
          found = rw lookup-insert (ground (arith, eq_iff conn_id conn_id));
          up_eq =
              append-nil _
              ∙ (delivered-skip p provider.control_writer conn_id conn_id name s.outbox ∙ fresh_p);
          down_eq =
              delivered-skip v provider.control_writer conn_id conn_id name s.outbox ∙ fresh_v;
        })

  -- A visitor whose connection id is new opens a connection to a proxy whose provider can be
  -- reached. Neither client has a data channel, so that each has one writer; the two writers
  -- differ, all three writers take what is written to them, and no data of the connection was sent
  -- before. After that, through any sequence of data from both sides and readiness messages of the
  -- provider, of which none is handled while the handler of another waits for a drain, what the
  -- provider got and what is still buffered for it is what the visitor sent, in order, and what the
  -- visitor got is what the provider sent.
  pub open-relay :
      (now : ℕ) (name : String) (provider : Provider) (s : Server) (evs : List RelayEvent)
      → (name == "" || conn_id == "") ≡ false
      → lookup name s.stcp_providers ≡ some provider
      → alive provider.control_writer ≡ true
      → lookup conn_id s.stcp_conns ≡ none
      → IsFresh conn_id v s
      → IsFresh conn_id p s
      → Flows alive v p conn_id v_alive p_alive apart (upward evs) (downward evs) (
          relay_run alive v p conn_id v_alive p_alive apart now evs
            (handle_stcp_new_visitor alive now name conn_id v s))
  open-relay now name provider s evs named known control new fresh_v fresh_p =
      relay_run-Flows alive v p conn_id v_alive p_alive apart now evs [] []
        (handle_stcp_new_visitor alive now name conn_id v s)
        (opened-Flows now name provider s named known control new fresh_v fresh_p)
