-- ===== src/Server/Tcp/Forwarded.antt =====
-- frps.py: what `forward_proxy_data` writes to the client.
use frp_python.Prelude.{
  if◌then◌else◌, ==_refl, length, length-append, whole, All, lookup, lookup-erase, ℕ, ◌+◌, String,
  ◌≡◌, refl, sym, ◌∙◌, subst, ◌≢◌, Bool, true, Option, none, some, List, [], ◌∷◌, ◌++◌, append-nil,
  append_assoc, arith, nat_eq, string_eq, list_eq,
}
use frp_python.Protocol.Codec.{Bytes}
use frp_python.Server.Cleanup.{close_conn, close_pooled}
use frp_python.Server.State.{Reply, Conn, Server, write}
use frp_python.Server.Tcp.{
  put_pool, count_read, forward_public, with_prepended, forward_proxy_data, pass_on, forward_entry,
}
use frp_python.Stats.{Stats, on_disconnect, on_data_in}

abbrev pub conn_datas : ℕ → String → List Bytes → List (ℕ × Reply)
conn_datas w conn_id [] = []
conn_datas w conn_id (d ∷ ds) = (w, Reply.conn_data conn_id d) ∷ conn_datas w conn_id ds

abbrev pub AreSome : List Bytes → Type 0
AreSome ds = All (λ d. d ≢ []) ds

total-on_data_in :
    (id : String) (n : ℕ) (st : Stats) → (on_data_in id n st).total_bytes_in ≡ st.total_bytes_in + n
unfolding on_data_in
total-on_data_in id n st = ground arith

total-on_disconnect :
    (id : String) (st : Stats) → (on_disconnect id st).total_bytes_in ≡ st.total_bytes_in
unfolding on_disconnect
total-on_disconnect id st = ground arith

-- What a connection's end changes.
pub record IsEnded (conn_id : String) (s t : Server) : Type 0 where
  pub same_out : t.outbox ≡ s.outbox
  pub same_public : t.public_out ≡ s.public_out
  pub same_total : t.stats.total_bytes_in ≡ s.stats.total_bytes_in
  pub gone : lookup conn_id t.conn_pool ≡ none

pub close_conn-IsEnded : (conn_id : String) (s : Server) → IsEnded conn_id s (close_conn conn_id s)
unfolding close_conn close_pooled
close_conn-IsEnded conn_id s = go (lookup conn_id s.conn_pool) refl
  where
    go :
        (o : Option Conn)
        → lookup conn_id s.conn_pool ≡ o
        → IsEnded conn_id s (close_pooled conn_id o s)
    go none e = record { same_out = refl; same_public = refl; same_total = refl; gone = e }
    go (some c) e = record {
      same_out = refl;
      same_public = refl;
      same_total = total-on_disconnect conn_id s.stats;
      gone = simp (lookup-erase, ==_refl);
    }

-- What `forward_proxy_data` has done at its end.
pub record IsForwarded (w : ℕ) (conn_id : String) (ds : List Bytes) (s t : Server) : Type 0 where
  pub sent : t.outbox ≡ s.outbox ++ conn_datas w conn_id ds
  pub counted : t.stats.total_bytes_in ≡ s.stats.total_bytes_in + length (whole ds)
  pub ended : lookup conn_id t.conn_pool ≡ none

module _ (alive : ℕ → Bool) (now w : ℕ) (conn_id : String) (up : alive w ≡ true) where
  pass_on-up :
      (bs : Bytes) (o : Option ℕ) (more : Server → Server) (s : Server)
      → o ≡ some w
      → pass_on alive conn_id bs o more s ≡ more (write w (Reply.conn_data conn_id bs) s)
  unfolding pass_on
  pass_on-up bs o more s e = rw (e, up) refl

  forward_public-IsForwarded :
      (ds : List Bytes) (c : Conn) (s : Server)
      → AreSome ds
      → c.client_writer ≡ some w
      → IsForwarded w conn_id ds s (forward_public alive now conn_id c (ds ++ [] ∷ []) s)
  unfolding forward_public
  forward_public-IsForwarded [] c s h e =
      let r = close_conn-IsEnded conn_id s in
      record {
        sent = r.same_out ∙ sym (append-nil s.outbox);
        counted = omega (arith, r.same_total);
        ended = r.gone;
      }
  forward_public-IsForwarded ([] ∷ ds) c s h e = absurd (h.0 refl)
  forward_public-IsForwarded ((b ∷ bs) ∷ ds) c s h e =
      let c' : Conn = record c { last_activity = now } in
      let put = count_read now conn_id (b ∷ bs) (put_pool conn_id c' s) in
      let r =
        forward_public-IsForwarded ds c' (write w (Reply.conn_data conn_id (b ∷ bs)) put) h.1 e in
      let total = total-on_data_in conn_id (length (b ∷ bs)) s.stats in
      let more = forward_public alive now conn_id c' (ds ++ [] ∷ []) in
      subst (IsForwarded w conn_id ((b ∷ bs) ∷ ds) s)
        (sym (pass_on-up (b ∷ bs) c.client_writer more put e))
        (record {
          sent =
              r.sent
              ∙ append_assoc s.outbox ((w, Reply.conn_data conn_id (b ∷ bs)) ∷ [])
                  (conn_datas w conn_id ds);
          counted = omega (arith, r.counted, total, length-append (b ∷ bs) (whole ds));
          ended = r.ended;
        })

-- What a public client sends up to its end, to a connection whose client is ready, becomes DATA
-- messages to that client, first what was read before, then one for each read, in order; all of it
-- is counted as data in, and at the end the connection has left the pool. The client is not told.
pub forward_proxy_data-IsForwarded :
    (alive : ℕ → Bool) (now w : ℕ) (conn_id : String) (c : Conn) (reads : List Bytes) (s : Server)
    → lookup conn_id s.conn_pool ≡ some c
    → c.client_ready ≡ true
    → c.client_writer ≡ some w
    → alive w ≡ true
    → AreSome reads
    → IsForwarded w conn_id
        (with_prepended c.prepend_data reads)
        s
        (forward_proxy_data alive now conn_id (reads ++ [] ∷ []) s)
unfolding forward_proxy_data forward_entry
forward_proxy_data-IsForwarded alive now w conn_id c reads s there ready writer up h = rw there (
    subst
      (λ b. IsForwarded w conn_id (with_prepended c.prepend_data reads) s (
        if b
        then forward_public alive now conn_id c (with_prepended c.prepend_data (reads ++ [] ∷ [])) s
        else close_conn conn_id s))
      (sym ready) (go c.prepend_data))
  where
    go :
        (p : Bytes)
        → IsForwarded w conn_id
            (with_prepended p reads)
            s
            (forward_public alive now conn_id c (with_prepended p (reads ++ [] ∷ [])) s)
    go [] = forward_public-IsForwarded alive now w conn_id up reads c s h writer
    go (b ∷ bs) =
        forward_public-IsForwarded alive now w conn_id up ((b ∷ bs) ∷ reads) c s ((λ e. cc e), h)
          writer
