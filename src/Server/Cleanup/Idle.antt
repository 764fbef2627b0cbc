-- ===== src/Server/Cleanup/Idle.antt =====
-- frps.py: the connections that `_cleanup_idle_connections` closes.
use frp_python.Prelude.{
  ltb, if◌then◌else◌, ◌==◌, Bool-cases, elem, Dict, lookup, erase, lookup-erase, keys, ℕ, ◌-◌,
  String, ◌≡◌, refl, ap, ◌∙◌, inl, inr, Bool, true, ◌&&◌, Option, none, some, List, [], ◌∷◌, arith,
  eq_iff, nat_eq, string_eq, list_eq,
}
use frp_python.Server.Cleanup.{
  close_pooled, close_conn, is_idle, close_idle, close_stcp_idle, cleanup_idle_connections,
  is_stcp_idle,
}
use frp_python.Server.State.{Server, Conn, StcpConn}
use frp_python.Server.Stcp.{close_found, close_stcp_conn, notify}
use frp_python.Stats.{on_disconnect}

-- The tables after closing one connection.
record ClosedOne (id other : String) (s s' : Server) : Type 0 where
  pool : lookup other s'.conn_pool ≡ (if id == other then none else lookup other s.conn_pool)
  same_timeout : s'.idle_timeout ≡ s.idle_timeout
  same_stcp : s'.stcp_conns ≡ s.stcp_conns

pooled-ClosedOne :
    (id other : String) (o : Option Conn) (s : Server)
    → lookup id s.conn_pool ≡ o
    → ClosedOne id other s (close_pooled id o s)
unfolding close_pooled
pooled-ClosedOne id other none s e = record {
  pool = ground (arith, e, eq_iff id other);
  same_timeout = refl;
  same_stcp = refl;
}
pooled-ClosedOne id other (some c) s e = record {
  pool = lookup-erase id other s.conn_pool;
  same_timeout = refl;
  same_stcp = refl;
}

close_conn-ClosedOne : (id other : String) (s : Server) → ClosedOne id other s (close_conn id s)
unfolding close_conn
close_conn-ClosedOne id other s = pooled-ClosedOne id other (lookup id s.conn_pool) s refl

-- The tables after a pass over some ids.
record Swept (now : ℕ) (ids : List String) (other : String) (s s' : Server) : Type 0 where
  pool : lookup other s'.conn_pool ≡ (
      if elem other ids && is_idle now s.idle_timeout (lookup other s.conn_pool)
      then none
      else lookup other s.conn_pool)
  same_timeout : s'.idle_timeout ≡ s.idle_timeout
  same_stcp : s'.stcp_conns ≡ s.stcp_conns

close_idle-Swept :
    (now : ℕ) (ids : List String) (other : String) (s : Server)
    → Swept now ids other s (close_idle now ids s)
unfolding close_idle
close_idle-Swept now [] other s = record { pool = refl; same_timeout = refl; same_stcp = refl }
close_idle-Swept now (id ∷ ids) other s =
    elim (Bool-cases (is_idle now s.idle_timeout (lookup id s.conn_pool))) [
      | inl idle ↦
          let one = close_conn-ClosedOne id other s in
          let rest = close_idle-Swept now ids other (close_conn id s) in
          rw idle (record {
            pool =
                rest.pool ∙ rw (one.pool, one.same_timeout) (ground (arith, eq_iff id other, idle));
            same_timeout = rest.same_timeout ∙ one.same_timeout;
            same_stcp = rest.same_stcp ∙ one.same_stcp;
          })
      | inr fresh ↦
          let rest = close_idle-Swept now ids other s in
          rw fresh (record {
            pool = rest.pool ∙ ground (arith, eq_iff id other, fresh);
            same_timeout = rest.same_timeout;
            same_stcp = rest.same_stcp;
          })
    ]

-- The pass over the STCP connections leaves the pool.
notify-pool :
    (alive : ℕ → Bool) (w : Option ℕ) (id : String) (s : Server)
    → (notify alive w id s).conn_pool ≡ s.conn_pool
unfolding notify
notify-pool alive none id s = refl
notify-pool alive (some w) id s = ground arith

close_found-pool :
    (alive : ℕ → Bool) (id : String) (o : Option StcpConn) (s : Server)
    → (close_found alive id o s).conn_pool ≡ s.conn_pool
unfolding close_found
close_found-pool alive id none s = refl
close_found-pool alive id (some c) s =
    let s1 : Server = record s {
      stcp_conns = erase id s.stcp_conns;
      stats = on_disconnect id s.stats;
    } in
    notify-pool alive c.visitor_writer id (notify alive c.provider_writer id s1)
    ∙ notify-pool alive c.provider_writer id s1

close_stcp_idle-pool :
    (alive : ℕ → Bool) (now : ℕ) (ids : List String) (s : Server)
    → (close_stcp_idle alive now ids s).conn_pool ≡ s.conn_pool
unfolding close_stcp_idle close_stcp_conn
close_stcp_idle-pool alive now [] s = refl
close_stcp_idle-pool alive now (id ∷ ids) s =
    let s1 : Server =
      if is_stcp_idle now s.idle_timeout (lookup id s.stcp_conns)
      then close_stcp_conn alive id s
      else s in
    close_stcp_idle-pool alive now ids s1
    ∙ ground (arith, close_found-pool alive id (lookup id s.stcp_conns) s)

elem-keys :
    (id : String) (c : Conn) (d : Dict String Conn) → lookup id d ≡ some c → elem id (keys d) ≡ true
unfolding lookup
elem-keys id c [] h = cc
elem-keys id c ((k, v) ∷ d) h = ground (arith, elem-keys id c d)

close_stcp_pool-lookup :
    (alive : ℕ → Bool) (now : ℕ) (id : String) (s : Server)
    → lookup id (close_stcp_idle alive now (keys s.stcp_conns) s).conn_pool ≡ lookup id s.conn_pool
close_stcp_pool-lookup alive now id s =
    ap (lookup id) (close_stcp_idle-pool alive now (keys s.stcp_conns) s)

-- The clean-up removes a pooled connection when it was idle for longer than the limit, and keeps
-- it as it is when not.
cleanup_idle_connections-pool :
    (alive : ℕ → Bool) (now : ℕ) (id : String) (c : Conn) (s : Server)
    → lookup id s.conn_pool ≡ some c
    → lookup id (cleanup_idle_connections alive now s).conn_pool
      ≡ (if ltb s.idle_timeout (now - c.last_activity) then none else some c)
unfolding cleanup_idle_connections
cleanup_idle_connections-pool alive now id c s there =
    let h = close_idle-Swept now (keys s.conn_pool) id s in
    let s1 = close_idle now (keys s.conn_pool) s in
    close_stcp_pool-lookup alive now id s1
    ∙ rw (h.pool, there) (ground (arith, elem-keys id c s.conn_pool there))
