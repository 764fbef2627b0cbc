-- ===== src/Stats/Invariant.antt =====
-- stats.py: the counters of open connections, against the table of connections.
use frp_python.Prelude.{
  if◌then◌else◌, ◌==◌, Option-cases, Dict, lookup, insert, contains, lookup-insert, lookup-empty,
  IsUnique, count_values, insert-IsUnique, erase-IsUnique, erase_absent, count_values-insert_new,
  count_values-insert_old, count_values-erase, ℕ, ◌+◌, ◌-◌, ◌<◌, String, ◌≡◌, refl, inl, inr, Bool,
  true, none, some, List, [], ◌∷◌, arith, eq_iff, nat_eq, string_eq, list_eq,
}
use frp_python.Stats.{
  Stats, ConnStats, ProxyStats, proxy_entry, on_connect, on_disconnect, on_data_in, on_data_out,
  on_proxy_register, on_proxy_unregister, new_stats, joined,
}

abbrev pub of_proxy : String → ConnStats → Bool
of_proxy proxy c = c.proxy_name == proxy

abbrev every : ConnStats → Bool
every c = true

-- The open connections are as many as the table has entries, no connection is listed twice, and
-- each proxy counts its own.
pub record IsConsistent (s : Stats) : Type 0 where
  pub unique : IsUnique s.conn_stats
  pub counted : s.current_connections ≡ count_values every s.conn_stats
  pub per_proxy :
      (proxy : String)
      → (proxy_entry proxy s.proxy_stats).current_conns ≡ count_values (of_proxy proxy) s.conn_stats

-- The calls of the server.
pub data Event : Type 0 where
  connect : String → String → String → ℕ → ℕ → Event
  disconnect : String → Event
  data_in : String → ℕ → Event
  data_out : String → ℕ → Event
  proxy_register : String → String → ℕ → ℕ → Event
  proxy_unregister : String → Event

abbrev pub step : Event → Stats → Stats
step (connect proxy conn kind port now) s = on_connect proxy conn kind port now s
step (disconnect conn) s = on_disconnect conn s
step (data_in conn size) s = on_data_in conn size s
step (data_out conn size) s = on_data_out conn size s
step (proxy_register proxy kind port now) s = on_proxy_register proxy kind port now s
step (proxy_unregister proxy) s = on_proxy_unregister proxy s

-- When a call may be made: a connection id is new when it connects, and open when it disconnects.
abbrev pub Fits : Event → Stats → Type 0
Fits (connect proxy conn kind port now) s = lookup conn s.conn_stats ≡ none
Fits (disconnect conn) s = contains conn s.conn_stats ≡ true
Fits _ s = Unit

abbrev pub AllFit : List Event → Stats → Type 0
AllFit [] s = Unit
AllFit (ev ∷ evs) s = Fits ev s × AllFit evs (step ev s)

abbrev pub run : List Event → Stats → Stats
run [] s = s
run (ev ∷ evs) s = run evs (step ev s)

proxy_entry-insert :
    (q p : String) (x : ProxyStats) (d : Dict String ProxyStats)
    → proxy_entry p (insert q x d) ≡ (if q == p then x else proxy_entry p d)
proxy_entry-insert q p x d = rw lookup-insert (ground arith)

connect-IsConsistent :
    (proxy conn kind : String) (port now : ℕ) (s : Stats)
    → lookup conn s.conn_stats ≡ none
    → IsConsistent s
    → IsConsistent (on_connect proxy conn kind port now s)
unfolding on_connect
connect-IsConsistent proxy conn kind port now s new h =
    let c : ConnStats = record {
      proxy_name = proxy;
      bytes_in = 0;
      bytes_out = 0;
      created_at = now;
    } in
    let d = s.proxy_stats in
    record {
      unique = insert-IsUnique conn c s.conn_stats h.unique;
      counted = omega (arith, h.counted, count_values-insert_new every conn c s.conn_stats new);
      per_proxy = λ p. ground (
        arith,
        h.per_proxy p,
        count_values-insert_new (of_proxy p) conn c s.conn_stats new,
        proxy_entry-insert proxy p (joined kind port (proxy_entry proxy d)) d,
        eq_iff proxy p,
      );
    }

disconnect-IsConsistent :
    (conn : String) (c : ConnStats) (s : Stats)
    → lookup conn s.conn_stats ≡ some c
    → IsConsistent s
    → IsConsistent (on_disconnect conn s)
unfolding on_disconnect
disconnect-IsConsistent conn c s open_now h =
    let d = s.proxy_stats in
    let p' = proxy_entry c.proxy_name d in
    rw open_now (record {
      unique = erase-IsUnique conn s.conn_stats h.unique;
      counted =
          omega (arith, h.counted, count_values-erase every conn c s.conn_stats h.unique open_now);
      per_proxy = λ p. ground (
        arith,
        h.per_proxy p,
        h.per_proxy c.proxy_name,
        count_values-erase (of_proxy p) conn c s.conn_stats h.unique open_now,
        proxy_entry-insert c.proxy_name p (record p' { current_conns = p'.current_conns - 1 }) d,
        eq_iff c.proxy_name p,
      );
    })

-- Bytes are counted under an entry that keeps its proxy, so no count of connections changes.
data_in-IsConsistent :
    (conn : String) (size : ℕ) (s : Stats) → IsConsistent s → IsConsistent (on_data_in conn size s)
unfolding on_data_in
data_in-IsConsistent conn size s h = elim (Option-cases (lookup conn s.conn_stats)) [
  | inl unknown ↦
      rw unknown (record { unique = h.unique; counted = h.counted; per_proxy = h.per_proxy })
  | inr (c, known) ↦
      let d = s.proxy_stats in
      let p' = proxy_entry c.proxy_name d in
      let c' : ConnStats = record c { bytes_in = c.bytes_in + size } in
      rw known (record {
        unique = insert-IsUnique conn c' s.conn_stats h.unique;
        counted =
            omega
              (arith, h.counted, count_values-insert_old every conn c' c s.conn_stats known refl);
        per_proxy = λ p. ground (
          arith,
          h.per_proxy p,
          count_values-insert_old (of_proxy p) conn c' c s.conn_stats known refl,
          proxy_entry-insert c.proxy_name p (record p' { bytes_in = p'.bytes_in + size }) d,
          eq_iff c.proxy_name p,
        );
      })
]

data_out-IsConsistent :
    (conn : String) (size : ℕ) (s : Stats) → IsConsistent s → IsConsistent (on_data_out conn size s)
unfolding on_data_out
data_out-IsConsistent conn size s h = elim (Option-cases (lookup conn s.conn_stats)) [
  | inl unknown ↦
      rw unknown (record { unique = h.unique; counted = h.counted; per_proxy = h.per_proxy })
  | inr (c, known) ↦
      let d = s.proxy_stats in
      let p' = proxy_entry c.proxy_name d in
      let c' : ConnStats = record c { bytes_out = c.bytes_out + size } in
      rw known (record {
        unique = insert-IsUnique conn c' s.conn_stats h.unique;
        counted =
            omega
              (arith, h.counted, count_values-insert_old every conn c' c s.conn_stats known refl);
        per_proxy = λ p. ground (
          arith,
          h.per_proxy p,
          count_values-insert_old (of_proxy p) conn c' c s.conn_stats known refl,
          proxy_entry-insert c.proxy_name p (record p' { bytes_out = p'.bytes_out + size }) d,
          eq_iff c.proxy_name p,
        );
      })
]

register-IsConsistent :
    (proxy kind : String) (port now : ℕ) (s : Stats)
    → IsConsistent s
    → IsConsistent (on_proxy_register proxy kind port now s)
unfolding on_proxy_register
register-IsConsistent proxy kind port now s h =
    let d = s.proxy_stats in
    let p' = proxy_entry proxy d in
    record {
      unique = h.unique;
      counted = h.counted;
      per_proxy = λ p. ground (
        arith,
        h.per_proxy p,
        eq_iff proxy p,
        proxy_entry-insert proxy p (record p' { type = kind; remote_port = port; created_at = now })
            d,
      );
    }

step-IsConsistent : (ev : Event) (s : Stats) → Fits ev s → IsConsistent s → IsConsistent (step ev s)
step-IsConsistent (connect proxy conn kind port now) s f h =
    connect-IsConsistent proxy conn kind port now s f h
step-IsConsistent (disconnect conn) s f h = elim (Option-cases (lookup conn s.conn_stats)) [
  | inl unknown ↦ cc (rw unknown at f)
  | inr (c, known) ↦ disconnect-IsConsistent conn c s known h
]
step-IsConsistent (data_in conn size) s f h = data_in-IsConsistent conn size s h
step-IsConsistent (data_out conn size) s f h = data_out-IsConsistent conn size s h
step-IsConsistent (proxy_register proxy kind port now) s f h =
    register-IsConsistent proxy kind port now s h
step-IsConsistent (proxy_unregister proxy) s f h =
    unfold on_proxy_unregister in
    record { unique = h.unique; counted = h.counted; per_proxy = h.per_proxy }

-- From a consistent state, after any calls in which connection ids are new when they connect and
-- open when they disconnect, the counters of open connections, in total and of each proxy, agree
-- with the table of connections.
pub run-IsConsistent :
    (evs : List Event) (s : Stats) → AllFit evs s → IsConsistent s → IsConsistent (run evs s)
run-IsConsistent [] s f h = h
run-IsConsistent (ev ∷ evs) s f h =
    run-IsConsistent evs (step ev s) f.1 (step-IsConsistent ev s f.0 h)

-- The state that the server starts with.
pub new_stats-IsConsistent : (now : ℕ) → IsConsistent (new_stats now)
new_stats-IsConsistent now = record {
  unique = tt;
  counted = refl;
  per_proxy = λ p. rw lookup-empty;
}

-- From a consistent state with a connection open, a disconnect of an id that is not in the table
-- leaves a state that is not consistent.
disconnect_unknown :
    (conn : String) (s : Stats)
    → lookup conn s.conn_stats ≡ none
    → 0 < s.current_connections
    → IsConsistent s
    → ¬ (IsConsistent (on_disconnect conn s))
unfolding on_disconnect
disconnect_unknown conn s unknown busy h broken =
    ground (arith, rw unknown at broken.counted, erase_absent conn s.conn_stats unknown, h.counted)
