-- ===== src/Stats.antt =====
-- stats.py: `Stats`, the traffic counters of the server. The lock makes each method one step.
-- `time.time()` is an argument, in whole ticks.
pub mod Invariant
mod Tests
use frp_python.Prelude.{
  Dict, lookup, insert, erase, ℕ, ◌+◌, ◌-◌, String, Option, none, some, [], nat_eq, string_eq,
  list_eq,
}

-- An entry of `proxy_stats`, and the one that `defaultdict` makes for a new name.
pub record ProxyStats : Type 0 where
  pub type : String
  pub remote_port : ℕ
  pub connections : ℕ
  pub current_conns : ℕ
  pub bytes_in : ℕ
  pub bytes_out : ℕ
  pub created_at : ℕ

abbrev pub new_proxy_stats : ProxyStats
new_proxy_stats = record {
  type = "";
  remote_port = 0;
  connections = 0;
  current_conns = 0;
  bytes_in = 0;
  bytes_out = 0;
  created_at = 0;
}

-- An entry of `conn_stats`.
pub record ConnStats : Type 0 where
  pub proxy_name : String
  pub bytes_in : ℕ
  pub bytes_out : ℕ
  pub created_at : ℕ

pub record Stats : Type 0 where
  pub start_time : ℕ
  pub total_connections : ℕ
  pub current_connections : ℕ
  pub total_bytes_in : ℕ
  pub total_bytes_out : ℕ
  pub total_proxies : ℕ
  pub proxy_stats : Dict String ProxyStats
  pub conn_stats : Dict String ConnStats

-- `Stats.__init__`
abbrev pub new_stats : ℕ → Stats
new_stats now = record {
  start_time = now;
  total_connections = 0;
  current_connections = 0;
  total_bytes_in = 0;
  total_bytes_out = 0;
  total_proxies = 0;
  proxy_stats = [];
  conn_stats = [];
}

abbrev pub or_new : Option ProxyStats → ProxyStats
or_new none = new_proxy_stats
or_new (some p) = p

-- `self.proxy_stats[name]`
abbrev pub proxy_entry : String → Dict String ProxyStats → ProxyStats
proxy_entry name d = or_new (lookup name d)

-- What a connection does to its proxy's entry.
abbrev pub joined : String → ℕ → ProxyStats → ProxyStats
joined proxy_type remote_port p = record p {
  connections = p.connections + 1;
  current_conns = p.current_conns + 1;
  type = proxy_type;
  remote_port = remote_port;
}

-- `on_connect`
unfoldable pub on_connect : String → String → String → ℕ → ℕ → Stats → Stats
on_connect proxy_name conn_id proxy_type remote_port now s =
    let p = joined proxy_type remote_port (proxy_entry proxy_name s.proxy_stats) in
    let c : ConnStats = record {
      proxy_name = proxy_name;
      bytes_in = 0;
      bytes_out = 0;
      created_at = now;
    } in
    record s {
      total_connections = s.total_connections + 1;
      current_connections = s.current_connections + 1;
      proxy_stats = insert proxy_name p s.proxy_stats;
      conn_stats = insert conn_id c s.conn_stats;
    }

-- `max(0, n - 1)` is the subtraction of ℕ.
abbrev pub leave_proxy : Option ConnStats → Stats → Stats
leave_proxy none s = s
leave_proxy (some c) s =
    let p = proxy_entry c.proxy_name s.proxy_stats in
    record s {
      proxy_stats =
          insert c.proxy_name (record p { current_conns = p.current_conns - 1 }) s.proxy_stats;
    }

-- `on_disconnect`
unfoldable pub on_disconnect : String → Stats → Stats
on_disconnect conn_id s = leave_proxy (lookup conn_id s.conn_stats) (record s {
  current_connections = s.current_connections - 1;
  conn_stats = erase conn_id s.conn_stats;
})

abbrev pub count_in : String → ℕ → Option ConnStats → Stats → Stats
count_in conn_id size none s = s
count_in conn_id size (some c) s =
    let p = proxy_entry c.proxy_name s.proxy_stats in
    record s {
      conn_stats = insert conn_id (record c { bytes_in = c.bytes_in + size }) s.conn_stats;
      proxy_stats = insert c.proxy_name (record p { bytes_in = p.bytes_in + size }) s.proxy_stats;
    }

-- `on_data_in`
unfoldable pub on_data_in : String → ℕ → Stats → Stats
on_data_in conn_id size s =
    count_in conn_id size (lookup conn_id s.conn_stats)
      (record s { total_bytes_in = s.total_bytes_in + size })

abbrev pub count_out : String → ℕ → Option ConnStats → Stats → Stats
count_out conn_id size none s = s
count_out conn_id size (some c) s =
    let p = proxy_entry c.proxy_name s.proxy_stats in
    record s {
      conn_stats = insert conn_id (record c { bytes_out = c.bytes_out + size }) s.conn_stats;
      proxy_stats = insert c.proxy_name (record p { bytes_out = p.bytes_out + size }) s.proxy_stats;
    }

-- `on_data_out`
unfoldable pub on_data_out : String → ℕ → Stats → Stats
on_data_out conn_id size s =
    count_out conn_id size (lookup conn_id s.conn_stats)
      (record s { total_bytes_out = s.total_bytes_out + size })

-- `on_proxy_register`
unfoldable pub on_proxy_register : String → String → ℕ → ℕ → Stats → Stats
on_proxy_register proxy_name proxy_type remote_port now s =
    let p = proxy_entry proxy_name s.proxy_stats in
    let p' : ProxyStats = record p {
      type = proxy_type;
      remote_port = remote_port;
      created_at = now;
    } in
    record s {
      total_proxies = s.total_proxies + 1;
      proxy_stats = insert proxy_name p' s.proxy_stats;
    }

-- `on_proxy_unregister`
unfoldable pub on_proxy_unregister : String → Stats → Stats
on_proxy_unregister proxy_name s = record s { total_proxies = s.total_proxies - 1 }

-- What `get_summary` returns.
pub record Summary : Type 0 where
  pub uptime : ℕ
  pub total_connections : ℕ
  pub current_connections : ℕ
  pub total_proxies : ℕ
  pub total_bytes_in : ℕ
  pub total_bytes_out : ℕ

-- `get_summary`
unfoldable pub get_summary : ℕ → Stats → Summary
get_summary now s = record {
  uptime = now - s.start_time;
  total_connections = s.total_connections;
  current_connections = s.current_connections;
  total_proxies = s.total_proxies;
  total_bytes_in = s.total_bytes_in;
  total_bytes_out = s.total_bytes_out;
}

-- `get_proxy_stats`
unfoldable pub get_proxy_stats : Stats → Dict String ProxyStats
get_proxy_stats s = s.proxy_stats

-- `get_all_stats`
unfoldable pub get_all_stats : ℕ → Stats → Summary × Dict String ProxyStats
unfolding get_summary
get_all_stats now s = (get_summary now s, s.proxy_stats)
