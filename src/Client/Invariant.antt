-- ===== src/Client/Invariant.antt =====
-- frpc.py: what the handlers keep true of the client's tables.
pub mod Messages
pub mod Runs
use frp_python.Prelude.{
  if◌then◌else◌, All, Dict, lookup, insert, erase, contains, IsUnique, insert-IsUnique,
  erase-IsUnique, ℕ, ◌≡◌, Bool, true, false, Option, none, some, List, [], ◌∷◌, arith, nat_eq,
  string_eq, list_eq,
}
use frp_python.Client.Handlers.{
  close_conn, close_peer, close_ftp_data_conn, refuse_conn, enter_conn, new_conn_entry, open_local,
}
use frp_python.Client.State.{
  control_channel, Channel, Peer, ProxyInfo, PoolEntry, FtpConn, Client, Surroundings, send,
  try_send,
}
use frp_python.Protocol.Codec.{Bytes}
use frp_python.Protocol.Message.{Message}
use frp_python.Py.Text.{Text}
use frp_python.Server.Stcp.Relay.{delivered}

-- Every connection belongs to a proxy of the client.
abbrev pub AreKnown : Dict Text ProxyInfo → Dict Text PoolEntry → Type 0
AreKnown proxies d = All (λ c. contains c.1.proxy_name proxies ≡ true) d

AreKnown-insert :
    (ps : Dict Text ProxyInfo) (k : Text) (c : PoolEntry) (d : Dict Text PoolEntry)
    → contains c.proxy_name ps ≡ true
    → AreKnown ps d
    → AreKnown ps (insert k c d)
unfolding insert
AreKnown-insert ps k c [] h a = (h, tt)
AreKnown-insert ps k c ((j, b) ∷ d) h a = ground (arith, AreKnown-insert ps k c d h a.1)

AreKnown-erase :
    (ps : Dict Text ProxyInfo) (k : Text) (d : Dict Text PoolEntry)
    → AreKnown ps d
    → AreKnown ps (erase k d)
unfolding erase
AreKnown-erase ps k [] a = tt
AreKnown-erase ps k ((j, b) ∷ d) a = ground (arith, AreKnown-erase ps k d a.1)

pub AreKnown-lookup :
    (ps : Dict Text ProxyInfo) (k : Text) (c : PoolEntry) (d : Dict Text PoolEntry)
    → lookup k d ≡ some c
    → AreKnown ps d
    → contains c.proxy_name ps ≡ true
unfolding lookup
AreKnown-lookup ps k c [] e a = cc
AreKnown-lookup ps k c ((j, b) ∷ d) e a = ground (arith, AreKnown-lookup ps k c d)

-- The tables of the client: no id stands twice, and every connection of the pool belongs to a
-- proxy that was registered.
pub record IsWellFormed (s : Client) : Type 0 where
  pub unique_conns : IsUnique s.conn_pool
  pub unique_ftp : IsUnique s.ftp_data_conns
  pub known : AreKnown s.proxies s.conn_pool

pub enter :
    (k : Text) (c : PoolEntry) (s : Client)
    → contains c.proxy_name s.proxies ≡ true
    → IsWellFormed s
    → IsWellFormed (record s { conn_pool = insert k c s.conn_pool })
enter k c s h w = record {
  unique_conns = insert-IsUnique k c s.conn_pool w.unique_conns;
  unique_ftp = w.unique_ftp;
  known = AreKnown-insert s.proxies k c s.conn_pool h w.known;
}

-- Sending, delivering and closing leave the tables as they are.
pub same_tables :
    (s : Client) (out : List (Channel × Message)) (del : List (ℕ × Bytes)) (cl : List ℕ)
    → IsWellFormed s
    → IsWellFormed (record s { outbox = out; delivered = del; closed = cl })
same_tables s out del cl w = record {
  unique_conns = w.unique_conns;
  unique_ftp = w.unique_ftp;
  known = w.known;
}

pub close_conn-IsWellFormed :
    (k : Text) (s : Client) → IsWellFormed s → IsWellFormed (close_conn k s)
unfolding close_conn
close_conn-IsWellFormed k s w = go (lookup k s.conn_pool)
  where
    go :
        (o : Option PoolEntry)
        → IsWellFormed (elim o [
          | none ↦ s
          | some c ↦ close_peer c.peer (record s { conn_pool = erase k s.conn_pool })
        ])
    go none = w
    go (some c) = record {
      unique_conns = erase-IsUnique k s.conn_pool w.unique_conns;
      unique_ftp = w.unique_ftp;
      known = AreKnown-erase s.proxies k s.conn_pool w.known;
    }

pub close_ftp_data_conn-IsWellFormed :
    (k : Text) (s : Client) → IsWellFormed s → IsWellFormed (close_ftp_data_conn k s)
unfolding close_ftp_data_conn
close_ftp_data_conn-IsWellFormed k s w = go (lookup k s.ftp_data_conns)
  where
    go :
        (o : Option FtpConn)
        → IsWellFormed (elim o [
          | none ↦ s
          | some c ↦ record s {
            ftp_data_conns = erase k s.ftp_data_conns;
            closed = c.local_writer ∷ s.closed;
          }
        ])
    go none = w
    go (some c) = record {
      unique_conns = w.unique_conns;
      unique_ftp = erase-IsUnique k s.ftp_data_conns w.unique_ftp;
      known = w.known;
    }

-- A test between two states that are well formed.
pub either :
    (b : Bool) (s t : Client) → IsWellFormed s → IsWellFormed t → IsWellFormed (if b then s else t)
either true s t v w = v
either false s t v w = w

module _ (e : Surroundings) where
  pub try_send-IsWellFormed :
      (c : Channel) (m : Message) (s : Client) → IsWellFormed s → IsWellFormed (try_send e c m s)
  try_send-IsWellFormed c m s w = either (e.alive c) (send c m s) s (same_tables s _ _ _ w) w

  pub open_local-IsWellFormed :
      (name k : Text) (m : Message) (p : Option Peer) (s : Client)
      → contains name s.proxies ≡ true
      → IsWellFormed s
      → IsWellFormed (open_local e name k m p s)
  unfolding open_local enter_conn refuse_conn
  open_local-IsWellFormed name k m none s h w = try_send-IsWellFormed _ _ s w
  open_local-IsWellFormed name k m (some p) s h w =
      let entered = record s { conn_pool = insert k (new_conn_entry e name p) s.conn_pool } in
      let v : IsWellFormed entered = enter k (new_conn_entry e name p) s h w in
      either (e.alive control_channel) (send control_channel m entered) (refuse_conn e k entered)
        (same_tables entered _ _ _ v) (try_send-IsWellFormed _ _ entered v)
