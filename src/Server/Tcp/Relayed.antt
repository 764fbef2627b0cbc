-- ===== src/Server/Tcp/Relayed.antt =====
-- frps.py: what gets through between a public connection of a TCP or HTTP proxy and its client.
use frp_python.Prelude.{
  ==_refl, length, lookup, lookup-insert, ℕ, String, ◌≡◌, refl, sym, ap, ◌∙◌, subst, Bool, true,
  false, Option, none, some, List, [], ◌∷◌, ◌++◌, append-nil, append_assoc, nat_eq, string_eq,
  list_eq,
}
use frp_python.Protocol.Codec.{Bytes}
use frp_python.Server.Ftp.Data.{to_public, or_writer}
use frp_python.Server.State.{PublicSide, stream_side, Proxy, Conn, Server}
use frp_python.Server.Tcp.{
  touch_proxy, write_public, client_data, pool_data_for, handle_client_data, put_pool, write_side,
  is_unlinked,
}
use frp_python.Stats.{on_data_out}

-- The connection is in the pool, and its public side is a stream.
pub record IsStream (conn_id : String) (s : Server) : Type 0 where
  pub no_stcp : lookup conn_id s.stcp_conns ≡ none
  pub no_ftp_data : lookup conn_id s.ftp_data_ports ≡ none
  pub entry : Conn
  pub there : lookup conn_id s.conn_pool ≡ some entry
  pub stream : entry.side ≡ stream_side

-- What is written for a list of data.
abbrev pub public_writes : String → List Bytes → List (String × Bytes)
public_writes conn_id [] = []
public_writes conn_id (d ∷ ds) = (conn_id, d) ∷ public_writes conn_id ds

-- Two states with the same tables and public side.
pub record SameTables (s t : Server) : Type 0 where
  pub pool_eq : s.conn_pool ≡ t.conn_pool
  pub stcp_eq : s.stcp_conns ≡ t.stcp_conns
  pub ftp_eq : s.ftp_data_ports ≡ t.ftp_data_ports
  pub out_eq : s.public_out ≡ t.public_out

pub touch_proxy-SameTables :
    (name : String) (now : ℕ) (o : Option Proxy) (s : Server)
    → SameTables (touch_proxy name now o s) s
touch_proxy-SameTables name now none s = record {
  pool_eq = refl;
  stcp_eq = refl;
  ftp_eq = refl;
  out_eq = refl;
}
touch_proxy-SameTables name now (some p) s = record {
  pool_eq = refl;
  stcp_eq = refl;
  ftp_eq = refl;
  out_eq = refl;
}

module _ (listen : String → ℕ → Server → Option ℕ × Server) (alive : ℕ → Bool)
    (takes : String → Bool) (now : ℕ) (conn_id : String) (w : ℕ) where
  -- The DATA messages of a client for the connection, one after another.
  unfoldable pub client_datas : List Bytes → Server → Server
  client_datas [] s = s
  client_datas (d ∷ ds) s =
      client_datas ds (handle_client_data listen alive takes now conn_id d w s)

  module _ (ok : takes conn_id ≡ true) where
    write_side-stream :
        (d : Bytes) (c : Conn) (p : PublicSide) (s : Server)
        → p ≡ stream_side
        → write_side listen takes conn_id d c p s ≡ to_public conn_id d s
    unfolding write_side write_public
    write_side-stream d c p s h = rw (h, ok) refl

    -- What is shown of a state after the data has gone to the public side.
    abbrev IsPassedOn : Bytes → Server → Server → Type 0
    IsPassedOn d s t = (t.public_out ≡ s.public_out ++ (conn_id, d) ∷ []) × IsStream conn_id t

    client_data-IsPassedOn :
        (d : Bytes) (c : Conn) (s : Server)
        → c.side ≡ stream_side
        → lookup conn_id s.stcp_conns ≡ none
        → lookup conn_id s.ftp_data_ports ≡ none
        → IsPassedOn d s (client_data listen takes now conn_id d w c s)
    client_data-IsPassedOn d c s h a b =
        let c' : Conn = record c {
          client_writer = or_writer c.client_writer w;
          last_activity = now;
        } in
        let put = put_pool conn_id c' s in
        let t = touch_proxy c.proxy_name now (lookup c.proxy_name s.proxies) put in
        let k = touch_proxy-SameTables c.proxy_name now (lookup c.proxy_name s.proxies) put in
        let found : lookup conn_id put.conn_pool ≡ some c' = simp (lookup-insert, ==_refl) in
        let counted = record t { stats = on_data_out conn_id (length d) t.stats } in
        subst (IsPassedOn d s) (sym (write_side-stream d c' c.side counted h)) (
          ap (λ out. out ++ (conn_id, d) ∷ []) k.out_eq,
          record {
            no_stcp = ap (lookup conn_id) k.stcp_eq ∙ a;
            no_ftp_data = ap (lookup conn_id) k.ftp_eq ∙ b;
            entry = c';
            there = ap (lookup conn_id) k.pool_eq ∙ found;
            stream = h;
          },
        )

    pool_data_for-stream :
        (d : Bytes) (c : Conn) (s : Server)
        → c.side ≡ stream_side
        → pool_data_for listen takes now conn_id d w (some c) s
          ≡ client_data listen takes now conn_id d w c s
    unfolding pool_data_for
    pool_data_for-stream d c s h =
        let linked : is_unlinked c.side c ≡ false = ap (λ p. is_unlinked p c) h in rw linked refl

    step-IsPassedOn :
        (d : Bytes) (s : Server)
        → IsStream conn_id s
        → IsPassedOn d s (handle_client_data listen alive takes now conn_id d w s)
    unfolding handle_client_data
    step-IsPassedOn d s h =
        rw (h.no_stcp, h.no_ftp_data, h.there)
          (subst (IsPassedOn d s) (sym (pool_data_for-stream d h.entry s h.stream))
            (client_data-IsPassedOn d h.entry s h.stream h.no_stcp h.no_ftp_data))

    -- The data that a client sends for a connection of a TCP or HTTP proxy is written to its
    -- public side complete and in order, one write for a message, and the connection stays, while
    -- its public side takes what is written.
    pub client_datas-IsPassedOn :
        (ds : List Bytes) (s : Server)
        → IsStream conn_id s
        → let t = client_datas ds s in
          (t.public_out ≡ s.public_out ++ public_writes conn_id ds) × IsStream conn_id t
    unfolding client_datas
    client_datas-IsPassedOn [] s h = (sym (append-nil s.public_out), h)
    client_datas-IsPassedOn (d ∷ ds) s h =
        let t = handle_client_data listen alive takes now conn_id d w s in
        let now_out = step-IsPassedOn d s h in
        let later = client_datas-IsPassedOn ds t now_out.1 in
        (
          later.0
              ∙ ap (λ out. out ++ public_writes conn_id ds) now_out.0
              ∙ append_assoc s.public_out ((conn_id, d) ∷ []) (public_writes conn_id ds),
          later.1,
        )
