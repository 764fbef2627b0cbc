-- ===== src/Server/Http/Vhost.antt =====
-- frps.py: `handle_http_vhost_conn` behind the reading of the request's head.
use frp_python.Prelude.{
  if◌then◌else◌, ==_refl, elem, lookup, lookup-insert, IsUnique, ℕ, String, ◌≡◌, refl, Bool, true,
  Option, none, some, [], ◌∷◌, ◌++◌, nat_eq, string_eq, list_eq,
}
use frp_python.Protocol.Codec.{Bytes}
use frp_python.Py.Text.{Text, lower}
use frp_python.Server.Http.{proxy_domains, route}
use frp_python.Server.Http.Routing.{IsDisjoint, route-answered}
use frp_python.Server.State.{stream_side, Reply, HttpProxy, Conn, Server, write, or_zero}
use frp_python.Server.Tcp.{new_conn_entry_for, put_pool}
use frp_python.Stats.{on_connect}

-- The connection is counted, announced to the client of the proxy, and entered with the head of
-- the request; when NEW_CONN cannot be written it is not entered.
unfoldable pub open_vhost :
    (ℕ → Bool) → ℕ → String → String → Bytes → Option HttpProxy → Server → Server
open_vhost alive now conn_id name head none s = s
open_vhost alive now conn_id name head (some p) s =
    let counted = record s {
      stats = on_connect name conn_id "http" (or_zero s.vhost_http_port) now s.stats;
    } in
    let told = write p.control_writer (Reply.new_conn_msg name conn_id) counted in
    if alive p.control_writer
    then put_pool conn_id (new_conn_entry_for name stream_side head now) told
    else counted

-- Without a proxy for the name the request is answered with 404 and nothing else happens.
unfoldable pub open_routed : (ℕ → Bool) → ℕ → String → Bytes → Option String → Server → Server
unfolding open_vhost
open_routed alive now conn_id head none s = s
open_routed alive now conn_id head (some name) s =
    open_vhost alive now conn_id name head (lookup name s.http_proxies) s

-- `handle_http_vhost_conn`, with the host name of the request and the bytes of its head
unfoldable pub handle_http_vhost_conn : (ℕ → Bool) → ℕ → String → Text → Bytes → Server → Server
unfolding open_routed
handle_http_vhost_conn alive now conn_id hostname head s =
    open_routed alive now conn_id head (route s.subdomain_host hostname s.http_proxies) s

-- The connection was announced to the client of a proxy, and waits with the head of its request.
pub record IsAnnounced (w : ℕ) (name conn_id : String) (head : Bytes) (s t : Server) : Type 0 where
  pub told : t.outbox ≡ s.outbox ++ (w, Reply.new_conn_msg name conn_id) ∷ []
  pub entry : Conn
  pub there : lookup conn_id t.conn_pool ≡ some entry
  pub head_first : entry.prepend_data ≡ head
  pub of_proxy : entry.proxy_name ≡ name

-- Where no two proxies share a host name and no name of a proxy stands twice, a request for a host
-- name of a proxy is announced to the client that registered that proxy, wherever the proxy stands
-- in the table, and the connection is entered with the head of the request, if the client's
-- connection takes the message.
pub handle_http_vhost_conn-IsAnnounced :
    (alive : ℕ → Bool) (now : ℕ) (conn_id : String) (hostname : Text) (head : Bytes) (s : Server)
    (name : String) (p : HttpProxy)
    → IsUnique s.http_proxies
    → IsDisjoint s.subdomain_host s.http_proxies
    → lookup name s.http_proxies ≡ some p
    → elem (lower hostname) (proxy_domains s.subdomain_host p) ≡ true
    → alive p.control_writer ≡ true
    → IsAnnounced p.control_writer name conn_id head s
        (handle_http_vhost_conn alive now conn_id hostname head s)
unfolding handle_http_vhost_conn open_routed open_vhost
handle_http_vhost_conn-IsAnnounced alive now conn_id hostname head s name p unique apart found
      answers up =
    let routed =
      route-answered s.subdomain_host hostname name p s.http_proxies unique apart found answers in
    rw (routed, found, up)
      (record {
        told = refl;
        entry = new_conn_entry_for name stream_side head now;
        there = simp (lookup-insert, ==_refl);
        head_first = refl;
        of_proxy = refl;
      })
