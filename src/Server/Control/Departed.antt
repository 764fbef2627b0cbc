-- ===== src/Server/Control/Departed.antt =====
-- frps.py: what a client that left has in the tables.
use frp_python.Prelude.{Dict, ℕ, String, ◌≡◌, refl, Bool, [], ◌∷◌}
use frp_python.Py.Text.{Text}
use frp_python.Server.Cleanup.{names_of, cleanup_client_by_writer}
use frp_python.Server.Control.Named.{NoneOf}
use frp_python.Server.Control.Tables.{Tables}
use frp_python.Server.State.{Server, Proxy, HttpProxy, Provider, Visitor}

-- Nothing that the writer registered is in the tables.
pub record IsDeparted (w : ℕ) (s : Server) : Type 0 where
  pub proxies : NoneOf Proxy.control_writer w s.proxies
  pub http_proxies : NoneOf HttpProxy.control_writer w s.http_proxies
  pub providers : NoneOf Provider.control_writer w s.stcp_providers
  pub visitors : NoneOf Visitor.control_writer w s.stcp_visitors

names_of-none :
    {V : Type 0} (writer_of : V → ℕ) (w : ℕ) (d : Dict String V)
    → NoneOf writer_of w d
    → names_of writer_of w d ≡ []
unfolding names_of
names_of-none writer_of w [] h = refl
names_of-none writer_of w ((k, v) ∷ d) h = rw h.0 (names_of-none writer_of w d h.1)

-- The cleanup of a writer that is not in the tables.
pub cleanup-departed :
    (alive : ℕ → Bool) (w : ℕ) (s : Server)
    → IsDeparted w s
    → cleanup_client_by_writer alive w s ≡ s
unfolding cleanup_client_by_writer
cleanup-departed alive w s h = rw (names_of-none Proxy.control_writer w s.proxies h.proxies) (
    rw (names_of-none HttpProxy.control_writer w s.http_proxies h.http_proxies) (
      rw (names_of-none Provider.control_writer w s.stcp_providers h.providers)
        (rw (names_of-none Visitor.control_writer w s.stcp_visitors h.visitors) refl)))
