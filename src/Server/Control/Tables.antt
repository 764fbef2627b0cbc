-- ===== src/Server/Control/Tables.antt =====
-- frps.py: what `cleanup_client_by_writer` leaves of the tables of proxies.
use frp_python.Prelude.{
  if◌then◌else◌, Dict, lookup, keys, ℕ, String, ◌≡◌, refl, ap, ◌∙◌, Bool, true, false, Option, none,
  some, List, [], ◌∷◌, nat_eq, string_eq, list_eq,
}
use frp_python.Server.Cleanup.{
  names_of, close_pooled, close_conn, is_of, is_stcp_of, close_of_proxy, close_stcp_of,
  remove_proxy, remove_proxies, remove_http, remove_providers, remove_visitors,
  cleanup_client_by_writer,
}
use frp_python.Server.Control.Named.{erase_all}
use frp_python.Server.State.{Server, Proxy, HttpProxy, Provider, Visitor, StcpConn, Conn, Session}
use frp_python.Server.Stcp.{notify, close_found, close_stcp_conn}

pub record Tables : Type 0 where
  pub proxy_table : Dict String Proxy
  pub http_table : Dict String HttpProxy
  pub provider_table : Dict String Provider
  pub visitor_table : Dict String Visitor
  pub session_table : Dict String Session

abbrev pub tables : Server → Tables
tables s = record {
  proxy_table = s.proxies;
  http_table = s.http_proxies;
  provider_table = s.stcp_providers;
  visitor_table = s.stcp_visitors;
  session_table = s.sessions;
}

either :
    (b : Bool) (s t u : Server)
    → tables t ≡ tables s
    → tables u ≡ tables s
    → tables (if b then t else u) ≡ tables s
either true s t u f g = f
either false s t u f g = g

close_pooled-tables :
    (id : String) (o : Option Conn) (s : Server) → tables (close_pooled id o s) ≡ tables s
unfolding close_pooled
close_pooled-tables id none s = refl
close_pooled-tables id (some c) s = refl

close_conn-tables : (id : String) (s : Server) → tables (close_conn id s) ≡ tables s
unfolding close_conn
close_conn-tables id s = close_pooled-tables id (lookup id s.conn_pool) s

close_of_proxy-tables :
    (name : String) (ids : List String) (s : Server) → tables (close_of_proxy name ids s) ≡ tables s
unfolding close_of_proxy
close_of_proxy-tables name [] s = refl
close_of_proxy-tables name (id ∷ ids) s =
    close_of_proxy-tables name ids _
    ∙ either (is_of name (lookup id s.conn_pool)) s _ s (close_conn-tables id s) refl

notify-tables :
    (alive : ℕ → Bool) (o : Option ℕ) (id : String) (s : Server)
    → tables (notify alive o id s) ≡ tables s
unfolding notify
notify-tables alive none id s = refl
notify-tables alive (some w) id s = either (alive w) s _ s refl refl

close_found-tables :
    (alive : ℕ → Bool) (id : String) (o : Option StcpConn) (s : Server)
    → tables (close_found alive id o s) ≡ tables s
unfolding close_found
close_found-tables alive id none s = refl
close_found-tables alive id (some c) s =
    notify-tables alive c.visitor_writer id _ ∙ notify-tables alive c.provider_writer id _

close_stcp_conn-tables :
    (alive : ℕ → Bool) (id : String) (s : Server) → tables (close_stcp_conn alive id s) ≡ tables s
unfolding close_stcp_conn
close_stcp_conn-tables alive id s = close_found-tables alive id (lookup id s.stcp_conns) s

close_stcp_of-tables :
    (alive : ℕ → Bool) (name : String) (ids : List String) (s : Server)
    → tables (close_stcp_of alive name ids s) ≡ tables s
unfolding close_stcp_of
close_stcp_of-tables alive name [] s = refl
close_stcp_of-tables alive name (id ∷ ids) s =
    close_stcp_of-tables alive name ids _
    ∙ either (is_stcp_of name (lookup id s.stcp_conns)) s _ s (close_stcp_conn-tables alive id s)
        refl

-- A change of one of the tables.
abbrev on_proxies : Dict String Proxy → Tables → Tables
on_proxies d t = record t { proxy_table = d }

abbrev on_http : Dict String HttpProxy → Tables → Tables
on_http d t = record t { http_table = d }

abbrev on_providers : Dict String Provider → Tables → Tables
on_providers d t = record t { provider_table = d }

abbrev on_visitors : Dict String Visitor → Tables → Tables
on_visitors d t = record t { visitor_table = d }

remove_proxies-tables :
    (names : List String) (s : Server)
    → tables (remove_proxies names s)
      ≡ on_proxies (erase_all names (tables s).proxy_table) (tables s)
unfolding remove_proxy
remove_proxies-tables [] s = refl
remove_proxies-tables (n ∷ names) s =
    remove_proxies-tables names (remove_proxy n s)
    ∙ ap (λ t. on_proxies (erase_all (n ∷ names) t.proxy_table) t)
        (close_of_proxy-tables n (keys s.conn_pool) s)

remove_http-tables :
    (names : List String) (s : Server)
    → tables (remove_http names s) ≡ on_http (erase_all names (tables s).http_table) (tables s)
remove_http-tables [] s = refl
remove_http-tables (n ∷ names) s = remove_http-tables names _

remove_providers-tables :
    (alive : ℕ → Bool) (names : List String) (s : Server)
    → tables (remove_providers alive names s)
      ≡ on_providers (erase_all names (tables s).provider_table) (tables s)
remove_providers-tables alive [] s = refl
remove_providers-tables alive (n ∷ names) s =
    remove_providers-tables alive names _
    ∙ ap (λ t. on_providers (erase_all names t.provider_table) t)
        (close_stcp_of-tables alive n (keys s.stcp_conns) _)

remove_visitors-tables :
    (names : List String) (s : Server)
    → tables (remove_visitors names s)
      ≡ on_visitors (erase_all names (tables s).visitor_table) (tables s)
remove_visitors-tables [] s = refl
remove_visitors-tables (n ∷ names) s = remove_visitors-tables names _

-- A table without the entries of a writer.
abbrev without : {V : Type 0} → (V → ℕ) → ℕ → Dict String V → Dict String V
without writer_of w d = erase_all (names_of writer_of w d) d

-- What the cleanup leaves of the tables.
abbrev cleaned : ℕ → Tables → Tables
cleaned w t = record t {
  proxy_table = without Proxy.control_writer w t.proxy_table;
  http_table = without HttpProxy.control_writer w t.http_table;
  provider_table = without Provider.control_writer w t.provider_table;
  visitor_table = without Visitor.control_writer w t.visitor_table;
}

pub cleanup-tables :
    (alive : ℕ → Bool) (w : ℕ) (s : Server)
    → tables (cleanup_client_by_writer alive w s) ≡ cleaned w (tables s)
unfolding cleanup_client_by_writer
cleanup-tables alive w s =
    let a = remove_proxies (names_of Proxy.control_writer w s.proxies) s in
    let b = remove_http (names_of HttpProxy.control_writer w a.http_proxies) a in
    let c = remove_providers alive (names_of Provider.control_writer w b.stcp_providers) b in
    remove_visitors-tables (names_of Visitor.control_writer w c.stcp_visitors) c
    ∙ ap (λ t. on_visitors (without Visitor.control_writer w t.visitor_table) t)
        (remove_providers-tables alive (names_of Provider.control_writer w b.stcp_providers) b
          ∙ ap (λ t. on_providers (without Provider.control_writer w t.provider_table) t)
              (remove_http-tables (names_of HttpProxy.control_writer w a.http_proxies) a
                ∙ ap (λ t. on_http (without HttpProxy.control_writer w t.http_table) t)
                    (remove_proxies-tables (names_of Proxy.control_writer w s.proxies) s)))
