-- ===== src/Server/Handlers/Allowed.antt =====
-- frps.py: what registration keeps of the proxies.
use frp_python.Prelude.{
  if◌then◌else◌, ◌==◌, Bool-cases, lookup, insert, lookup-insert, ℕ, String, ◌≡◌, refl, sym, inl,
  inr, Bool, true, false, ◌&&◌, not, Option, none, some, List, arith, nat_eq, string_eq, list_eq,
}
use frp_python.Access.Ports.{check_port}
use frp_python.Py.Int.{pos}
use frp_python.Py.Text.{Text}
use frp_python.Server.Handlers.{
  Request, refuse, answer, register_port_proxy, is_port_type, register_by_type, handle_register,
}
use frp_python.Server.Http.{add_http_proxy, register_http_proxy}
use frp_python.Server.Registry.{
  note_proxy, Registered, register_stcp_proxy, admit_visitor, server_of, register_stcp_visitor,
}
use frp_python.Server.State.{Server, Proxy, HttpProxy, Provider, Visitor, Reason, or_zero}

-- Every proxy with a port of its own has a port that the access control allows.
pub record AllAllowed (s : Server) : Type 0 where
  pub allowed :
      (name : String) (p : Proxy)
      → lookup name s.proxies ≡ some p
      → check_port s.access.allow_ports (pos p.remote_port) ≡ true

-- A step that leaves the ports and their proxies.
abbrev KeepsPorts : Server → Server → Type 0
KeepsPorts s s' = (s'.proxies ≡ s.proxies) × (s'.access ≡ s.access)

KeepsPorts-allowed : (s s' : Server) → KeepsPorts s s' → AllAllowed s → AllAllowed s'
KeepsPorts-allowed s s' k h = record {
  allowed = λ name p e. rw k.1 (h.allowed name p (rw k.0 at e));
}

note_proxy-KeepsPorts :
    (session : Option String) (name : String) (s : Server)
    → KeepsPorts s (note_proxy session name s)
unfolding note_proxy
note_proxy-KeepsPorts none name s = (refl, refl)
note_proxy-KeepsPorts (some id) name s = ground arith

answer-KeepsPorts :
    (w : ℕ) (r : Registered) (s : Server) → KeepsPorts s r.1 → KeepsPorts s (answer w r)
unfolding answer refuse
answer-KeepsPorts w (none, s') s k = k
answer-KeepsPorts w (some reason, s') s k = k

stcp-KeepsPorts :
    (now : ℕ) (name sk : String) (w : ℕ) (session : Option String) (s : Server)
    → KeepsPorts s (register_stcp_proxy now name sk w session s).1
unfolding register_stcp_proxy
stcp-KeepsPorts now name sk w session s =
    let p : Provider = record { sk = sk; control_writer = w; session_id = session } in
    let k =
      note_proxy-KeepsPorts session name
        (record s { stcp_providers = insert name p s.stcp_providers }) in
    ground (arith, k)

admit-KeepsPorts :
    (now : ℕ) (name sk : String) (bind_port : ℕ) (server_name : String) (w : ℕ)
    (session : Option String) (o : Option Provider) (s : Server)
    → KeepsPorts s (admit_visitor now name sk bind_port server_name w session o s).1
unfolding admit_visitor
admit-KeepsPorts now name sk bind_port server_name w session none s = (refl, refl)
admit-KeepsPorts now name sk bind_port server_name w session (some p) s =
    let v : Visitor = record {
      sk = sk;
      bind_port = bind_port;
      server_name = server_name;
      control_writer = w;
      session_id = session;
    } in
    let k =
      note_proxy-KeepsPorts session name
        (record s { stcp_visitors = insert name v s.stcp_visitors }) in
    ground (arith, k)

visitor-KeepsPorts :
    (now : ℕ) (name sk : String) (bind_port : ℕ) (server_name : Option String) (w : ℕ)
    (session : Option String) (s : Server)
    → KeepsPorts s (register_stcp_visitor now name sk bind_port server_name w session s).1
unfolding register_stcp_visitor
visitor-KeepsPorts now name sk bind_port server_name w session s = ground (
  arith,
  admit-KeepsPorts now name sk bind_port (server_of name server_name) w session
      (lookup (server_of name server_name) s.stcp_providers) s,
)

http-KeepsPorts :
    (now : ℕ) (name : String) (domains : List Text) (sub : Text) (w : ℕ) (session : Option String)
    (s : Server)
    → KeepsPorts s (register_http_proxy now name domains sub w session s).1
unfolding register_http_proxy add_http_proxy
http-KeepsPorts now name domains sub w session s =
    let p : HttpProxy = record {
      custom_domains = domains;
      subdomain = sub;
      control_writer = w;
      session_id = session;
    } in
    let k =
      note_proxy-KeepsPorts session name
        (record s { http_proxies = insert name p s.http_proxies }) in
    ground (arith, k)

inserted-AllAllowed :
    (name : String) (p : Proxy) (s s' : Server)
    → s'.proxies ≡ insert name p s.proxies
    → s'.access ≡ s.access
    → check_port s.access.allow_ports (pos p.remote_port) ≡ true
    → AllAllowed s
    → AllAllowed s'
inserted-AllAllowed name p s s' e e' ok h = record {
  allowed = λ other q found.
      let found' : (if name == other then some p else lookup other s.proxies) ≡ some q =
        rw (e, lookup-insert) at found in
      rw e' (elim (Bool-cases (name == other)) [
        | inl same ↦
            let f : some p ≡ some q = rw same at found' in let g : p ≡ q = cc in rw (sym g) ok
        | inr apart ↦ h.allowed other q (rw apart at found')
      ]);
}

port-AllAllowed :
    (started : Bool) (now : ℕ) (r : Request) (w : ℕ) (session : Option String) (s : Server)
    → check_port s.access.allow_ports (pos r.remote_port) ≡ true
    → AllAllowed s
    → AllAllowed (register_port_proxy started now r w session s)
unfolding register_port_proxy
port-AllAllowed false now r w session s ok h = h
port-AllAllowed true now r w session s ok h =
    let p : Proxy = record {
      kind = r.proxy_type;
      remote_port = r.remote_port;
      control_writer = w;
      session_id = session;
      last_activity = now;
    } in
    let k =
      note_proxy-KeepsPorts session r.proxy_name
        (record s { proxies = insert r.proxy_name p s.proxies }) in
    inserted-AllAllowed r.proxy_name p s _ k.0 k.1 ok h

refuse-AllAllowed :
    (w : ℕ) (reason : Reason) (s : Server) → AllAllowed s → AllAllowed (refuse w reason s)
unfolding refuse
refuse-AllAllowed w reason s h = record { allowed = h.allowed }

either-AllAllowed :
    (b : Bool) (s t : Server) → AllAllowed s → AllAllowed t → AllAllowed (if b then s else t)
either-AllAllowed true s t h k = h
either-AllAllowed false s t h k = k

by_type-AllAllowed :
    (started : Bool) (now : ℕ) (r : Request) (w : ℕ) (session : Option String) (s : Server)
    → (is_port_type r.proxy_type && not (check_port s.access.allow_ports (pos r.remote_port)))
      ≡ false
    → AllAllowed s
    → AllAllowed (register_by_type started now r w session s)
unfolding register_by_type
by_type-AllAllowed started now r w session s ok h =
    let name = r.proxy_name in
    let kept : (g : Registered) → KeepsPorts s g.1 → AllAllowed (answer w g) =
      λ g k. KeepsPorts-allowed s (answer w g) (answer-KeepsPorts w g s k) h in
    let a = port-AllAllowed started now r w session s in
    let b =
      kept (register_http_proxy now name r.custom_domains r.subdomain w session s)
        (http-KeepsPorts now name r.custom_domains r.subdomain w session s) in
    let c =
      kept (register_stcp_proxy now name r.sk w session s)
        (stcp-KeepsPorts now name r.sk w session s) in
    let d =
      kept (register_stcp_visitor now name r.sk r.bind_port r.server_name w session s)
        (visitor-KeepsPorts now name r.sk r.bind_port r.server_name w session s) in
    let no_http = refuse-AllAllowed w Reason.http_not_enabled s h in
    let unknown = refuse-AllAllowed w Reason.unsupported_type s h in
    let is : String → Bool = λ t. r.proxy_type == t in
    let others =
      either-AllAllowed (is "http") _ _
        (either-AllAllowed (or_zero s.vhost_http_port == 0) _ _ no_http b)
        (either-AllAllowed (is "stcp") _ _ c
          (either-AllAllowed (is "stcp_visitor") _ _ d unknown)) in
    elim (Bool-cases (is_port_type r.proxy_type)) [
      | inl port ↦ rw port (a (ground (arith, port)) h)
      | inr other ↦ rw other others
    ]

-- When every proxy has a port that the access control allows, this is still so after any
-- registration, of any type, whether it is let in or refused.
pub handle_register-AllAllowed :
    (started : Bool) (now : ℕ) (r : Request) (w : ℕ) (session : Option String) (s : Server)
    → AllAllowed s
    → AllAllowed (handle_register started now r w session s)
unfolding handle_register
handle_register-AllAllowed started now r w session s h = ground (
  arith,
  refuse-AllAllowed w Reason.missing_proxy_name s h,
  refuse-AllAllowed w Reason.missing_remote_port s h,
  refuse-AllAllowed w Reason.port_not_allowed s h,
  refuse-AllAllowed w Reason.already_registered s h,
  by_type-AllAllowed started now r w session s,
)
