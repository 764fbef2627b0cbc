-- ===== src/Server/Registry/Admission.antt =====
-- frps.py: which STCP registrations are let in.
use frp_python.Prelude.{
  ◌==◌, Bool-cases, is_some, lookup, insert, contains, lookup-insert, ℕ, String, ◌≡◌, refl, sym, ap,
  ◌∙◌, ◌≢◌, inl, inr, true, false, Option, none, some, arith, eq_iff, nat_eq, string_eq, list_eq,
}
use frp_python.Server.Registry.{
  note_proxy, admit_visitor, register_stcp_visitor, server_of, Registered,
}
use frp_python.Server.State.{Server, Provider, Visitor}
use frp_python.Stats.{on_proxy_register}

-- What is asked of a visitor's registration that is let in.
pub record IsAdmitted (proxy_name sk name : String) (bind_port : ℕ) (s s' : Server) : Type 0 where
  pub provider : Provider
  pub provided : lookup name s.stcp_providers ≡ some provider
  pub same_key : provider.sk ≡ sk
  pub was_free : lookup proxy_name s.stcp_visitors ≡ none
  pub keyed : sk ≢ ""
  pub bound : bind_port ≢ 0
  pub registered : contains proxy_name s'.stcp_visitors ≡ true
  pub same_providers : s'.stcp_providers ≡ s.stcp_providers
  pub same_conns : s'.stcp_conns ≡ s.stcp_conns

note_proxy-tables :
    (session : Option String) (name : String) (s : Server)
    → ((note_proxy session name s).stcp_visitors ≡ s.stcp_visitors)
      × ((note_proxy session name s).stcp_providers ≡ s.stcp_providers)
      × ((note_proxy session name s).stcp_conns ≡ s.stcp_conns)
unfolding note_proxy
note_proxy-tables none name s = (refl, refl, refl)
note_proxy-tables (some id) name s = ground arith

is_some-none : {A : Type 0} (o : Option A) → is_some o ≡ false → o ≡ none
is_some-none none h = refl
is_some-none (some x) h = cc

module _ (now : ℕ) (proxy_name sk : String) (bind_port : ℕ) (server_name : Option String) (w : ℕ)
    (session : Option String) where
  admit-IsAdmitted :
      (name : String) (o : Option Provider) (s s' : Server)
      → lookup name s.stcp_providers ≡ o
      → sk ≢ ""
      → bind_port ≢ 0
      → admit_visitor now proxy_name sk bind_port name w session o s ≡ (none, s')
      → IsAdmitted proxy_name sk name bind_port s s'
  unfolding admit_visitor
  admit-IsAdmitted name none s s' found keyed bound e = cc
  admit-IsAdmitted name (some p) s s' found keyed bound e = elim (Bool-cases (p.sk == sk)) [
    | inr bad ↦ ground arith
    | inl same ↦ elim (Bool-cases (contains proxy_name s.stcp_visitors)) [
      | inl taken ↦ ground arith
      | inr free ↦
          let v : Visitor = record {
            sk = sk;
            bind_port = bind_port;
            server_name = name;
            control_writer = w;
            session_id = session;
          } in
          let s1 : Server = record s { stcp_visitors = insert proxy_name v s.stcp_visitors } in
          let s2 : Server = note_proxy session proxy_name s1 in
          let s3 : Server = record s2 {
            stats = on_proxy_register proxy_name "stcp_visitor" bind_port now s2.stats;
          } in
          let t = note_proxy-tables session proxy_name s1 in
          let f : ◌≡◌ {A = Registered} (none, s3) (none, s') = rw (same, free) at e in
          let eq_s : s3 ≡ s' = cc in
          record {
            provider = p;
            provided = found;
            same_key = (eq_iff p.sk sk).0 same;
            was_free = is_some-none (lookup proxy_name s.stcp_visitors) free;
            keyed = keyed;
            bound = bound;
            registered =
                rw (sym (ap Server.stcp_visitors eq_s) ∙ t.0)
                  (rw lookup-insert (ground (arith, eq_iff proxy_name proxy_name)));
            same_providers = sym (ap Server.stcp_providers eq_s) ∙ t.1;
            same_conns = sym (ap Server.stcp_conns eq_s) ∙ t.2;
          }
    ]
  ]

  -- A visitor is registered only with a key that is not empty and is that of the provider it
  -- names, by its own name where the message names none, with a port, and under a name that no
  -- visitor has; then it is in the table, and providers and connections are as before.
  pub register_stcp_visitor-IsAdmitted :
      (s s' : Server)
      → register_stcp_visitor now proxy_name sk bind_port server_name w session s ≡ (none, s')
      → IsAdmitted proxy_name sk (server_of proxy_name server_name) bind_port s s'
  unfolding register_stcp_visitor
  register_stcp_visitor-IsAdmitted s s' e = elim (Bool-cases (proxy_name == "")) [
    | inl unnamed ↦ ground arith
    | inr named ↦ elim (Bool-cases (sk == "")) [
      | inl empty ↦ ground arith
      | inr keyed ↦ elim (Bool-cases (bind_port == 0)) [
        | inl unbound ↦ ground arith
        | inr bound ↦
            let name = server_of proxy_name server_name in
            admit-IsAdmitted name (lookup name s.stcp_providers) s s' refl
              (λ k. ground (arith, (eq_iff sk "").1 k)) (λ z. ground arith)
              (rw (named, keyed, bound) at e)
      ]
    ]
  ]
