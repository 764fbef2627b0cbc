-- ===== src/Server/Http/Routing.antt =====
-- frps.py: the host names of HTTP proxies, and the proxy that a request goes to.
use frp_python.Prelude.{
  ◌==◌, list_beq_iff, Bool-cases, is_nil, any, elem, Dict, lookup, insert, contains, lookup-insert,
  IsUnique, ℕ, String, ◌≡◌, refl, sym, ap, ◌∙◌, inl, inr, true, false, ◌&&◌, not, Option, none,
  some, List, [], ◌∷◌, arith, eq_iff, nat_eq, string_eq, list_eq,
}
use frp_python.Py.Text.{Text, lower}
use frp_python.Server.Http.{proxy_domains, in_use, register_http_proxy, add_http_proxy, route}
use frp_python.Server.Registry.{note_proxy, Registered}
use frp_python.Server.State.{Server, Reason, HttpProxy}

-- Proxies that share a domain are the same.
abbrev pub IsDisjoint : Text → Dict String HttpProxy → Type 0
IsDisjoint host ps =
    (a b : String) (p q : HttpProxy) (d : Text)
    → lookup a ps ≡ some p
    → lookup b ps ≡ some q
    → elem d (proxy_domains host p) ≡ true
    → elem d (proxy_domains host q) ≡ true
    → a ≡ b

any-apart :
    (ds xs : List Text) (d : Text)
    → any (λ x. elem x xs) ds ≡ false
    → elem d ds ≡ true
    → elem d xs ≡ false
any-apart [] xs d h k = cc
any-apart (x ∷ ds) xs d h k = elim (Bool-cases (elem x xs)) [
  | inl here ↦ cc (rw here at h)
  | inr apart ↦ elim (Bool-cases (x == d)) [
    | inl same ↦ let e : x ≡ d = (list_beq_iff x d).0 same in rw (sym e) apart
    | inr other ↦ any-apart ds xs d (rw apart at h) (rw other at k)
  ]
]

in_use-apart :
    (ds : List Text) (host : Text) (ps : Dict String HttpProxy) (b : String) (q : HttpProxy)
    (d : Text)
    → in_use ds host ps ≡ false
    → lookup b ps ≡ some q
    → elem d ds ≡ true
    → elem d (proxy_domains host q) ≡ false
unfolding in_use lookup
in_use-apart ds host [] b q d free found new = cc
in_use-apart ds host ((name, p) ∷ ps) b q d free found new =
    elim (Bool-cases (any (λ x. elem x (proxy_domains host p)) ds)) [
      | inl used ↦ cc (rw used at free)
      | inr apart ↦ elim (Bool-cases (name == b)) [
        | inl same ↦
            let e : some p ≡ some q = rw same at found in
            let e' : p ≡ q = cc in rw (sym e') (any-apart ds (proxy_domains host p) d apart new)
        | inr other ↦ in_use-apart ds host ps b q d (rw apart at free) (rw other at found) new
      ]
    ]

clash :
    (host : Text) (b : String) (p q r : HttpProxy) (d : Text) (ps : Dict String HttpProxy)
    → in_use (proxy_domains host p) host ps ≡ false
    → lookup b ps ≡ some r
    → some p ≡ some q
    → elem d (proxy_domains host q) ≡ true
    → elem d (proxy_domains host r) ≡ true
    → ⊥
clash host b p q r d ps free found same in_q in_r =
    let e : q ≡ p = cc in
    let apart = in_use-apart (proxy_domains host p) host ps b r d free found (rw (sym e) in_q) in
    cc (rw apart at in_r)

add_http_proxy-IsDisjoint :
    (host : Text) (name : String) (p : HttpProxy) (ps : Dict String HttpProxy)
    → in_use (proxy_domains host p) host ps ≡ false
    → IsDisjoint host ps
    → IsDisjoint host (insert name p ps)
add_http_proxy-IsDisjoint host name p ps free h a b q r d at_a at_b in_q in_r =
    elim (Bool-cases (name == a)) [
      | inl is_a ↦ elim (Bool-cases (name == b)) [
        | inl is_b ↦ sym ((eq_iff name a).0 is_a) ∙ (eq_iff name b).0 is_b
        | inr not_b ↦ absurd (
            clash host b p q r d ps free (rw (lookup-insert, not_b) at at_b)
              (rw (lookup-insert, is_a) at at_a) in_q in_r)
      ]
      | inr not_a ↦ elim (Bool-cases (name == b)) [
        | inl is_b ↦ absurd (
            clash host a p r q d ps free (rw (lookup-insert, not_a) at at_a)
              (rw (lookup-insert, is_b) at at_b) in_r in_q)
        | inr not_b ↦
            h a b q r d (rw (lookup-insert, not_a) at at_a) (rw (lookup-insert, not_b) at at_b) in_q
              in_r
      ]
    ]

note_proxy-http :
    (session : Option String) (name : String) (s : Server)
    → ((note_proxy session name s).http_proxies ≡ s.http_proxies)
      × ((note_proxy session name s).subdomain_host ≡ s.subdomain_host)
unfolding note_proxy
note_proxy-http none name s = (refl, refl)
note_proxy-http (some id) name s = ground arith

abbrev pub ProxiesDisjoint : Server → Type 0
ProxiesDisjoint s = IsDisjoint s.subdomain_host s.http_proxies

module _ (now : ℕ) (proxy_name : String) (custom_domains : List Text) (subdomain : Text) (w : ℕ)
    (session : Option String) (s : Server) where
  -- The proxy's entry, and the state that a registration which is let in ends in.
  abbrev pub http_entry : HttpProxy
  http_entry = record {
    custom_domains = custom_domains;
    subdomain = subdomain;
    control_writer = w;
    session_id = session;
  }

  abbrev result : Registered
  result = register_http_proxy now proxy_name custom_domains subdomain w session s

  -- What a registration does to the table.
  data Registration : Registered → Type 0 where
    refused : (r : Reason) → Registration (some r, s)
    added :
        (s' : Server)
        → contains proxy_name s.http_proxies ≡ false
        → in_use (proxy_domains s.subdomain_host http_entry) s.subdomain_host s.http_proxies ≡ false
        → s'.http_proxies ≡ insert proxy_name http_entry s.http_proxies
        → s'.subdomain_host ≡ s.subdomain_host
        → Registration (none, s')

  added_entry :
      contains proxy_name s.http_proxies ≡ false
      → in_use (proxy_domains s.subdomain_host http_entry) s.subdomain_host s.http_proxies ≡ false
      → Registration (add_http_proxy now proxy_name custom_domains subdomain w session s)
  unfolding add_http_proxy
  added_entry free apart =
      let s1 : Server = record s { http_proxies = insert proxy_name http_entry s.http_proxies } in
      let t = note_proxy-http session proxy_name s1 in added _ free apart t.0 t.1

  register-Registration : Registration result
  unfolding register_http_proxy
  register-Registration = elim (Bool-cases (proxy_name == "")) [
    | inl unnamed ↦ rw unnamed (refused Reason.missing_proxy_name)
    | inr named ↦ elim (Bool-cases (is_nil custom_domains && is_nil subdomain)) [
      | inl bare ↦ rw (named, bare) (refused Reason.domains_required)
      | inr some_name ↦ elim (Bool-cases (contains proxy_name s.http_proxies)) [
        | inl taken ↦ rw (named, some_name, taken) (refused Reason.already_registered)
        | inr free ↦ elim (Bool-cases (not (is_nil subdomain) && is_nil s.subdomain_host)) [
          | inl hostless ↦ rw (named, some_name, free, hostless) (refused Reason.no_subdomain_host)
          | inr hosted ↦
              elim (Bool-cases (
                in_use (proxy_domains s.subdomain_host http_entry) s.subdomain_host
                  s.http_proxies)) [
                    | inl clashing ↦
                        rw (named, some_name, free, hosted, clashing) (refused Reason.domain_in_use)
                    | inr apart ↦
                        rw (named, some_name, free, hosted, apart) (added_entry free apart)
                  ]
        ]
      ]
    ]
  ]

  -- What `register_http_proxy` says of the tables it returns.
  abbrev IsKept : Registered → Type 0
  IsKept r = ProxiesDisjoint s → ProxiesDisjoint (r.1)

  Registration-IsKept : (r : Registered) → Registration r → IsKept r
  Registration-IsKept r (refused reason) h = h
  Registration-IsKept r (added s' free apart e e') h =
      rw (e, e')
        (add_http_proxy-IsDisjoint s.subdomain_host proxy_name http_entry s.http_proxies apart h)

  -- When no two HTTP proxies answer the same host name, this is still so after any registration of
  -- an HTTP proxy, whether it is let in or refused.
  pub register_http_proxy-ProxiesDisjoint :
      ProxiesDisjoint s
      → ProxiesDisjoint (register_http_proxy now proxy_name custom_domains subdomain w session s).1
  register_http_proxy-ProxiesDisjoint h = Registration-IsKept result register-Registration h

-- The first proxy that answers a name is in the table and answers it.
route-answers :
    (host name : Text) (b : String) (ps : Dict String HttpProxy)
    → IsUnique ps
    → route host name ps ≡ some b
    → (q : HttpProxy) × (lookup b ps ≡ some q) × (elem (lower name) (proxy_domains host q) ≡ true)
unfolding route lookup
route-answers host name b [] h e = cc
route-answers host name b ((k, q) ∷ ps) h e =
    elim (Bool-cases (elem (lower name) (proxy_domains host q))) [
      | inl here ↦
          let f : some k ≡ some b = rw here at e in
          let same : k ≡ b = cc in (q, ground (arith, eq_iff k b), here)
      | inr further ↦
          let (r, found, answers) = route-answers host name b ps h.1 (rw further at e) in
          (r, ground (arith, eq_iff k b, h.0, found), answers)
    ]

route-some :
    (host name : Text) (a : String) (p : HttpProxy) (ps : Dict String HttpProxy)
    → lookup a ps ≡ some p
    → elem (lower name) (proxy_domains host p) ≡ true
    → (b : String) × (route host name ps ≡ some b)
unfolding route lookup
route-some host name a p [] found answers = cc
route-some host name a p ((k, q) ∷ ps) found answers =
    elim (Bool-cases (elem (lower name) (proxy_domains host q))) [
      | inl here ↦ (k, rw here refl)
      | inr further ↦ elim (Bool-cases (k == a)) [
        | inl same ↦
            let f : some q ≡ some p = rw same at found in
            let e : p ≡ q = cc in cc (rw (e, further) at answers)
        | inr other ↦
            let (b, e) = route-some host name a p ps (rw other at found) answers in
            (b, rw further e)
      ]
    ]

-- Where no two proxies share a host name and no name of a proxy stands twice, a request goes to
-- the proxy that answers its host name, wherever that stands in the table.
pub route-answered :
    (host name : Text) (a : String) (p : HttpProxy) (ps : Dict String HttpProxy)
    → IsUnique ps
    → IsDisjoint host ps
    → lookup a ps ≡ some p
    → elem (lower name) (proxy_domains host p) ≡ true
    → route host name ps ≡ some a
route-answered host name a p ps u h found answers =
    let (b, e) = route-some host name a p ps found answers in
    let (q, found_b, answers_b) = route-answers host name b ps u e in
    let same : b ≡ a = h b a q p (lower name) found_b found answers_b answers in e ∙ ap some same
