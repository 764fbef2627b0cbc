-- ===== src/Client/Session/Registration.antt =====
-- frpc.py: what `register_proxies` has done when it returns.
use frp_python.Prelude.{
  if◌then◌else◌, ==_refl, Bool-cases, All, Dict, lookup, insert, contains, lookup-insert, ◌≡◌, refl,
  sym, ◌∙◌, inl, inr, true, some, List, [], ◌∷◌, ◌++◌, append-nil, append_assoc, arith, nat_eq,
  string_eq, list_eq,
}
use frp_python.Client.Session.{
  ProxyConfig, register_message, enter_proxy, register_proxies, proxy_info,
}
use frp_python.Client.State.{control_channel, Channel, ProxyInfo, Client, Surroundings}
use frp_python.Protocol.Message.{Message}
use frp_python.Py.Text.{Text}

abbrev pub enabled_of : List ProxyConfig → List ProxyConfig
enabled_of [] = []
enabled_of (p ∷ ps) = if p.enabled then p ∷ enabled_of ps else enabled_of ps

abbrev pub register_messages : List ProxyConfig → List (Channel × Message)
register_messages [] = []
register_messages (p ∷ ps) = (control_channel, register_message p) ∷ register_messages ps

-- Every one of the entries is in the table.
abbrev pub AreEntered : List ProxyConfig → Dict Text ProxyInfo → Type 0
AreEntered ps d = All (λ p. contains p.name d ≡ true) ps

-- One after another.
abbrev all_registered : List ProxyConfig → Client → Client
all_registered [] s = s
all_registered (p ∷ ps) s = all_registered ps (enter_proxy p s)

module _ (e : Surroundings) (up : e.alive control_channel ≡ true) where
  register_proxies-all :
      (ps : List ProxyConfig) (s : Client)
      → register_proxies e ps s ≡ (true, all_registered (enabled_of ps) s)
  unfolding register_proxies
  register_proxies-all [] s = refl
  register_proxies-all (p ∷ ps) s = elim (Bool-cases p.enabled) [
    | inl on ↦ simp (on, up, register_proxies-all ps (enter_proxy p s))
    | inr off ↦ simp (off, register_proxies-all ps s)
  ]

outbox-all_registered :
    (ps : List ProxyConfig) (s : Client)
    → (all_registered ps s).outbox ≡ s.outbox ++ register_messages ps
outbox-all_registered [] s = sym (append-nil s.outbox)
outbox-all_registered (p ∷ ps) s =
    outbox-all_registered ps (enter_proxy p s)
    ∙ append_assoc s.outbox ((control_channel, register_message p) ∷ []) (register_messages ps)

-- A name that is in the table stays there.
stays :
    (name : Text) (ps : List ProxyConfig) (s : Client)
    → contains name s.proxies ≡ true
    → contains name (all_registered ps s).proxies ≡ true
stays name [] s h = h
stays name (p ∷ ps) s h =
    stays name ps (enter_proxy p s)
      (ground (arith, lookup-insert p.name name (proxy_info p) s.proxies))

all_registered-AreEntered :
    (ps : List ProxyConfig) (s : Client) → AreEntered ps (all_registered ps s).proxies
all_registered-AreEntered [] s = tt
all_registered-AreEntered (p ∷ ps) s =
    let found : lookup p.name (insert p.name (proxy_info p) s.proxies) ≡ some (proxy_info p) =
      simp (lookup-insert, ==_refl) in
    (
      stays p.name ps (enter_proxy p s) (rw found refl),
      all_registered-AreEntered ps (enter_proxy p s),
    )

-- While the control connection takes what is written, the registration goes through: one REGISTER
-- message for every proxy that is enabled and none for the others, in the order of the
-- configuration, and every one of them is in the table that NEW_CONN messages are looked up in.
register_proxies-registers :
    (e : Surroundings) (ps : List ProxyConfig) (s : Client)
    → e.alive control_channel ≡ true
    → let r = register_proxies e ps s in
      (r.0 ≡ true)
      × (r.1.outbox ≡ s.outbox ++ register_messages (enabled_of ps))
      × AreEntered (enabled_of ps) r.1.proxies
register_proxies-registers e ps s up =
    rw (register_proxies-all e up ps s)
      (refl, outbox-all_registered (enabled_of ps) s, all_registered-AreEntered (enabled_of ps) s)
