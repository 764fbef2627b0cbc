-- ===== src/ForwardProxy/Tunnel.antt =====
-- forward_proxy.py: who reaches a target, and which ends the pipes of a plain request join.
use frp_python.Prelude.{
  if◌then◌else◌, Bool-cases, is_nil, ℕ, ◌≡◌, refl, ap, ◌⊎◌, inl, inr, Bool, true, false, ◌||◌, not,
  Option, none, some, List, [], ◌∷◌, ◌++◌, arith,
}
use frp_python.ForwardProxy.Credentials.{HoldCredentials, check_lines-HoldCredentials}
use frp_python.ForwardProxy.Headers.{check_auth}
use frp_python.ForwardProxy.Request.{
  Env, Handled, Reached, End, Pipe, client, target, Connection, opened, timed_out, refused, Url,
  tunnel, read_headers, handle_request, handle_conn, forward, forwarded, split_uri, handle_http,
  port_of, forward_to,
}
use frp_python.Protocol.Codec.{Bytes}
use frp_python.Py.Int.{pos}
use frp_python.Py.Lines.{split_crlf}
use frp_python.Py.Text.{Text}

-- Both the name and the password of the proxy's user are configured.
abbrev pub needs_auth : Env → Bool
needs_auth env = not (is_nil env.auth_user || is_nil env.auth_pass)

-- A target is reached only for a client whose address passes. Where a user and a password are
-- configured, its headers have a Proxy-Authorization line of the Basic scheme that decodes to this
-- user, a colon and this password.
pub handle_conn-authorized :
    (env : Env) (ip line : Text) (lines : List Text) (stream : List Bytes) (t : Reached)
    → (handle_conn env ip line lines stream).reached ≡ some t
    → (env.check_ip ip ≡ true)
      × ((needs_auth env ≡ false)
          ⊎ HoldCredentials env.base64 env.auth_user env.auth_pass
              (split_crlf (read_headers [] lines)))
unfolding handle_conn handle_request check_auth
handle_conn-authorized env ip line lines stream t e = elim (Bool-cases (env.check_ip ip)) [
  | inr barred ↦ cc (rw barred at e)
  | inl passed ↦ elim (Bool-cases (is_nil line)) [
    | inl empty ↦ cc (rw (passed, empty) at e)
    | inr full ↦ elim (Bool-cases (needs_auth env)) [
      | inr free ↦ (passed, inl free)
      | inl needed ↦
          elim (Bool-cases
            (check_auth env.base64 env.auth_user env.auth_pass (read_headers [] lines))) [
              | inl holds ↦ (
                passed,
                inr (
                    check_lines-HoldCredentials env.base64 env.auth_user env.auth_pass _
                      (ground (arith, needed)) holds),
              )
              | inr missing ↦ cc (rw (passed, full, needed, missing) at e)
            ]
    ]
  ]
]

-- The bytes that the pipes have for an end, when each end sends what `sent` says.
unfoldable pub arrives : End → (End → Bytes) → List Pipe → Bytes
arrives e sent [] = []
arrives client sent ((from, client) ∷ pipes) = sent from ++ arrives client sent pipes
arrives client sent ((from, target) ∷ pipes) = arrives client sent pipes
arrives target sent ((from, client) ∷ pipes) = arrives target sent pipes
arrives target sent ((from, target) ∷ pipes) = sent from ++ arrives target sent pipes

-- What the client of a plain request gets, for what both ends send.
abbrev pub client_gets : Handled → (End → Bytes) → Bytes
client_gets o sent = o.to_client ++ arrives client sent o.pipes

-- What the client sends, and what the target does.
abbrev pub both : Bytes → Bytes → End → Bytes
both mine theirs client = mine
both mine theirs target = theirs

-- The pipes of a plain request lead from each end back to itself, or there are none.
data AreLoops : List Pipe → Type 0 where
  no_pipes : AreLoops []
  loops : AreLoops ((client, client) ∷ (target, target) ∷ [])

arrives-same :
    (mine theirs other : Bytes) {pipes : List Pipe}
    → AreLoops pipes
    → arrives client (both mine theirs) pipes ≡ arrives client (both mine other) pipes
unfolding arrives
arrives-same mine theirs other no_pipes = refl
arrives-same mine theirs other loops = refl

if-AreLoops :
    (b : Bool) (x y : Handled)
    → AreLoops x.pipes
    → AreLoops y.pipes
    → AreLoops (if b then x else y).pipes
if-AreLoops true x y h k = h
if-AreLoops false x y h k = k

AreLoops-same :
    (o : Handled) (mine theirs other : Bytes)
    → AreLoops o.pipes
    → client_gets o (both mine theirs) ≡ client_gets o (both mine other)
unfolding arrives
AreLoops-same o mine theirs other h =
    ap (λ bs. o.to_client ++ bs) (arrives-same mine theirs other h)

forward-AreLoops :
    (method v : Text) (u : Url) (port : ℕ) (headers : Text) (stream : List Bytes)
    → AreLoops (forward method v u port headers stream).pipes
unfolding forward tunnel
forward-AreLoops method v u port headers stream = if-AreLoops _ _ _ loops no_pipes

forwarded-AreLoops :
    (method v : Text) (u : Url) (port : ℕ) (headers : Text) (stream : List Bytes) (c : Connection)
    → AreLoops (forwarded method v u port headers stream c).pipes
unfolding forwarded
forwarded-AreLoops method v u port headers stream opened =
    forward-AreLoops method v u port headers stream
forwarded-AreLoops method v u port headers stream timed_out = no_pipes
forwarded-AreLoops method v u port headers stream (refused m) = no_pipes

forward_to-AreLoops :
    (env : Env) (method v headers : Text) (stream : List Bytes) (u : Url) (port : Option ℕ)
    → AreLoops (forward_to env method v u headers stream port).pipes
unfolding forward_to
forward_to-AreLoops env method v headers stream u none = no_pipes
forward_to-AreLoops env method v headers stream u (some port) =
    forwarded-AreLoops method v u port headers stream (env.connect u.hostname (pos port))

split_uri-AreLoops :
    (env : Env) (method v headers : Text) (stream : List Bytes) (u : Option Url)
    → AreLoops (split_uri env method v headers stream u).pipes
unfolding split_uri
split_uri-AreLoops env method v headers stream none = no_pipes
split_uri-AreLoops env method v headers stream (some u) =
    if-AreLoops (is_nil u.hostname) _ _ no_pipes
      (forward_to-AreLoops env method v headers stream u (port_of u.port))

-- Whatever plain request is handled, what its client gets does not depend on what the target
-- sends: the answer of the target is not sent on.
pub handle_http-no_answer :
    (env : Env) (method uri v headers : Text) (stream : List Bytes) (mine theirs other : Bytes)
    → let o = handle_http env method uri v headers stream in
      client_gets o (both mine theirs) ≡ client_gets o (both mine other)
unfolding handle_http
handle_http-no_answer env method uri v headers stream mine theirs other =
    AreLoops-same (handle_http env method uri v headers stream) mine theirs other
      (split_uri-AreLoops env method v headers stream (env.urlsplit uri))
