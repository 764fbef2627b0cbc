-- ===== src/Webadmin/Config/Checked.antt =====
-- webadmin/api/config_manager.py: what a server's configuration that passes its checks keeps to.
use frp_python.Prelude.{
  Option-cases, All, String, ◌≡◌, refl, ◌≢◌, ◌⊎◌, inl, inr, Bool, true, false, Option, none, some,
  List, [], ◌∷◌, ◌++◌, arith,
}
use frp_python.Access.Ports.{leb_ℤ}
use frp_python.ForwardProxy.Request.{forward}
use frp_python.Py.Int.{ℤ, pos}
use frp_python.Webadmin.Config.{
  ConfigError, as_int, number_in, validate_port_range, number_from, validate_at_least,
  validate_bind_port, validate_server_config, joined_errors, server_checks,
}
use frp_python.Webadmin.Config.Schema.{
  Setting, Config, null, flag, int, float, text, array, object, Field, FieldType, number,
  get_setting, server_schema,
}

-- A number that a schema's field allows: unset, or an integer within the bounds that it has.
abbrev pub AtLeast : Option ℤ → ℤ → Type 0
AtLeast none n = Unit
AtLeast (some low) n = leb_ℤ low n ≡ true

abbrev pub AtMost : Option ℤ → ℤ → Type 0
AtMost none n = Unit
AtMost (some high) n = leb_ℤ n high ≡ true

abbrev pub FitsNumber : Field → Setting → Type 0
FitsNumber f v = (v ≡ null) ⊎ ((n : ℤ) × (as_int v ≡ some n) × AtLeast f.min n × AtMost f.max n)

abbrev pub FitsRequired : Bool → Setting → Type 0
FitsRequired true v = v ≢ null
FitsRequired false v = Unit

abbrev pub FitsType : FieldType → Field → Setting → Type 0
FitsType number f v = FitsNumber f v
FitsType _ f v = Unit

-- What the schema says of a field that is a number or required.
abbrev pub Fits : Config → Field → Type 0
Fits c f = FitsRequired f.required (get_setting f.key c) × FitsType f.type f (get_setting f.key c)

pub append-nil_left : (xs ys : List ConfigError) → xs ++ ys ≡ [] → (xs ≡ []) × (ys ≡ [])
append-nil_left [] ys e = (refl, e)
append-nil_left (x ∷ xs) ys e = cc

pub joined_errors-nil :
    (ess : List (List ConfigError)) → joined_errors ess ≡ [] → All (λ es. es ≡ []) ess
unfolding joined_errors
joined_errors-nil [] e = tt
joined_errors-nil (es ∷ ess) e =
    let (here, later) = append-nil_left es (joined_errors ess) e in
    (here, joined_errors-nil ess later)

infixr 40 ◌▹◌
◌▹◌ : {P Q : Type 0} → P → Q → P × Q
p ▹ q = (p, q)

abbrev pub InPorts : Setting → Type 0
InPorts v = (n : ℤ) × (as_int v ≡ some n) × (leb_ℤ (pos 1) n ≡ true) × (leb_ℤ n (pos 65535) ≡ true)

number_in-InPorts :
    (key : String) (v : Setting) → number_in key (pos 1) (pos 65535) (as_int v) ≡ [] → InPorts v
unfolding number_in
number_in-InPorts key v e = elim (Option-cases (as_int v)) [
  | inl other ↦ ground arith
  | inr (n, here) ↦ (n, here, ground arith, ground arith)
]

pub port_range-InPorts :
    (key : String) (v : Setting) → validate_port_range key v ≡ [] → (v ≡ null) ⊎ InPorts v
unfolding validate_port_range
port_range-InPorts key null e = inl refl
port_range-InPorts key (flag b) e = inr (number_in-InPorts key (flag b) e)
port_range-InPorts key (int n) e = inr (number_in-InPorts key (int n) e)
port_range-InPorts key (float x) e = inr (number_in-InPorts key (float x) e)
port_range-InPorts key (text x) e = inr (number_in-InPorts key (text x) e)
port_range-InPorts key (array x) e = inr (number_in-InPorts key (array x) e)
port_range-InPorts key (object x) e = inr (number_in-InPorts key (object x) e)

bind_port-InPorts :
    (v : Setting) → validate_bind_port v ≡ [] → (v ≢ null) × ((v ≡ null) ⊎ InPorts v)
unfolding validate_bind_port
bind_port-InPorts null e = cc
bind_port-InPorts v e = (λ k. cc, port_range-InPorts "bind_port" v e)

abbrev FromLow : ℤ → Setting → Type 0
FromLow low v = (n : ℤ) × (as_int v ≡ some n) × (leb_ℤ low n ≡ true) × Unit {0}

number_from-FromLow :
    (key : String) (low : ℤ) (v : Setting) → number_from key low (as_int v) ≡ [] → FromLow low v
unfolding number_from
number_from-FromLow key low v e = elim (Option-cases (as_int v)) [
  | inl other ↦ ground arith
  | inr (n, here) ↦ (n, here, ground arith, tt)
]

at_least-FromLow :
    (key : String) (low : ℤ) (v : Setting)
    → validate_at_least key low v ≡ []
    → (v ≡ null) ⊎ FromLow low v
unfolding validate_at_least
at_least-FromLow key low null e = inl refl
at_least-FromLow key low (flag b) e = inr (number_from-FromLow key low (flag b) e)
at_least-FromLow key low (int n) e = inr (number_from-FromLow key low (int n) e)
at_least-FromLow key low (float x) e = inr (number_from-FromLow key low (float x) e)
at_least-FromLow key low (text x) e = inr (number_from-FromLow key low (text x) e)
at_least-FromLow key low (array x) e = inr (number_from-FromLow key low (array x) e)
at_least-FromLow key low (object x) e = inr (number_from-FromLow key low (object x) e)

-- In a configuration that passes validate_server_config, each field of the schema of the server
-- that is required is set, and each number is unset or an integer within the bounds that the
-- schema gives.
pub validate_server_config-Fits :
    (c : Config) → validate_server_config c ≡ [] → All (Fits c) server_schema
unfolding validate_server_config
validate_server_config-Fits c e =
    let (
      bind,
      (most, (idle, (tls, (web, (ports, (white, (black, (vhost, (sub, (forward, end)))))))))),
    ) =
      joined_errors-nil (server_checks c) e in
    let v : String → Setting = λ key. get_setting key c in
    bind_port-InPorts (v "bind_port") bind
    ▹ (tt, tt)
    ▹ (tt, tt)
    ▹ (tt, tt)
    ▹ (tt, tt)
    ▹ (tt, at_least-FromLow "max_connections" (pos 1) (v "max_connections") most)
    ▹ (tt, at_least-FromLow "idle_timeout" (pos 10) (v "idle_timeout") idle)
    ▹ (tt, tt)
    ▹ (tt, tt)
    ▹ (tt, tt)
    ▹ (tt, port_range-InPorts "webapi_port" (v "webapi_port") web)
    ▹ (tt, tt)
    ▹ (tt, tt)
    ▹ (tt, tt)
    ▹ (tt, tt)
    ▹ (tt, port_range-InPorts "vhost_http_port" (v "vhost_http_port") vhost)
    ▹ (tt, tt)
    ▹ (tt, port_range-InPorts "forward_proxy_port" (v "forward_proxy_port") forward)
    ▹ (tt, tt)
    ▹ (tt, tt)
    ▹ tt
