-- ===== src/Webadmin/Proxies/Valid.antt =====
-- webadmin/api/routes/proxies.py: what a proxy that `_validate_proxy` lets in keeps to.
use frp_python.Prelude.{
  if◌then◌else◌, Option-cases, is_nil, String, ◌≡◌, refl, inl, inr, Bool, true, false, ◌&&◌, not,
  Option, List, [], ◌∷◌, arith,
}
use frp_python.Py.Text.{Text}
use frp_python.Webadmin.Config.{not_string, missing, as_int}
use frp_python.Webadmin.Config.Checked.{append-nil_left, joined_errors-nil, InPorts}
use frp_python.Webadmin.Config.Clients.{
  is_type_of, local_types, remote_types, visitor_types, type_setting,
}
use frp_python.Webadmin.Config.Clients.Fitting.{Needed, IfSet, IsProxy}
use frp_python.Webadmin.Config.Schema.{Setting, null, text, Members, get_member, is_truthy}
use frp_python.Webadmin.Proxies.Checks.{
  validate_proxy, name_taken, is_skipped_name, name_errors, port_range, port_errors, text_errors,
  visitor_errors, when_type, proxy_checks,
}

-- A name that is a text, not empty, and no other proxy's unless it is the one passed over.
pub record IsNamed (p : Members) (ps : List Members) (skip : Option Text) : Type 0 where
  pub name : Text
  pub name_eq : get_member "name" p ≡ text name
  pub not_empty : is_nil name ≡ false
  pub not_taken : (name_taken name ps && not (is_skipped_name name skip)) ≡ false

port_range-InPorts_lem : (key : String) (v : Setting) → port_range key (as_int v) ≡ [] → InPorts v
unfolding port_range
port_range-InPorts_lem key v e = elim (Option-cases (as_int v)) [
  | inl other ↦ ground arith
  | inr (n, here) ↦ (n, here, ground arith, ground arith)
]

port_errors-InPorts : (key : String) (v : Setting) → port_errors key v ≡ [] → InPorts v
unfolding port_errors
port_errors-InPorts key null e = cc e
port_errors-InPorts key v e = port_range-InPorts_lem key v e

when_type-Needed :
    (types : List Text) (t : Setting) (key : String) (v : Setting)
    → when_type types t (port_errors key v) ≡ []
    → Needed (is_type_of types t) v
when_type-Needed types t key v e = go (is_type_of types t) e
  where
    go : (b : Bool) → (if b then port_errors key v else []) ≡ [] → Needed b v
    go true e = port_errors-InPorts key v e
    go false e = tt

when_type-IfSet :
    (t : Setting) (p : Members)
    → when_type visitor_types t (visitor_errors p) ≡ []
    → IfSet (is_type_of visitor_types t) (get_member "bind_port" p)
when_type-IfSet t p e = go (is_type_of visitor_types t) e
  where
    go : (b : Bool) → (if b then visitor_errors p else []) ≡ [] → IfSet b (get_member "bind_port" p)
    go true e =
        let (sk, rest) = append-nil_left (text_errors "sk" (get_member "sk" p)) _ e in
        let (server, port) =
          append-nil_left (text_errors "server_name" (get_member "server_name" p)) _ rest in
        inr (port_errors-InPorts "bind_port" (get_member "bind_port" p) port)
    go false e = tt

name_errors-IsNamed :
    (p : Members) (v : Setting) (ps : List Members) (skip : Option Text)
    → get_member "name" p ≡ v
    → name_errors v ps skip ≡ []
    → IsNamed p ps skip
unfolding name_errors
name_errors-IsNamed p (text x) ps skip k e = record {
  name = x;
  name_eq = k;
  not_empty = ground (arith, e);
  not_taken = ground (arith, e);
}
name_errors-IsNamed p v ps skip k e = two_errors (is_truthy v) e
  where
    two_errors :
        (b : Bool)
        → (if b then not_string "name" ∷ [] else missing "name" ∷ []) ≡ []
        → IsNamed p ps skip
    two_errors true e = cc e
    two_errors false e = cc e

named-IsProxy :
    (p : Members) (ps : List Members) (skip : Option Text)
    → IsNamed p ps skip
    → is_truthy (get_member "name" p) ≡ true
unfolding is_truthy
named-IsProxy p ps skip n = rw n.name_eq (rw n.not_empty refl)

-- A proxy without errors is one that the check of the whole configuration would let in.
pub validate_proxy-valid :
    (p : Members) (ps : List Members) (skip : Option Text)
    → validate_proxy p ps skip ≡ []
    → IsProxy p × IsNamed p ps skip
unfolding validate_proxy
validate_proxy-valid p ps skip e =
    let t = type_setting p in
    let (name, (type, (local, (remote, (http, (stcp, (visitor, end))))))) =
      joined_errors-nil (proxy_checks t p ps skip) e in
    let named = name_errors-IsNamed p (get_member "name" p) ps skip refl name in
    (
      record {
        name_set = named-IsProxy p ps skip named;
        type_valid = ground (arith, type);
        local_port = when_type-Needed local_types t "local_port" (get_member "local_port" p) local;
        remote_port =
            when_type-Needed remote_types t "remote_port" (get_member "remote_port" p) remote;
        bind_port = when_type-IfSet t p visitor;
      },
      named,
    )
