-- ===== src/Webadmin/Proxies/Kept.antt =====
-- webadmin/api/routes/proxies.py: the list of proxies through the routes.
use frp_python.Prelude.{
  nat_beq, if◌then◌else◌, is_some, length, All, lookup, insert, lookup-insert, ◌≡◌, refl, sym, ap,
  ◌∙◌, subst, inl, inr, Bool, true, false, Option, none, some, List, [], ◌∷◌, ◌++◌, arith, nat_eq,
  string_eq, list_eq,
}
use frp_python.Py.Text.{Text}
use frp_python.Webadmin.Config.{ConfigError}
use frp_python.Webadmin.Config.Clients.{mapped, validate_client_config}
use frp_python.Webadmin.Config.Clients.Fitting.{
  IsProxy, AreProxies, FitsProxies, mapped-some, validate_client_config-FitsProxies,
}
use frp_python.Webadmin.Config.Clients.Passing.{validate_client_config-keyed_iff}
use frp_python.Webadmin.Config.Schema.{
  array, Setting, more, no_more, Settings, Members, Config, or_null, get_setting, find_member,
}
use frp_python.Webadmin.Proxies.{
  refused, ProxyRequest, create_request, update_request, delete_request, toggle_request, not_there,
  changed, merge, objects_of, load_proxies, if_valid, get_proxy, create_proxy, change_first,
  updated, update_proxy, without_name, delete_proxy, toggled, if_there, toggle_proxy, serve_proxy,
  to_settings, save_proxies, Changed, saved_list, loaded, handle_proxy, handle_proxies,
  change_proxies, or_old,
}
use frp_python.Webadmin.Proxies.Changes.{find_member-merge, toggled-IsProxy}
use frp_python.Webadmin.Proxies.Checks.{validate_proxy}
use frp_python.Webadmin.Proxies.Keyed.{
  Keys, AreKeyed, append-AreKeyed, without_name-AreKeyed, change_first-AreKeyed,
}
use frp_python.Webadmin.Proxies.Valid.{validate_proxy-valid}

-- The list behind a request.
abbrev kept : List Members → Changed → List Members
kept ps (changed ps') = ps'
kept ps c = ps

-- The update of a proxy has no name, as the schema of the request has none.
abbrev pub HasNoName : ProxyRequest → Type 0
HasNoName (update_request x update) = find_member "name" update ≡ none
HasNoName r = Unit

create-AreKeyed :
    (p : Members) (ps : List Members) → AreKeyed [] ps → AreKeyed [] (kept ps (create_proxy p ps))
unfolding create_proxy
create-AreKeyed p ps a = go (validate_proxy p ps none) refl
  where
    go :
        (es : List ConfigError)
        → validate_proxy p ps none ≡ es
        → AreKeyed [] (kept ps (if_valid es (ps ++ p ∷ [])))
    go [] e =
        let (good, named) = validate_proxy-valid p ps none e in
        append-AreKeyed named.name p ps [] good named.name_eq (ground (arith, named.not_taken)) refl
          a
    go (x ∷ es) e = a

update-AreKeyed :
    (x : Text) (update : Members) (ps : List Members)
    → find_member "name" update ≡ none
    → AreKeyed [] ps
    → AreKeyed [] (kept ps (update_proxy x update ps))
unfolding update_proxy
update-AreKeyed x update ps h a = there (get_proxy x ps) refl
  where
    same_proxy : (p q : Members) → ◌≡◌ {A = Option Members} (some p) (some q) → p ≡ q
    same_proxy p q e = cc e

    valid :
        (old : Members) (es : List ConfigError)
        → get_proxy x ps ≡ some old
        → validate_proxy (merge old update) ps (some x) ≡ es
        → AreKeyed [] (kept ps (if_valid es (change_first x (λ p. merge p update) ps)))
    valid old [] g e =
        change_first-AreKeyed x (λ p. merge p update) ps []
          (λ q k i.
            let own : old ≡ q = same_proxy old q (sym g ∙ k) in
            (
              subst (λ p. IsProxy (merge p update)) own
                  (validate_proxy-valid (merge old update) ps (some x) e).0,
              ap or_null (find_member-merge "name" update q h),
            ))
          a
    valid old (y ∷ es) g e = a

    there :
        (o : Option Members) → get_proxy x ps ≡ o → AreKeyed [] (kept ps (updated x update ps o))
    there none g = a
    there (some old) g = valid old (validate_proxy (merge old update) ps (some x)) g refl

delete-AreKeyed :
    (x : Text) (ps : List Members) → AreKeyed [] ps → AreKeyed [] (kept ps (delete_proxy x ps))
unfolding delete_proxy
delete-AreKeyed x ps a = go (nat_beq (length (without_name x ps)) (length ps))
  where
    go : (b : Bool) → AreKeyed [] (kept ps (if b then not_there else changed (without_name x ps)))
    go true = a
    go false = without_name-AreKeyed x ps [] a

toggle-AreKeyed :
    (x : Text) (ps : List Members) → AreKeyed [] ps → AreKeyed [] (kept ps (toggle_proxy x ps))
unfolding toggle_proxy
toggle-AreKeyed x ps a = go (is_some (get_proxy x ps))
  where
    go : (b : Bool) → AreKeyed [] (kept ps (if_there b (change_first x toggled ps)))
    go true = change_first-AreKeyed x toggled ps [] (λ q k i. toggled-IsProxy q i) a
    go false = a

serve_proxy-AreKeyed :
    (r : ProxyRequest) (ps : List Members)
    → HasNoName r
    → AreKeyed [] ps
    → AreKeyed [] (kept ps (serve_proxy r ps))
unfolding serve_proxy
serve_proxy-AreKeyed (create_request p) ps h a = create-AreKeyed p ps a
serve_proxy-AreKeyed (update_request x update) ps h a = update-AreKeyed x update ps h a
serve_proxy-AreKeyed (delete_request x) ps h a = delete-AreKeyed x ps a
serve_proxy-AreKeyed (toggle_request x) ps h a = toggle-AreKeyed x ps a

-- The objects of an array that the check lets in.
objects_of-AreKeyed :
    (vs : Settings) (ps : List Members) (seen : Keys)
    → objects_of vs ≡ some ps
    → AreProxies seen vs
    → AreKeyed seen ps
unfolding objects_of
objects_of-AreKeyed no_more [] seen e a = tt
objects_of-AreKeyed no_more (p ∷ ps) seen e a = cc e
objects_of-AreKeyed (more v vs) ps seen e (k, entry, rest) =
    let e' : mapped (λ qs. entry.members ∷ qs) (objects_of vs) ≡ some ps =
      rw entry.is_object at e in
    let (qs, found, same) = mapped-some (λ qs. entry.members ∷ qs) (objects_of vs) ps e' in
    subst (AreKeyed seen) same (
      k,
      record { is_proxy = entry.is_proxy; key_eq = entry.key_eq; is_new = entry.is_new },
      objects_of-AreKeyed vs qs (k ∷ seen) found rest,
    )

nothing-AreKeyed : (ps : List Members) → some [] ≡ some ps → AreKeyed [] ps
nothing-AreKeyed [] e = tt
nothing-AreKeyed (p ∷ ps) e = cc e

load_proxies-AreKeyed :
    (o : Option Setting) (ps : List Members)
    → FitsProxies o
    → load_proxies (or_null o) ≡ some ps
    → AreKeyed [] ps
unfolding load_proxies
load_proxies-AreKeyed none ps h e = nothing-AreKeyed ps e
load_proxies-AreKeyed (some v) ps (inl unset) e = nothing-AreKeyed ps (rw unset at e)
load_proxies-AreKeyed (some v) ps (inr (vs, is_array, a)) e =
    objects_of-AreKeyed vs ps [] (rw is_array at e) a

to_settings-AreProxies :
    (ps : List Members) (seen : Keys) → AreKeyed seen ps → AreProxies seen (to_settings ps)
unfolding to_settings
to_settings-AreProxies [] seen a = tt
to_settings-AreProxies (p ∷ ps) seen (k, e, rest) = (
  k,
  record {
    members = p;
    is_object = refl;
    is_proxy = e.is_proxy;
    key_eq = e.key_eq;
    is_new = e.is_new;
  },
  to_settings-AreProxies ps (k ∷ seen) rest,
)

-- Proxies that are saved in a configuration that passes the check.
save_proxies-valid :
    (ps : List Members) (c : Config)
    → AreKeyed [] ps
    → validate_client_config c ≡ some []
    → validate_client_config (save_proxies ps c) ≡ some []
unfolding save_proxies
save_proxies-valid ps c a valid =
    let (addr, port, old) = (validate_client_config-keyed_iff c).0 valid in
    let array_of : Setting = array (to_settings ps) in
    (validate_client_config-keyed_iff (insert "proxies" array_of c)).1 (
      rw (lookup-insert "proxies" "server_addr" array_of c) addr,
      rw (lookup-insert "proxies" "server_port" array_of c) port,
      rw (lookup-insert "proxies" "proxies" array_of c)
          (inr (to_settings ps, refl, to_settings-AreProxies ps [] a)),
    )

-- What is written, where something is, passes the check.
abbrev pub Passes : Option Config → Type 0
Passes none = Unit
Passes (some c) = validate_client_config c ≡ some []

saved_list-Passes :
    (c : Config) (ps : List Members) (o : Changed)
    → AreKeyed [] (kept ps o)
    → validate_client_config c ≡ some []
    → Passes (saved_list c o)
saved_list-Passes c ps (changed ps') a valid = save_proxies-valid ps' c a valid
saved_list-Passes c ps not_there a valid = tt
saved_list-Passes c ps (refused es) a valid = tt

pub change_proxies-Passes :
    (r : ProxyRequest) (c : Config)
    → HasNoName r
    → validate_client_config c ≡ some []
    → Passes (change_proxies r c)
unfolding change_proxies
change_proxies-Passes r c h valid = go (load_proxies (get_setting "proxies" c)) refl
  where
    go :
        (o : Option (List Members))
        → load_proxies (get_setting "proxies" c) ≡ o
        → Passes (loaded c r o)
    go none e = tt
    go (some ps) e =
        let all_keyed =
          load_proxies-AreKeyed (lookup "proxies" c) ps
            (validate_client_config-FitsProxies c valid).2 e in
        saved_list-Passes c ps (serve_proxy r ps) (serve_proxy-AreKeyed r ps h all_keyed) valid

handle_proxy-valid :
    (r : ProxyRequest) (c : Config)
    → HasNoName r
    → validate_client_config c ≡ some []
    → validate_client_config (handle_proxy r c) ≡ some []
unfolding handle_proxy
handle_proxy-valid r c h valid = go (change_proxies r c) (change_proxies-Passes r c h valid)
  where
    go : (o : Option Config) → Passes o → validate_client_config (or_old c o) ≡ some []
    go none p = valid
    go (some c') p = p

-- A configuration of a client that passes validate_client_config still passes it after any
-- requests to the routes for proxies, in any order, let in or refused. An update has no name, as
-- the schema of its request has none.
pub handle_proxies-valid :
    (rs : List ProxyRequest) (c : Config)
    → All HasNoName rs
    → validate_client_config c ≡ some []
    → validate_client_config (handle_proxies rs c) ≡ some []
unfolding handle_proxies
handle_proxies-valid [] c h valid = valid
handle_proxies-valid (r ∷ rs) c h valid =
    handle_proxies-valid rs (handle_proxy r c) h.1 (handle_proxy-valid r c h.0 valid)
