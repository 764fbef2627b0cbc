-- ===== src/Webadmin/Config/Clients/Fitting.antt =====
-- webadmin/api/config_manager.py: what a client's configuration that passes its checks keeps to.
use frp_python.Prelude.{
  if◌then◌else◌, Bool-cases, is_nil, elem, lookup, ℕ, suc, String, ◌≡◌, refl, sym, ap, ◌∙◌, subst,
  ◌⊎◌, inl, inr, Bool, true, false, Option, none, some, List, [], ◌∷◌, ◌++◌, arith, nat_eq,
  string_eq, list_eq,
}
use frp_python.Py.Text.{Text}
use frp_python.Stats.{joined}
use frp_python.Webadmin.Config.{ConfigError, missing, validate_port_range, joined_errors}
use frp_python.Webadmin.Config.Checked.{
  joined_errors-nil, InPorts, port_range-InPorts, append-nil_left,
}
use frp_python.Webadmin.Config.Clients.{
  check_entry, set_key, valid_types, is_type_of, local_types, remote_types, visitor_types,
  type_setting, required_port, type_checks, keyed_name, check_entries, Checked, mapped, check_name,
  then_entries, validate_proxies, validate_server_addr, validate_client_config,
}
use frp_python.Webadmin.Config.Schema.{
  Setting, null, text, array, object, more, no_more, Settings, Members, get_member, is_truthy,
  Config, get_setting,
}

-- A port that is there where it is needed.
abbrev pub Needed : Bool → Setting → Type 0
Needed true v = InPorts v
Needed false v = Unit

abbrev pub IfSet : Bool → Setting → Type 0
IfSet true v = (v ≡ null) ⊎ InPorts v
IfSet false v = Unit

-- A proxy has a name, a type that there is, and the ports that its type needs, within the range.
pub record IsProxy (p : Members) : Type 0 where
  pub name_set : is_truthy (get_member "name" p) ≡ true
  pub type_valid : is_type_of valid_types (type_setting p) ≡ true
  pub local_port : Needed (is_type_of local_types (type_setting p)) (get_member "local_port" p)
  pub remote_port : Needed (is_type_of remote_types (type_setting p)) (get_member "remote_port" p)
  pub bind_port : IfSet (is_type_of visitor_types (type_setting p)) (get_member "bind_port" p)

-- An object that is a proxy, with a name that is none of those before it.
pub record IsEntry (seen : List (List ℕ)) (v : Setting) (k : List ℕ) : Type 0 where
  pub members : Members
  pub is_object : v ≡ object members
  pub is_proxy : IsProxy members
  pub key_eq : set_key (get_member "name" members) ≡ some k
  pub is_new : elem k seen ≡ false

abbrev pub AreProxies : List (List ℕ) → Settings → Type 0
AreProxies seen no_more = Unit
AreProxies seen (more v vs) = (k : List ℕ) × IsEntry seen v k × AreProxies (k ∷ seen) vs

abbrev pub FitsProxies : Option Setting → Type 0
FitsProxies none = Unit
FitsProxies (some v) = (v ≡ null) ⊎ ((vs : Settings) × (v ≡ array vs) × AreProxies [] vs)

required_port-InPorts : (key : String) (v : Setting) → required_port key v ≡ [] → InPorts v
unfolding required_port
required_port-InPorts key null e = cc e
required_port-InPorts key v e = elim (port_range-InPorts key v e) [
  | inl bad ↦ cc bad
  | inr good ↦ good
]

needed :
    (b : Bool) (key : String) (v : Setting)
    → (if b then required_port key v else []) ≡ []
    → Needed b v
needed true key v e = required_port-InPorts key v e
needed false key v e = tt

if_set :
    (b : Bool) (key : String) (v : Setting)
    → (if b then validate_port_range key v else []) ≡ []
    → IfSet b v
if_set true key v e = port_range-InPorts key v e
if_set false key v e = tt

joined-IsProxy :
    (p : Members)
    → is_truthy (get_member "name" p) ≡ true
    → joined_errors (type_checks (type_setting p) p) ≡ []
    → IsProxy p
unfolding type_checks
joined-IsProxy p named e =
    let (t, (l, (r, (b, end)))) = joined_errors-nil (type_checks (type_setting p) p) e in
    record {
      name_set = named;
      type_valid = ground (arith, t);
      local_port = needed _ "local_port" _ l;
      remote_port = needed _ "remote_port" _ r;
      bind_port = if_set _ "bind_port" _ b;
    }

-- An entry without errors.
named-IsEntry :
    (p : Members) (o : Option (List ℕ)) (seen names : List (List ℕ)) (es : List ConfigError)
    → set_key (get_member "name" p) ≡ o
    → is_truthy (get_member "name" p) ≡ true
    → keyed_name o seen ≡ some (names, es)
    → es ++ joined_errors (type_checks (type_setting p) p) ≡ []
    → (k : List ℕ) × (names ≡ k ∷ seen) × IsEntry seen (object p) k
unfolding keyed_name
named-IsEntry p none seen names es key named e f = cc e
named-IsEntry p (some k) seen names es key named e f =
    let (no_es, no_checks) = append-nil_left es _ f in
    elim (Bool-cases (elem k seen)) [
      | inl old ↦ cc (rw old at e)
      | inr new ↦ (
        k,
        cc (rw new at e),
        record {
          members = p;
          is_object = refl;
          is_proxy = joined-IsProxy p named no_checks;
          key_eq = key;
          is_new = new;
        },
      )
    ]

pub mapped-some :
    {A B : Type 0} (f : A → B) (o : Option A) (b : B)
    → mapped f o ≡ some b
    → (a : A) × (o ≡ some a) × (f a ≡ b)
mapped-some f none b e = cc e
mapped-some f (some a) b e = (a, refl, cc e)

check_name-named :
    (v : Setting) (seen : List (List ℕ))
    → is_truthy v ≡ true
    → check_name v seen ≡ keyed_name (set_key v) seen
unfolding check_name
check_name-named v seen named = rw named refl

check_name-unnamed :
    (v : Setting) (seen : List (List ℕ))
    → is_truthy v ≡ false
    → check_name v seen ≡ some (seen, missing "name" ∷ [])
unfolding check_name
check_name-unnamed v seen unnamed = rw unnamed refl

unnamed-clash :
    {T : Type 0} {seen names : List (List ℕ)} (es later : List ConfigError)
    → ◌≡◌ {A = Checked} (some (seen, missing "name" ∷ [])) (some (names, es))
    → es ++ later ≡ []
    → T
unnamed-clash [] later e f = cc e
unnamed-clash (x ∷ es) later e f = cc f

check_entry-IsEntry :
    (v : Setting) (seen names : List (List ℕ))
    → check_entry v seen ≡ some (names, [])
    → (k : List ℕ) × (names ≡ k ∷ seen) × IsEntry seen v k
unfolding check_entry
check_entry-IsEntry (object p) seen names e =
    let ((names', es), found, joined) = mapped-some _ (check_name (get_member "name" p) seen) _ e in
    elim (Bool-cases (is_truthy (get_member "name" p))) [
      | inl named ↦
          let (k, same, entry) =
            named-IsEntry p (set_key (get_member "name" p)) seen names' es refl named
              (sym (check_name-named (get_member "name" p) seen named) ∙ found)
              (ap (λ r. r.1) joined) in
          (k, sym (ap (λ r. r.0) joined) ∙ same, entry)
      | inr unnamed ↦
          unnamed-clash es _ (sym (check_name-unnamed (get_member "name" p) seen unnamed) ∙ found)
            (ap (λ r. r.1) joined)
    ]
check_entry-IsEntry v seen names e = cc e

entries-AreProxies :
    (idx : ℕ) (vs : Settings) (seen : List (List ℕ))
    → check_entries idx vs seen ≡ some []
    → AreProxies seen vs
unfolding check_entries
entries-AreProxies idx no_more seen e = tt
entries-AreProxies idx (more v vs) seen e =
    go (λ names. entries-AreProxies (suc idx) vs names) (check_entry v seen) refl e
  where
    after :
        (o : Option (List ConfigError)) (es : List ConfigError)
        → then_entries idx o es ≡ some []
        → (es ≡ []) × (o ≡ some [])
    after none es f = cc f
    after (some later) [] f = (refl, f)
    after (some later) (x ∷ es) f = cc f

    go :
        ((names : List (List ℕ)) → check_entries (suc idx) vs names ≡ some [] → AreProxies names vs)
        → (o : Checked) → check_entry v seen ≡ o
        → (elim o [
          | none ↦ none
          | some (names', es) ↦ then_entries idx (check_entries (suc idx) vs names') es
        ])
          ≡ some []
        → AreProxies seen (more v vs)
    go ih none k f = cc f
    go ih (some (names, es)) k f =
        let (no_es, rest) = after (check_entries (suc idx) vs names) es f in
        let (key, same, entry) =
          check_entry-IsEntry v seen names (k ∙ ap (λ x. some (names, x)) no_es) in
        (key, entry, subst (λ n. AreProxies n vs) same (ih names rest))

proxies-FitsProxies : (o : Option Setting) → validate_proxies o ≡ some [] → FitsProxies o
unfolding validate_proxies
proxies-FitsProxies none e = tt
proxies-FitsProxies (some null) e = inl refl
proxies-FitsProxies (some (array vs)) e = inr (vs, refl, entries-AreProxies 0 vs [] e)
proxies-FitsProxies (some v) e = cc e

-- A text that is not empty.
abbrev pub IsAddress : Setting → Type 0
IsAddress v = (x : Text) × (v ≡ text x) × (is_nil x ≡ false)

two : {T : Type 0} (b : Bool) (x y : ConfigError) → (if b then x ∷ [] else y ∷ []) ≡ [] → T
two true x y e = cc e
two false x y e = cc e

server_addr-IsAddress : (v : Setting) → validate_server_addr v ≡ [] → IsAddress v
unfolding validate_server_addr
server_addr-IsAddress (text x) e = (x, refl, ground (arith, e))
server_addr-IsAddress v e = two (is_truthy v) _ _ e

-- In a configuration that passes validate_client_config without an error, the address of the
-- server is a text that is not empty, its port an integer from 1 to 65535, and the proxies, where
-- there are any, are objects with names that differ, types that there are, and the ports that
-- these types need, from 1 to 65535 too.
pub validate_client_config-FitsProxies :
    (c : Config)
    → validate_client_config c ≡ some []
    → IsAddress (get_setting "server_addr" c)
      × InPorts (get_setting "server_port" c)
      × FitsProxies (lookup "proxies" c)
unfolding validate_client_config
validate_client_config-FitsProxies c e =
    let (es, found, joined) = mapped-some _ (validate_proxies (lookup "proxies" c)) [] e in
    let (addr, rest) =
      append-nil_left (validate_server_addr (get_setting "server_addr" c)) _ joined in
    let (port, none_left) =
      append-nil_left (required_port "server_port" (get_setting "server_port" c)) es rest in
    (
      server_addr-IsAddress (get_setting "server_addr" c) addr,
      required_port-InPorts "server_port" (get_setting "server_port" c) port,
      proxies-FitsProxies (lookup "proxies" c) (found ∙ ap some none_left),
    )
