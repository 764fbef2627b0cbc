-- ===== src/Webadmin/Config/Clients/Distinct.antt =====
-- webadmin/api/config_manager.py: the names in a client's configuration that passes the check, by
-- what Python takes as equal.
use frp_python.Prelude.{
  All, ℕ, ◌≡◌, ◌⊎◌, true, Option, none, some, List, [], ◌∷◌, nat_eq, string_eq, list_eq,
}
use frp_python.Webadmin.Config.Clients.{set_key}
use frp_python.Webadmin.Config.Clients.Equal.{AreEqual, is_hashable}
use frp_python.Webadmin.Config.Clients.Fitting.{IsProxy}
use frp_python.Webadmin.Config.Schema.{
  Setting, null, array, object, more, no_more, Settings, Members, Config, get_member,
}

-- An object that is a proxy, whose name can be in a set and is equal to none of those before it.
pub record IsNamed (seen : List Setting) (v name : Setting) : Type 0 where
  pub members : Members
  pub is_object : v ≡ object members
  pub is_proxy : IsProxy members
  pub name_eq : get_member "name" members ≡ name
  pub hashable : is_hashable name ≡ true
  pub is_new : All (λ u. ¬ AreEqual name u) seen

abbrev pub AreDistinct : List Setting → Settings → Type 0
AreDistinct seen no_more = Unit
AreDistinct seen (more v vs) = (name : Setting) × IsNamed seen v name × AreDistinct (name ∷ seen) vs

abbrev pub FitsDistinct : Option Setting → Type 0
FitsDistinct none = Unit
FitsDistinct (some v) = (v ≡ null) ⊎ ((vs : Settings) × (v ≡ array vs) × AreDistinct [] vs)

-- The keys of the names so far.
abbrev AreKeys : List Setting → List (List ℕ) → Type 0
AreKeys [] [] = Unit
AreKeys (u ∷ us) (l ∷ ls) = (set_key u ≡ some l) × AreKeys us ls
AreKeys us ls = ⊥
