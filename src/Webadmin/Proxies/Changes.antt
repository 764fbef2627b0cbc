-- ===== src/Webadmin/Proxies/Changes.antt =====
-- webadmin/api/routes/proxies.py: the members of a proxy that is changed.
use frp_python.Prelude.{
  if◌then◌else◌, ◌==◌, Bool-cases, String, ◌≡◌, refl, ap, ◌∙◌, inl, inr, none, some, arith, eq_iff,
  nat_eq, string_eq, list_eq,
}
use frp_python.Webadmin.Config.Clients.Fitting.{IsProxy}
use frp_python.Webadmin.Config.Schema.{
  Setting, member, no_members, Members, or_null, find_member, get_member,
}
use frp_python.Webadmin.Proxies.{merge, set_member, toggled}

pub find_member-set :
    (key other : String) (v : Setting) (p : Members)
    → find_member other (set_member key v p)
      ≡ (if key == other then some v else find_member other p)
unfolding find_member set_member
find_member-set key other v no_members = refl
find_member-set key other v (member k u ms) =
    ground (arith, find_member-set key other v ms, eq_iff k key, eq_iff key other, eq_iff k other)

-- What is merged in leaves a key that it does not have.
pub find_member-merge :
    (key : String) (update p : Members)
    → find_member key update ≡ none
    → find_member key (merge p update) ≡ find_member key p
unfolding find_member merge
find_member-merge key no_members p h = refl
find_member-merge key (member k v update) p h = elim (Bool-cases (k == key)) [
  | inl own ↦ cc (rw own at h)
  | inr other ↦
      find_member-merge key update (set_member k v p) (rw other at h)
      ∙ find_member-set k key v p
      ∙ rw other refl
]

-- The members that the check of a proxy reads.
record IsAlike (p q : Members) : Type 0 where
  name_eq : find_member "name" q ≡ find_member "name" p
  type_eq : find_member "type" q ≡ find_member "type" p
  local_eq : find_member "local_port" q ≡ find_member "local_port" p
  remote_eq : find_member "remote_port" q ≡ find_member "remote_port" p
  bind_eq : find_member "bind_port" q ≡ find_member "bind_port" p

alike-IsProxy : (p q : Members) → IsAlike p q → IsProxy p → IsProxy q
alike-IsProxy p q e h = record {
  name_set = rw e.name_eq h.name_set;
  type_valid = rw e.type_eq h.type_valid;
  local_port = rw e.type_eq (rw e.local_eq h.local_port);
  remote_port = rw e.type_eq (rw e.remote_eq h.remote_port);
  bind_port = rw e.type_eq (rw e.bind_eq h.bind_port);
}

pub toggled-IsProxy :
    (p : Members)
    → IsProxy p
    → IsProxy (toggled p) × (get_member "name" (toggled p) ≡ get_member "name" p)
toggled-IsProxy p h =
    let same : (key : String)
        → find_member key (toggled p) ≡ (if "enabled" == key then _ else find_member key p) =
      λ key. find_member-set "enabled" key _ p in
    (
      alike-IsProxy p (toggled p)
          (record {
            name_eq = same "name";
            type_eq = same "type";
            local_eq = same "local_port";
            remote_eq = same "remote_port";
            bind_eq = same "bind_port";
          })
          h,
      ap or_null (same "name"),
    )
