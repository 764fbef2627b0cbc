-- ===== src/Webadmin/Service/Starts.antt =====
-- webadmin/api/service_manager.py: the processes that are alive, where a start begins, ends or is
-- given up.
use frp_python.Prelude.{
  leb, nat_beq_iff, ◌==◌, ==_refl, Bool-cases, is_some, is_nil, length, drop, All, Dict, lookup, ℕ,
  ◌≡◌, refl, sym, ap, ◌∙◌, ◌⊎◌, inl, inr, Bool, true, false, ◌&&◌, ◌||◌, not, Option, none, some,
  List, [], ◌∷◌, map, arith, nat_eq, string_eq, list_eq,
}
use frp_python.ForwardProxy.Headers.Rewritten.{others}
use frp_python.Py.Int.{ℤ}
use frp_python.Webadmin.Service.{
  service_step, delaying, waiting, ServiceEvent, start_called, task_resumes, WaitTask, Service,
  is_running, begin_start, spawn_for, pick, return_code, lost_starts, cleanup_tasks,
}

abbrev pub is_process : ℕ → Option ℕ → Bool
is_process p none = false
is_process p (some q) = q == p

-- The process of the manager, or one that ended.
abbrev pub is_accounted : Service → ℕ → Bool
is_accounted s p = is_process p s.process || is_some (lookup p s.exits)

-- Every process but the one of the manager has ended; while a start is under way, so has that.
pub record HasOneAlive (s : Service) : Type 0 where
  pub one_start : leb (length s.starting) 1 ≡ true
  pub idle_start : (not (is_nil s.starting) && is_running s) ≡ false
  pub all_accounted : All (λ p. is_accounted s p ≡ true) s.spawned

abbrev pub begins_task : Option ((WaitTask × Bool) × List (WaitTask × Bool)) → Bool
begins_task none = false
begins_task (some ((waiting p, own), rest)) = false
begins_task (some ((delaying, own), rest)) = true

-- The event calls `start`.
abbrev pub begins : ServiceEvent → Service → Bool
begins (start_called blocked) s = true
begins (task_resumes i) s = begins_task (pick i s.tasks)
begins e s = false

-- No start begins while another one is under way.
abbrev pub IsSequential : List ServiceEvent → Service → Type 0
IsSequential [] s = Unit
IsSequential (e ∷ es) s =
    ((begins e s && not (is_nil s.starting)) ≡ false) × IsSequential es (service_step e s)

-- What differs in other fields only.
pub same-HasOneAlive :
    (s t : Service)
    → t.starting ≡ s.starting
    → t.process ≡ s.process
    → t.exits ≡ s.exits
    → t.spawned ≡ s.spawned
    → HasOneAlive s
    → HasOneAlive t
same-HasOneAlive s t a b c d h = record {
  one_start = rw a h.one_start;
  idle_start = rw a (rw b (rw c h.idle_start));
  all_accounted = rw b (rw c (rw d h.all_accounted));
}

pub begin_start-HasOneAlive :
    (own blocked : Bool) (s : Service)
    → is_nil s.starting ≡ true
    → HasOneAlive s
    → HasOneAlive (begin_start own blocked s)
unfolding begin_start
begin_start-HasOneAlive own blocked s free h = elim (Bool-cases (is_running s || blocked)) [
  | inl raises ↦ rw raises h
  | inr begins_now ↦
      let idle : is_running s ≡ false = ground (arith, begins_now) in
      rw begins_now (record {
        one_start = alone s.starting free;
        idle_start = idle;
        all_accounted = h.all_accounted;
      })
]
  where
    alone : (bs : List Bool) → is_nil bs ≡ true → leb (length (own ∷ bs)) 1 ≡ true
    alone [] e = refl
    alone (b ∷ bs) e = cc e

-- When the manager's process has ended, all have.
ended-All :
    (p : ℕ) (process : Option ℕ) (exits : Dict ℕ ℤ) (ps : List ℕ)
    → (is_some process && not (is_some (return_code process exits))) ≡ false
    → All (λ q. (is_process q process || is_some (lookup q exits)) ≡ true) ps
    → All (λ q. (is_process q (some p) || is_some (lookup q exits)) ≡ true) ps
ended-All p process exits [] e h = tt
ended-All p none exits (q ∷ ps) e (here, rest) =
    (ground (arith, here), ended-All p none exits ps e rest)
ended-All p (some r) exits (q ∷ ps) e (here, rest) = (ended, ended-All p (some r) exits ps e rest)
  where
    ended : (is_process q (some p) || is_some (lookup q exits)) ≡ true
    ended = elim (Bool-cases (r == q)) [
      | inl same ↦
          let r_is_q : r ≡ q = (nat_beq_iff r q).0 same in
          let done : is_some (lookup q exits) ≡ true = ground (arith, rw r_is_q at e) in
          ground (arith, done)
      | inr other ↦ ground (arith, here, other)
    ]

pub spawn_for-HasOneAlive :
    (starting : List Bool) (p : ℕ) (s : Service)
    → s.starting ≡ starting
    → HasOneAlive s
    → HasOneAlive (spawn_for starting p s)
unfolding spawn_for
spawn_for-HasOneAlive [] p s e h = h
spawn_for-HasOneAlive (own ∷ others) p s e h =
    let idle : is_running s ≡ false = rw e at h.idle_start in
    record {
      one_start = alone others (rw e at h.one_start);
      idle_start = idle_others others (rw e at h.one_start);
      all_accounted =
          (ground (arith, ==_refl p), ended-All p s.process s.exits s.spawned idle h.all_accounted);
    }
  where
    alone :
        (bs : List Bool)
        → leb (length (own ∷ bs)) 1 ≡ true
        → leb (length (map (λ b. false) bs)) 1 ≡ true
    alone [] k = refl
    alone (b ∷ bs) k = ground arith

    idle_others :
        (bs : List Bool)
        → leb (length (own ∷ bs)) 1 ≡ true
        → (not (is_nil (map (λ b. false) bs)) && not (is_some (lookup p s.exits))) ≡ false
    idle_others [] k = refl
    idle_others (b ∷ bs) k = ground arith

-- Fewer starts under way.
pub fewer-HasOneAlive :
    (s t : Service)
    → (is_nil s.starting ≡ is_nil t.starting) ⊎ (t.starting ≡ [])
    → leb (length t.starting) 1 ≡ true
    → t.process ≡ s.process
    → t.exits ≡ s.exits
    → t.spawned ≡ s.spawned
    → HasOneAlive s
    → HasOneAlive t
fewer-HasOneAlive s t (inl same) one b c d h =
    let later : (not (is_nil s.starting) && is_running t) ≡ false = rw b (rw c h.idle_start) in
    record {
      one_start = one;
      idle_start = sym (ap (λ n. not n && is_running t) same) ∙ later;
      all_accounted = rw b (rw c (rw d h.all_accounted));
    }
fewer-HasOneAlive s t (inr none_left) one b c d h = record {
  one_start = one;
  idle_start = rw none_left refl;
  all_accounted = rw b (rw c (rw d h.all_accounted));
}

lost_starts_cases :
    (bs : List Bool)
    → leb (length bs) 1 ≡ true
    → ((is_nil bs ≡ is_nil (lost_starts bs)) ⊎ (lost_starts bs ≡ []))
      × (leb (length (lost_starts bs)) 1 ≡ true)
lost_starts_cases [] e = (inl refl, refl)
lost_starts_cases (true ∷ []) e = (inr refl, refl)
lost_starts_cases (false ∷ []) e = (inl refl, refl)
lost_starts_cases (b ∷ c ∷ bs) e = ground arith

pub dropped_cases :
    (bs : List Bool)
    → leb (length bs) 1 ≡ true
    → ((is_nil bs ≡ is_nil (drop 1 bs)) ⊎ (drop 1 bs ≡ [])) × (leb (length (drop 1 bs)) 1 ≡ true)
dropped_cases [] e = (inl refl, refl)
dropped_cases (b ∷ []) e = (inr refl, refl)
dropped_cases (b ∷ c ∷ bs) e = ground arith

pub cleanup_tasks-HasOneAlive : (s : Service) → HasOneAlive s → HasOneAlive (cleanup_tasks s)
unfolding cleanup_tasks
cleanup_tasks-HasOneAlive s h =
    let (cases, one) = lost_starts_cases s.starting h.one_start in
    fewer-HasOneAlive s _ cases one refl refl refl h
