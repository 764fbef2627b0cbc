-- ===== src/Webadmin/Service/Stopped.antt =====
-- webadmin/api/service_manager.py: what a stop leaves behind.
use frp_python.Prelude.{
  if◌then◌else◌, is_some, drop, All, elem, lookup, ℕ, ◌≡◌, refl, ap, ◌∙◌, Bool, true, false, ◌&&◌,
  not, List, [], ◌∷◌, nat_eq, string_eq, list_eq,
}
use frp_python.Webadmin.Service.{
  service_step, ServiceEvent, start_called, process_spawned, spawn_failed, stop_called,
  shutdown_called, process_exits, task_resumes, stop_returns, WaitTask, Service, is_running,
  spawn_for, end_start, fail_start, pick, resume_picked, begin_stop, lost_tasks, lost_starts,
  cleanup_tasks, begin_shutdown, end_stop, end_process, run_service,
}

abbrev pub is_start : ServiceEvent → Bool
is_start (start_called blocked) = true
is_start e = false

-- Nothing is under way that could start a process.
record IsQuiet (s : Service) : Type 0 where
  no_starts : s.starting ≡ []
  no_tasks : s.tasks ≡ []

same-IsQuiet : (s t : Service) → t.starting ≡ s.starting → t.tasks ≡ s.tasks → IsQuiet s → IsQuiet t
same-IsQuiet s t a b q = record { no_starts = a ∙ q.no_starts; no_tasks = b ∙ q.no_tasks }

cleaned-IsQuiet : (s : Service) → IsQuiet s → IsQuiet (cleanup_tasks s)
unfolding cleanup_tasks
cleaned-IsQuiet s q = record {
  no_starts = ap lost_starts q.no_starts;
  no_tasks = ap lost_tasks q.no_tasks;
}

-- A step spawns nothing and leaves it so.
record IsIdle (s t : Service) : Type 0 where
  spawned_eq : t.spawned ≡ s.spawned
  quiet : IsQuiet t

either : (b : Bool) (s t u : Service) → IsIdle s t → IsIdle s u → IsIdle s (if b then t else u)
either true s t u h k = h
either false s t u h k = k

step-IsIdle :
    (e : ServiceEvent) (s : Service) → is_start e ≡ false → IsQuiet s → IsIdle s (service_step e s)
unfolding service_step end_start spawn_for fail_start begin_stop begin_shutdown end_stop end_process
    cleanup_tasks pick
step-IsIdle (start_called blocked) s e q = cc e
step-IsIdle (process_spawned p) s e q =
    either (elem p s.spawned) s s _ (record { spawned_eq = refl; quiet = q })
      (go s.starting q.no_starts)
  where
    go : (bs : List Bool) → bs ≡ [] → IsIdle s (spawn_for bs p s)
    go [] k = record { spawned_eq = refl; quiet = q }
    go (b ∷ bs) k = cc k
step-IsIdle spawn_failed s e q = record {
  spawned_eq = refl;
  quiet = record { no_starts = ap (λ bs. drop 1 bs) q.no_starts; no_tasks = q.no_tasks };
}
step-IsIdle stop_called s e q =
    either (is_some s.process) s _ s
      (record { spawned_eq = refl; quiet = same-IsQuiet s _ refl refl q })
      (record { spawned_eq = refl; quiet = q })
step-IsIdle shutdown_called s e q =
    either (is_running s) s _ _
      (either (is_some s.process) s _ _
        (record { spawned_eq = refl; quiet = same-IsQuiet s _ refl refl q })
        (record { spawned_eq = refl; quiet = same-IsQuiet s _ refl refl q }))
      (record { spawned_eq = refl; quiet = cleaned-IsQuiet s q })
step-IsIdle (process_exits p code) s e q =
    either (elem p s.spawned && not (is_some (lookup p s.exits))) s _ s
      (record { spawned_eq = refl; quiet = same-IsQuiet s _ refl refl q })
      (record { spawned_eq = refl; quiet = q })
step-IsIdle (task_resumes i) s e q = go s.tasks q.no_tasks
  where
    go : (ts : List (WaitTask × Bool)) → ts ≡ [] → IsIdle s (resume_picked (pick i ts) s)
    go [] k = record { spawned_eq = refl; quiet = q }
    go (t ∷ ts) k = cc k
step-IsIdle (stop_returns p) s e q =
    either (is_some (lookup p s.exits)) s _ s
      (record {
        spawned_eq = refl;
        quiet =
            cleaned-IsQuiet (record s { exit_code = lookup p s.exits })
              (same-IsQuiet s _ refl refl q);
      })
      (record { spawned_eq = refl; quiet = q })

run-spawned :
    (es : List ServiceEvent) (s : Service)
    → All (λ e. is_start e ≡ false) es
    → IsQuiet s
    → (run_service es s).spawned ≡ s.spawned
unfolding run_service
run-spawned [] s h q = refl
run-spawned (e ∷ es) s h q =
    let one = step-IsIdle e s h.0 q in
    run-spawned es (service_step e s) h.1 one.quiet ∙ one.spawned_eq

own_tasks : (ts : List (WaitTask × Bool)) → All (λ t. t.1 ≡ true) ts → lost_tasks ts ≡ []
own_tasks [] h = refl
own_tasks ((t, true) ∷ ts) h = own_tasks ts h.1
own_tasks ((t, false) ∷ ts) h = cc (h.0)

own_starts : (bs : List Bool) → All (λ b. b ≡ true) bs → lost_starts bs ≡ []
own_starts [] h = refl
own_starts (true ∷ bs) h = own_starts bs h.1
own_starts (false ∷ bs) h = cc (h.0)

-- Once a stop returned, with all tasks and starts under way those of `_tasks`, no process is
-- spawned until start is called again: not after an exit, and not by a restart that was waiting.
pub stopped-stays :
    (p : ℕ) (es : List ServiceEvent) (s : Service)
    → is_some (lookup p s.exits) ≡ true
    → All (λ t. t.1 ≡ true) s.tasks
    → All (λ b. b ≡ true) s.starting
    → All (λ e. is_start e ≡ false) es
    → (run_service (stop_returns p ∷ es) s).spawned ≡ s.spawned
unfolding run_service service_step end_stop cleanup_tasks
stopped-stays p es s ended tasks starts h = go (is_some (lookup p s.exits)) ended
  where
    noted : Service
    noted = record s { exit_code = lookup p s.exits }

    go :
        (b : Bool)
        → b ≡ true
        → (run_service es (if b then cleanup_tasks noted else s)).spawned ≡ s.spawned
    go true e =
        run-spawned es (cleanup_tasks noted) h
          (record { no_starts = own_starts s.starting starts; no_tasks = own_tasks s.tasks tasks })
    go false e = cc e
