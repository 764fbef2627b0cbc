-- ===== src/Webadmin/Service/Alive.antt =====
-- webadmin/api/service_manager.py: the processes that are alive, through all events.
use frp_python.Prelude.{
  if◌then◌else◌, is_some, is_nil, All, elem, All-mono, Dict, lookup, insert, lookup-insert, ℕ, ◌≡◌,
  refl, Bool, true, false, ◌&&◌, not, Option, none, some, List, [], ◌∷◌, arith, nat_eq, string_eq,
  list_eq,
}
use frp_python.Py.Int.{ℤ}
use frp_python.Webadmin.Service.{
  service_step, delaying, waiting, ServiceEvent, start_called, process_spawned, spawn_failed,
  stop_called, shutdown_called, process_exits, task_resumes, stop_returns, return_code, WaitTask,
  Service, new_service, is_running, end_start, fail_start, is_failure, after_exit, resume, pick,
  resume_picked, begin_stop, begin_shutdown, end_stop, end_process, run_service, cleanup_tasks,
}
use frp_python.Webadmin.Service.Starts.{
  is_accounted, HasOneAlive, begins_task, begins, IsSequential, same-HasOneAlive,
  begin_start-HasOneAlive, spawn_for-HasOneAlive, fewer-HasOneAlive, dropped_cases,
  cleanup_tasks-HasOneAlive,
}

-- The end of a process.
accounted_later :
    (p : ℕ) (code : ℤ) (s : Service) (ps : List ℕ)
    → All (λ q. is_accounted s q ≡ true) ps
    → All (λ q. is_accounted (record s { exits = insert p code s.exits }) q ≡ true) ps
accounted_later p code s ps h =
    All-mono (λ q e. ground (arith, e, lookup-insert p q code s.exits)) ps h

running_later :
    (p : ℕ) (code : ℤ) (process : Option ℕ) (exits : Dict ℕ ℤ) (b : Bool)
    → (b && (is_some process && not (is_some (return_code process exits)))) ≡ false
    → (b && (is_some process && not (is_some (return_code process (insert p code exits))))) ≡ false
running_later p code none exits b e = e
running_later p code (some q) exits b e = ground (arith, e, lookup-insert p q code exits)

end_process-HasOneAlive :
    (p : ℕ) (code : ℤ) (s : Service) → HasOneAlive s → HasOneAlive (end_process p code s)
unfolding end_process
end_process-HasOneAlive p code s h = go (elem p s.spawned && not (is_some (lookup p s.exits)))
  where
    go : (b : Bool) → HasOneAlive (if b then record s { exits = insert p code s.exits } else s)
    go false = h
    go true = record {
      one_start = h.one_start;
      idle_start = running_later p code s.process s.exits (not (is_nil s.starting)) h.idle_start;
      all_accounted = accounted_later p code s s.spawned h.all_accounted;
    }

either :
    (b : Bool) (s t : Service) → HasOneAlive s → HasOneAlive t → HasOneAlive (if b then s else t)
either true s t h k = h
either false s t h k = k

after_exit-HasOneAlive :
    (own : Bool) (rest : List (WaitTask × Bool)) (s : Service)
    → HasOneAlive s
    → HasOneAlive (after_exit own rest s)
unfolding after_exit
after_exit-HasOneAlive own rest s h =
    either s.stopping _ _ (same-HasOneAlive s _ refl refl refl refl h) (
      either (s.auto_restart && is_failure (return_code s.process s.exits)) _ _
        (same-HasOneAlive s _ refl refl refl refl h) (same-HasOneAlive s _ refl refl refl refl h))

resumed-HasOneAlive :
    (o : Option ((WaitTask × Bool) × List (WaitTask × Bool))) (s : Service)
    → (begins_task o && not (is_nil s.starting)) ≡ false
    → HasOneAlive s
    → HasOneAlive (resume_picked o s)
unfolding resume
resumed-HasOneAlive none s e h = h
resumed-HasOneAlive (some ((waiting p, own), rest)) s e h =
    either (is_some (lookup p s.exits)) _ s (after_exit-HasOneAlive own rest s h) h
resumed-HasOneAlive (some ((delaying, own), rest)) s e h =
    begin_start-HasOneAlive own false _ (ground (arith, e))
      (same-HasOneAlive s _ refl refl refl refl h)

step-HasOneAlive :
    (e : ServiceEvent) (s : Service)
    → (begins e s && not (is_nil s.starting)) ≡ false
    → HasOneAlive s
    → HasOneAlive (service_step e s)
unfolding service_step end_start fail_start begin_stop begin_shutdown end_stop
step-HasOneAlive (start_called blocked) s e h =
    begin_start-HasOneAlive false blocked s (ground (arith, e)) h
step-HasOneAlive (process_spawned p) s e h =
    either (elem p s.spawned) s _ h (spawn_for-HasOneAlive s.starting p s refl h)
step-HasOneAlive spawn_failed s e h =
    let (cases, one) = dropped_cases s.starting h.one_start in
    fewer-HasOneAlive s _ cases one refl refl refl h
step-HasOneAlive stop_called s e h =
    either (is_some s.process) _ s (same-HasOneAlive s _ refl refl refl refl h) h
step-HasOneAlive shutdown_called s e h =
    either (is_running s) _ _
      (either (is_some s.process) _ _ (same-HasOneAlive s _ refl refl refl refl h)
        (same-HasOneAlive s _ refl refl refl refl h))
      (cleanup_tasks-HasOneAlive s h)
step-HasOneAlive (process_exits p code) s e h = end_process-HasOneAlive p code s h
step-HasOneAlive (task_resumes i) s e h = resumed-HasOneAlive (pick i s.tasks) s e h
step-HasOneAlive (stop_returns p) s e h =
    let noted = record s { exit_code = lookup p s.exits } in
    either (is_some (lookup p s.exits)) (cleanup_tasks noted) s
      (cleanup_tasks-HasOneAlive noted (same-HasOneAlive s noted refl refl refl refl h)) h

run-HasOneAlive :
    (es : List ServiceEvent) (s : Service)
    → IsSequential es s
    → HasOneAlive s
    → HasOneAlive (run_service es s)
unfolding run_service
run-HasOneAlive [] s k h = h
run-HasOneAlive (e ∷ es) s k h =
    run-HasOneAlive es (service_step e s) k.1 (step-HasOneAlive e s k.0 h)

-- Where no start begins while another one is under way, at most the process that the manager
-- holds is alive, after any events of a new manager: calls of start, stop and shutdown, exits of
-- processes, and steps of its tasks, restarts included.
pub run_service-HasOneAlive :
    (auto_restart : Bool) (es : List ServiceEvent)
    → IsSequential es (new_service auto_restart)
    → HasOneAlive (run_service es (new_service auto_restart))
unfolding new_service
run_service-HasOneAlive auto_restart es h =
    run-HasOneAlive es _ h (record { one_start = refl; idle_start = refl; all_accounted = tt })
