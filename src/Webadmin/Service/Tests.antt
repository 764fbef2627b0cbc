-- ===== src/Webadmin/Service/Tests.antt =====
-- webadmin/api/service_manager.py at concrete events.
use frp_python.Prelude.{
  lookup, insert, ◌≡◌, refl, true, false, some, List, [], ◌∷◌, nat_eq, string_eq, list_eq,
}
use frp_python.Py.Int.{pos}
use frp_python.Webadmin.Service.{
  service_step, ServiceEvent, start_called, process_spawned, stop_called, process_exits,
  task_resumes, stop_returns, Service, new_service, begin_start, spawn_for, end_start, after_exit,
  resume, pick, begin_stop, cleanup_tasks, end_stop, end_process, run_service,
}
use frp_python.Webadmin.Service.Alive.{run_service-HasOneAlive}
use frp_python.Webadmin.Service.Starts.{HasOneAlive, IsSequential}
use frp_python.Webadmin.Service.Stopped.{stopped-stays}

-- A crash, the restart, a stop.
abbrev crash : List ServiceEvent
crash =
    start_called false
    ∷ process_spawned 1
    ∷ process_exits 1 (pos 1)
    ∷ task_resumes 0
    ∷ task_resumes 0
    ∷ process_spawned 2
    ∷ stop_called
    ∷ process_exits 2 (pos 0)
    ∷ stop_returns 2
    ∷ []

crash-IsSequential : IsSequential crash (new_service true)
unfolding new_service service_step begin_start end_start spawn_for begin_stop resume after_exit pick
    end_stop cleanup_tasks end_process insert lookup
crash-IsSequential = (refl, (refl, (refl, (refl, (refl, (refl, (refl, (refl, (refl, tt)))))))))

run_service-HasOneAlive_example : HasOneAlive (run_service crash (new_service true))
run_service-HasOneAlive_example = run_service-HasOneAlive true crash crash-IsSequential

-- Two calls of start before the first process is there leave two of them alive.
two_alive :
    let s =
      run_service
        (start_called false ∷ start_called false ∷ process_spawned 1 ∷ process_spawned 2 ∷ [])
        (new_service false) in
    (s.spawned ≡ 2 ∷ 1 ∷ []) × (s.process ≡ some 2) × (s.exits ≡ [])
unfolding run_service new_service service_step begin_start end_start spawn_for
two_alive = (refl, refl, refl)

-- The manager sleeps before a restart.
abbrev crashed : Service
crashed =
    run_service
      (start_called false ∷ process_spawned 1 ∷ process_exits 1 (pos 1) ∷ task_resumes 0 ∷ [])
      (new_service true)

abbrev later : List ServiceEvent
later = task_resumes 0 ∷ process_spawned 2 ∷ stop_called ∷ []

stopped-stays_example : (run_service (stop_returns 1 ∷ later) crashed).spawned ≡ crashed.spawned
unfolding run_service new_service service_step begin_start end_start spawn_for resume after_exit
    pick end_process insert lookup
stopped-stays_example = stopped-stays 1 later crashed refl (refl, tt) tt (refl, (refl, (refl, tt)))

-- Where start is called while the manager sleeps before a restart, the sleeping task is not one of
-- `_tasks` any more, and starts the service again behind a stop.
starts_again :
    (run_service
      (start_called false
        ∷ process_spawned 2
        ∷ stop_called
        ∷ process_exits 2 (pos 0)
        ∷ stop_returns 2
        ∷ task_resumes 0
        ∷ process_spawned 3
        ∷ [])
      crashed).spawned
    ≡ 3 ∷ 2 ∷ 1 ∷ []
unfolding run_service new_service service_step begin_start end_start spawn_for begin_stop resume
    after_exit pick end_stop cleanup_tasks end_process insert lookup
starts_again = refl
