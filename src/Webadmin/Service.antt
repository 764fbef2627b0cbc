-- ===== src/Webadmin/Service.antt =====
-- webadmin/api/service_manager.py: `ServiceManager`. A process stands by a number that no other has;
-- the coroutines run from one `await` to the next, each such part a step. The log, the signals and
-- the reading of the output are left out: a signal ends in the exit of the process, if at all.
pub mod Starts
pub mod Alive
pub mod Stopped
mod Tests
use frp_python.Prelude.{
  nat_beq, if◌then◌else◌, is_some, drop, elem, Dict, lookup, insert, ℕ, zero, suc, ◌+◌, Bool, true,
  false, ◌&&◌, ◌||◌, not, Option, none, some, List, [], ◌∷◌, map, nat_eq, string_eq, list_eq,
}
use frp_python.ForwardProxy.Headers.Rewritten.{others}
use frp_python.Py.Int.{negsuc, ℤ, pos}

-- Where `_wait_exit` stands: it awaits the exit of a process, or sleeps before a restart.
pub data WaitTask : Type 0 where
  waiting : ℕ → WaitTask
  delaying : WaitTask

-- The fields of a manager, with the calls of `start` that await the new process and the tasks of
-- `_wait_exit`, each with whether it is one of `_tasks`, the codes of the processes that ended, and
-- all that were ever spawned.
pub record Service : Type 0 where
  pub process : Option ℕ
  pub restart_count : ℕ
  pub exit_code : Option ℤ
  pub stopping : Bool
  pub auto_restart : Bool
  pub starting : List Bool
  pub tasks : List (WaitTask × Bool)
  pub exits : Dict ℕ ℤ
  pub spawned : List ℕ

unfoldable pub new_service : Bool → Service
new_service auto_restart = record {
  process = none;
  restart_count = 0;
  exit_code = none;
  stopping = false;
  auto_restart = auto_restart;
  starting = [];
  tasks = [];
  exits = [];
  spawned = [];
}

abbrev pub return_code : Option ℕ → Dict ℕ ℤ → Option ℤ
return_code none exits = none
return_code (some p) exits = lookup p exits

-- `running`
abbrev pub is_running : Service → Bool
is_running s = is_some s.process && not (is_some (return_code s.process s.exits))

-- `start` up to its `await`, in a task of the manager or not: nothing where it raises, as with other
-- processes of the same configuration that are not to be killed.
unfoldable pub begin_start : Bool → Bool → Service → Service
begin_start own blocked s =
    if is_running s || blocked
    then s
    else record s { stopping = false; starting = own ∷ s.starting }

abbrev pub disowned : List (WaitTask × Bool) → List (WaitTask × Bool)
disowned [] = []
disowned ((t, own) ∷ ts) = (t, false) ∷ disowned ts

-- The rest of the first `start`, with a new process.
unfoldable pub spawn_for : List Bool → ℕ → Service → Service
spawn_for [] p s = s
spawn_for (own ∷ others) p s = record s {
  starting = map (λ b. false) others;
  process = some p;
  exit_code = none;
  tasks = (waiting p, true) ∷ disowned s.tasks;
  spawned = p ∷ s.spawned;
}

unfoldable pub end_start : ℕ → Service → Service
unfolding spawn_for
end_start p s = if elem p s.spawned then s else spawn_for s.starting p s

-- `create_subprocess_exec` raises.
unfoldable pub fail_start : Service → Service
fail_start s = record s { starting = drop 1 s.starting }

abbrev pub is_failure : Option ℤ → Bool
is_failure none = true
is_failure (some (pos n)) = not (nat_beq n 0)
is_failure (some (negsuc n)) = true

-- `_wait_exit` behind the wait; the code is that of the process that the manager has by then.
unfoldable pub after_exit : Bool → List (WaitTask × Bool) → Service → Service
after_exit own rest s =
    let code = return_code s.process s.exits in
    if s.stopping
    then record s { exit_code = code; tasks = rest }
    else if s.auto_restart && is_failure code
    then record s {
      exit_code = code;
      restart_count = s.restart_count + 1;
      tasks = (delaying, own) ∷ rest;
    }
    else record s { exit_code = code; tasks = rest }

-- A task goes on: a wait whose process ended, or a restart whose second is over.
unfoldable pub resume : WaitTask × Bool → List (WaitTask × Bool) → Service → Service
unfolding after_exit begin_start
resume (waiting p, own) rest s = if is_some (lookup p s.exits) then after_exit own rest s else s
resume (delaying, own) rest s = begin_start own false (record s { tasks = rest })

-- The task at a place of the list, and the others.
unfoldable pub pick :
    ℕ → List (WaitTask × Bool) → Option ((WaitTask × Bool) × List (WaitTask × Bool))
pick i [] = none
pick zero (t ∷ ts) = some (t, ts)
pick (suc i) (t ∷ ts) = elim (pick i ts) [ none ↦ none | some (u, rest) ↦ some (u, t ∷ rest) ]

abbrev pub resume_picked : Option ((WaitTask × Bool) × List (WaitTask × Bool)) → Service → Service
resume_picked none s = s
resume_picked (some (t, rest)) s = resume t rest s

-- `stop` up to its `await`, and `shutdown`, which turns the restarts off before
unfoldable pub begin_stop : Service → Service
begin_stop s = if is_some s.process then record s { stopping = true } else s

-- `_cleanup_tasks`
abbrev pub lost_tasks : List (WaitTask × Bool) → List (WaitTask × Bool)
lost_tasks [] = []
lost_tasks ((t, true) ∷ ts) = lost_tasks ts
lost_tasks ((t, false) ∷ ts) = (t, false) ∷ lost_tasks ts

abbrev pub lost_starts : List Bool → List Bool
lost_starts [] = []
lost_starts (true ∷ ts) = lost_starts ts
lost_starts (false ∷ ts) = false ∷ lost_starts ts

unfoldable pub cleanup_tasks : Service → Service
cleanup_tasks s = record s { tasks = lost_tasks s.tasks; starting = lost_starts s.starting }

unfoldable pub begin_shutdown : Service → Service
unfolding begin_stop cleanup_tasks
begin_shutdown s =
    if is_running s then begin_stop (record s { auto_restart = false }) else cleanup_tasks s

-- `stop` behind the wait for a process, when that has ended
unfoldable pub end_stop : ℕ → Service → Service
unfolding cleanup_tasks
end_stop p s =
    if is_some (lookup p s.exits)
    then cleanup_tasks (record s { exit_code = lookup p s.exits })
    else s

-- A process ends once.
unfoldable pub end_process : ℕ → ℤ → Service → Service
end_process p code s =
    if elem p s.spawned && not (is_some (lookup p s.exits))
    then record s { exits = insert p code s.exits }
    else s

pub data ServiceEvent : Type 0 where
  start_called : Bool → ServiceEvent
  process_spawned : ℕ → ServiceEvent
  spawn_failed stop_called shutdown_called : ServiceEvent
  process_exits : ℕ → ℤ → ServiceEvent
  task_resumes stop_returns : ℕ → ServiceEvent

unfoldable pub service_step : ServiceEvent → Service → Service
unfolding begin_start end_start fail_start begin_stop begin_shutdown resume pick end_stop
    end_process
service_step (start_called blocked) s = begin_start false blocked s
service_step (process_spawned p) s = end_start p s
service_step spawn_failed s = fail_start s
service_step stop_called s = begin_stop s
service_step shutdown_called s = begin_shutdown s
service_step (process_exits p code) s = end_process p code s
service_step (task_resumes i) s = resume_picked (pick i s.tasks) s
service_step (stop_returns p) s = end_stop p s

unfoldable pub run_service : List ServiceEvent → Service → Service
unfolding service_step
run_service [] s = s
run_service (e ∷ es) s = run_service es (service_step e s)
