-- ===== src/Deployment/Tasks/Thread.antt =====
-- backend/service/deployment_task_manager.py and deployment_task_ctx.py: the worker thread of a task
-- with its steps, and the ends of a task: its outcome, its cancellation, its reboot. Also the tasks of
-- the last process that deployment_reattach.py takes up again.
use v_llm_dashboard.Prelude.{
  ℕ, zero, suc, String, Bool, true, false, ◌&&◌, Option, none, some, List, [], ◌∷◌, ◌++◌, anyb, map,
  filterb, last_n, if◌then◌else◌, ◌==◌, string_eq, nat_eq,
}
use v_llm_dashboard.Prelude.Dict.{Dict, get, set, values}
use v_llm_dashboard.Deployment.Tasks.{
  HistoryEntry, StepStatus, Steps, Task, TaskManager, TaskStatus, Worker, active, awaiting_reboot,
  cancelled, done, failed, in_flight, is_awaiting, is_running, interrupted, max_history, over,
  pending, persist_locked, running, skipped, success, waiting, with_task, working,
}

-- `_mark_step` of TaskContext: an index out of range changes nothing
abbrev pub set_step : ℕ → StepStatus → Steps → Steps
set_step n st [] = []
set_step zero st ((name, old) ∷ steps) = (name, st) ∷ steps
set_step (suc n) st (s ∷ steps) = s ∷ set_step n st steps

-- the begin and the end of a step of the pipeline
unfoldable pub begin_step : String → ℕ → TaskManager → TaskManager
unfolding persist_locked
begin_step id n m =
    with_task id (λ t. record t { current_step = some n; steps = set_step n active t.steps }) m

unfoldable pub mark_step : String → ℕ → StepStatus → TaskManager → TaskManager
unfolding persist_locked
mark_step id n st m = with_task id (λ t. record t { steps = set_step n st t.steps }) m

abbrev pub begun : ℕ → Task → Task
begun now t = record t { status = running; started_at = some now }

abbrev pub begin_at : Option Worker → String → ℕ → TaskManager → TaskManager
begin_at (some waiting) id now m =
    with_task id (begun now) (record m { threads = set id working m.threads })
begin_at _ id now m = m

-- the start of the thread
unfoldable pub begin : String → ℕ → TaskManager → TaskManager
unfolding persist_locked
begin id now m = begin_at (get id m.threads) id now m

-- push_history of deployment_state.py
unfoldable pub push_history : HistoryEntry → TaskManager → TaskManager
push_history entry m = record m { history = last_n max_history (m.history ++ entry ∷ []) }

abbrev pub is_recorded : TaskStatus → Bool
is_recorded success = true
is_recorded failed = true
is_recorded cancelled = true
is_recorded _ = false

abbrev pub or_now : Option ℕ → ℕ → ℕ
or_now none now = now
or_now (some t) now = t

-- `_record_history`
unfoldable pub record_history : Task → ℕ → TaskManager → TaskManager
unfolding push_history
record_history t now m =
    if is_recorded t.status
    then push_history (or_now t.finished_at now, (t.kind, (t.title, t.status))) m
    else m

abbrev pub record_at : Option Task → ℕ → TaskManager → TaskManager
record_at none now m = m
record_at (some t) now m = record_history t now m

abbrev pub record_of : String → ℕ → TaskManager → TaskManager
record_of id now m = record_at (get id m.tasks) now m

-- an open step is skipped
abbrev pub skip_open : String × StepStatus → String × StepStatus
skip_open (name, pending) = (name, skipped)
skip_open (name, active) = (name, skipped)
skip_open (name, status) = (name, status)

-- how the runner ended: with its result, cancelled, or with an error
pub data Outcome : Type 0 where
  returned was_cancelled : Outcome
  raised : String → Outcome

abbrev pub give_up : ℕ → Task → Task
give_up now t = record t {
  status = cancelled;
  finished_at = some now;
  steps = map skip_open t.steps;
}

abbrev pub fail : String → ℕ → Task → Task
fail message now t = record t { status = failed; error = message; finished_at = some now }

-- the locked part of the thread's regular end: only a task that still runs succeeds
abbrev pub succeed_at : Option Task → String → ℕ → TaskManager → TaskManager
succeed_at none id now m = m
succeed_at (some t) id now m =
    if is_running t.status
    then persist_locked (record m {
      tasks = set id (record t { status = success; finished_at = some now }) m.tasks;
    })
    else m

abbrev pub end_with : Outcome → String → ℕ → TaskManager → TaskManager
end_with returned id now m = record_of id now (succeed_at (get id m.tasks) id now m)
end_with was_cancelled id now m = with_task id (give_up now) m
end_with (raised message) id now m = record_of id now (with_task id (fail message now) m)

abbrev pub finish_at : Option Worker → String → Outcome → ℕ → TaskManager → TaskManager
finish_at (some working) id o now m =
    end_with o id now (record m { threads = set id over m.threads })
finish_at _ id o now m = m

-- the end of the thread
unfoldable pub finish : String → Outcome → ℕ → TaskManager → TaskManager
unfolding persist_locked record_history
finish id o now m = finish_at (get id m.threads) id o now m

abbrev pub awaiting : Task → Task
awaiting t = record t { status = awaiting_reboot; steps = set_step 3 active t.steps }

abbrev pub await_at : Option Worker → String → TaskManager → TaskManager
await_at (some working) id m = with_task id awaiting m
await_at _ id m = m

-- the driver pipeline's last act: the task waits for the reboot
unfoldable pub await_reboot : String → TaskManager → TaskManager
unfolding persist_locked
await_reboot id m = await_at (get id m.threads) id m

abbrev pub cancel_at : Option Task → Option Bool → String → TaskManager → TaskManager × Bool
cancel_at (some t) (some e) id m =
    if in_flight t.status
    then (record m { cancel_set = set id true m.cancel_set }, true)
    else (m, false)
cancel_at _ _ id m = (m, false)

-- `cancel`
unfoldable pub cancel : String → TaskManager → TaskManager × Bool
cancel id m = cancel_at (get id m.tasks) (get id m.cancel_set) id m

abbrev pub completed : ℕ → Task → Task
completed now t = record t {
  status = success;
  finished_at = some now;
  steps = map (λ s. (s.0, done)) t.steps;
}

abbrev pub complete_at : Option Task → String → ℕ → TaskManager → TaskManager
complete_at none id now m = m
complete_at (some t) id now m =
    if is_awaiting t.status
    then record_history (completed now t) now
        (persist_locked (record m { tasks = set id (completed now t) m.tasks }))
    else m

-- `complete_driver`
unfoldable pub complete_driver : String → ℕ → TaskManager → TaskManager
unfolding persist_locked record_history
complete_driver id now m = complete_at (get id m.tasks) id now m

abbrev pub superseded : String → ℕ → Task → Task
superseded reason now t = record t {
  status = failed;
  error = reason;
  finished_at = some now;
  steps = map skip_open t.steps;
}

abbrev pub is_superseded : Task → Bool
is_superseded t = t.kind == "driver" && is_awaiting t.status

-- the loop of `supersede_awaiting_driver` over the tasks
unfoldable pub supersede_each : String → ℕ → Dict String Task → Dict String Task
supersede_each reason now [] = []
supersede_each reason now ((id, t) ∷ d) =
    (id, (if is_superseded t then superseded reason now t else t)) ∷ supersede_each reason now d

abbrev pub record_each : ℕ → List Task → TaskManager → TaskManager
record_each now [] m = m
record_each now (t ∷ ts) m = record_each now ts (record_history t now m)

-- `supersede_awaiting_driver`
unfoldable pub supersede_awaiting_driver : String → ℕ → TaskManager → TaskManager
unfolding supersede_each persist_locked record_history
supersede_awaiting_driver reason now m =
    let old = filterb is_superseded (values m.tasks) in
    if anyb is_superseded (values m.tasks)
    then record_each now (map (superseded reason now) old)
        (persist_locked (record m { tasks = supersede_each reason now m.tasks }))
    else m

abbrev pub is_interrupted : TaskStatus → Bool
is_interrupted interrupted = true
is_interrupted _ = false

-- a task that the restart interrupted, running again
abbrev pub reattached : Task → Task
reattached t = record t { status = running; error = "" }

abbrev pub reattach_at : Option Task → String → TaskManager → TaskManager
reattach_at none id m = m
reattach_at (some t) id m =
    if is_interrupted t.status
    then persist_locked
        (record m { tasks = set id (reattached t) m.tasks; cancel_set = set id false m.cancel_set })
    else m

-- `_reattach_interrupted` of deployment_reattach.py, for one task whose remote job lives: the locked
-- part of its thread, which looks at no other task
unfoldable pub reattach : String → TaskManager → TaskManager
unfolding persist_locked
reattach id m = reattach_at (get id m.tasks) id m

abbrev pub settled : (Task → Task) → Option Task → String → ℕ → TaskManager → TaskManager
settled f none id now m = m
settled f (some t) id now m =
    if is_running t.status
    then record_history (f t) now (persist_locked (record m { tasks = set id (f t) m.tasks }))
    else m

-- a task of the last process has no worker thread of its own in the table
abbrev pub settle_at : Option Worker → (Task → Task) → String → ℕ → TaskManager → TaskManager
settle_at none f id now m = settled f (get id m.tasks) id now m
settle_at (some w) f id now m = m

-- `_finalize_reattached`: the watch of a job that was attached again ends, with the error
unfoldable pub finalize_reattached : String → String → ℕ → TaskManager → TaskManager
unfolding persist_locked record_history
finalize_reattached id message now m = settle_at (get id m.threads) (fail message now) id now m

abbrev pub is_set : Option Bool → Bool
is_set none = false
is_set (some b) = b

-- the branch of `_watch_remote_job` where the task is cancelled
unfoldable pub cancel_reattached : String → ℕ → TaskManager → TaskManager
unfolding persist_locked record_history
cancel_reattached id now m =
    if is_set (get id m.cancel_set) then settle_at (get id m.threads) (give_up now) id now m else m
