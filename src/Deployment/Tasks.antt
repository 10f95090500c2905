-- ===== src/Deployment/Tasks.antt =====
-- backend/service/deployment_task_manager.py and deployment_task_ctx.py: the tasks of the
-- deployment pipelines. A method is a function of the manager, since it runs under one lock; the
-- worker thread of a task is cut at its locked parts. Log files are not modelled.
pub mod Thread
pub mod Exclusive
pub mod Finished
pub mod Histories
pub mod Runs
use v_llm_dashboard.Prelude.{
  ℕ, zero, suc, ◌+◌, ◌-◌, String, Bool, true, false, not, ◌&&◌, ◌||◌, Option, none, some, List, [],
  ◌∷◌, ◌++◌, anyb, map, filterb, last_n, ltb, if◌then◌else◌, ◌==◌, string_eq, nat_eq,
}
use v_llm_dashboard.Prelude.Eq.{Eq}
use v_llm_dashboard.Prelude.Dict.{Dict, get, set, values}
use v_llm_dashboard.Prelude.Set.{contains}

-- TASK_STATUSES
pub data TaskStatus : Type 0 where
  queued running success failed cancelled awaiting_reboot interrupted : TaskStatus

pub data StepStatus : Type 0 where
  pending active done step_failed step_cancelled skipped : StepStatus

abbrev pub in_flight : TaskStatus → Bool
in_flight queued = true
in_flight running = true
in_flight _ = false

abbrev pub is_awaiting : TaskStatus → Bool
is_awaiting awaiting_reboot = true
is_awaiting _ = false

abbrev pub is_running : TaskStatus → Bool
is_running running = true
is_running _ = false

abbrev pub Steps : Type 0
Steps = List (String × StepStatus)

-- A task; its suggestion and its result, which nothing modelled here reads, are left out.
pub record Task : Type 0 where
  pub id : String
  pub kind : String
  pub title : String
  pub steps : Steps
  pub current_step : Option ℕ
  pub status : TaskStatus
  pub error : String
  pub created_at : ℕ
  pub started_at : Option ℕ
  pub finished_at : Option ℕ

abbrev pub HistoryEntry : Type 0
HistoryEntry = ℕ × (String × (String × TaskStatus))

-- the worker thread of a task: started, inside its runner, or over
pub data Worker : Type 0 where
  waiting working over : Worker

pub record TaskManager : Type 0 where
  pub tasks : Dict String Task
  pub cancel_set : Dict String Bool
  pub threads : Dict String Worker
  pub tasks_file : List Task
  pub history : List HistoryEntry

-- MAX_TASKS, and the bound of the history in push_history
abbrev pub max_tasks : ℕ
max_tasks = 50

abbrev pub max_history : ℕ
max_history = 100

-- INFLIGHT_DOMAINS
unfoldable pub inflight_domain : String → List String
inflight_domain kind =
    if kind == "driver" || kind == "cuda"
    then "driver" ∷ "cuda" ∷ []
    else if kind == "vllm" || kind == "rollback_vllm"
    then "vllm" ∷ "rollback_vllm" ∷ []
    else if kind == "reboot"
    then "driver" ∷ "cuda" ∷ "vllm" ∷ "rollback_vllm" ∷ []
    else kind ∷ []

-- `_persist_locked`, where the write succeeds
unfoldable pub persist_locked : TaskManager → TaskManager
persist_locked m = record m { tasks_file = last_n max_tasks (values m.tasks) }

-- whether inflight_task(kind) finds one
unfoldable pub has_inflight : List Task → String → Bool
has_inflight ts kind = anyb (λ t. t.kind == kind && in_flight t.status) ts

abbrev pub new_task : String → String → String → List String → ℕ → Task
new_task id kind title steps now = record {
  id = id;
  kind = kind;
  title = title;
  steps = map (λ s. (s, pending)) steps;
  current_step = none;
  status = queued;
  error = "";
  created_at = now;
  started_at = none;
  finished_at = none;
}

-- `create` and the start of the thread by `submit`, which every entry point makes together; `none`
-- is the DeploymentError
unfoldable pub create :
    String → String → String → List String → ℕ → TaskManager → Option TaskManager
unfolding inflight_domain has_inflight persist_locked
create id kind title steps now m =
    if anyb (has_inflight (values m.tasks)) (inflight_domain kind)
    then none
    else some (
        persist_locked (record m {
          tasks = set id (new_task id kind title steps now) m.tasks;
          cancel_set = set id false m.cancel_set;
          threads = set id waiting m.threads;
        }))

abbrev pub put_task : Option Task → String → (Task → Task) → TaskManager → TaskManager
put_task none id f m = m
put_task (some t) id f m = persist_locked (record m { tasks = set id (f t) m.tasks })

abbrev pub with_task : String → (Task → Task) → TaskManager → TaskManager
with_task id f m = put_task (get id m.tasks) id f m
