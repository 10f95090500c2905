-- ===== src/World.antt =====
-- The state that the lifecycle modules of backend/service share: the registry, the watchdog's
-- module variables (model_watchdog.py), the stop flags of model_lifecycle.py, and asyncio's delayed
-- tasks. Code between two awaits is one function; what a wait returns is an argument.
pub mod Crash
use v_llm_dashboard.Prelude.{
  ℕ, ◌+◌, ◌*◌, String, Bool, true, false, not, ◌&&◌, Option, none, some, List, [], ◌∷◌, ◌++◌, ltb,
  leb, length, filterb, if◌then◌else◌, ◌==◌, string_eq, nat_eq,
}
use v_llm_dashboard.Prelude.Dict.{Dict, get, set, remove}
use v_llm_dashboard.Prelude.Set.{contains, add, discard}
use v_llm_dashboard.Prelude.Texts.{◌+text◌, show_nat}
use v_llm_dashboard.Schemas.{ModelStatus, failed}
use v_llm_dashboard.StateMachine.{StateMachine}
use v_llm_dashboard.StateMachine.Methods.{update_model_status}

-- a crash: its time, and whether it was replayed
abbrev pub CrashEvent : Type 0
CrashEvent = ℕ × Bool

-- `sleeping` holds the restart tasks that wait out their delay, and `attempting` those that are at
-- an await of their attempt, each with its model; `tick_attempt` is the model that the tick is
-- attempting to restart.
pub record World : Type 0 where
  pub registry : StateMachine
  pub crash_events : Dict String (List CrashEvent)
  pub inflight : List String
  pub suspended : List String
  pub restart_tasks : Dict String ℕ
  pub sleeping : Dict ℕ String
  pub attempting : Dict ℕ String
  pub tick_attempt : Option String
  pub next_task : ℕ
  pub stopping_models : List String

-- BREAKER_WINDOW_SECONDS, in microseconds
abbrev pub breaker_window : ℕ
breaker_window = 600000000

-- BREAKER_MAX_CRASHES
abbrev pub breaker_max_crashes : ℕ
breaker_max_crashes = 3

-- SUSPEND_MESSAGE.format(n=n)
unfoldable pub suspend_message : ℕ → String
suspend_message n = "自动启动已暂停：10 分钟内 " +text show_nat n +text " 次启动/运行失败。手动启动或解除/重新锁定后恢复"

-- task.cancel(): a task that sleeps is gone; one at an await of its attempt leaves it by the
-- `finally` that gives the claim back.
unfoldable pub cancel_task : ℕ → World → World
cancel_task t w = elim (get t w.attempting) [
  | none ↦ record w { sleeping = remove t w.sleeping }
  | some m ↦ record w {
    sleeping = remove t w.sleeping;
    attempting = remove t w.attempting;
    inflight = discard m w.inflight;
  }
]

abbrev pub cancel_if : Option ℕ → World → World
cancel_if none w = w
cancel_if (some t) w = cancel_task t w

-- `_clear`
unfoldable pub clear : String → World → World
unfolding cancel_task
clear model_id w =
    let w' = cancel_if (get model_id w.restart_tasks) w in
    record w' {
      restart_tasks = remove model_id w.restart_tasks;
      crash_events = remove model_id w.crash_events;
      suspended = discard model_id w.suspended;
    }

unfoldable pub is_suspended : String → World → Bool
is_suspended model_id w = contains model_id w.suspended

abbrev pub or_empty : Option (List CrashEvent) → List CrashEvent
or_empty none = []
or_empty (some l) = l

-- now - t < BREAKER_WINDOW_SECONDS
abbrev pub in_window : ℕ → CrashEvent → Bool
in_window now (t, synthetic) = ltb now (t + breaker_window)

abbrev pub is_real : CrashEvent → Bool
is_real (t, synthetic) = not synthetic

-- the history of the model with the new event
unfoldable pub recorded_events : String → Bool → ℕ → World → List CrashEvent
recorded_events model_id synthetic now w =
    filterb (in_window now) (or_empty (get model_id w.crash_events)) ++ (now, synthetic) ∷ []

-- create_task(_restart_after_delay(model_id)), kept as the model's restart task; the older task of
-- the model is not cancelled
unfoldable pub schedule_restart : String → World → World
schedule_restart model_id w = record w {
  sleeping = set w.next_task model_id w.sleeping;
  restart_tasks = set model_id w.next_task w.restart_tasks;
  next_task = w.next_task + 1;
}

-- `now` and `later` are the clock readings of the crash and of the status update; `loop` says
-- whether an event loop runs.
unfoldable pub on_model_crash : String → Bool → ℕ → ℕ → Bool → World → World
unfolding recorded_events schedule_restart
on_model_crash model_id synthetic now later loop w =
    let events = recorded_events model_id synthetic now w in
    let w' = record w { crash_events = set model_id events w.crash_events } in
    let real = length (filterb is_real events) in
    if leb breaker_max_crashes real && not (contains model_id w.suspended)
    then record w' {
      suspended = add model_id w.suspended;
      registry = (update_model_status model_id failed (suspend_message real) later w.registry).0;
    }
    else if loop
    then schedule_restart model_id w'
    else w'

-- the done callback: a finished task is forgotten if it is still the model's restart task
unfoldable pub forget_task : String → ℕ → World → World
forget_task model_id t w = elim (get model_id w.restart_tasks) [
  | none ↦ w
  | some c ↦ if c == t then record w { restart_tasks = remove model_id w.restart_tasks } else w
]
