-- ===== src/Examples/Fixtures.antt =====
-- Two models on a fresh service, the first locked.
use v_llm_dashboard.Prelude.{ℕ, String, Bool, true, false, Option, none, some, [], ◌∷◌}
use v_llm_dashboard.Schemas.{ModelStatus, ModelInfo, ModelConfig, loading}
use v_llm_dashboard.StateMachine.{StateMachine}
use v_llm_dashboard.StateMachine.Methods.{new_model}
use v_llm_dashboard.World.{World}

abbrev config : String → ModelConfig
config n = record { name = n; path = "/models/x"; extra = [] }

abbrev loading_time : ModelStatus → Option ℕ
loading_time loading = some 5
loading_time _ = none

abbrev pub model_at : String → ModelStatus → Bool → ModelInfo
model_at i st b = record (new_model i i "/models/x" (config i) 10 1 1) {
  status = st;
  locked = b;
  loading_since = loading_time st;
}

abbrev pub registry_of : ModelStatus → ModelStatus → StateMachine
registry_of s t = record {
  models = ("a", model_at "a" s true) ∷ ("b", model_at "b" t false) ∷ [];
  current_model_id = none;
  pending_locked_restarts = [];
  debounce_timer = none;
  dirty = false;
  save_failures = 0;
  live = [];
  next_timer = 0;
  timer_delay = 0;
  state_file = none;
}

abbrev pub world_of : ModelStatus → ModelStatus → World
world_of s t = record {
  registry = registry_of s t;
  crash_events = [];
  inflight = [];
  suspended = [];
  restart_tasks = [];
  sleeping = [];
  attempting = [];
  tick_attempt = none;
  next_task = 0;
  stopping_models = [];
}
