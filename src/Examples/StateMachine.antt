-- ===== src/Examples/StateMachine.antt =====
-- A registry of two models through starts, locks, failing writes and a restart.
use v_llm_dashboard.Prelude.{
  String, ◌≡◌, refl, true, false, none, some, List, [], ◌∷◌, arith, string_eq, nat_eq,
}
use v_llm_dashboard.Prelude.Dict.{Dict, get, set, Unique}
use v_llm_dashboard.Prelude.Set.{discard}
use v_llm_dashboard.Schemas.{ModelInfo, Json, text, loading, status_eq, make_config}
use v_llm_dashboard.StateMachine.{StateMachine, SavedState, fire_timer, retry_delay}
use v_llm_dashboard.StateMachine.Methods.{
  add_model, update_model_status, set_model_locked, set_current_model, new_model,
}
use v_llm_dashboard.StateMachine.Ops.{
  Op, adding, status, locking, current, firing, step, run, map_option,
}
use v_llm_dashboard.StateMachine.Locking.{SingleLock, run-SingleLock}
use v_llm_dashboard.StateMachine.Saving.{IsSaving, run-IsSaving, retry_lost}
use v_llm_dashboard.StateMachine.Load.{fresh, load_state, written}
use v_llm_dashboard.StateMachine.Restart.{locked_up, restart_of, restart}

abbrev config_of : String → Dict String Json
config_of n = ("name", text n) ∷ ("path", text "/models/x") ∷ []

abbrev script : List Op
script =
    adding "a" "a" "/models/a" (config_of "a") 10 1 1
    ∷ adding "b" "b" "/models/b" (config_of "b") 20 2 2
    ∷ locking "a" true 3
    ∷ locking "b" true 4
    ∷ status "b" loading "" 5
    ∷ current "b"
    ∷ firing 5 true false
    ∷ firing 6 false true
    ∷ []

-- An empty registry whose file holds it.
abbrev start : StateMachine
start = fresh (some (record { models = []; current_model_id = none }))

after : run script start ≡ record (run script start) { dirty = false; live = []; save_failures = 0 }
unfolding run step add_model make_config get set set_model_locked update_model_status
    set_current_model fire_timer retry_delay discard
after = refl

IsSaving-start : IsSaving start
IsSaving-start = record {
  scheduled = λ h. absurd (ground arith);
  synced = λ h. refl;
  delayed = omega arith;
}

run-IsSaving_example : IsSaving (run script start)
run-IsSaving_example = run-IsSaving script start IsSaving-start

SingleLock-start : SingleLock start.models
unfolding get
SingleLock-start = λ j k hj hk. absurd (ground arith)

run-SingleLock_example : SingleLock (run script start).models
run-SingleLock_example = run-SingleLock script start SingleLock-start

abbrev dirty_start : StateMachine
dirty_start = record start { dirty = true; live = 7 ∷ []; save_failures = 1024 }

retry_lost_example :
    ((fire_timer 7 true false dirty_start).dirty ≡ true)
    × ((fire_timer 7 true false dirty_start).live ≡ [])
retry_lost_example = retry_lost 7 true dirty_start refl (omega arith) refl

abbrev model_b : ModelInfo
model_b =
    record (new_model "b" "b" "/models/b" (record { name = "b"; path = "/m"; extra = [] }) 20 2 2) {
      status = loading;
      loading_since = some 5;
      last_started_at = some 5;
      locked = true;
    }

abbrev file : SavedState
file = record { models = ("b", model_b) ∷ []; current_model_id = some "b" }

Unique-file : Unique file.models
unfolding get
Unique-file = (refl, tt)

restart_example :
    ((k : String)
      → get k (load_state 9 (some file) (written file)).models
        ≡ map_option restart_of (get k file.models))
    × ((load_state 9 (some file) (written file)).pending_locked_restarts ≡ locked_up file.models)
    × ((load_state 9 (some file) (written file)).state_file ≡ some file)
restart_example = restart 9 file Unique-file
