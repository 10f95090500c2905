-- ===== src/StateMachine/Methods.antt =====
-- backend/controller/state_machine.py: the methods that change the registry.
use v_llm_dashboard.Prelude.{
  ℕ, String, Bool, true, false, not, ◌&&◌, Option, none, some, List, [], ◌∷◌, if◌then◌else◌, ◌==◌,
  string_eq,
}
use v_llm_dashboard.Prelude.Dict.{Dict, get, set, remove}
use v_llm_dashboard.Prelude.Eq.{nat_eq}
use v_llm_dashboard.Schemas.{
  ModelStatus, loading, stopped, ModelConfig, ModelInfo, Json, make_config, dump_config,
  update_dict, status_eq,
}
use v_llm_dashboard.StateMachine.{StateMachine, schedule_save}

-- The guard and the end that the update methods share: an unknown id changes nothing and returns
-- False.
unfoldable pub modify : String → (ModelInfo → ModelInfo) → StateMachine → StateMachine × Bool
unfolding schedule_save
modify model_id f s = elim (get model_id s.models) [
  | none ↦ (s, false)
  | some m ↦ (schedule_save (record s { models = set model_id (f m) s.models }), true)
]

-- the record that add_model stores; `created` and `updated` are the two clock readings
abbrev pub new_model : String → String → String → ModelConfig → ℕ → ℕ → ℕ → ModelInfo
new_model model_id name path config size_bytes created updated = record {
  id = model_id;
  name = name;
  path = path;
  status = stopped;
  config = config;
  created_at = created;
  updated_at = updated;
  download_progress = 0;
  error_message = "";
  size_bytes = size_bytes;
  loading_since = none;
  last_started_at = none;
  locked = false;
  benchmark = none;
}

-- The dictionary is the caller's `config or {}`; `none` is the validation error, raised before the
-- registry changes.
unfoldable pub add_model :
    String
    → String
    → String
    → Dict String Json
    → ℕ
    → ℕ
    → ℕ
    → StateMachine
    → Option (StateMachine × ModelInfo)
unfolding schedule_save
add_model model_id name path config size_bytes created updated s = elim (make_config config) [
  | none ↦ none
  | some c ↦
      let m = new_model model_id name path c size_bytes created updated in
      some (schedule_save (record s { models = set model_id m s.models }), m)
]

-- what update_model_status does to the model; the transition table only logs a warning
unfoldable pub with_status : ModelStatus → String → ℕ → ModelInfo → ModelInfo
with_status status error_message now m =
    let starts = status == loading && not (m.status == loading) in
    record m {
      status = status;
      loading_since =
          if starts then some now else if status == loading then m.loading_since else none;
      last_started_at = if starts then some now else m.last_started_at;
      updated_at = now;
      error_message = if error_message == "" then m.error_message else error_message;
    }

unfoldable pub update_model_status :
    String → ModelStatus → String → ℕ → StateMachine → StateMachine × Bool
unfolding with_status modify
update_model_status model_id status error_message now =
    modify model_id (with_status status error_message now)

unfoldable pub update_model_size : String → ℕ → ℕ → StateMachine → StateMachine × Bool
unfolding modify
update_model_size model_id size_bytes now =
    modify model_id (λ m. record m { size_bytes = size_bytes; updated_at = now })

-- ModelConfig(**config) may raise: then the registry is unchanged and the result is `none`
abbrev pub store_config :
    String → Option ModelConfig → ℕ → StateMachine → Option (StateMachine × Bool)
store_config model_id none now s = none
store_config model_id (some c) now s =
    some (modify model_id (λ m. record m { config = c; updated_at = now }) s)

unfoldable pub update_model_config :
    String → Dict String Json → ℕ → StateMachine → Option (StateMachine × Bool)
unfolding modify
update_model_config model_id config now s = elim (get model_id s.models) [
  | none ↦ some (s, false)
  | some m ↦ store_config model_id (make_config (update_dict (dump_config m.config) config)) now s
]

unfoldable pub replace_model_config :
    String → Dict String Json → ℕ → StateMachine → Option (StateMachine × Bool)
unfolding modify
replace_model_config model_id config now s = elim (get model_id s.models) [
  | none ↦ some (s, false)
  | some m ↦ store_config model_id (make_config config) now s
]

unfoldable pub set_current_model : String → StateMachine → StateMachine × Bool
unfolding schedule_save
set_current_model model_id s = elim (get model_id s.models) [
  | none ↦ (s, false)
  | some m ↦ (schedule_save (record s { current_model_id = some model_id }), true)
]

abbrev pub is_id : String → Option String → Bool
is_id model_id none = false
is_id model_id (some c) = c == model_id

unfoldable pub clear_current_model : String → StateMachine → StateMachine
unfolding schedule_save
clear_current_model model_id s =
    if is_id model_id s.current_model_id
    then schedule_save (record s { current_model_id = none })
    else s

unfoldable pub remove_model : String → StateMachine → StateMachine × Bool
unfolding schedule_save
remove_model model_id s = elim (get model_id s.models) [
  | none ↦ (s, false)
  | some m ↦ (
    schedule_save (record s {
      current_model_id = if is_id model_id s.current_model_id then none else s.current_model_id;
      models = remove model_id s.models;
    }),
    true,
  )
]

-- The loop of set_model_locked: every other locked model is unlocked and reported.
unfoldable pub unlock_others :
    String → ℕ → Dict String ModelInfo → Dict String ModelInfo × List String
unlock_others model_id now [] = ([], [])
unlock_others model_id now ((mid, m) ∷ rest) =
    let (rest', unlocked) = unlock_others model_id now rest in
    if not (mid == model_id) && m.locked
    then ((mid, record m { locked = false; updated_at = now }) ∷ rest', mid ∷ unlocked)
    else ((mid, m) ∷ rest', unlocked)

unfoldable pub set_model_locked : String → Bool → ℕ → StateMachine → StateMachine × List String
unfolding schedule_save unlock_others
set_model_locked model_id locked now s = elim (get model_id s.models) [
  | none ↦ (s, [])
  | some m ↦
      let (models, unlocked) =
        if locked then unlock_others model_id now s.models else (s.models, []) in
      (
        schedule_save (record s {
          models = set model_id (record m { locked = locked; updated_at = now }) models;
        }),
        unlocked,
      )
]

unfoldable pub take_pending_locked_restarts : StateMachine → StateMachine × List String
take_pending_locked_restarts s =
    (record s { pending_locked_restarts = [] }, s.pending_locked_restarts)
