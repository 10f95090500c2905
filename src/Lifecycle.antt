-- ===== src/Lifecycle.antt =====
-- backend/service/model_lifecycle.py: starting and stopping a model, the start probe, and the stop
-- window of a deployment. Each coroutine is cut at its awaits; what a remote call returned is an
-- argument. The text of the start command is not built here.
pub mod Window
pub mod TakeDown
pub mod Starting
pub mod Waiting
use v_llm_dashboard.Prelude.{
  ℕ, ◌+◌, ◌*◌, String, Bool, true, false, not, ◌&&◌, ◌||◌, Option, none, some, List, [], ◌∷◌, leb,
  if◌then◌else◌, ◌==◌, string_eq,
}
use v_llm_dashboard.Prelude.Dict.{get, values}
use v_llm_dashboard.Prelude.Set.{contains, add, discard}
use v_llm_dashboard.Schemas.{
  ModelStatus, running, loading, stopped, ModelInfo, is_transient, status_eq,
}
use v_llm_dashboard.StateMachine.Methods.{
  update_model_status, set_current_model, clear_current_model,
}
use v_llm_dashboard.World.{World, clear, on_model_crash}

unfoldable pub is_stopping : String → World → Bool
is_stopping model_id w = contains model_id w.stopping_models

-- update_model_status(id, STOPPED) and clear_current_model(id), which the callers make together
unfoldable pub set_stopped : String → ℕ → World → World
set_stopped model_id now w = record w {
  registry =
      clear_current_model model_id (update_model_status model_id stopped "" now w.registry).0;
}

-- the loop of begin_deployment_stop_window, with the ids found so far
unfoldable pub stop_each : ℕ → List ModelInfo → World → World × List String
unfolding set_stopped clear
stop_each now [] w = (w, [])
stop_each now (m ∷ ms) w =
    let flagged = record w { stopping_models = add m.id w.stopping_models } in
    let down = clear m.id (set_stopped m.id now flagged) in
    let (w', affected) = stop_each now ms (if is_transient m.status then down else w) in
    (w', if is_transient m.status then m.id ∷ affected else affected)

unfoldable pub begin_deployment_stop_window : ℕ → World → World × List String
unfolding stop_each
begin_deployment_stop_window now w = stop_each now (values w.registry.models) w

unfoldable pub end_deployment_stop_window : List String → World → World
end_deployment_stop_window [] w = w
end_deployment_stop_window (i ∷ is) w =
    end_deployment_stop_window is (record w { stopping_models = discard i w.stopping_models })

-- One round of the wait: whether the check succeeded and said CLEAN, and the clock after it.
-- `none` means that the rounds given are used up.
unfoldable pub wait_for_remote_stop : ℕ → List (Bool × ℕ) → Option Bool
wait_for_remote_stop deadline [] = none
wait_for_remote_stop deadline ((clean, now) ∷ rounds) =
    let rest = wait_for_remote_stop deadline rounds in
    if clean then some true else if leb deadline now then some false else rest

-- stop_model up to the kill: the flag covers the whole stop
unfoldable pub stop_begin : String → World → World
stop_begin model_id w = record w { stopping_models = add model_id w.stopping_models }

abbrev pub commit_at : Option ModelInfo → Bool → String → ℕ → World → World
commit_at none done model_id now w = w
commit_at (some m) true model_id now w = clear model_id (set_stopped model_id now w)
commit_at (some m) false model_id now w = w

-- stop_model after the kill and the wait: `stopped` is the answer of the wait, `killed` whether the
-- kill command was delivered
unfoldable pub stop_commit : String → Bool → Bool → ℕ → World → World
unfolding set_stopped clear
stop_commit model_id is_stopped killed now w =
    commit_at (get model_id w.registry.models) (is_stopped || killed) model_id now w

-- the `finally` of stop_model
unfoldable pub stop_end : String → World → World
stop_end model_id w = record w { stopping_models = discard model_id w.stopping_models }

pub data HttpResult : Type 0 where
  starting : HttpResult
  http_exception : ℕ → HttpResult

-- the answer of the SSH probe
pub data SshAnswer : Type 0 where
  timed_out unreachable connected : SshAnswer

-- the launch configuration, as far as the start looks at it: whether there is a start command, and
-- whether the environment variables can be parsed
pub record LaunchAnswer : Type 0 where
  pub has_command : Bool
  pub env_parsed : Bool

abbrev guard_status : Option ModelInfo → Option ℕ
guard_status none = some 404
guard_status (some m) = if is_transient m.status then some 409 else none

-- `_start_model` up to the SSH probe: the status of the HTTPException, if one is raised
unfoldable pub start_guard : String → World → Option ℕ
start_guard model_id w = guard_status (get model_id w.registry.models)

abbrev after_probe : SshAnswer → LaunchAnswer → HttpResult
after_probe timed_out config = http_exception 503
after_probe unreachable config = http_exception 503
after_probe connected config =
    if not config.has_command
    then http_exception 400
    else if not config.env_parsed
    then http_exception 400
    else starting

-- `_start_model` after the SSH probe: the model goes to LOADING and becomes the current one
unfoldable pub start_commit : String → SshAnswer → LaunchAnswer → ℕ → World → HttpResult × World
start_commit model_id ssh config now w =
    let r = after_probe ssh config in
    (
      r,
      (elim r [
        | http_exception code ↦ w
        | starting ↦ record w {
          registry =
              (set_current_model model_id
                (update_model_status model_id loading "" now w.registry).0).0;
        }
      ]),
    )

-- `_start_model` where nothing happens during the probe
unfoldable pub start_model : String → SshAnswer → LaunchAnswer → ℕ → World → HttpResult × World
unfolding start_guard start_commit
start_model model_id ssh config now w = elim (start_guard model_id w) [
  | some code ↦ (http_exception code, w)
  | none ↦ start_commit model_id ssh config now w
]

abbrev still_loading : Option ModelInfo → Bool
still_loading none = false
still_loading (some m) = m.status == loading

abbrev is_locked_model : Option ModelInfo → Bool
is_locked_model none = false
is_locked_model (some m) = m.locked

-- `_verify_start_probe`: the test that both probes stand behind
unfoldable pub probe_due : String → World → Bool
probe_due model_id w = still_loading (get model_id w.registry.models)

-- The end of `_verify_start_probe`, behind the second test: `present` is the last answer, and
-- `locked` the flag of the model that the last test read.
unfoldable pub verify_end : String → Option Bool → Bool → ℕ → World → World
unfolding set_stopped on_model_crash is_stopping
verify_end model_id (some false) locked now w =
    if is_stopping model_id w
    then w
    else let w' = set_stopped model_id now w in
      if locked then on_model_crash model_id false now now true w' else w'
verify_end model_id present locked now w = w

-- `_verify_start_probe` where nothing else happens during its awaits: the answers of both probes
unfoldable pub verify_start_probe : String → Option Bool → Option Bool → ℕ → World → World
unfolding probe_due verify_end
verify_start_probe model_id (some false) second now w =
    if probe_due model_id w
    then verify_end model_id second (is_locked_model (get model_id w.registry.models)) now w
    else w
verify_start_probe model_id first second now w = w
