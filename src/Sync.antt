-- ===== src/Sync.antt =====
-- backend/service/model_status_sync.py: one round that reconciles the registry with what the remote
-- vLLM API answers. The probes' answers are an argument; the round is one step, since it awaits
-- nothing once they are in. The automatic benchmark that a model's way to RUNNING may trigger is
-- not modelled.
pub mod Match
pub mod Effect
pub mod Running
pub mod Stopping
use v_llm_dashboard.Prelude.{
  ℕ, suc, ◌+◌, ◌*◌, ◌-◌, String, Bool, true, false, not, ◌&&◌, ◌||◌, Option, none, some, List, [],
  ◌∷◌, ltb, leb, anyb, if◌then◌else◌, ◌==◌, string_eq,
}
use v_llm_dashboard.Prelude.Dict.{values}
use v_llm_dashboard.Schemas.{
  ModelStatus, downloaded, loading, running, stopped, failed, ModelInfo, status_eq,
}
use v_llm_dashboard.StateMachine.Methods.{update_model_status, set_current_model}
use v_llm_dashboard.World.{World, on_model_crash}
use v_llm_dashboard.Lifecycle.{is_stopping, set_stopped}
use v_llm_dashboard.Sync.Match.{match_model_name}

-- LOADING_GRACE_SECONDS and LOADING_HARD_CAP_SECONDS, in microseconds
abbrev pub loading_grace : ℕ
loading_grace = 120000000

abbrev pub loading_hard_cap : ℕ
loading_hard_cap = 1800000000

-- (now - loading_since).total_seconds() >= bound
abbrev elapsed : ℕ → ℕ → ℕ → Bool
elapsed since now bound = leb (since + bound) now

unfoldable pub loading_reset_allowed : ModelInfo → ℕ → Bool
loading_reset_allowed m now = elim m.loading_since [
  | none ↦ true
  | some since ↦ elapsed since now loading_grace
]

unfoldable pub loading_hard_reset_allowed : ModelInfo → ℕ → Bool
loading_hard_reset_allowed m now = elim m.loading_since [
  | none ↦ false
  | some since ↦ elapsed since now loading_hard_cap
]

-- What the remote side answers: the ids of /v1/models (none where the request failed), the strict
-- presence probe and /health; each probe counts only where the round makes it.
pub record Answers : Type 0 where
  pub remote_ids : List String
  pub present : Option Bool
  pub healthy : Option Bool

abbrev pub no_ids : List String → Bool
no_ids [] = true
no_ids (i ∷ is) = false

abbrev pub is_up : ModelInfo → Bool
is_up m = m.status == loading || m.status == running

abbrev pub is_false : Option Bool → Bool
is_false (some false) = true
is_false _ = false

abbrev pub is_true : Option Bool → Bool
is_true (some true) = true
is_true _ = false

-- What the round knows: it probes for the process when a model is up and no id came, and for the
-- engine when a model is RUNNING and ids came.
pub record Evidence : Type 0 where
  pub ids : List String
  pub strict_present : Option Bool
  pub process_exists : Bool
  pub engine_healthy : Option Bool

unfoldable pub evidence : Answers → List ModelInfo → Evidence
evidence a models =
    let probes = anyb is_up models && no_ids a.remote_ids in
    let asks = anyb (λ m. m.status == running) models && not (no_ids a.remote_ids) in
    record {
      ids = a.remote_ids;
      strict_present = if probes then a.present else none;
      process_exists = if probes then is_true a.present else true;
      engine_healthy = if probes then none else if asks then a.healthy else none;
    }

-- the way to RUNNING
unfoldable pub mark_running : Bool → ModelInfo → ℕ → World → World
mark_running track_current m now w =
    let r = (update_model_status m.id running "" now w.registry).0 in
    record w { registry = if track_current then (set_current_model m.id r).0 else r }

-- the way to STOPPED that counts as a crash, unless a stop is in flight
unfoldable pub drop_model : ModelInfo → ℕ → World → World
unfolding set_stopped on_model_crash is_stopping
drop_model m now w =
    let w' = set_stopped m.id now w in
    if m.locked && not (is_stopping m.id w') then on_model_crash m.id false now now true w' else w'

-- what the round does with a model, by its status and whether it is served
pub data Verdict : Type 0 where
  to_running dropped capped unchanged : Verdict

unfoldable pub judge : Evidence → ModelInfo → Bool → ℕ → Verdict
unfolding loading_reset_allowed loading_hard_reset_allowed
judge e m served now =
    if m.status == running
    then (if not served && (not (no_ids e.ids) || is_false e.strict_present)
        then dropped
        else if served && is_false e.engine_healthy
        then dropped
        else unchanged)
    else if served
    then to_running
    else if not (m.status == loading)
    then unchanged
    else if not e.process_exists
    then (if loading_reset_allowed m now then dropped else unchanged)
    else if loading_hard_reset_allowed m now
    then capped
    else unchanged

abbrev pub apply_verdict : Verdict → Bool → ModelInfo → ℕ → World → World
apply_verdict to_running track m now w = mark_running track m now w
apply_verdict dropped track m now w = drop_model m now w
apply_verdict capped track m now w = set_stopped m.id now w
apply_verdict unchanged track m now w = w

abbrev counts : Verdict → ℕ
counts unchanged = 0
counts _ = 1

-- one turn of the loop
unfoldable pub sync_model : Evidence → Bool → ℕ → ModelInfo → World → World
unfolding judge mark_running drop_model
sync_model e track now m w = apply_verdict (judge e m (match_model_name m e.ids) now) track m now w

unfoldable pub sync_models : Evidence → Bool → ℕ → List ModelInfo → World → World
sync_models e track now [] w = w
sync_models e track now (m ∷ ms) w = sync_models e track now ms (sync_model e track now m w)

unfoldable pub count_changes : Evidence → ℕ → List ModelInfo → ℕ
unfolding judge
count_changes e now [] = 0
count_changes e now (m ∷ ms) =
    counts (judge e m (match_model_name m e.ids) now) + count_changes e now ms

-- `_sync_status_once`: the new state and the number of models changed
unfoldable pub sync_status_once : Answers → Bool → ℕ → World → World × ℕ
unfolding evidence sync_models count_changes
sync_status_once a track now w =
    let models = values w.registry.models in
    let e = evidence a models in (sync_models e track now models w, count_changes e now models)
