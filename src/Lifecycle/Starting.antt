-- ===== src/Lifecycle/Starting.antt =====
-- A start is refused without a trace, or takes the model to LOADING; a second one is refused.
use v_llm_dashboard.Prelude.{
  ℕ, String, ◌≡◌, refl, ◌∙◌, false, Option, none, some, arith, Option-cases, inl, inr,
  if◌then◌else◌, ◌==◌, ==_refl, string_eq,
}
use v_llm_dashboard.Prelude.Dict.{get}
use v_llm_dashboard.Schemas.{ModelInfo, ModelStatus, loading, is_transient, status_eq}
use v_llm_dashboard.StateMachine.{StateMachine}
use v_llm_dashboard.StateMachine.Methods.{update_model_status, set_current_model, with_status}
use v_llm_dashboard.StateMachine.Ops.{get-modify, map_option}
use v_llm_dashboard.World.{World}
use v_llm_dashboard.Lifecycle.{
  starting, http_exception, SshAnswer, LaunchAnswer, guard_status, after_probe, start_model,
}

-- An error leaves everything as it was: the registry, the histories, the flags.
pub start_model-error :
    (i : String) (ssh : SshAnswer) (config : LaunchAnswer) (now code : ℕ) (w : World)
    → (start_model i ssh config now w).0 ≡ http_exception code
    → (start_model i ssh config now w).1 ≡ w
unfolding start_model
start_model-error i ssh config now code w h = ground arith

pub get-set_current_model :
    (i j : String) (s : StateMachine) → get j (set_current_model i s).0.models ≡ get j s.models
unfolding set_current_model
get-set_current_model i j s = elim (Option-cases (get i s.models)) [
  | inl gone ↦ rw (gone, set_current_model) refl
  | inr (m, e) ↦ rw (e, set_current_model) refl
]

current-set_current_model :
    (i : String) (m : ModelInfo) (s : StateMachine)
    → get i s.models ≡ some m
    → (set_current_model i s).0.current_model_id ≡ some i
unfolding set_current_model
current-set_current_model i m s e = rw (e, set_current_model) refl

pub get-update_model_status :
    (i j : String) (st : ModelStatus) (e : String) (now : ℕ) (s : StateMachine)
    → get j (update_model_status i st e now s).0.models
      ≡ (if i == j then map_option (with_status st e now) (get i s.models) else get j s.models)
unfolding update_model_status
get-update_model_status i j st e now s = get-modify i j (with_status st e now) s

guard-none :
    (o : Option ModelInfo)
    → guard_status o ≡ none
    → (m : ModelInfo) × (o ≡ some m) × (is_transient m.status ≡ false)
guard-none none h = absurd (ground arith)
guard-none (some m) h = (m, refl, ground arith)

passed :
    (i : String) (ssh : SshAnswer) (config : LaunchAnswer) (now : ℕ) (w : World)
    → (start_model i ssh config now w).0 ≡ starting
    → (guard_status (get i w.registry.models) ≡ none) × (after_probe ssh config ≡ starting)
unfolding start_model
passed i ssh config now w h = ground arith

started-registry :
    (i : String) (ssh : SshAnswer) (config : LaunchAnswer) (now : ℕ) (w : World)
    → guard_status (get i w.registry.models) ≡ none
    → after_probe ssh config ≡ starting
    → (start_model i ssh config now w).1.registry
      ≡ (set_current_model i (update_model_status i loading "" now w.registry).0).0
unfolding start_model
started-registry i ssh config now w g p = ground arith

-- the record of a model that was started now
abbrev pub started_at : ℕ → ModelInfo → ModelInfo
started_at now m = record m {
  status = loading;
  loading_since = some now;
  last_started_at = some now;
  updated_at = now;
}

with_status-loading :
    (now : ℕ) (m : ModelInfo)
    → is_transient m.status ≡ false
    → with_status loading "" now m ≡ started_at now m
unfolding with_status
with_status-loading now m up = go m.status refl up
  where
    go :
        (st : ModelStatus)
        → m.status ≡ st
        → is_transient st ≡ false
        → with_status loading "" now m ≡ started_at now m
    go st e h = ground arith

refused :
    (i : String) (ssh : SshAnswer) (config : LaunchAnswer) (now : ℕ) (w : World) (m : ModelInfo)
    → get i w.registry.models ≡ some m
    → m.status ≡ loading
    → start_model i ssh config now w ≡ (http_exception 409, w)
unfolding start_model
refused i ssh config now w m e l = ground arith

-- A start that goes through: the model exists, was not up, and is now LOADING since this moment,
-- and the current one; every other model is as it was.
pub start_model-starting :
    (i j : String) (ssh : SshAnswer) (config : LaunchAnswer) (now : ℕ) (w : World)
    → (start_model i ssh config now w).0 ≡ starting
    → (m : ModelInfo) × (get i w.registry.models ≡ some m)
      × (is_transient m.status ≡ false)
      × (get j (start_model i ssh config now w).1.registry.models
          ≡ (if i == j then some (started_at now m) else get j w.registry.models))
      × ((start_model i ssh config now w).1.registry.current_model_id ≡ some i)
start_model-starting i j ssh config now w h =
    let (g, p) = passed i ssh config now w h in
    let (m, e, up) = guard-none (get i w.registry.models) g in
    (
      m,
      e,
      up,
      rw (started-registry i ssh config now w g p) (
          get-set_current_model i j (update_model_status i loading "" now w.registry).0
          ∙ get-update_model_status i j loading "" now w.registry
          ∙ rw (e, with_status-loading now m up) refl),
      rw (started-registry i ssh config now w g p) (
          current-set_current_model i (with_status loading "" now m)
            (update_model_status i loading "" now w.registry).0
            (get-update_model_status i i loading "" now w.registry ∙ rw (e, ==_refl i) refl)),
    )

-- After a start that went through, every further start of the model is refused with 409 and
-- changes nothing.
pub start_model-twice :
    (i : String) (ssh again : SshAnswer) (config changed : LaunchAnswer) (now later : ℕ) (w : World)
    → (start_model i ssh config now w).0 ≡ starting
    → start_model i again changed later (start_model i ssh config now w).1
      ≡ (http_exception 409, (start_model i ssh config now w).1)
start_model-twice i ssh again config changed now later w h =
    let (m, e, up, found, current) = start_model-starting i i ssh config now w h in
    refused i again changed later (start_model i ssh config now w).1 (started_at now m)
      (found ∙ rw (==_refl i) refl) refl
