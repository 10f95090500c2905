-- ===== src/Sync/Stopping.antt =====
-- A manual stop with the rounds of the sync that run while it waits: `stop_model` of
-- backend/service/model_lifecycle.py, cut at its awaits.
use v_llm_dashboard.Prelude.{
  ℕ, ◌≡◌, refl, ap, ◌∙◌, String, Bool, true, false, ◌||◌, Option, none, some, List, [], ◌∷◌,
  if◌then◌else◌, ==_refl, string_eq,
}
use v_llm_dashboard.Prelude.Dict.{get, values, get-remove}
use v_llm_dashboard.Prelude.Set.{contains, contains-add, contains-discard}
use v_llm_dashboard.Schemas.{ModelInfo}
use v_llm_dashboard.World.{World, clear}
use v_llm_dashboard.Lifecycle.{
  is_stopping, stop_begin, stop_commit, commit_at, stop_end, set_stopped,
}
use v_llm_dashboard.Lifecycle.TakeDown.{stopping-clear}
use v_llm_dashboard.Sync.{Answers, Evidence, sync_status_once, sync_model, sync_models, evidence}
use v_llm_dashboard.Sync.Effect.{sync-stopping, stopping-sync_model}

-- the answers, the flag and the time of each round
abbrev pub Round : Type 0
Round = Answers × (Bool × ℕ)

unfoldable pub rounds : List Round → World → World
unfolding sync_status_once
rounds [] w = w
rounds ((a, (track, now)) ∷ rs) w = rounds rs (sync_status_once a track now w).0

-- `stop_model`: the rounds during the kill and the wait, and those while the environment variables
-- are unset in the console
unfoldable pub stop_model : String → Bool → Bool → ℕ → List Round → List Round → World → World
unfolding stop_begin stop_commit stop_end rounds
stop_model model_id is_stopped killed now during after w = stop_end model_id (
    rounds after
      (stop_commit model_id is_stopped killed now (rounds during (stop_begin model_id w))))

sync_models-flags :
    (e : Evidence) (track : Bool) (now : ℕ) (ms : List ModelInfo) (w : World)
    → (sync_models e track now ms w).stopping_models ≡ w.stopping_models
unfolding sync_models
sync_models-flags e track now [] w = refl
sync_models-flags e track now (m ∷ ms) w =
    sync_models-flags e track now ms (sync_model e track now m w)
    ∙ stopping-sync_model e track now m w

still_stopping :
    (a : Answers) (track : Bool) (now : ℕ) (j : String) (w : World)
    → is_stopping j w ≡ true
    → is_stopping j (sync_status_once a track now w).0 ≡ true
unfolding sync_status_once is_stopping
still_stopping a track now j w s =
    ap (contains j) (
      sync_models-flags (evidence a (values w.registry.models)) track now (values w.registry.models)
        w)
    ∙ s

rounds-stopping :
    (rs : List Round) (j : String) (w : World)
    → is_stopping j w ≡ true
    → (is_stopping j (rounds rs w) ≡ true)
      × (get j (rounds rs w).crash_events ≡ get j w.crash_events)
unfolding rounds
rounds-stopping [] j w s = (s, refl)
rounds-stopping ((a, (track, now)) ∷ rs) j w s =
    let next = (sync_status_once a track now w).0 in
    let (t, e) = rounds-stopping rs j next (still_stopping a track now j w s) in
    (t, e ∙ sync-stopping a track now j w s)

abbrev pub committed : Option ModelInfo → Bool → Bool
committed none done = false
committed (some m) done = done

commit-stopping :
    (o : Option ModelInfo) (done : Bool) (i : String) (now : ℕ) (w : World)
    → is_stopping i w ≡ true
    → is_stopping i (commit_at o done i now w) ≡ true
unfolding is_stopping set_stopped
commit-stopping none done i now w s = s
commit-stopping (some m) true i now w s =
    ap (contains i) (stopping-clear i (set_stopped i now w)) ∙ s
commit-stopping (some m) false i now w s = s

commit-history :
    (o : Option ModelInfo) (done : Bool) (i : String) (now : ℕ) (w : World)
    → get i (commit_at o done i now w).crash_events
      ≡ (if committed o done then none else get i w.crash_events)
unfolding clear set_stopped
commit-history none done i now w = refl
commit-history (some m) true i now w = get-remove i i w.crash_events ∙ rw (==_refl i) refl
commit-history (some m) false i now w = refl

-- A manual stop never leaves a crash of its model behind, whatever the rounds of the sync see while
-- it runs: if the model is listed and the kill was delivered or the process is gone, the history is
-- dropped, and else it is the one from before.
pub stop_model-history :
    (i : String) (is_stopped killed : Bool) (now : ℕ) (during after : List Round) (w : World)
    → get i (stop_model i is_stopped killed now during after w).crash_events ≡ (
        if committed (get i (rounds during (stop_begin i w)).registry.models) (is_stopped || killed)
        then none
        else get i w.crash_events)
unfolding stop_model stop_commit stop_begin stop_end
stop_model-history i is_stopped killed now during after w =
    let w1 = rounds during (stop_begin i w) in
    let done = is_stopped || killed in
    let flagged : is_stopping i (stop_begin i w) ≡ true =
      unfold is_stopping in contains-add i i w.stopping_models ∙ rw (==_refl i) refl in
    let (s, e) = rounds-stopping during i (stop_begin i w) flagged in
    let o = get i w1.registry.models in
    let (t, f) =
      rounds-stopping after i (commit_at o done i now w1) (commit-stopping o done i now w1 s) in
    f ∙ (commit-history o done i now w1 ∙ ap (λ x. if committed o done then none else x) e)

-- After a manual stop the model no longer counts as being stopped.
pub stop_model-ends :
    (i : String) (is_stopped killed : Bool) (now : ℕ) (during after : List Round) (w : World)
    → is_stopping i (stop_model i is_stopped killed now during after w) ≡ false
unfolding stop_model stop_end is_stopping
stop_model-ends i is_stopped killed now during after w =
    contains-discard i i _ ∙ rw (==_refl i) refl
