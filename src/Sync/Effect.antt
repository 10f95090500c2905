-- ===== src/Sync/Effect.antt =====
-- What a round of the sync does to the crash histories and the flags of each model.
use v_llm_dashboard.Prelude.{
  ℕ, String, ◌≡◌, refl, ap, ◌∙◌, Bool, true, false, not, ◌||◌, some, List, [], ◌∷◌, arith,
  Bool-cases, inl, inr, if◌then◌else◌, ◌==◌, ==_iff, string_eq,
}
use v_llm_dashboard.Prelude.Dict.{get, values, get-set}
use v_llm_dashboard.Prelude.Set.{contains}
use v_llm_dashboard.Schemas.{ModelInfo, status_eq}
use v_llm_dashboard.World.{World, on_model_crash, recorded_events}
use v_llm_dashboard.Lifecycle.{is_stopping, set_stopped}
use v_llm_dashboard.Sync.{
  Answers, Evidence, Verdict, to_running, dropped, capped, unchanged, evidence, mark_running,
  drop_model, judge, apply_verdict, sync_model, sync_models, sync_status_once,
}
use v_llm_dashboard.Sync.Match.{match_model_name}

module _ (i : String) (b : Bool) (now later : ℕ) (loop : Bool) (w : World) where
  stopping-crash : (on_model_crash i b now later loop w).stopping_models ≡ w.stopping_models
  unfolding on_model_crash
  stopping-crash = ground arith

  crash_events-crash :
      (j : String)
      → get j (on_model_crash i b now later loop w).crash_events
        ≡ (if i == j then some (recorded_events i b now w) else get j w.crash_events)
  unfolding on_model_crash
  crash_events-crash j = ground (arith, get-set i j (recorded_events i b now w) w.crash_events)

-- A model for which no crash may be recorded: it is being stopped, or it is not locked.
abbrev pub spared : ModelInfo → World → Bool
spared m w = is_stopping m.id w || not m.locked

drop_model-spared :
    (m : ModelInfo) (now : ℕ) (w : World)
    → spared m w ≡ true
    → (drop_model m now w).crash_events ≡ w.crash_events
unfolding drop_model
drop_model-spared m now w h = ground arith

drop_model-other :
    (m : ModelInfo) (now : ℕ) (j : String) (w : World)
    → (m.id == j) ≡ false
    → get j (drop_model m now w).crash_events ≡ get j w.crash_events
unfolding drop_model
drop_model-other m now j w h =
    ground (arith, crash_events-crash m.id false now now true (set_stopped m.id now w) j)

stopping-drop_model :
    (m : ModelInfo) (now : ℕ) (w : World) → (drop_model m now w).stopping_models ≡ w.stopping_models
unfolding drop_model
stopping-drop_model m now w =
    ground (arith, stopping-crash m.id false now now true (set_stopped m.id now w))

-- One turn leaves the history of a model alone unless that model is the one that is dropped, and
-- not spared.
sync_model-history :
    (e : Evidence) (track : Bool) (now : ℕ) (m : ModelInfo) (j : String) (w : World)
    → (m.id == j) ≡ false
    → get j (sync_model e track now m w).crash_events ≡ get j w.crash_events
unfolding sync_model
sync_model-history e track now m j w h = go (judge e m (match_model_name m e.ids) now)
  where
    go : (v : Verdict) → get j (apply_verdict v track m now w).crash_events ≡ get j w.crash_events
    go to_running = unfold mark_running in refl
    go dropped = drop_model-other m now j w h
    go capped = unfold set_stopped in refl
    go unchanged = refl

sync_model-spared :
    (e : Evidence) (track : Bool) (now : ℕ) (m : ModelInfo) (w : World)
    → spared m w ≡ true
    → (sync_model e track now m w).crash_events ≡ w.crash_events
unfolding sync_model
sync_model-spared e track now m w h = go (judge e m (match_model_name m e.ids) now)
  where
    go : (v : Verdict) → (apply_verdict v track m now w).crash_events ≡ w.crash_events
    go to_running = unfold mark_running in refl
    go dropped = drop_model-spared m now w h
    go capped = unfold set_stopped in refl
    go unchanged = refl

pub stopping-sync_model :
    (e : Evidence) (track : Bool) (now : ℕ) (m : ModelInfo) (w : World)
    → (sync_model e track now m w).stopping_models ≡ w.stopping_models
unfolding sync_model
stopping-sync_model e track now m w = go (judge e m (match_model_name m e.ids) now)
  where
    go : (v : Verdict) → (apply_verdict v track m now w).stopping_models ≡ w.stopping_models
    go to_running = unfold mark_running in refl
    go dropped = stopping-drop_model m now w
    go capped = unfold set_stopped in refl
    go unchanged = refl

spared_of_stopping :
    (m : ModelInfo) (j : String) (w : World)
    → (m.id == j) ≡ true
    → contains j w.stopping_models ≡ true
    → spared m w ≡ true
unfolding is_stopping
spared_of_stopping m j w h s =
    rw (ap (λ k. contains k w.stopping_models) ((==_iff m.id j).0 h) ∙ s) refl

pub sync_models-stopping :
    (e : Evidence) (track : Bool) (now : ℕ) (ms : List ModelInfo) (j : String) (w : World)
    → contains j w.stopping_models ≡ true
    → get j (sync_models e track now ms w).crash_events ≡ get j w.crash_events
unfolding sync_models
sync_models-stopping e track now [] j w s = refl
sync_models-stopping e track now (m ∷ ms) j w s =
    sync_models-stopping e track now ms j (sync_model e track now m w)
      (rw (stopping-sync_model e track now m w) s)
    ∙ elim (Bool-cases (m.id == j)) [
      | inl same ↦ ap (get j) (sync_model-spared e track now m w (spared_of_stopping m j w same s))
      | inr other ↦ sync_model-history e track now m j w other
    ]

-- While a model is being stopped by the user or by a deployment, no round of the sync records a
-- crash of it, whatever the probes answer.
pub sync-stopping :
    (a : Answers) (track : Bool) (now : ℕ) (j : String) (w : World)
    → is_stopping j w ≡ true
    → get j (sync_status_once a track now w).0.crash_events ≡ get j w.crash_events
unfolding sync_status_once is_stopping
sync-stopping a track now j w s =
    sync_models-stopping (evidence a (values w.registry.models)) track now
      (values w.registry.models) j w s
