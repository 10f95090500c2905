-- ===== src/Examples/Sync.antt =====
-- A round of the sync on two models.
use v_llm_dashboard.Prelude.{
  List, if◌then◌else◌, ◌||◌, ◌≡◌, refl, true, false, none, some, [], ◌∷◌, string_eq, nat_eq,
}
use v_llm_dashboard.Prelude.Dict.{get, Unique}
use v_llm_dashboard.Prelude.Set.{contains}
use v_llm_dashboard.Schemas.{running, loading, status_eq}
use v_llm_dashboard.World.{World}
use v_llm_dashboard.Lifecycle.{is_stopping, stop_begin}
use v_llm_dashboard.Sync.Stopping.{Round, rounds, stop_model, committed, stop_model-history}
use v_llm_dashboard.Sync.{Answers, sync_status_once}
use v_llm_dashboard.Sync.Effect.{sync-stopping}
use v_llm_dashboard.Examples.Fixtures.{world_of}

abbrev busy : World
busy = world_of running loading

-- the API is unreachable and the presence probe failed
abbrev silent : Answers
silent = record { remote_ids = []; present = none; healthy = none }

-- the process is gone
abbrev gone : Answers
gone = record { remote_ids = []; present = some false; healthy = none }

abbrev being_stopped : World
being_stopped = record busy { stopping_models = "a" ∷ [] }

sync-stopping_example :
    get "a" (sync_status_once gone true 9 being_stopped).0.crash_events
    ≡ get "a" being_stopped.crash_events
unfolding is_stopping contains
sync-stopping_example = sync-stopping gone true 9 "a" being_stopped refl

distinct : Unique busy.registry.models
unfolding get
distinct = (refl, (refl, tt))

abbrev seeing_it_gone : List Round
seeing_it_gone = (gone, (true, 8)) ∷ []

stop_model-history_example :
    get "a" (stop_model "a" false true 9 seeing_it_gone seeing_it_gone busy).crash_events ≡ (
      if committed
        (get "a" (rounds seeing_it_gone (stop_begin "a" busy)).registry.models)
        (false || true)
      then none
      else get "a" busy.crash_events)
stop_model-history_example = stop_model-history "a" false true 9 seeing_it_gone seeing_it_gone busy
