-- ===== src/Examples/Watchdog.antt =====
-- A crash, its restart task and the attempt, on two models.
use v_llm_dashboard.Prelude.{◌≡◌, refl, true, false, some, arith, string_eq, nat_eq}
use v_llm_dashboard.Prelude.Dict.{get, set, remove}
use v_llm_dashboard.Prelude.Set.{contains}
use v_llm_dashboard.Schemas.{loading, stopped, status_eq}
use v_llm_dashboard.World.{World, clear, on_model_crash, schedule_restart, recorded_events}
use v_llm_dashboard.Watchdog.{enter, wake, conclude, task, started}
use v_llm_dashboard.Watchdog.Claims.{Claims}
use v_llm_dashboard.Watchdog.Interleaving.{
  waking, ending, crashing, here, next, IsAttempting, Steps-Claims,
}
use v_llm_dashboard.Watchdog.Stale.{IsUnderLimit, superseded_survives}
use v_llm_dashboard.Examples.Fixtures.{world_of}

abbrev w0 : World
w0 = world_of stopped stopped

no-Claims : Claims w0
unfolding get
no-Claims = record {
  one = λ t u m p q. absurd (ground arith);
  apart = λ t m p q. absurd (ground arith);
  held = λ t m p. absurd (ground arith);
  tick_held = λ m p. absurd (ground arith);
}

abbrev w1 : World
w1 = on_model_crash "a" false 5 5 true w0

abbrev w2 : World
w2 = wake 0 w1

attempts : IsAttempting (task 0) "a" w2
unfolding on_model_crash wake enter schedule_restart recorded_events get set remove contains
attempts = refl

Steps-Claims_example : Claims (conclude started (task 0) "a" 9 w2)
Steps-Claims_example = Steps-Claims no-Claims (
    next (next (next here (crashing "a" false 5 5 true w0)) (waking 0 w1))
      (ending started (task 0) "a" 9 w2 attempts))

first_limit : IsUnderLimit "a" false 5 w0
unfolding recorded_events get
first_limit = refl

second_limit : IsUnderLimit "a" false 7 w1
unfolding on_model_crash schedule_restart recorded_events get set
second_limit = refl

superseded_survives_example :
    get 0 (clear "a" (on_model_crash "a" false 7 7 true w1)).sleeping ≡ some "a"
superseded_survives_example = superseded_survives "a" false false 5 7 w0 first_limit second_limit

abbrev busy : World
busy = world_of loading stopped
