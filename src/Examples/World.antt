-- ===== src/Examples/World.antt =====
-- The breaker on concrete crash histories.
use v_llm_dashboard.Prelude.{◌≡◌, refl, true, false, List, [], ◌∷◌, arith, string_eq}
use v_llm_dashboard.Prelude.Dict.{get}
use v_llm_dashboard.Schemas.{stopped}
use v_llm_dashboard.World.{World, CrashEvent, is_suspended}
use v_llm_dashboard.World.Crash.{breaker, crash_run, Holds, breaker_exact}
use v_llm_dashboard.Examples.Fixtures.{world_of}

abbrev w0 : World
w0 = world_of stopped stopped

-- two old crashes, a replayed one, and three within ten minutes
abbrev crashes : List CrashEvent
crashes =
    (1, false)
    ∷ (2, false)
    ∷ (700000000, true)
    ∷ (700000001, false)
    ∷ (700000002, false)
    ∷ (700000003, false)
    ∷ []

holds : Holds "a" 0 [] w0
unfolding get
holds = refl

breaker_exact_example :
    is_suspended "a" (crash_run "a" true crashes w0) ≡ breaker (is_suspended "a" w0) [] crashes
breaker_exact_example =
    breaker_exact "a" true crashes [] 0 w0 holds
      (omega arith, (omega arith, (omega arith, (omega arith, (omega arith, (omega arith, tt))))))
