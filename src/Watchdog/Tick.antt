-- ===== src/Watchdog/Tick.antt =====
-- What ends a crash history: the tick's recovery loop, and the entry of an attempt.
use v_llm_dashboard.Prelude.{
  String, ◌≡◌, refl, Bool, true, false, ◌&&◌, none, some, List, [], ◌∷◌, arith, anyb, Bool-cases,
  inl, inr, if◌then◌else◌, ◌==◌, string_eq, nat_eq,
}
use v_llm_dashboard.Prelude.Dict.{get, get-remove}
use v_llm_dashboard.Prelude.Set.{contains-discard}
use v_llm_dashboard.Schemas.{ModelInfo, running, loading, status_eq}
use v_llm_dashboard.World.{World, clear, is_suspended}
use v_llm_dashboard.Watchdog.{Caller, task, tick, enter, clear_recovered}

abbrev pub has_recovered : String → ModelInfo → Bool
has_recovered i m = (m.locked && m.status == running) && m.id == i

crash_events-clear :
    (i j : String) (w : World)
    → get j (clear i w).crash_events ≡ (if i == j then none else get j w.crash_events)
unfolding clear
crash_events-clear i j w = get-remove i j w.crash_events

suspended-clear :
    (i j : String) (w : World)
    → is_suspended j (clear i w) ≡ (if i == j then false else is_suspended j w)
unfolding clear is_suspended
suspended-clear i j w = contains-discard i j w.suspended

-- The tick takes the history and the suspension from the locked models that are RUNNING, and from
-- no other; a model that is LOADING keeps both.
pub clear_recovered_lem :
    (ms : List ModelInfo) (j : String) (w : World)
    → (get j (clear_recovered ms w).crash_events
        ≡ (if anyb (has_recovered j) ms then none else get j w.crash_events))
      × (is_suspended j (clear_recovered ms w)
          ≡ (if anyb (has_recovered j) ms then false else is_suspended j w))
unfolding clear_recovered
clear_recovered_lem [] j w = (refl, refl)
clear_recovered_lem (m ∷ ms) j w = elim (Bool-cases (m.locked && m.status == running)) [
  | inl up ↦
      let ih = clear_recovered_lem ms j (clear m.id w) in
      simp up (
        ground (arith, ih, crash_events-clear m.id j w),
        ground (arith, ih, suspended-clear m.id j w),
      )
  | inr down ↦
      let ih = clear_recovered_lem ms j w in simp down (ground (arith, ih), ground (arith, ih))
]

-- An attempt that finds its model locked and LOADING leaves every history and suspension as it was,
-- and takes no claim.
pub enter-loading :
    (who : Caller) (i : String) (m : ModelInfo) (w : World)
    → get i w.registry.models ≡ some m
    → m.locked ≡ true
    → m.status ≡ loading
    → ((enter who i w).crash_events ≡ w.crash_events)
      × ((enter who i w).suspended ≡ w.suspended)
      × ((enter who i w).inflight ≡ w.inflight)
unfolding enter
enter-loading (task t) i m w r l s = rw r (ground arith)
enter-loading tick i m w r l s = rw r (ground arith)
