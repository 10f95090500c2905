-- ===== src/Watchdog/Stale.antt =====
-- What a clear takes away (a manual stop, an unlock, a recovery), and what it leaves behind.
use v_llm_dashboard.Prelude.{
  ℕ, ◌+◌, String, ◌≡◌, refl, ◌∙◌, Bool, true, false, none, some, inl, inr, arith, leb, length,
  filterb, Option-cases, if◌then◌else◌, ◌==◌, ==_iff, ==_refl, string_eq, nat_eq,
}
use v_llm_dashboard.Prelude.Dict.{get, set, get-set, get-remove}
use v_llm_dashboard.Prelude.Set.{contains, contains-add, contains-discard}
use v_llm_dashboard.Schemas.{ModelInfo, stopped, status_eq}
use v_llm_dashboard.World.{
  World, breaker_max_crashes, is_real, recorded_events, cancel_task, clear, is_suspended,
  on_model_crash,
}
use v_llm_dashboard.Watchdog.{enter, wake}

-- The event does not trip the breaker.
abbrev pub IsUnderLimit : String → Bool → ℕ → World → Type 0
IsUnderLimit i b now w =
    leb breaker_max_crashes (length (filterb is_real (recorded_events i b now w))) ≡ false

sleeping-cancel_task :
    (t u : ℕ) (w : World)
    → get u (cancel_task t w).sleeping ≡ (if t == u then none else get u w.sleeping)
sleeping-cancel_task t u w = elim (Option-cases (get t w.attempting)) [
  | inl gone ↦ unfold cancel_task in rw (gone, cancel_task) (get-remove t u w.sleeping)
  | inr (m, e) ↦ unfold cancel_task in rw (e, cancel_task) (get-remove t u w.sleeping)
]

-- A clear drops the model's history, its suspension and its registered restart task, which neither
-- sleeps nor attempts any more; the histories and suspensions of the others stay.
pub clear_lem :
    (i j : String) (t : ℕ) (w : World)
    → get i w.restart_tasks ≡ some t
    → (get t (clear i w).sleeping ≡ none)
      × (get i (clear i w).restart_tasks ≡ none)
      × (get j (clear i w).crash_events ≡ (if i == j then none else get j w.crash_events))
      × (is_suspended j (clear i w) ≡ (if i == j then false else is_suspended j w))
unfolding clear is_suspended
clear_lem i j t w e = (
  rw (e, clear) (sleeping-cancel_task t t w ∙ rw (==_refl t) refl),
  get-remove i i w.restart_tasks ∙ rw (==_refl i) refl,
  get-remove i j w.crash_events,
  contains-discard i j w.suspended,
)

sleeping-clear :
    (i : String) (t u : ℕ) (w : World)
    → get i w.restart_tasks ≡ some t
    → get u (clear i w).sleeping ≡ (if t == u then none else get u w.sleeping)
unfolding clear
sleeping-clear i t u w e = rw (e, clear) (sleeping-cancel_task t u w)

-- A crash below the limit schedules a restart task of its model.
crash-schedules :
    (i : String) (b : Bool) (now later : ℕ) (w : World)
    → IsUnderLimit i b now w
    → ((on_model_crash i b now later true w).sleeping ≡ set w.next_task i w.sleeping)
      × ((on_model_crash i b now later true w).restart_tasks ≡ set i w.next_task w.restart_tasks)
      × ((on_model_crash i b now later true w).next_task ≡ w.next_task + 1)
unfolding on_model_crash
crash-schedules i b now later w h = ground arith

-- A second crash within the delay replaces the registered task but does not cancel it, and the
-- clear of a manual stop cancels the registered one alone: the first task still sleeps.
pub superseded_survives :
    (i : String) (a b : Bool) (t u : ℕ) (w : World)
    → IsUnderLimit i a t w
    → IsUnderLimit i b u (on_model_crash i a t t true w)
    → get w.next_task
        (clear i (on_model_crash i b u u true (on_model_crash i a t t true w))).sleeping
      ≡ some i
superseded_survives i a b t u w h k =
    let first = crash-schedules i a t t w h in
    let w1 = on_model_crash i a t t true w in
    let second = crash-schedules i b u u w1 k in
    let w2 = on_model_crash i b u u true w1 in
    sleeping-clear i w1.next_task w.next_task w2
      (rw (second.1) (get-set i i w1.next_task w1.restart_tasks ∙ rw (==_refl i) refl))
    ∙ ground (
      arith,
      first,
      second,
      get-set w1.next_task w.next_task i w1.sleeping,
      get-set w.next_task w.next_task i w.sleeping,
    )

-- A task that wakes on a locked, stopped model claims it, if it is neither suspended nor claimed.
pub wake-claims :
    (t : ℕ) (i : String) (m : ModelInfo) (w : World)
    → get t w.sleeping ≡ some i
    → get i w.registry.models ≡ some m
    → m.locked ≡ true
    → m.status ≡ stopped
    → contains i w.suspended ≡ false
    → contains i w.inflight ≡ false
    → (get t (wake t w).attempting ≡ some i) × (contains i (wake t w).inflight ≡ true)
unfolding wake enter
wake-claims t i m w s r l st sus inf =
    rw (s, wake)
      (rw r (ground (arith, get-set t t i w.attempting, contains-add i i w.inflight, ==_iff i i)))
