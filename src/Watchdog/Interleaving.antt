-- ===== src/Watchdog/Interleaving.antt =====
-- No model has two restart attempts under way at once, however tasks, ticks, crashes, stops and
-- status changes interleave at the awaits.
use v_llm_dashboard.Prelude.{
  ℕ, String, ◌≡◌, ◌≢◌, sym, ◌∙◌, Bool, true, false, ◌&&◌, none, some, arith, if◌then◌else◌, ◌==◌,
  string_eq, nat_eq,
}
use v_llm_dashboard.Prelude.Dict.{get}
use v_llm_dashboard.Schemas.{failed, status_eq}
use v_llm_dashboard.StateMachine.{StateMachine}
use v_llm_dashboard.StateMachine.Methods.{update_model_status}
use v_llm_dashboard.World.{World, clear, on_model_crash}
use v_llm_dashboard.Watchdog.{
  Caller, task, tick, Outcome, skipped, started, http, enter, wake, handle, leave, conclude,
  is_loading, no_start_command_message,
}
use v_llm_dashboard.Watchdog.Claims.{
  Claims, release-task, release-tick, clear-attempts, clear-tick, clear-Claims, forget_task-Claims,
  enter-Claims, wake-Claims,
}

-- Whoever attempts a model is alone on it.
abbrev IsAlone : Caller → String → World → Type 0
IsAlone (task t) i w = ((u : ℕ) → get u w.attempting ≡ some i → u ≡ t) × (w.tick_attempt ≢ some i)
IsAlone tick i w = (u : ℕ) → get u w.attempting ≢ some i

-- The caller is at an await of an attempt on that model.
abbrev pub IsAttempting : Caller → String → World → Type 0
IsAttempting (task t) i w = get t w.attempting ≡ some i
IsAttempting tick i w = w.tick_attempt ≡ some i

IsAttempting-IsAlone :
    (who : Caller) (i : String) (w : World) → Claims w → IsAttempting who i w → IsAlone who i w
IsAttempting-IsAlone (task t) i w c a = (λ u p. c.one u t i p a, c.apart t i a)
IsAttempting-IsAlone tick i w c a = λ u p. c.apart u i p a

clear-IsAlone :
    (who : Caller) (i j : String) (w : World) → IsAlone who i w → IsAlone who i (clear j w)
clear-IsAlone (task t) i j w a =
    (λ u p. a.0 u (clear-attempts j w u i p), λ p. a.1 (sym (clear-tick j w) ∙ p))
clear-IsAlone tick i j w a = λ u p. a u (clear-attempts j w u i p)

pub handle-Claims :
    (o : Outcome) (i : String) (now : ℕ) (w : World) → Claims w → Claims (handle o i now w)
unfolding handle
handle-Claims skipped i now w c = c
handle-Claims started i now w c = c
handle-Claims (http code about) i now w c =
    go (code == 409) (is_loading (get i w.registry.models)) (code == 400 && about)
  where
    go :
        (a b d : Bool)
        → Claims (
            if a
            then (if b then w else clear i w)
            else if d
            then clear i (record w {
              registry = (update_model_status i failed no_start_command_message now w.registry).0;
            })
            else w)
    go true true d = c
    go true false d = clear-Claims i w c
    go false b true =
        clear-Claims i _
          (record { one = c.one; apart = c.apart; held = c.held; tick_held = c.tick_held })
    go false b false = c

handle-IsAlone :
    (o : Outcome) (who : Caller) (i : String) (now : ℕ) (w : World)
    → IsAlone who i w
    → IsAlone who i (handle o i now w)
unfolding handle
handle-IsAlone skipped who i now w c = c
handle-IsAlone started who i now w c = c
handle-IsAlone (http code about) who i now w c =
    go (code == 409) (is_loading (get i w.registry.models)) (code == 400 && about)
  where
    same :
        (who : Caller) (r : StateMachine)
        → IsAlone who i w
        → IsAlone who i (record w { registry = r })
    same (task t) r a = a
    same tick r a = a

    go :
        (a b d : Bool)
        → IsAlone who i (
            if a
            then (if b then w else clear i w)
            else if d
            then clear i (record w {
              registry = (update_model_status i failed no_start_command_message now w.registry).0;
            })
            else w)
    go true true d = c
    go true false d = clear-IsAlone who i i w c
    go false b true = clear-IsAlone who i i _ (same who _ c)
    go false b false = c

leave-Claims :
    (who : Caller) (i : String) (w : World) → IsAlone who i w → Claims w → Claims (leave who i w)
unfolding leave
leave-Claims (task t) i w a c =
    forget_task-Claims i t _ (release-task t i w.attempting w.tick_attempt w.inflight a.0 a.1 c)
leave-Claims tick i w a c = release-tick i w.attempting w.tick_attempt w.inflight a c

pub conclude-Claims :
    (o : Outcome) (who : Caller) (i : String) (now : ℕ) (w : World)
    → IsAttempting who i w
    → Claims w
    → Claims (conclude o who i now w)
unfolding conclude
conclude-Claims o who i now w a c =
    leave-Claims who i (handle o i now w)
      (handle-IsAlone o who i now w (IsAttempting-IsAlone who i w c a)) (handle-Claims o i now w c)

module _ (i : String) (b : Bool) (now later : ℕ) (loop : Bool) (w : World) where
  crash-attempting : (on_model_crash i b now later loop w).attempting ≡ w.attempting
  unfolding on_model_crash
  crash-attempting = ground arith

  crash-tick : (on_model_crash i b now later loop w).tick_attempt ≡ w.tick_attempt
  unfolding on_model_crash
  crash-tick = ground arith

  crash-inflight : (on_model_crash i b now later loop w).inflight ≡ w.inflight
  unfolding on_model_crash
  crash-inflight = ground arith

pub crash-Claims :
    (i : String) (b : Bool) (now later : ℕ) (loop : Bool) (w : World)
    → Claims w
    → Claims (on_model_crash i b now later loop w)
crash-Claims i b now later loop w c = rw (crash-attempting, crash-tick, crash-inflight) c

-- What can happen between two awaits: a task wakes, the tick enters an attempt if it is in none, an
-- attempt under way ends, a crash is recorded, a model is cleared, the registry changes.
pub data Step : World → World → Type 0 where
  waking : (t : ℕ) (w : World) → Step w (wake t w)
  ticking : (i : String) (w : World) → w.tick_attempt ≡ none → Step w (enter tick i w)
  ending :
      (o : Outcome) (who : Caller) (i : String) (now : ℕ) (w : World)
      → IsAttempting who i w
      → Step w (conclude o who i now w)
  crashing :
      (i : String) (b : Bool) (now later : ℕ) (loop : Bool) (w : World)
      → Step w (on_model_crash i b now later loop w)
  clearing : (i : String) (w : World) → Step w (clear i w)
  changing : (r : StateMachine) (w : World) → Step w (record w { registry = r })

pub data Steps (w : World) : World → Type 0 where
  here : Steps w w
  next : {v u : World} → Steps w v → Step v u → Steps w u

Step-Claims : {w u : World} → Step w u → Claims w → Claims u
Step-Claims (waking t w) c = wake-Claims t w c
Step-Claims (ticking i w free) c = enter-Claims tick i w c
Step-Claims (ending o who i now w a) c = conclude-Claims o who i now w a c
Step-Claims (crashing i b now later loop w) c = crash-Claims i b now later loop w c
Step-Claims (clearing i w) c = clear-Claims i w c
Step-Claims (changing r w) c = record {
  one = c.one;
  apart = c.apart;
  held = c.held;
  tick_held = c.tick_held;
}

-- In every interleaving each model has at most one attempt under way, by a task or the tick, and
-- it is marked as in flight, if that held at the start.
pub Steps-Claims : {w u : World} → Claims w → Steps w u → Claims u
Steps-Claims c here = c
Steps-Claims c (next s st) = Step-Claims st (Steps-Claims c s)
