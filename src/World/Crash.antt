-- ===== src/World/Crash.antt =====
-- The breaker: when a crash suspends the automatic restart, and when it schedules one.
use v_llm_dashboard.Prelude.{
  ℕ, ◌+◌, ◌≤◌, ◌<◌, String, ◌≡◌, refl, ◌∙◌, Bool, true, false, ◌||◌, none, some, List, [], ◌∷◌,
  ◌++◌, arith, leb, length, filterb, All, ==_iff, string_eq, nat_eq,
}
use v_llm_dashboard.Prelude.Dict.{get, get-set}
use v_llm_dashboard.Prelude.Set.{contains-add}
use v_llm_dashboard.World.{
  World, CrashEvent, breaker_window, breaker_max_crashes, in_window, is_real, or_empty,
  recorded_events, on_model_crash, is_suspended,
}

-- The specification keeps every crash since the last reset, and suspends once as many real ones
-- as the breaker allows lie within the window of the latest.
abbrev pub over_limit : ℕ → List CrashEvent → Bool
over_limit now all =
    leb breaker_max_crashes (length (filterb is_real (filterb (in_window now) all)))

abbrev pub breaker : Bool → List CrashEvent → List CrashEvent → Bool
breaker suspended all [] = suspended
breaker suspended all ((t, synthetic) ∷ es) =
    breaker (suspended || over_limit t (all ++ (t, synthetic) ∷ [])) (all ++ (t, synthetic) ∷ []) es

-- the crashes of one model, each with its time and kind
unfoldable pub crash_run : String → Bool → List CrashEvent → World → World
crash_run i loop [] w = w
crash_run i loop ((t, synthetic) ∷ es) w =
    crash_run i loop es (on_model_crash i synthetic t t loop w)

abbrev pub InOrder : ℕ → List CrashEvent → Type 0
InOrder last [] = Unit
InOrder last ((t, synthetic) ∷ es) = (last ≤ t) × InOrder t es

-- the pruned history is the window of the whole one
abbrev pub Holds : String → ℕ → List CrashEvent → World → Type 0
Holds i last all w = or_empty (get i w.crash_events) ≡ filterb (in_window last) all

-- Pruning before a later pruning changes nothing.
prune_twice :
    (last now : ℕ) (all : List CrashEvent) (e : CrashEvent)
    → last ≤ now
    → filterb (in_window now) (filterb (in_window last) all) ++ e ∷ []
      ≡ filterb (in_window now) all ++ e ∷ []
prune_twice last now [] e h = refl
prune_twice last now ((t, b) ∷ all) e h = ground (arith, prune_twice last now all e h)

prune-append :
    (now : ℕ) (all : List CrashEvent) (b : Bool)
    → filterb (in_window now) all ++ (now, b) ∷ [] ≡ filterb (in_window now) (all ++ (now, b) ∷ [])
prune-append now [] b = ground arith
prune-append now ((t, c) ∷ all) b = ground (arith, prune-append now all b)

recorded_exact :
    (i : String) (b : Bool) (last now : ℕ) (all : List CrashEvent) (w : World)
    → Holds i last all w
    → last ≤ now
    → recorded_events i b now w ≡ filterb (in_window now) (all ++ (now, b) ∷ [])
unfolding recorded_events
recorded_exact i b last now all w h le =
    rw h (prune_twice last now all (now, b) le ∙ prune-append now all b)

crash_history :
    (i : String) (b : Bool) (now later : ℕ) (loop : Bool) (w : World)
    → get i (on_model_crash i b now later loop w).crash_events ≡ some (recorded_events i b now w)
unfolding on_model_crash
crash_history i b now later loop w =
    ground (arith, get-set i i (recorded_events i b now w) w.crash_events, ==_iff i i)

crash_suspends :
    (i : String) (b : Bool) (now later : ℕ) (loop : Bool) (w : World)
    → is_suspended i (on_model_crash i b now later loop w) ≡ (
        is_suspended i w
        || leb breaker_max_crashes (length (filterb is_real (recorded_events i b now w))))
unfolding on_model_crash is_suspended
crash_suspends i b now later loop w = ground (arith, contains-add i i w.suspended, ==_iff i i)

-- The pruned history implements the specification: after crashes in order of time, a model is
-- suspended exactly if it was, or if at some crash the real ones of the last ten minutes, over the
-- whole history, reached the limit.
pub breaker_exact :
    (i : String) (loop : Bool) (es all : List CrashEvent) (last : ℕ) (w : World)
    → Holds i last all w
    → InOrder last es
    → is_suspended i (crash_run i loop es w) ≡ breaker (is_suspended i w) all es
unfolding crash_run
breaker_exact i loop [] all last w h o = refl
breaker_exact i loop ((t, b) ∷ es) all last w h o =
    breaker_exact i loop es (all ++ (t, b) ∷ []) t (on_model_crash i b t t loop w)
      (rw (crash_history i b t t loop w) (recorded_exact i b last t all w h o.0)) o.1
    ∙ rw (crash_suspends i b t t loop w, recorded_exact i b last t all w h o.0) refl

no_real :
    (now : ℕ) (all : List CrashEvent)
    → All (λ e. e.1 ≡ true) all
    → length (filterb is_real (filterb (in_window now) all)) ≡ 0
no_real now [] h = refl
no_real now ((t, b) ∷ all) h = ground (arith, no_real now all h.1)

All-snoc :
    (all : List CrashEvent) (e : CrashEvent)
    → All (λ x. x.1 ≡ true) all
    → e.1 ≡ true
    → All (λ x. x.1 ≡ true) (all ++ e ∷ [])
All-snoc [] e h k = (k, tt)
All-snoc (x ∷ all) e h k = (h.0, All-snoc all e h.1 k)

or_false : (b : Bool) → (b || false) ≡ b
or_false true = refl
or_false false = refl

breaker-synthetic :
    (b : Bool) (all es : List CrashEvent)
    → All (λ e. e.1 ≡ true) all
    → All (λ e. e.1 ≡ true) es
    → breaker b all es ≡ b
breaker-synthetic b all [] h k = refl
breaker-synthetic b all ((t, s) ∷ es) h k =
    breaker-synthetic (b || over_limit t (all ++ (t, s) ∷ [])) (all ++ (t, s) ∷ []) es
      (All-snoc all (t, s) h k.0) k.1
    ∙ rw (no_real t (all ++ (t, s) ∷ []) (All-snoc all (t, s) h k.0)) (or_false b)

-- Replayed crashes alone never suspend a model that has no history.
pub synthetic_never_suspends :
    (i : String) (loop : Bool) (es : List CrashEvent) (w : World)
    → get i w.crash_events ≡ none
    → is_suspended i w ≡ false
    → InOrder 0 es
    → All (λ e. e.1 ≡ true) es
    → is_suspended i (crash_run i loop es w) ≡ false
synthetic_never_suspends i loop es w fresh calm o s =
    breaker_exact i loop es [] 0 w (rw fresh refl) o
    ∙ breaker-synthetic (is_suspended i w) [] es tt s
    ∙ calm

-- Three real crashes within the window suspend a model that had no history.
pub three_crashes_suspend :
    (i : String) (loop : Bool) (t u v : ℕ) (w : World)
    → get i w.crash_events ≡ none
    → t ≤ u
    → u ≤ v
    → v < t + breaker_window
    → is_suspended i (crash_run i loop ((t, false) ∷ (u, false) ∷ (v, false) ∷ []) w) ≡ true
three_crashes_suspend i loop t u v w fresh h k near =
    breaker_exact i loop ((t, false) ∷ (u, false) ∷ (v, false) ∷ []) [] 0 w (rw fresh refl)
      (omega arith, (h, (k, tt)))
    ∙ ground arith
