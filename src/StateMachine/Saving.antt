-- ===== src/StateMachine/Saving.antt =====
-- The state file: no change of the registry is forgotten, and a clean registry is on disk.
use v_llm_dashboard.Prelude.{
  ℕ, ◌≤◌, ◌<◌, String, ◌≡◌, refl, ◌⊎◌, inl, inr, Bool, true, false, Option, none, some, List, [],
  ◌∷◌, arith, Option-cases, Bool-cases, ==_refl, nat_eq, string_eq,
}
use v_llm_dashboard.Prelude.Dict.{Dict, get}
use v_llm_dashboard.Prelude.Set.{contains}
use v_llm_dashboard.Schemas.{ModelConfig, ModelInfo, Json, make_config, dump_config, update_dict}
use v_llm_dashboard.StateMachine.{
  StateMachine, snapshot, max_float_power, retry_delay, flush_state, fire_timer,
}
use v_llm_dashboard.StateMachine.Methods.{
  modify, add_model, store_config, with_status, update_model_status, update_model_size,
  update_model_config, replace_model_config, set_current_model, clear_current_model, remove_model,
  set_model_locked, take_pending_locked_restarts, is_id,
}
use v_llm_dashboard.StateMachine.Ops.{
  Op, adding, status, size, config, replacing, current, clearing, removing, locking, taking, firing,
  exiting, step, run, or_same,
}

abbrev has_timer : Option ℕ → List ℕ → Bool
has_timer none live = false
has_timer (some t) live = contains t live

-- While there is something to save the debounce timer runs, unless writing has failed so often
-- that the delay overflows; while there is not, the file holds the registry.
pub record IsSaving (s : StateMachine) : Type 0 where
  pub scheduled :
      s.dirty ≡ true
      → (has_timer s.debounce_timer s.live ≡ true) ⊎ (max_float_power < s.save_failures)
  pub synced : s.dirty ≡ false → s.state_file ≡ some (snapshot s)
  pub delayed : s.timer_delay ≤ 30

contains-head : (t : ℕ) (live : List ℕ) → contains t (t ∷ live) ≡ true
unfolding contains
contains-head t live = rw (==_refl t) refl

-- A state whose debounce timer was just started, with the flag raised.
just_scheduled-IsSaving :
    (r : StateMachine) (t : ℕ) (l : List ℕ)
    → r.dirty ≡ true
    → r.debounce_timer ≡ some t
    → r.live ≡ t ∷ l
    → r.timer_delay ≡ 1
    → IsSaving r
just_scheduled-IsSaving r t l d b k e = record {
  scheduled = λ _. inl (rw (b, k) (contains-head t l));
  synced = λ h. absurd (ground arith);
  delayed = omega arith;
}

retry_delay-le : (n d : ℕ) → retry_delay n ≡ some d → d ≤ 30
unfolding retry_delay
retry_delay-le n d h = ground arith

-- The delay is refused exactly when the count of failures has passed what a float can hold.
retry_delay-none : (n : ℕ) → retry_delay n ≡ none → max_float_power < n
unfolding retry_delay
retry_delay-none n h = ground arith

-- A flush with a written file saves everything; a failed one starts the next timer, or meets the
-- overflow.
pub flush_state-IsSaving :
    (fired : Option ℕ) (written : Bool) (s : StateMachine)
    → s.timer_delay ≤ 30
    → (s.dirty ≡ false → s.state_file ≡ some (snapshot s))
    → IsSaving (flush_state fired written s)
unfolding flush_state
flush_state-IsSaving fired written s d h = record {
  scheduled = λ e. ground (arith, contains-head s.next_timer s.live);
  synced = λ e. ground arith;
  delayed = ground arith;
}

pub fire_timer-IsSaving :
    (t : ℕ) (passes written : Bool) (s : StateMachine)
    → IsSaving s
    → IsSaving (fire_timer t passes written s)
unfolding fire_timer
fire_timer-IsSaving t passes written s v = flush_state-IsSaving _ written _ v.delayed v.synced

pub exiting-IsSaving :
    (written : Bool) (s : StateMachine) → IsSaving s → IsSaving (flush_state none written s)
exiting-IsSaving written s v = flush_state-IsSaving none written s v.delayed v.synced

modify-IsSaving :
    (i : String) (f : ModelInfo → ModelInfo) (s : StateMachine)
    → IsSaving s
    → IsSaving (modify i f s).0
unfolding modify
modify-IsSaving i f s v = elim (Option-cases (get i s.models)) [
  | inl gone ↦ rw (gone, modify) v
  | inr (m, e) ↦ rw (e, modify) (just_scheduled-IsSaving _ _ _ refl refl refl refl)
]

store_config-IsSaving :
    (i : String) (o : Option ModelConfig) (now : ℕ) (s : StateMachine)
    → IsSaving s
    → IsSaving (or_same s (store_config i o now s))
store_config-IsSaving i none now s v = v
store_config-IsSaving i (some c) now s v =
    modify-IsSaving i (λ m. record m { config = c; updated_at = now }) s v

adding-IsSaving :
    (i n p : String) (c : Dict String Json) (z t u : ℕ) (s : StateMachine)
    → IsSaving s
    → IsSaving (step (adding i n p c z t u) s)
unfolding step add_model
adding-IsSaving i n p c z t u s v = elim (Option-cases (make_config c)) [
  | inl bad ↦ rw (bad, step, add_model) v
  | inr (k, e) ↦ rw (e, step, add_model) (just_scheduled-IsSaving _ _ _ refl refl refl refl)
]

config-IsSaving :
    (i : String) (c : Dict String Json) (now : ℕ) (s : StateMachine)
    → IsSaving s
    → IsSaving (step (config i c now) s)
unfolding step update_model_config
config-IsSaving i c now s v = elim (Option-cases (get i s.models)) [
  | inl gone ↦ rw (gone, step, update_model_config) v
  | inr (m, e) ↦
      rw (e, step, update_model_config)
        (store_config-IsSaving i (make_config (update_dict (dump_config m.config) c)) now s v)
]

replacing-IsSaving :
    (i : String) (c : Dict String Json) (now : ℕ) (s : StateMachine)
    → IsSaving s
    → IsSaving (step (replacing i c now) s)
unfolding step replace_model_config
replacing-IsSaving i c now s v = elim (Option-cases (get i s.models)) [
  | inl gone ↦ rw (gone, step, replace_model_config) v
  | inr (m, e) ↦
      rw (e, step, replace_model_config) (store_config-IsSaving i (make_config c) now s v)
]

current-IsSaving : (i : String) (s : StateMachine) → IsSaving s → IsSaving (step (current i) s)
unfolding step set_current_model
current-IsSaving i s v = elim (Option-cases (get i s.models)) [
  | inl gone ↦ rw (gone, step, set_current_model) v
  | inr (m, e) ↦ rw (e, step, set_current_model) (just_scheduled-IsSaving _ _ _ refl refl refl refl)
]

removing-IsSaving : (i : String) (s : StateMachine) → IsSaving s → IsSaving (step (removing i) s)
unfolding step remove_model
removing-IsSaving i s v = elim (Option-cases (get i s.models)) [
  | inl gone ↦ rw (gone, step, remove_model) v
  | inr (m, e) ↦ rw (e, step, remove_model) (just_scheduled-IsSaving _ _ _ refl refl refl refl)
]

locking-IsSaving :
    (i : String) (b : Bool) (now : ℕ) (s : StateMachine)
    → IsSaving s
    → IsSaving (step (locking i b now) s)
unfolding step set_model_locked
locking-IsSaving i b now s v = elim (Option-cases (get i s.models)) [
  | inl gone ↦ rw (gone, step, set_model_locked) v
  | inr (m, e) ↦ rw (e, step, set_model_locked) (just_scheduled-IsSaving _ _ _ refl refl refl refl)
]

clearing-IsSaving : (i : String) (s : StateMachine) → IsSaving s → IsSaving (step (clearing i) s)
unfolding step clear_current_model
clearing-IsSaving i s v = elim (Bool-cases (is_id i s.current_model_id)) [
  | inl same ↦
      rw (same, step, clear_current_model) (just_scheduled-IsSaving _ _ _ refl refl refl refl)
  | inr other ↦ rw (other, step, clear_current_model) v
]

-- Every call keeps the promise of a save.
pub step-IsSaving : (o : Op) (s : StateMachine) → IsSaving s → IsSaving (step o s)
step-IsSaving (adding i n p c z t u) s v = adding-IsSaving i n p c z t u s v
step-IsSaving (status i st e now) s v =
    unfold step update_model_status in modify-IsSaving i (with_status st e now) s v
step-IsSaving (size i z now) s v =
    unfold step update_model_size in
    modify-IsSaving i (λ m. record m { size_bytes = z; updated_at = now }) s v
step-IsSaving (config i c now) s v = config-IsSaving i c now s v
step-IsSaving (replacing i c now) s v = replacing-IsSaving i c now s v
step-IsSaving (current i) s v = current-IsSaving i s v
step-IsSaving (clearing i) s v = clearing-IsSaving i s v
step-IsSaving (removing i) s v = removing-IsSaving i s v
step-IsSaving (locking i b now) s v = locking-IsSaving i b now s v
step-IsSaving taking s v =
    unfold step take_pending_locked_restarts in
    record { scheduled = v.scheduled; synced = v.synced; delayed = v.delayed }
step-IsSaving (firing t p w) s v = unfold step in fire_timer-IsSaving t p w s v
step-IsSaving (exiting w) s v = unfold step in exiting-IsSaving w s v

-- After any calls, writes that fail included: unsaved changes have a running timer or more than
-- `max_float_power` writes have failed in a row; a clean registry is the file's content; and no
-- delay is above 30 seconds.
pub run-IsSaving : (os : List Op) (s : StateMachine) → IsSaving s → IsSaving (run os s)
unfolding run
run-IsSaving [] s v = v
run-IsSaving (o ∷ os) s v = run-IsSaving os (step o s) (step-IsSaving o s v)

-- A timer that fires on unsaved changes, and whose write succeeds, stores the models and the
-- current id as they are then, and starts the count of failures anew.
pub fire_timer-saves :
    (t : ℕ) (passes : Bool) (s : StateMachine)
    → s.dirty ≡ true
    → ((fire_timer t passes true s).state_file ≡ some (snapshot s))
      × ((fire_timer t passes true s).dirty ≡ false)
      × ((fire_timer t passes true s).save_failures ≡ 0)
unfolding fire_timer
fire_timer-saves t passes s d = ground arith

-- Once more than `max_float_power` writes have failed in a row, the next failure starts no timer:
-- the changes stay unsaved, and no timer of the registry will save them.
pub retry_lost :
    (t : ℕ) (passes : Bool) (s : StateMachine)
    → s.dirty ≡ true
    → max_float_power < s.save_failures
    → s.live ≡ t ∷ []
    → ((fire_timer t passes false s).dirty ≡ true) × ((fire_timer t passes false s).live ≡ [])
unfolding fire_timer
retry_lost t passes s d n l = ground (arith, ==_refl t)
