-- ===== src/StateMachine.antt =====
-- backend/controller/state_machine.py: the registry of models behind one lock. A method is a
-- function of the whole registry; clock readings and the outcome of a file write are arguments.
-- A timer is a number; `live` holds the timers that were started and neither fired nor cancelled,
-- and `timer_delay` is the delay, in seconds, of the timer that was started last.
pub mod Methods
pub mod Load
pub mod Restart
pub mod Ops
pub mod Each
pub mod Locking
pub mod Saving
pub mod Status
use v_llm_dashboard.Prelude.{
  ℕ, ◌+◌, ◌*◌, ◌^◌, String, Bool, true, false, not, ◌&&◌, Option, none, some, List, [], ◌∷◌, min,
  leb, if◌then◌else◌, ◌==◌, string_eq,
}
use v_llm_dashboard.Prelude.Dict.{Dict, get, set, remove}
use v_llm_dashboard.Prelude.Set.{discard}
use v_llm_dashboard.Prelude.Eq.{nat_eq}
use v_llm_dashboard.Schemas.{
  ModelStatus, loading, running, stopped, ModelConfig, ModelInfo, Json, make_config, dump_config,
  update_dict, status_eq,
}

-- what `_flush_state` writes
pub record SavedState : Type 0 where
  pub models : Dict String ModelInfo
  pub current_model_id : Option String

pub record StateMachine : Type 0 where
  pub models : Dict String ModelInfo
  pub current_model_id : Option String
  pub pending_locked_restarts : List String
  pub debounce_timer : Option ℕ
  pub dirty : Bool
  pub save_failures : ℕ
  pub live : List ℕ
  pub next_timer : ℕ
  pub timer_delay : ℕ
  pub state_file : Option SavedState

abbrev pub snapshot : StateMachine → SavedState
snapshot s = record { models = s.models; current_model_id = s.current_model_id }

abbrev cancel : Option ℕ → List ℕ → List ℕ
cancel none timers = timers
cancel (some t) timers = discard t timers

-- _DEBOUNCE_SECONDS
abbrev pub debounce_seconds : ℕ
debounce_seconds = 1

-- threading.Timer(delay, ...).start(), kept as the debounce timer
unfoldable pub start_timer : ℕ → StateMachine → StateMachine
start_timer delay s = record s {
  debounce_timer = some s.next_timer;
  live = s.next_timer ∷ s.live;
  next_timer = s.next_timer + 1;
  timer_delay = delay;
}

unfoldable pub schedule_save : StateMachine → StateMachine
unfolding discard start_timer
schedule_save s =
    start_timer debounce_seconds (record s { dirty = true; live = cancel s.debounce_timer s.live })

-- the largest number of failures whose power of two is still a float
abbrev pub max_float_power : ℕ
max_float_power = 1023

-- min(2.0 * (2 ** failures), 30.0), in seconds; `none` is the OverflowError of an integer power
-- that is too large to become a float
unfoldable pub retry_delay : ℕ → Option ℕ
retry_delay failures =
    if leb failures max_float_power then some (min (2 * 2 ^ failures) 30) else none

abbrev forget_timer : Option ℕ → Option ℕ → Option ℕ
forget_timer none current = none
forget_timer (some t) none = none
forget_timer (some t) (some c) = if c == t then none else some c

-- the failure branch; an OverflowError leaves it before the next timer is made
abbrev retry_later : Option ℕ → StateMachine → StateMachine
retry_later none s = s
retry_later (some delay) s = start_timer delay (record s { save_failures = s.save_failures + 1 })

-- `fired` is the timer that passes itself, if one does; `written` says whether the file was
-- replaced.
unfoldable pub flush_state : Option ℕ → Bool → StateMachine → StateMachine
unfolding start_timer retry_delay
flush_state fired written s =
    let s' = record s { debounce_timer = forget_timer fired s.debounce_timer } in
    if not s.dirty
    then s
    else if written
    then record s' { dirty = false; state_file = some (snapshot s); save_failures = 0 }
    else retry_later (retry_delay s.save_failures) s'

-- A timer fires once: it leaves `live` and runs its callback. The debounce timer passes itself,
-- the retry timer does not.
unfoldable pub fire_timer : ℕ → Bool → Bool → StateMachine → StateMachine
unfolding discard flush_state
fire_timer t passes_itself written s =
    let s' = record s { live = discard t s.live } in
    flush_state (if passes_itself then some t else none) written s'
