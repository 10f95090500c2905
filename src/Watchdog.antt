-- ===== src/Watchdog.antt =====
-- backend/service/model_watchdog.py: restart attempts, the tick, the lock and the start and stop of
-- the watchdog. An attempt is cut at its awaits: `enter` runs up to the first one, `goes_on` decides
-- on what the probes answered, and `conclude` handles the outcome of the start and leaves.
pub mod Claims
pub mod Interleaving
pub mod Stale
pub mod Tick
use v_llm_dashboard.Prelude.{
  ℕ, ◌+◌, String, Bool, true, false, not, ◌&&◌, ◌||◌, Option, none, some, List, [], ◌∷◌, anyb,
  if◌then◌else◌, ◌==◌, string_eq, nat_eq, is_some,
}
use v_llm_dashboard.Prelude.Dict.{Dict, get, set, remove, keys, values}
use v_llm_dashboard.Prelude.Set.{contains, add, discard}
use v_llm_dashboard.Schemas.{ModelStatus, running, loading, failed, ModelInfo, status_eq}
use v_llm_dashboard.StateMachine.{StateMachine}
use v_llm_dashboard.StateMachine.Methods.{
  update_model_status, set_model_locked, take_pending_locked_restarts,
}
use v_llm_dashboard.World.{World, cancel_task, clear, schedule_restart, on_model_crash, forget_task}

-- who attempts: a delayed restart task, or the tick
pub data Caller : Type 0 where
  task : ℕ → Caller
  tick : Caller

abbrev pub claim_for : Caller → String → World → World
claim_for (task t) model_id w = record w { attempting = set t model_id w.attempting }
claim_for tick model_id w = record w { tick_attempt = some model_id }

abbrev pub finish : Caller → String → World → World
finish (task t) model_id w = forget_task model_id t w
finish tick model_id w = w

-- what the attempt does on the model's record, up to the first await
abbrev pub enter_with : Option ModelInfo → Caller → String → World → World
enter_with none who model_id w = finish who model_id (clear model_id w)
enter_with (some m) who model_id w =
    if not m.locked
    then finish who model_id (clear model_id w)
    else if m.status == running
    then finish who model_id (clear model_id w)
    else if m.status == loading
    then finish who model_id w
    else if contains model_id w.suspended || contains model_id w.inflight
    then finish who model_id w
    else claim_for who model_id (record w { inflight = add model_id w.inflight })

-- `_attempt_restart`, its guards and the claim
unfoldable pub enter : Caller → String → World → World
unfolding clear forget_task
enter who model_id w = enter_with (get model_id w.registry.models) who model_id w

-- A sleeping task whose delay is over enters the attempt of its model.
unfoldable pub wake : ℕ → World → World
unfolding enter
wake t w = elim (get t w.sleeping) [
  | none ↦ w
  | some model_id ↦ enter (task t) model_id (record w { sleeping = remove t w.sleeping })
]

-- Whether the attempt goes on to the start: `present` and `healthy` are the answers of the probes,
-- none for an unknown one.
unfoldable pub goes_on : Option Bool → Option Bool → Bool
goes_on (some true) (some false) = true
goes_on (some true) healthy = false
goes_on present healthy = true

pub data Outcome : Type 0 where
  skipped started : Outcome
  http : ℕ → Bool → Outcome

-- NO_START_COMMAND_MESSAGE
abbrev pub no_start_command_message : String
no_start_command_message = "自动启动失败：未配置启动命令（在启动配置中设置后手动启动）"

abbrev pub is_loading : Option ModelInfo → Bool
is_loading none = false
is_loading (some m) = m.status == loading

-- The handlers of the attempt: `http code about_command` is an HTTPException, with whether its
-- detail speaks of the start command.
unfoldable pub handle : Outcome → String → ℕ → World → World
unfolding clear
handle skipped model_id now w = w
handle started model_id now w = w
handle (http code about_command) model_id now w =
    if code == 409
    then (if is_loading (get model_id w.registry.models) then w else clear model_id w)
    else if code == 400 && about_command
    then clear model_id (record w {
      registry = (update_model_status model_id failed no_start_command_message now w.registry).0;
    })
    else w

abbrev is_attempting : Caller → String → World → Bool
is_attempting (task t) model_id w = is_some (get t w.attempting)
is_attempting tick model_id w = true

abbrev pub drop_attempt : Caller → World → World
drop_attempt (task t) w = record w { attempting = remove t w.attempting }
drop_attempt tick w = record w { tick_attempt = none }

-- the `finally` and the end of the task
unfoldable pub leave : Caller → String → World → World
unfolding forget_task
leave who model_id w =
    finish who model_id (drop_attempt who (record w { inflight = discard model_id w.inflight }))

-- The end of a claimed attempt. A handler that clears the model may have cancelled the very task
-- that runs it; the task then still ends by its `finally`.
unfoldable pub conclude : Outcome → Caller → String → ℕ → World → World
unfolding handle leave
conclude o who model_id now w = leave who model_id (handle o model_id now w)

pub data LockReply : Type 0 where
  not_found no_start_command : LockReply
  lock_set : List String → LockReply

-- `apply_model_lock`: `has_command` says whether the launch configuration holds a start command.
unfoldable pub apply_model_lock : String → Bool → Bool → ℕ → World → LockReply × World
unfolding clear
apply_model_lock model_id locked has_command now w = elim (get model_id w.registry.models) [
  | none ↦ (not_found, w)
  | some m ↦
      if locked && not has_command
      then (no_start_command, w)
      else let (registry, unlocked) = set_model_locked model_id locked now w.registry in
        let w' = record w { registry = registry } in
        (lock_set unlocked, if locked then w' else clear model_id w')
]

-- whether a tick has anything to repair
unfoldable pub tick_needed : World → Bool
tick_needed w =
    (elim w.crash_events [ [] ↦ false | _ ∷ _ ↦ true ])
    || anyb (λ m. m.locked) (values w.registry.models)

-- the tick's first loop: a locked model that is RUNNING has recovered
unfoldable pub clear_recovered : List ModelInfo → World → World
unfolding clear
clear_recovered [] w = w
clear_recovered (m ∷ ms) w =
    clear_recovered ms (if m.locked && m.status == running then clear m.id w else w)

abbrev pub is_locked : Option ModelInfo → Bool
is_locked none = false
is_locked (some m) = m.locked

-- The tick's second loop, for attempts that end before the next one begins: `outcome` and `now` are
-- what each model's attempt met.
unfoldable pub tick_one : (String → Outcome) → ℕ → String → World → World
unfolding clear enter conclude
tick_one outcome now model_id w =
    if not (is_locked (get model_id w.registry.models))
    then clear model_id w
    else let w' = enter tick model_id w in
      (elim w'.tick_attempt [ none ↦ w' | some m ↦ conclude (outcome m) tick m now w' ])

unfoldable pub tick_all : (String → Outcome) → ℕ → List String → World → World
tick_all outcome now [] w = w
tick_all outcome now (i ∷ is) w = tick_all outcome now is (tick_one outcome now i w)

-- `watchdog_tick`: `sync` is the status sync, or the identity where it raised.
unfoldable pub watchdog_tick : (World → World) → (String → Outcome) → ℕ → World → World
unfolding tick_needed clear_recovered tick_all
watchdog_tick sync outcome now w =
    if not (tick_needed w)
    then w
    else let w' = sync w in
      let w'' = clear_recovered (values w'.registry.models) w' in
      tick_all outcome now (keys w''.crash_events) w''

-- the replay of start_watchdog
unfoldable pub replay : ℕ → List String → World → World
unfolding on_model_crash
replay now [] w = w
replay now (i ∷ is) w =
    replay now is
      (if is_locked (get i w.registry.models) then on_model_crash i true now now true w else w)

-- `start_watchdog`, when no watchdog task runs
unfoldable pub start_watchdog : ℕ → World → World
unfolding replay take_pending_locked_restarts
start_watchdog now w =
    let (registry, pending) = take_pending_locked_restarts w.registry in
    replay now pending (record w { registry = registry })

-- the loop of stop_watchdog over the registered restart tasks
unfoldable pub cancel_all : List ℕ → World → World
unfolding cancel_task
cancel_all [] w = w
cancel_all (t ∷ ts) w = cancel_all ts (cancel_task t w)

abbrev cancel_tick : Option String → World → World
cancel_tick none w = w
cancel_tick (some model_id) w = record w {
  tick_attempt = none;
  inflight = discard model_id w.inflight;
}

-- The loop is cancelled too: a tick that is at an await of an attempt gives its claim back.
unfoldable pub stop_watchdog : World → World
unfolding cancel_all
stop_watchdog w = let w' = cancel_all (values w.restart_tasks) w in cancel_tick w'.tick_attempt w'
