-- ===== src/Deployment/Tasks/Runs.antt =====
-- Every history of the task manager keeps the pipelines apart.
use v_llm_dashboard.Prelude.{
  ℕ, ◌≡◌, ◌≢◌, refl, sym, ap, ◌∙◌, String, Bool, true, false, not, ◌&&◌, arith, Option, none, some,
  List, [], ◌∷◌, anyb, inl, inr, string_eq, Bool-cases, ◌==◌, ==_iff, ==_refl,
}
use v_llm_dashboard.Prelude.Dict.{Dict, get, set, values, get-set}
use v_llm_dashboard.Deployment.Tasks.{
  TaskManager, StepStatus, create, new_task, persist_locked, inflight_domain, has_inflight, active,
  Task, interrupted, waiting,
}
use v_llm_dashboard.Deployment.Tasks.Thread.{
  begin, begin_step, mark_step, finish, Outcome, await_reboot, cancel, complete_driver,
  supersede_awaiting_driver, set_step, reattach, reattach_at, reattached, is_interrupted,
  finalize_reattached, cancel_reattached, is_set, fail, give_up,
}
use v_llm_dashboard.Deployment.Tasks.Exclusive.{
  Apart, create-IsApart, attach-IsApart, exclusive, flying,
}
use v_llm_dashboard.Deployment.Tasks.Histories.{
  Apart-begin_at, Apart-step_update, Apart-finish_at, Apart-await_at, Apart-complete_at,
  Apart-cancel_at, Apart-settle_at, busy_thread,
}
use v_llm_dashboard.Deployment.Tasks.Histories.Superseding.{Apart-supersede}

-- what the requests, the worker threads, the reconcile timer and the threads that watch the jobs of
-- the last process do
pub data Event : Type 0 where
  creating : String → String → String → List String → ℕ → Event
  beginning : String → ℕ → Event
  stepping : String → ℕ → Event
  marking : String → ℕ → StepStatus → Event
  finishing : String → Outcome → ℕ → Event
  awaiting_boot : String → Event
  cancelling : String → Event
  completing : String → ℕ → Event
  superseding : String → ℕ → Event
  reattaching : String → Event
  finalizing : String → String → ℕ → Event
  dropping : String → ℕ → Event

abbrev kept_or : Option TaskManager → TaskManager → TaskManager
kept_or none m = m
kept_or (some n) m = n

-- a refused creation changes nothing
unfoldable pub step : Event → TaskManager → TaskManager
unfolding create begin begin_step mark_step finish await_reboot cancel complete_driver
    supersede_awaiting_driver reattach finalize_reattached cancel_reattached
step (creating id kind title steps now) m = kept_or (create id kind title steps now m) m
step (beginning id now) m = begin id now m
step (stepping id n) m = begin_step id n m
step (marking id n st) m = mark_step id n st m
step (finishing id o now) m = finish id o now m
step (awaiting_boot id) m = await_reboot id m
step (cancelling id) m = (cancel id m).0
step (completing id now) m = complete_driver id now m
step (superseding reason now) m = supersede_awaiting_driver reason now m
step (reattaching id) m = reattach id m
step (finalizing id message now) m = finalize_reattached id message now m
step (dropping id now) m = cancel_reattached id now m

unfoldable pub run : List Event → TaskManager → TaskManager
unfolding step
run [] m = m
run (e ∷ es) m = run es (step e m)

Apart-create :
    (id kind title : String) (steps : List String) (now : ℕ) (m : TaskManager)
    → Apart m
    → Apart (kept_or (create id kind title steps now m) m)
unfolding create persist_locked
Apart-create id kind title steps now m h =
    elim (Bool-cases (anyb (has_inflight (values m.tasks)) (inflight_domain kind))) [
      | inl busy ↦ rw busy h
      | inr free ↦
          rw free
            (create-IsApart id (new_task id kind title steps now) m.tasks m.threads refl free h)
    ]

abbrev kind_free : Option Task → TaskManager → Bool
kind_free none m = true
kind_free (some t) m = not (anyb (has_inflight (values m.tasks)) (inflight_domain t.kind))

-- Nothing in flight excludes the task that an event attaches again, a thing that the code does not
-- look at.
abbrev pub is_unobstructed : Event → TaskManager → Bool
is_unobstructed (reattaching id) m = kind_free (get id m.tasks) m
is_unobstructed _ m = true

unfoldable pub run_unobstructed : List Event → TaskManager → Bool
run_unobstructed [] m = true
run_unobstructed (e ∷ es) m = is_unobstructed e m && run_unobstructed es (step e m)

Apart-reattach_at :
    (o : Option Task) (id : String) (m : TaskManager)
    → get id m.tasks ≡ o
    → kind_free o m ≡ true
    → Apart m
    → Apart (reattach_at o id m)
unfolding persist_locked
Apart-reattach_at none id m e f h = h
Apart-reattach_at (some t) id m e f h = elim (Bool-cases (is_interrupted t.status)) [
  | inl down ↦ rw down (
      attach-IsApart id (reattached t) m.tasks m.threads
        (busy_thread id t m e (λ q. absurd (ground arith)) h) (ground arith) h)
  | inr other ↦ rw other h
]

step-Apart : (e : Event) (m : TaskManager) → is_unobstructed e m ≡ true → Apart m → Apart (step e m)
unfolding step begin begin_step mark_step finish await_reboot cancel complete_driver reattach
    finalize_reattached cancel_reattached
step-Apart (creating id kind title steps now) m u h = Apart-create id kind title steps now m h
step-Apart (beginning id now) m u h = Apart-begin_at (get id m.threads) id now m refl h
step-Apart (stepping id n) m u h =
    Apart-step_update id
      (λ t. record t { current_step = some n; steps = set_step n active t.steps }) m (λ t. refl)
      (λ t. refl) h
step-Apart (marking id n st) m u h =
    Apart-step_update id (λ t. record t { steps = set_step n st t.steps }) m (λ t. refl) (λ t. refl)
      h
step-Apart (finishing id o now) m u h = Apart-finish_at (get id m.threads) id o now m h
step-Apart (awaiting_boot id) m u h = Apart-await_at (get id m.threads) id m refl h
step-Apart (cancelling id) m u h = Apart-cancel_at (get id m.tasks) (get id m.cancel_set) id m h
step-Apart (completing id now) m u h = Apart-complete_at (get id m.tasks) id now m refl h
step-Apart (superseding reason now) m u h = Apart-supersede reason now m h
step-Apart (reattaching id) m u h = Apart-reattach_at (get id m.tasks) id m refl u h
step-Apart (finalizing id message now) m u h =
    Apart-settle_at (get id m.threads) (fail message now) id now m (λ t. refl) h
step-Apart (dropping id now) m u h = elim (Bool-cases (is_set (get id m.cancel_set))) [
  | inl asked ↦ rw asked (Apart-settle_at (get id m.threads) (give_up now) id now m (λ t. refl) h)
  | inr going ↦ rw going h
]

-- In every history in which no task of the last process is attached again while a task in flight
-- excludes it, two tasks in flight are of kinds that do not exclude each other, and a thread that
-- waits to start has a queued task, if that held at the start.
pub run-Apart :
    (es : List Event) (m : TaskManager) → run_unobstructed es m ≡ true → Apart m → Apart (run es m)
unfolding run run_unobstructed
run-Apart [] m u h = h
run-Apart (e ∷ es) m u h = elim (Bool-cases (is_unobstructed e m)) [
  | inl clear ↦
      let rest : run_unobstructed es (step e m) ≡ true = rw clear at u in
      run-Apart es (step e m) rest (step-Apart e m clear h)
  | inr obstructed ↦ absurd (ground arith)
]

create_free :
    (j kind title : String) (steps : List String) (now : ℕ) (m : TaskManager)
    → anyb (has_inflight (values m.tasks)) (inflight_domain kind) ≡ false
    → create j kind title steps now m
      ≡ some (
          persist_locked (record m {
            tasks = set j (new_task j kind title steps now) m.tasks;
            cancel_set = set j false m.cancel_set;
            threads = set j waiting m.threads;
          }))
unfolding create
create_free j kind title steps now m free = rw free refl

created-tasks :
    (j kind title : String) (steps : List String) (now : ℕ) (m n : TaskManager)
    → create j kind title steps now m ≡ some n
    → n.tasks ≡ set j (new_task j kind title steps now) m.tasks
unfolding create persist_locked
created-tasks j kind title steps now m n made =
    elim (Bool-cases (anyb (has_inflight (values m.tasks)) (inflight_domain kind))) [
      | inl busy ↦ absurd (ground arith)
      | inr free ↦
          sym
            (ap (λ o. (kept_or o m).tasks) (sym (create_free j kind title steps now m free) ∙ made))
    ]

get_apart :
    (i j : String) (t : Task) (d : Dict String Task)
    → (j == i) ≡ false
    → get i (set j t d) ≡ get i d
get_apart i j t d other = get-set j i t d ∙ rw other refl

-- A task that a restart interrupted is attached again while a task that excludes it, created
-- meanwhile, is in flight.
pub reattach-create :
    (i j kind title : String) (steps : List String) (now : ℕ) (t : Task) (m n : TaskManager)
    → i ≢ j
    → get i m.tasks ≡ some t
    → t.status ≡ interrupted
    → exclusive t.kind kind ≡ true
    → create j kind title steps now m ≡ some n
    → ¬ Apart (reattach i n)
unfolding persist_locked reattach
reattach-create i j kind title steps now t m n x e st ex made h =
    let built = created-tasks j kind title steps now m n made in
    let apart_ij : (i == j) ≡ false = ground (arith, ==_iff i j) in
    let apart_ji : (j == i) ≡ false = ground (arith, ==_iff j i) in
    let task : Task = new_task j kind title steps now in
    let mine : get i n.tasks ≡ some t =
      ap (get i) built ∙ get_apart i j task m.tasks apart_ji ∙ e in
    let other : get j n.tasks ≡ some task =
      ap (get j) built ∙ get-set j j task m.tasks ∙ rw (==_refl j) refl in
    let down : is_interrupted t.status ≡ true = rw st refl in
    let done : (reattach i n).tasks ≡ set i (reattached t) n.tasks = rw (mine, down) refl in
    let own : get i (set i (reattached t) n.tasks) ≡ some (reattached t) =
      get-set i i (reattached t) n.tasks ∙ rw (==_refl i) refl in
    let fly_i : flying (get i (reattach i n).tasks) ≡ some t.kind =
      ap (λ d. flying (get i d)) done ∙ ap flying own in
    let fly_j : flying (get j (reattach i n).tasks) ≡ some kind =
      ap (λ d. flying (get j d)) done
      ∙ ap flying (get_apart j i (reattached t) n.tasks apart_ij ∙ other) in
    let bad = h.apart i j t.kind kind x fly_i fly_j in absurd (ground arith)
