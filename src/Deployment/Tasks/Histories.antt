-- ===== src/Deployment/Tasks/Histories.antt =====
-- The exclusion of the pipelines over all histories of the task manager.
pub mod Superseding
use v_llm_dashboard.Prelude.{
  ℕ, ◌≡◌, ◌≢◌, refl, sym, ap, ◌∙◌, inl, inr, String, Bool, false, Option, none, some, List, [], ◌∷◌,
  anyb, map, filterb, if◌then◌else◌, ◌==◌, ==_refl, string_eq, nat_eq, arith, Bool-cases,
}
use v_llm_dashboard.Prelude.Dict.{get, set, values, get-set}
use v_llm_dashboard.StateMachine.Ops.{map_option}
use v_llm_dashboard.Deployment.Tasks.{
  Task, TaskManager, Worker, waiting, working, over, queued, success, in_flight, is_running,
  is_awaiting, persist_locked, put_task, with_task,
}
use v_llm_dashboard.Deployment.Tasks.Thread.{
  Outcome, returned, was_cancelled, raised, completed, supersede_awaiting_driver, supersede_each,
  superseded, is_superseded, record_history, record_each, begun, begin_at, record_at, finish_at,
  awaiting, await_at, complete_at, cancel_at, push_history, is_recorded, end_with, succeed_at,
  give_up, fail, settled, settle_at,
}
use v_llm_dashboard.Deployment.Tasks.Exclusive.{
  flying, Apart, Tasks, Threads, put-IsApart, thread-IsApart,
}

Apart-record_history :
    (t : Task) (now : ℕ) (m : TaskManager) → Apart m → Apart (record_history t now m)
unfolding record_history push_history
Apart-record_history t now m h = elim (Bool-cases (is_recorded t.status)) [
  | inl final ↦ rw final h
  | inr open_still ↦ rw open_still h
]

pub Apart-record_each :
    (now : ℕ) (ts : List Task) (m : TaskManager) → Apart m → Apart (record_each now ts m)
Apart-record_each now [] m h = h
Apart-record_each now (t ∷ ts) m h =
    Apart-record_each now ts (record_history t now m) (Apart-record_history t now m h)

Apart-record_at :
    (o : Option Task) (now : ℕ) (m : TaskManager) → Apart m → Apart (record_at o now m)
Apart-record_at none now m h = h
Apart-record_at (some t) now m h = Apart-record_history t now m h

-- An update of a task that brings nothing into flight, and does not take it out of the queue while
-- its thread waits.
Apart-put_task :
    (o : Option Task) (id : String) (f : Task → Task) (m : TaskManager)
    → get id m.tasks ≡ o
    → ((t : Task)
        → o ≡ some t
        → (a : String) → flying (some (f t)) ≡ some a
        → flying (some t) ≡ some a)
    → ((t : Task) → get id m.threads ≡ some waiting → t.status ≡ queued → (f t).status ≡ queued)
    → Apart m
    → Apart (put_task o id f m)
unfolding persist_locked
Apart-put_task none id f m e falls stays h = h
Apart-put_task (some t) id f m e falls stays h =
    put-IsApart id t (f t) m.tasks m.threads e (falls t refl)
      (λ w.
        let (u, g, q) = h.ready id w in let same : u ≡ t = ground arith in stays t w (rw same at q))
      h

not_waiting :
    (id : String) (w : Worker) (th : Threads) → w ≢ waiting → get id (set id w th) ≢ some waiting
not_waiting id w th x p =
    let at_id : get id (set id w th) ≡ some w = get-set id id w th ∙ rw (==_refl id) refl in
    absurd (x (ground arith))

pub Apart-begin_at :
    (w : Option Worker) (id : String) (now : ℕ) (m : TaskManager)
    → get id m.threads ≡ w
    → Apart m
    → Apart (begin_at w id now m)
Apart-begin_at none id now m e h = h
Apart-begin_at (some working) id now m e h = h
Apart-begin_at (some over) id now m e h = h
Apart-begin_at (some waiting) id now m e h =
    let (u, g, q) = h.ready id e in
    let unlike : working ≢ waiting = (λ p. absurd (ground arith)) in
    Apart-put_task (get id m.tasks) id (begun now) (record m { threads = set id working m.threads })
      refl
      (λ t f a p.
        let same : u ≡ t = ground arith in
        let here : t.status ≡ queued = rw same at q in ground arith)
      (λ t w r. absurd (not_waiting id working m.threads unlike w))
      (thread-IsApart id working m.tasks m.threads unlike h)

pub Apart-step_update :
    (id : String) (f : Task → Task) (m : TaskManager)
    → ((t : Task) → (f t).status ≡ t.status)
    → ((t : Task) → (f t).kind ≡ t.kind)
    → Apart m
    → Apart (with_task id f m)
Apart-step_update id f m st ki h =
    Apart-put_task (get id m.tasks) id f m refl (λ t e a p. ground (arith, st t, ki t))
      (λ t w q. st t ∙ q) h

-- an update after which the task is not in flight, while its thread works
Apart-landed :
    (o : Option Task) (id : String) (f : Task → Task) (m : TaskManager)
    → get id m.tasks ≡ o
    → get id m.threads ≢ some waiting
    → ((t : Task) → in_flight (f t).status ≡ false)
    → Apart m
    → Apart (put_task o id f m)
Apart-landed o id f m e busy down h =
    Apart-put_task o id f m e (λ t g a p. absurd (ground (arith, down t)))
      (λ t w q. absurd (busy w)) h

Apart-succeed_at :
    (o : Option Task) (id : String) (now : ℕ) (m : TaskManager)
    → get id m.tasks ≡ o
    → get id m.threads ≢ some waiting
    → Apart m
    → Apart (succeed_at o id now m)
unfolding persist_locked
Apart-succeed_at none id now m e busy h = h
Apart-succeed_at (some t) id now m e busy h = elim (Bool-cases (is_running t.status)) [
  | inl on ↦ rw on (
      Apart-landed (some t) id (λ u. record u { status = success; finished_at = some now }) m e busy
        (λ u. refl) h)
  | inr off ↦ rw off h
]

Apart-end_with :
    (o : Outcome) (id : String) (now : ℕ) (m : TaskManager)
    → get id m.threads ≢ some waiting
    → Apart m
    → Apart (end_with o id now m)
Apart-end_with returned id now m busy h =
    let m' = succeed_at (get id m.tasks) id now m in
    Apart-record_at (get id m'.tasks) now m'
      (Apart-succeed_at (get id m.tasks) id now m refl busy h)
Apart-end_with was_cancelled id now m busy h =
    Apart-landed (get id m.tasks) id (give_up now) m refl busy (λ t. refl) h
Apart-end_with (raised message) id now m busy h =
    let m' = with_task id (fail message now) m in
    Apart-record_at (get id m'.tasks) now m'
      (Apart-landed (get id m.tasks) id (fail message now) m refl busy (λ t. refl) h)

pub Apart-finish_at :
    (w : Option Worker) (id : String) (o : Outcome) (now : ℕ) (m : TaskManager)
    → Apart m
    → Apart (finish_at w id o now m)
Apart-finish_at none id o now m h = h
Apart-finish_at (some waiting) id o now m h = h
Apart-finish_at (some over) id o now m h = h
Apart-finish_at (some working) id o now m h =
    let unlike : over ≢ waiting = (λ p. absurd (ground arith)) in
    Apart-end_with o id now (record m { threads = set id over m.threads })
      (not_waiting id over m.threads unlike) (thread-IsApart id over m.tasks m.threads unlike h)

pub Apart-await_at :
    (w : Option Worker) (id : String) (m : TaskManager)
    → get id m.threads ≡ w
    → Apart m
    → Apart (await_at w id m)
Apart-await_at none id m e h = h
Apart-await_at (some waiting) id m e h = h
Apart-await_at (some over) id m e h = h
Apart-await_at (some working) id m e h =
    Apart-landed (get id m.tasks) id awaiting m refl (λ p. absurd (ground arith)) (λ t. refl) h

pub Apart-complete_at :
    (o : Option Task) (id : String) (now : ℕ) (m : TaskManager)
    → get id m.tasks ≡ o
    → Apart m
    → Apart (complete_at o id now m)
unfolding persist_locked
Apart-complete_at none id now m e h = h
Apart-complete_at (some t) id now m e h = elim (Bool-cases (is_awaiting t.status)) [
  | inl rebooted ↦ rw rebooted (
      Apart-record_history (completed now t) now _ (
        put-IsApart id t (completed now t) m.tasks m.threads e (λ a p. absurd (ground arith))
          (λ w.
            let (u, g, q) = h.ready id w in
            let same : u ≡ t = ground arith in
            let queue : t.status ≡ queued = rw same at q in absurd (ground arith))
          h))
  | inr other ↦ rw other h
]

pub Apart-cancel_at :
    (o : Option Task) (c : Option Bool) (id : String) (m : TaskManager)
    → Apart m
    → Apart (cancel_at o c id m).0
Apart-cancel_at none c id m h = h
Apart-cancel_at (some t) none id m h = h
Apart-cancel_at (some t) (some c) id m h = elim (Bool-cases (in_flight t.status)) [
  | inl up ↦ rw up h
  | inr down ↦ rw down h
]

-- a task whose status is another one than queued has no thread that waits
pub busy_thread :
    (id : String) (t : Task) (m : TaskManager)
    → get id m.tasks ≡ some t
    → t.status ≢ queued
    → Apart m
    → get id m.threads ≢ some waiting
busy_thread id t m e x h w =
    let (u, g, q) = h.ready id w in let same : u ≡ t = ground arith in absurd (x (rw same at q))

Apart-settled :
    (f : Task → Task) (o : Option Task) (id : String) (now : ℕ) (m : TaskManager)
    → get id m.tasks ≡ o
    → ((t : Task) → in_flight (f t).status ≡ false)
    → Apart m
    → Apart (settled f o id now m)
unfolding persist_locked
Apart-settled f none id now m e down h = h
Apart-settled f (some t) id now m e down h = elim (Bool-cases (is_running t.status)) [
  | inl on ↦ rw on (
      Apart-record_history (f t) now _ (
        Apart-landed (some t) id f m e (busy_thread id t m e (λ q. absurd (ground arith)) h) down
          h))
  | inr off ↦ rw off h
]

pub Apart-settle_at :
    (w : Option Worker) (f : Task → Task) (id : String) (now : ℕ) (m : TaskManager)
    → ((t : Task) → in_flight (f t).status ≡ false)
    → Apart m
    → Apart (settle_at w f id now m)
Apart-settle_at none f id now m down h = Apart-settled f (get id m.tasks) id now m refl down h
Apart-settle_at (some w) f id now m down h = h
