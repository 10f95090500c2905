-- ===== src/Deployment/Tasks/Finished.antt =====
-- What the end of a task leaves: one entry of a bounded history.
use v_llm_dashboard.Prelude.{
  ℕ, ◌-◌, ◌≤◌, ◌≡◌, refl, ◌∙◌, inl, inr, String, true, some, List, [], ◌∷◌, ◌++◌, ==_refl,
  string_eq, arith, Bool-cases, Option-cases, length, last_n, length-drop, min,
}
use v_llm_dashboard.Prelude.Dict.{get, set, get-set}
use v_llm_dashboard.Deployment.Tasks.{
  Task, TaskManager, success, is_awaiting, persist_locked, max_history,
}
use v_llm_dashboard.Deployment.Tasks.Thread.{
  complete_driver, completed, record_history, push_history,
}

pub length-last_n : {A : Type 0} (n : ℕ) (xs : List A) → length (last_n n xs) ≡ min n (length xs)
length-last_n n xs = omega (arith, length-drop (length xs - n) xs)

-- The reconcile timer and a read of the drivers may both complete a driver task: the second
-- completion changes nothing, so the history gets one entry.
pub complete_driver-twice :
    (id : String) (now later : ℕ) (m : TaskManager)
    → complete_driver id later (complete_driver id now m) ≡ complete_driver id now m
unfolding complete_driver persist_locked record_history push_history
complete_driver-twice id now later m = elim (Option-cases (get id m.tasks)) [
  | inl gone ↦ rw (gone, gone) refl
  | inr (t, e) ↦ elim (Bool-cases (is_awaiting t.status)) [
    | inl rebooted ↦
        let found : get id (set id (completed now t) m.tasks) ≡ some (completed now t) =
          get-set id id (completed now t) m.tasks ∙ rw (==_refl id) refl in
        rw (e, rebooted, found) refl
    | inr other ↦ rw (e, other, e, other) refl
  ]
]

-- A completed driver task is recorded as a success, and the history keeps its bound.
pub complete_driver-recorded :
    (id : String) (now : ℕ) (t : Task) (m : TaskManager)
    → get id m.tasks ≡ some t
    → is_awaiting t.status ≡ true
    → ((complete_driver id now m).history
        ≡ last_n max_history (m.history ++ (now, (t.kind, (t.title, success))) ∷ []))
      × (length (complete_driver id now m).history ≤ max_history)
unfolding complete_driver persist_locked record_history push_history
complete_driver-recorded id now t m e a =
    rw (e, a)
      (
        refl,
        omega (
          arith,
          length-last_n max_history (m.history ++ (now, (t.kind, (t.title, success))) ∷ []),
        ),
      )
