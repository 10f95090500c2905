-- ===== src/Deployment/Recovery.antt =====
-- backend/service/deployment_task_manager.py: how the records of the tasks come back after a restart
-- of the dashboard, before live remote jobs are attached again.
use v_llm_dashboard.Prelude.{
  ℕ, ◌≡◌, ◌≢◌, refl, sym, ◌∙◌, inl, inr, String, false, Option, none, some, List, [], ◌∷◌, ◌++◌,
  last_n, if◌then◌else◌, ◌==◌, string_eq, arith, Bool-cases,
}
use v_llm_dashboard.Prelude.Dict.{Dict, get, set, get-set}
use v_llm_dashboard.Deployment.Tasks.{
  Task, TaskManager, interrupted, in_flight, max_tasks, persist_locked, HistoryEntry,
}
use v_llm_dashboard.Deployment.Tasks.Thread.{or_now}
use v_llm_dashboard.Deployment.Tasks.Exclusive.{flying, Apart}

abbrev or_text : String → String → String
or_text error default = if error == "" then default else error

-- the record of a task that the restart interrupted
unfoldable pub recovered : ℕ → Task → Task
recovered now t =
    if in_flight t.status
    then record t {
      status = interrupted;
      error = or_text t.error "Interrupted by dashboard restart";
      finished_at = some (or_now t.finished_at now);
    }
    else t

-- the loop over the entries; `none` is a malformed record, which is dropped
unfoldable pub recover_each : ℕ → List (Option Task) → Dict String Task → Dict String Task
unfolding recovered
recover_each now [] d = d
recover_each now (none ∷ es) d = recover_each now es d
recover_each now (some t ∷ es) d = recover_each now es (set t.id (recovered now t) d)

abbrev pub reversed : {A : Type 0} → List A → List A
reversed [] = []
reversed (x ∷ xs) = reversed xs ++ x ∷ []

-- `_recover` on a file that holds a list, and the constructor around it
unfoldable pub recover : ℕ → List (Option Task) → List HistoryEntry → TaskManager
unfolding recover_each persist_locked
recover now entries history = persist_locked (record {
  tasks = recover_each now (reversed (last_n max_tasks entries)) [];
  cancel_set = [];
  threads = [];
  tasks_file = [];
  history = history;
})

recovered-in_flight : (now : ℕ) (t : Task) → in_flight (recovered now t).status ≡ false
unfolding recovered
recovered-in_flight now t = elim (Bool-cases (in_flight t.status)) [
  | inl up ↦ rw up refl
  | inr down ↦ rw down down
]

abbrev Landed : Dict String Task → Type 0
Landed d = (i : String) (t : Task) → get i d ≡ some t → in_flight t.status ≡ false

Landed-set :
    (k : String) (u : Task) (d : Dict String Task)
    → in_flight u.status ≡ false
    → Landed d
    → Landed (set k u d)
Landed-set k u d down h i t e = elim (Bool-cases (k == i)) [
  | inl same ↦
      let here : some u ≡ some t = sym (get-set k i u d ∙ rw same refl) ∙ e in
      let it : u ≡ t = ground arith in rw (sym it) down
  | inr other ↦ h i t (sym (get-set k i u d ∙ rw other refl) ∙ e)
]

Landed-each :
    (now : ℕ) (es : List (Option Task)) (d : Dict String Task)
    → Landed d
    → Landed (recover_each now es d)
unfolding recover_each
Landed-each now [] d h = h
Landed-each now (none ∷ es) d h = Landed-each now es d h
Landed-each now (some t ∷ es) d h =
    Landed-each now es (set t.id (recovered now t) d)
      (Landed-set t.id (recovered now t) d (recovered-in_flight now t) h)

flying_of_landed :
    (o : Option Task) (a : String)
    → ((t : Task) → o ≡ some t → in_flight t.status ≡ false)
    → flying o ≢ some a
flying_of_landed none a h p = absurd (ground arith)
flying_of_landed (some t) a h p = absurd (ground (arith, h t refl))

-- After a restart no task is in flight, so the exclusion of the pipelines starts out right.
pub recover-Apart :
    (now : ℕ) (entries : List (Option Task)) (history : List HistoryEntry)
    → Apart (recover now entries history)
unfolding recover persist_locked get
recover-Apart now entries history = record {
  apart = λ i j a b x p q. absurd (
      flying_of_landed _ a
        (Landed-each now (reversed (last_n max_tasks entries)) [] (λ k t e. absurd (ground arith))
          i)
        p);
  ready = λ i w. absurd (ground arith);
}
