-- ===== src/Deployment/Tasks/Histories/Superseding.antt =====
-- Superseded driver tasks leave the exclusion of the pipelines as it was.
use v_llm_dashboard.Prelude.{
  ℕ, ◌≡◌, refl, sym, ap, ◌∙◌, inl, inr, String, Option, none, some, [], ◌∷◌, anyb, map, filterb,
  if◌then◌else◌, ◌==◌, string_eq, nat_eq, arith, Bool-cases,
}
use v_llm_dashboard.Prelude.Dict.{get, values}
use v_llm_dashboard.StateMachine.Ops.{map_option}
use v_llm_dashboard.Deployment.Tasks.{Task, TaskManager, queued, persist_locked}
use v_llm_dashboard.Deployment.Tasks.Thread.{
  supersede_awaiting_driver, supersede_each, superseded, is_superseded,
}
use v_llm_dashboard.Deployment.Tasks.Exclusive.{flying, Apart, Tasks}
use v_llm_dashboard.Deployment.Tasks.Histories.{Apart-record_each}

abbrev pub supersede : String → ℕ → Task → Task
supersede reason now t = if is_superseded t then superseded reason now t else t

pub get-supersede_each :
    (reason : String) (now : ℕ) (i : String) (d : Tasks)
    → get i (supersede_each reason now d) ≡ map_option (supersede reason now) (get i d)
unfolding get supersede_each
get-supersede_each reason now i [] = refl
get-supersede_each reason now i ((k, t) ∷ d) = elim (Bool-cases (k == i)) [
  | inl same ↦ rw same refl
  | inr other ↦ rw other (get-supersede_each reason now i d)
]

supersede-falls :
    (reason : String) (now : ℕ) (o : Option Task) (a : String)
    → flying (map_option (supersede reason now) o) ≡ some a
    → flying o ≡ some a
supersede-falls reason now none a p = p
supersede-falls reason now (some t) a p = elim (Bool-cases (is_superseded t)) [
  | inl old ↦ absurd (ground arith)
  | inr other ↦ rw other at p
]

supersede-queued :
    (reason : String) (now : ℕ) (t : Task) → t.status ≡ queued → supersede reason now t ≡ t
supersede-queued reason now t q = elim (Bool-cases (is_superseded t)) [
  | inl old ↦ absurd (ground arith)
  | inr other ↦ rw other refl
]

pub Apart-supersede :
    (reason : String) (now : ℕ) (m : TaskManager)
    → Apart m
    → Apart (supersede_awaiting_driver reason now m)
unfolding supersede_awaiting_driver persist_locked
Apart-supersede reason now m h = elim (Bool-cases (anyb is_superseded (values m.tasks))) [
  | inr calm ↦ rw calm h
  | inl some_old ↦ rw some_old (
      Apart-record_each now (map (superseded reason now) (filterb is_superseded (values m.tasks)))
        (persist_locked (record m { tasks = supersede_each reason now m.tasks }))
        (record {
          apart = λ i j a b x p q. h.apart i j a b x (fell i a p) (fell j b q);
          ready = λ i w.
              let (t, g, q) = h.ready i w in
              (
                t,
                get-supersede_each reason now i m.tasks
                    ∙ rw g (ap some (supersede-queued reason now t q)),
                q,
              );
        }))
]
  where
    fell :
        (i a : String)
        → flying (get i (supersede_each reason now m.tasks)) ≡ some a
        → flying (get i m.tasks) ≡ some a
    fell i a p =
        supersede-falls reason now (get i m.tasks) a
          (ap flying (sym (get-supersede_each reason now i m.tasks)) ∙ p)
