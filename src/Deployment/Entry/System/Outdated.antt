-- ===== src/Deployment/Entry/System/Outdated.antt =====
-- start_driver_task of backend/service/deployment_entry.py, on a name that is no driver package.
use v_llm_dashboard.Prelude.{
  ℕ, ◌≡◌, refl, ap, ◌∙◌, String, true, false, Option, none, some, List, [], ◌∷◌, anyb, map, filterb,
  string_eq, arith,
}
use v_llm_dashboard.Prelude.Dict.{Dict, get, values}
use v_llm_dashboard.Prelude.Texts.{code_points}
use v_llm_dashboard.Prelude.Regex.{full_match}
use v_llm_dashboard.Deployment.Tasks.{Task, TaskManager, persist_locked}
use v_llm_dashboard.Deployment.Tasks.Thread.{
  superseded, is_superseded, supersede_each, record_each, record_history, supersede_awaiting_driver,
}
use v_llm_dashboard.Deployment.Tasks.Histories.Superseding.{get-supersede_each}
use v_llm_dashboard.Deployment.Versions.{driver_pkg_re}
use v_llm_dashboard.Deployment.Entry.{
  Server, Deployments, Moment, Refusal, invalid_package, Reply, refused, left_by, entry_guard,
}
use v_llm_dashboard.Deployment.Entry.System.{
  DriverList, superseded_reason, driver_superseding, start_driver_task,
}

record_history-tasks :
    (t : Task) (now : ℕ) (m : TaskManager) → (record_history t now m).tasks ≡ m.tasks
unfolding record_history
record_history-tasks t now m = ground arith

record_each-tasks :
    (now : ℕ) (ts : List Task) (m : TaskManager) → (record_each now ts m).tasks ≡ m.tasks
record_each-tasks now [] m = refl
record_each-tasks now (t ∷ ts) m =
    record_each-tasks now ts (record_history t now m) ∙ record_history-tasks t now m

any_superseded :
    (i : String) (d : Dict String Task) (t : Task)
    → get i d ≡ some t
    → is_superseded t ≡ true
    → anyb is_superseded (values d) ≡ true
unfolding get
any_superseded i [] t g s = absurd (ground arith)
any_superseded i ((k, u) ∷ d) t g s = ground (arith, any_superseded i d t)

supersede_awaiting_driver-ends :
    (reason : String) (now : ℕ) (i : String) (m : TaskManager) (t : Task)
    → get i m.tasks ≡ some t
    → is_superseded t ≡ true
    → get i (supersede_awaiting_driver reason now m).tasks ≡ some (superseded reason now t)
unfolding supersede_awaiting_driver persist_locked
supersede_awaiting_driver-ends reason now i m t g s =
    let old : List Task = filterb is_superseded (values m.tasks) in
    let m' : TaskManager =
      persist_locked (record m { tasks = supersede_each reason now m.tasks }) in
    let same : (record_each now (map (superseded reason now) old) m').tasks ≡ m'.tasks =
      record_each-tasks now (map (superseded reason now) old) m' in
    rw (any_superseded i m.tasks t g s)
      (ap (get i) same ∙ get-supersede_each reason now i m.tasks ∙ rw (g, s) refl)

abbrev pub refusal_of : Reply → Option Refusal
refusal_of (refused r d) = some r
refusal_of _ = none

-- A request for a driver whose name is no driver package is refused, and yet it has ended every
-- driver task that awaited its reboot as failed, if the server is remote and no driver or CUDA install
-- is in flight.
pub start_driver_task-outdated :
    (server : Server) (w : Moment) (name : String) (info : DriverList) (installed : String)
    (d : Deployments) (i : String) (t : Task)
    → entry_guard server "driver" d.manager ≡ none
    → full_match driver_pkg_re (code_points name) ≡ false
    → get i d.manager.tasks ≡ some t
    → is_superseded t ≡ true
    → (refusal_of (start_driver_task server w name info installed d) ≡ some invalid_package)
      × (get i (left_by (start_driver_task server w name info installed d)).manager.tasks
          ≡ some (superseded superseded_reason w.now t))
unfolding start_driver_task driver_superseding
start_driver_task-outdated server w name info installed d i t free bad g s =
    rw (free, bad) (refl, supersede_awaiting_driver-ends superseded_reason w.now i d.manager t g s)
