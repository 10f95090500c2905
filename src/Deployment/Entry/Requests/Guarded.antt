-- ===== src/Deployment/Entry/Requests/Guarded.antt =====
-- backend/service/deployment_entry.py: the requests of the API and the exclusion of the pipelines.
use v_llm_dashboard.Prelude.{
  String, Bool, true, false, Option, none, some, List, [], ◌∷◌, refl, anyb, inl, inr, if◌then◌else◌,
  string_eq, Bool-cases,
}
use v_llm_dashboard.Prelude.Dict.{values}
use v_llm_dashboard.Deployment.Tasks.{
  TaskManager, new_task, create, persist_locked, inflight_domain, has_inflight,
}
use v_llm_dashboard.Deployment.Tasks.Exclusive.{Apart, create-IsApart}
use v_llm_dashboard.Deployment.Tasks.Histories.Superseding.{Apart-supersede}
use v_llm_dashboard.Deployment.Tasks.Thread.{supersede_awaiting_driver}
use v_llm_dashboard.Deployment.Entry.{
  Server, Deployments, Moment, Refusal, Reply, refused, skipped, left_by, entry_guard, behind_guard,
  launch, asked,
}
use v_llm_dashboard.Deployment.Entry.System.{
  DriverList, superseded_reason, driver_listed, driver_superseding, start_driver_task, cuda_listed,
  cuda_checked, start_cuda_task, start_rollback_driver,
}
use v_llm_dashboard.Deployment.Entry.Vllm.{
  Payload, vllm_probed, vllm_checked, start_vllm_task, rollback_checked, start_rollback_vllm,
}
use v_llm_dashboard.Deployment.Entry.Requests.{
  start_reboot_task, Request, install_driver, install_cuda, install_vllm, rollback_driver,
  rollback_vllm, reboot, respond_to,
}

record LeavesApart (reply : Reply) : Type 0 where
  holds : Apart (left_by reply).manager

if-LeavesApart :
    (b : Bool) (x y : Reply) → LeavesApart x → LeavesApart y → LeavesApart (if b then x else y)
if-LeavesApart true x y p q = p
if-LeavesApart false x y p q = q

behind_guard-LeavesApart :
    (g : Option Refusal) (d : Deployments) (reply : Reply)
    → Apart d.manager
    → LeavesApart reply
    → LeavesApart (behind_guard g d reply)
behind_guard-LeavesApart none d reply h p = p
behind_guard-LeavesApart (some r) d reply h p = record { holds = h }

launch-LeavesApart :
    (t : Moment) (kind title : String) (steps : List String) (d : Deployments)
    → Apart d.manager
    → LeavesApart (launch t kind title steps d)
unfolding launch create persist_locked
launch-LeavesApart t kind title steps d h =
    let m : TaskManager = d.manager in
    elim (Bool-cases (anyb (has_inflight (values m.tasks)) (inflight_domain kind))) [
      | inl busy ↦ record { holds = rw busy h }
      | inr free ↦ record {
        holds = rw free (
            create-IsApart t.id (new_task t.id kind title steps t.now) m.tasks m.threads refl free
              h);
      }
    ]

refused-LeavesApart : (r : Refusal) (d : Deployments) → Apart d.manager → LeavesApart (refused r d)
refused-LeavesApart r d h = record { holds = h }

skipped-LeavesApart : (d : Deployments) → Apart d.manager → LeavesApart (skipped d)
skipped-LeavesApart d h = record { holds = h }

ruleset replies = (
  if-LeavesApart, refused-LeavesApart, skipped-LeavesApart, launch-LeavesApart,
  behind_guard-LeavesApart,
)

module _ (server : Server) (t : Moment)
    (keeps : (m : TaskManager) → Apart m → Apart (t.meanwhile m)) where
  driver-LeavesApart :
      (name : String) (info : DriverList) (installed : String) (d : Deployments)
      → Apart d.manager
      → LeavesApart (start_driver_task server t name info installed d)
  unfolding start_driver_task driver_superseding driver_listed asked
  driver-LeavesApart name info installed d h =
      let ended : TaskManager = supersede_awaiting_driver superseded_reason t.now d.manager in
      let old : Apart ended = Apart-supersede superseded_reason t.now d.manager h in
      let later : Apart (t.meanwhile ended) = keeps ended old in search replies

  cuda-LeavesApart :
      (version : String) (system : Bool) (info : DriverList) (d : Deployments)
      → Apart d.manager
      → LeavesApart (start_cuda_task server t version system info d)
  unfolding start_cuda_task cuda_checked cuda_listed asked
  cuda-LeavesApart version system info d h =
      let later : Apart (t.meanwhile d.manager) = keeps d.manager h in search replies depth 8

  vllm-LeavesApart :
      (p : Payload) (nvcc : String) (d : Deployments)
      → Apart d.manager
      → LeavesApart (start_vllm_task server t p nvcc d)
  unfolding start_vllm_task vllm_checked vllm_probed asked
  vllm-LeavesApart p nvcc d h =
      let later : Apart (t.meanwhile d.manager) = keeps d.manager h in search replies

  rollback_vllm-LeavesApart :
      (d : Deployments) → Apart d.manager → LeavesApart (start_rollback_vllm server t d)
  unfolding start_rollback_vllm rollback_checked
  rollback_vllm-LeavesApart d h = search replies

  rollback_driver-LeavesApart :
      (info : DriverList) (installed : String) (d : Deployments)
      → Apart d.manager
      → LeavesApart (start_rollback_driver server t info installed d)
  unfolding start_rollback_driver
  rollback_driver-LeavesApart info installed d h =
      let again : (name : String) → LeavesApart (start_driver_task server t name info installed d) =
        λ name. driver-LeavesApart name info installed d h in
      search replies

  -- Whatever the API asks for and the machine answers, refused or not, two tasks in flight are of
  -- kinds that do not exclude each other and a thread that waits has a queued task, if that held
  -- before and what the others did in the meantime kept it.
  pub respond_to-Apart :
      (r : Request) (d : Deployments)
      → Apart d.manager
      → Apart (left_by (respond_to server t r d)).manager
  unfolding respond_to start_reboot_task
  respond_to-Apart (install_driver name info installed) d h =
      (driver-LeavesApart name info installed d h).holds
  respond_to-Apart (install_cuda version system info) d h =
      (cuda-LeavesApart version system info d h).holds
  respond_to-Apart (install_vllm p nvcc) d h = (vllm-LeavesApart p nvcc d h).holds
  respond_to-Apart (rollback_driver info installed) d h =
      (rollback_driver-LeavesApart info installed d h).holds
  respond_to-Apart rollback_vllm d h = (rollback_vllm-LeavesApart d h).holds
  respond_to-Apart reboot d h =
      (behind_guard-LeavesApart (entry_guard server "reboot" d.manager) d
        (launch t "reboot" "Reboot server" ("Reboot server" ∷ []) d) h
        (launch-LeavesApart t "reboot" "Reboot server" ("Reboot server" ∷ []) d h)).holds
