-- ===== src/Deployment/Entry/Requests.antt =====
-- backend/service/deployment_entry.py: the start of a reboot, and every request of the API.
pub mod Guarded
use v_llm_dashboard.Prelude.{String, Bool, List, [], ◌∷◌}
use v_llm_dashboard.Deployment.Entry.{
  Server, Deployments, Moment, Reply, entry_guard, behind_guard, launch,
}
use v_llm_dashboard.Deployment.Entry.System.{
  DriverList, start_driver_task, start_cuda_task, start_rollback_driver,
}
use v_llm_dashboard.Deployment.Entry.Vllm.{Payload, start_vllm_task, start_rollback_vllm}

-- `start_reboot_task`
unfoldable pub start_reboot_task : Server → Moment → Deployments → Reply
unfolding entry_guard launch
start_reboot_task server t d =
    behind_guard (entry_guard server "reboot" d.manager) d
      (launch t "reboot" "Reboot server" ("Reboot server" ∷ []) d)

-- what the API asks for, with what the machine answers
pub data Request : Type 0 where
  install_driver : String → DriverList → String → Request
  install_cuda : String → Bool → DriverList → Request
  install_vllm : Payload → String → Request
  rollback_driver : DriverList → String → Request
  rollback_vllm reboot : Request

unfoldable pub respond_to : Server → Moment → Request → Deployments → Reply
unfolding start_driver_task start_cuda_task start_vllm_task start_rollback_driver
    start_rollback_vllm start_reboot_task
respond_to server t (install_driver name info installed) d =
    start_driver_task server t name info installed d
respond_to server t (install_cuda version system info) d =
    start_cuda_task server t version system info d
respond_to server t (install_vllm p nvcc) d = start_vllm_task server t p nvcc d
respond_to server t (rollback_driver info installed) d =
    start_rollback_driver server t info installed d
respond_to server t rollback_vllm d = start_rollback_vllm server t d
respond_to server t reboot d = start_reboot_task server t d
