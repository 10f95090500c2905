-- ===== src/Deployment/Entry/Vllm.antt =====
-- backend/service/deployment_entry.py: the start of a vLLM install and of its roll back.
use v_llm_dashboard.Prelude.{
  String, Bool, not, ◌&&◌, ◌||◌, Option, none, some, List, [], ◌∷◌, if◌then◌else◌, ◌==◌, string_eq,
  nat_eq,
}
use v_llm_dashboard.Prelude.Texts.{code_points, ◌+text◌}
use v_llm_dashboard.Prelude.Regex.{full_match}
use v_llm_dashboard.Deployment.Versions.{
  vllm_ver_re, py_ver_re, is_valid_venv_name, check_runtime_toolkit_compat,
}
use v_llm_dashboard.Deployment.Entry.{
  Server, Deployments, Moment, Refusal, invalid_version, invalid_mode, invalid_venv, invalid_python,
  mismatched, nothing_recorded, Reply, refused, strip, or_string, entry_guard, behind_guard, launch,
  asked,
}

-- the payload of a vLLM install, "" for a key that is missing
pub record Payload : Type 0 where
  pub version : String
  pub runtime_mode : String
  pub env_mode : String
  pub venv_name : String
  pub python_version : String
  pub cuda_version : String
  pub auto_register_service : Bool

-- the toolkit that the install meets: the chosen one, or what the probe of nvcc prints
abbrev effective_cuda : Bool → String → String → String
effective_cuda install_system chosen nvcc =
    if install_system then chosen else if strip nvcc == "NO_NVCC" then "" else strip nvcc

abbrev vllm_title : String → String
vllm_title version =
    if version == "latest" then "Install vLLM (latest)" else "Install vLLM " +text version

abbrev vllm_steps : Bool → List String
vllm_steps auto =
    "Stop vLLM service"
    ∷ "Prepare Python environment"
    ∷ "Install vLLM"
    ∷ "Verify version"
    ∷ "Install precompiled kernels"
    ∷ (if auto then "Write supervisor template" ∷ [] else [])

unfoldable pub vllm_probed : Moment → String → Payload → String → Deployments → Reply
unfolding launch
vllm_probed t version p nvcc d =
    let selected = strip p.cuda_version in
    let effective = effective_cuda d.chosen.cuda_install_system selected nvcc in
    if check_runtime_toolkit_compat (p.runtime_mode == "system") (code_points selected)
      (code_points effective)
    then launch t "vllm" (vllm_title version) (vllm_steps p.auto_register_service) (record d {
      chosen = record d.chosen { vllm_version = version; vllm_runtime = p.runtime_mode };
    })
    else refused mismatched d

-- the checks of the payload, up to the first probe
unfoldable pub payload_error : Server → String → Payload → Option Refusal
payload_error server version p =
    let venv = or_string (or_string (strip p.venv_name) server.venv_name) ".vllm" in
    let python = strip p.python_version in
    if not (version == "latest") && not (full_match vllm_ver_re (code_points version))
    then some invalid_version
    else if not (p.runtime_mode == "builtin" || p.runtime_mode == "system")
    then some invalid_mode
    else if not (p.env_mode == "new" || p.env_mode == "existing")
    then some invalid_mode
    else if not (is_valid_venv_name (code_points venv))
    then some invalid_venv
    else if not (python == "") && not (full_match py_ver_re (code_points python))
    then some invalid_python
    else none

unfoldable pub vllm_checked : Server → Moment → Payload → String → Deployments → Reply
unfolding payload_error vllm_probed asked
vllm_checked server t p nvcc d =
    let version = strip (or_string p.version "latest") in
    behind_guard (payload_error server version p) d (vllm_probed t version p nvcc (asked t d))

-- `start_vllm_task`
unfoldable pub start_vllm_task : Server → Moment → Payload → String → Deployments → Reply
unfolding entry_guard vllm_checked
start_vllm_task server t p nvcc d =
    behind_guard (entry_guard server "vllm" d.manager) d (vllm_checked server t p nvcc d)

unfoldable pub rollback_checked : Server → Moment → Deployments → Reply
unfolding launch
rollback_checked server t d =
    let target = strip d.chosen.previous_vllm in
    let venv = or_string (or_string d.chosen.vllm_venv server.venv_name) ".vllm" in
    if target == ""
    then refused nothing_recorded d
    else if not (full_match vllm_ver_re (code_points target))
    then refused invalid_version d
    else if not (is_valid_venv_name (code_points venv))
    then refused invalid_venv d
    else launch t "rollback_vllm" ("Roll back vLLM to " +text target)
        ("Stop vLLM service"
          ∷ ("Reinstall vllm==" +text target)
          ∷ "Verify version"
          ∷ "Install precompiled kernels"
          ∷ [])
        d

-- `start_rollback_vllm`
unfoldable pub start_rollback_vllm : Server → Moment → Deployments → Reply
unfolding entry_guard rollback_checked
start_rollback_vllm server t d =
    behind_guard (entry_guard server "rollback_vllm" d.manager) d (rollback_checked server t d)
