-- ===== src/Deployment/Entry/System.antt =====
-- backend/service/deployment_entry.py: the start of a driver or CUDA install and of the driver's roll
-- back.
pub mod Outdated
pub mod Fits
use v_llm_dashboard.Deployment.Tasks.Thread.{supersede_awaiting_driver}
use v_llm_dashboard.Prelude.{
  ℕ, String, Bool, true, false, not, ◌&&◌, ◌||◌, Option, none, some, List, [], ◌∷◌, is_some,
  if◌then◌else◌, ◌==◌, string_eq, nat_eq,
}
use v_llm_dashboard.Prelude.Texts.{code_points, show_nat, ◌+text◌}
use v_llm_dashboard.Prelude.Regex.{full_match}
use v_llm_dashboard.Deployment.Versions.{
  driver_pkg_re, cuda_ver_re, vllm_ver_re, py_ver_re, is_valid_venv_name, major_driver_version,
  check_cuda_compat, check_runtime_toolkit_compat,
}
use v_llm_dashboard.Deployment.Entry.{
  Server, Chosen, Deployments, Moment, Refusal, not_remote, invalid_package, not_listed, too_old,
  invalid_version, invalid_mode, invalid_venv, invalid_python, mismatched, nothing_recorded, busy,
  in_progress, query_failed, Reply, refused, started, skipped, strip, or_string, dashed,
  is_remote_host, entry_guard, behind_guard, launch, asked,
}

-- what get_driver_list answers
pub record DriverList : Type 0 where
  pub success : Bool
  pub error : String
  pub drivers : List (String × ℕ)
  pub current_driver : String

unfoldable pub version_of : String → List (String × ℕ) → Option ℕ
version_of name [] = none
version_of name ((p, v) ∷ rows) = if p == name then some v else version_of name rows

abbrev major_text : Option ℕ → String
major_text none = ""
major_text (some n) = if n == 0 then "" else show_nat n

-- the snapshot of the driver that is installed, and the selection
abbrev choose_driver : String → String → DriverList → Chosen → Chosen
choose_driver name installed info c = record c {
  previous_pkg = or_string installed c.current_pkg;
  previous_driver = major_text (major_driver_version (code_points info.current_driver));
  driver = name;
}

-- behind the query of the drivers
unfoldable pub driver_listed : Moment → String → DriverList → String → Deployments → Reply
unfolding launch
driver_listed t name info installed d =
    if not info.success
    then refused (query_failed (or_string info.error "Failed to query driver list")) d
    else if not (is_some (version_of name info.drivers))
    then refused not_listed d
    else launch t "driver" ("Apply driver " +text name)
        ("Stop vLLM service" ∷ "Uninstall old driver" ∷ "Install target driver" ∷ "Wait for reboot"
          ∷ [])
        (record d { chosen = choose_driver name installed info d.chosen })

abbrev pub superseded_reason : String
superseded_reason = "Superseded by a newer driver task"

-- the older task that awaits a reboot is ended before the name is looked at
unfoldable pub driver_superseding : Moment → String → DriverList → String → Deployments → Reply
unfolding driver_listed asked supersede_awaiting_driver
driver_superseding t name info installed d =
    let d' = record d { manager = supersede_awaiting_driver superseded_reason t.now d.manager } in
    if full_match driver_pkg_re (code_points name)
    then driver_listed t name info installed (asked t d')
    else refused invalid_package d'

-- `start_driver_task`
unfoldable pub start_driver_task :
    Server → Moment → String → DriverList → String → Deployments → Reply
unfolding entry_guard driver_superseding
start_driver_task server t name info installed d =
    behind_guard (entry_guard server "driver" d.manager) d
      (driver_superseding t name info installed d)

abbrev pub cuda_title : String → String
cuda_title version = "Install CUDA toolkit " +text version

abbrev pub cuda_steps : String → List String
cuda_steps version =
    "Add NVIDIA CUDA repo"
    ∷ ("Install cuda-toolkit-" +text dashed version)
    ∷ "Write CUDA environment"
    ∷ "Verify nvcc"
    ∷ []

abbrev pub choose_cuda : String → Deployments → Deployments
choose_cuda version d = record d {
  chosen = record d.chosen { cuda = version; cuda_install_system = true };
}

-- behind the query of the drivers
unfoldable pub cuda_listed : Moment → String → DriverList → Deployments → Reply
unfolding launch
cuda_listed t version info d =
    if not info.success
    then refused (query_failed (or_string info.error "Failed to query driver version")) d
    else if check_cuda_compat (major_driver_version (code_points info.current_driver))
        (code_points version)
    then launch t "cuda" (cuda_title version) (cuda_steps version) (choose_cuda version d)
    else refused too_old d

unfoldable pub cuda_checked : Moment → String → DriverList → Deployments → Reply
unfolding cuda_listed asked
cuda_checked t version info d =
    if full_match cuda_ver_re (code_points version)
    then cuda_listed t version info (asked t d)
    else refused invalid_version d

-- where the host is remote and the toolkit is not to be installed, the selection is cleared
abbrev skip_cuda : Server → Deployments → Reply
skip_cuda server d =
    if is_remote_host server.host
    then skipped (record d { chosen = record d.chosen { cuda = ""; cuda_install_system = false } })
    else refused not_remote d

-- `start_cuda_task`
unfoldable pub start_cuda_task : Server → Moment → String → Bool → DriverList → Deployments → Reply
unfolding entry_guard cuda_checked
start_cuda_task server t version install_system info d =
    if install_system
    then behind_guard (entry_guard server "cuda" d.manager) d (cuda_checked t version info d)
    else skip_cuda server d

-- `start_rollback_driver`
unfoldable pub start_rollback_driver : Server → Moment → DriverList → String → Deployments → Reply
unfolding start_driver_task
start_rollback_driver server t info installed d =
    let previous = strip d.chosen.previous_pkg in
    if not (is_remote_host server.host)
    then refused not_remote d
    else if previous == ""
    then refused nothing_recorded d
    else if full_match driver_pkg_re (code_points previous)
    then start_driver_task server t previous info installed d
    else refused invalid_package d
