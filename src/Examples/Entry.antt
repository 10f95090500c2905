-- ===== src/Examples/Entry.antt =====
-- Requests for deployments: beside a driver task that awaits its reboot, and on an idle server.
use v_llm_dashboard.Prelude.{
  ◌≡◌, ◌≤◌, refl, true, false, none, some, [], ◌∷◌, All, map, arith, string_eq, anyb,
}
use v_llm_dashboard.Prelude.Dict.{get, set, values}
use v_llm_dashboard.Prelude.Texts.{code_points}
use v_llm_dashboard.Prelude.Decimal.{read_digits}
use v_llm_dashboard.Prelude.Words.{drop_spaces, rstrip_spaces}
use v_llm_dashboard.Prelude.Regex.{
  full_match, match_prefix, is_at_end, some_at_end, matches, step_over, concat_map, shorter, rounds,
  taken, take_group,
}
use v_llm_dashboard.Deployment.Tasks.{
  Task, new_task, awaiting_reboot, success, persist_locked, create, inflight_domain, has_inflight,
}
use v_llm_dashboard.Deployment.Entry.Reconcile.{pending_driver_task, reconcile_driver_task}
use v_llm_dashboard.Deployment.Tasks.Thread.{complete_driver, record_history, superseded}
use v_llm_dashboard.Deployment.Tasks.Exclusive.{Apart}
use v_llm_dashboard.Deployment.Versions.{
  driver_pkg_re, cuda_ver_re, cuda_min_driver, required_by, check_cuda_compat, key_ltb,
  cuda_ver_key, driver_max_cuda, major_driver_version,
}
use v_llm_dashboard.Deployment.Versions.Newest.{driver_max_cuda-newest}
use v_llm_dashboard.Deployment.Entry.{
  Server, Chosen, Deployments, Moment, invalid_package, left_by, entry_guard, first_inflight,
  launch, asked,
}
use v_llm_dashboard.Deployment.Entry.System.{
  DriverList, superseded_reason, start_driver_task, start_cuda_task, cuda_checked, cuda_listed,
}
use v_llm_dashboard.Deployment.Entry.System.Outdated.{refusal_of, start_driver_task-outdated}
use v_llm_dashboard.Deployment.Entry.System.Fits.{has_started, start_cuda_task-fits}
use v_llm_dashboard.Deployment.Entry.Requests.{Request, install_driver, respond_to}
use v_llm_dashboard.Deployment.Entry.Requests.Guarded.{respond_to-Apart}

driver_max_cuda-newest_example :
    (check_cuda_compat (some 595) (driver_max_cuda (some 595)) ≡ true)
    × All
        (λ e.
          check_cuda_compat (some 595) e.0 ≡ true
          → key_ltb (cuda_ver_key (driver_max_cuda (some 595))) (cuda_ver_key e.0) ≡ false)
        cuda_min_driver
driver_max_cuda-newest_example = driver_max_cuda-newest 595

abbrev server : Server
server = record { host = "10.0.0.5"; venv_name = "" }

abbrev nothing_chosen : Chosen
nothing_chosen = record {
  driver = "";
  cuda = "";
  cuda_install_system = true;
  vllm_version = "";
  vllm_runtime = "builtin";
  current_pkg = "";
  previous_pkg = "";
  previous_driver = "";
  previous_vllm = "";
  vllm_venv = "";
}

abbrev moment : Moment
moment = record { id = "t2"; now = 9; meanwhile = λ m. m }

abbrev listing : DriverList
listing = record {
  success = true;
  error = "";
  drivers = ("nvidia-driver-595", 595) ∷ [];
  current_driver = "595.91.07";
}

abbrev idle : Deployments
idle = record {
  manager = record { tasks = []; cancel_set = []; threads = []; tasks_file = []; history = [] };
  chosen = nothing_chosen;
}

idle-Apart : Apart idle.manager
unfolding get
idle-Apart = record {
  apart = λ i j a b x p q. absurd (ground arith);
  ready = λ i w. absurd (ground arith);
}

abbrev wanted : Request
wanted = install_driver "nvidia-driver-595" listing ""

respond_to-Apart_example : Apart (left_by (respond_to server moment wanted idle)).manager
respond_to-Apart_example = respond_to-Apart server moment (λ m h. h) wanted idle idle-Apart

abbrev awaiting : Task
awaiting = record (new_task "t1" "driver" "Apply driver" [] 1) { status = awaiting_reboot }

abbrev rebooting : Deployments
rebooting = record idle { manager = record idle.manager { tasks = ("t1", awaiting) ∷ [] } }

unguarded : entry_guard server "driver" rebooting.manager ≡ none
unfolding entry_guard first_inflight has_inflight inflight_domain
unguarded = refl

mistyped : full_match driver_pkg_re (code_points "nvidia-drivr-595") ≡ false
unfolding full_match some_at_end is_at_end matches step_over concat_map shorter rounds taken
    take_group
mistyped = refl

found : get "t1" rebooting.manager.tasks ≡ some awaiting
unfolding get
found = refl

start_driver_task-outdated_example :
    (refusal_of (start_driver_task server moment "nvidia-drivr-595" listing "" rebooting)
      ≡ some invalid_package)
    × (get "t1"
          (left_by
            (start_driver_task server moment "nvidia-drivr-595" listing "" rebooting)).manager.tasks
        ≡ some (superseded superseded_reason 9 awaiting))
start_driver_task-outdated_example =
    start_driver_task-outdated server moment "nvidia-drivr-595" listing "" rebooting "t1" awaiting
      unguarded mistyped found refl

starts : has_started (start_cuda_task server moment "13.2" true listing idle) ≡ true
unfolding start_cuda_task entry_guard first_inflight has_inflight inflight_domain cuda_checked
    cuda_listed launch create asked full_match match_prefix some_at_end is_at_end matches step_over
    concat_map shorter rounds taken take_group check_cuda_compat required_by major_driver_version
    read_digits drop_spaces rstrip_spaces get set
starts = refl

minimum : required_by (code_points "13.2") cuda_min_driver ≡ some 595
unfolding required_by
minimum = refl

installed : major_driver_version (code_points listing.current_driver) ≡ some 595
unfolding major_driver_version match_prefix matches step_over concat_map shorter rounds taken
    take_group read_digits drop_spaces rstrip_spaces get set
installed = refl

start_cuda_task-fits_example :
    (full_match cuda_ver_re (code_points "13.2") ≡ true)
    × (listing.success ≡ true)
    × (595 ≤ 595)
    × (anyb (has_inflight (values idle.manager.tasks)) (inflight_domain "cuda") ≡ false)
start_cuda_task-fits_example =
    start_cuda_task-fits server moment "13.2" listing idle 595 595 starts minimum installed

-- the awaiting task is completed once its driver runs
completes :
    map
      (λ t. t.status)
      (values
        (reconcile_driver_task
          (λ id. record { name = "nvidia-driver-595"; target_major = some 595 })
          (some (true, "595.91.07"))
          20
          rebooting).manager.tasks)
    ≡ success ∷ []
unfolding reconcile_driver_task complete_driver persist_locked record_history pending_driver_task
    major_driver_version match_prefix matches step_over concat_map shorter rounds taken take_group
    read_digits drop_spaces rstrip_spaces get set
completes = refl
