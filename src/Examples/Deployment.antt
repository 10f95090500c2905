-- ===== src/Examples/Deployment.antt =====
-- A driver task up to its reboot, beside a vLLM task.
use v_llm_dashboard.Prelude.{◌≡◌, refl, true, none, some, List, [], ◌∷◌, string_eq}
use v_llm_dashboard.Prelude.Dict.{get, set}
use v_llm_dashboard.Deployment.Tasks.{
  Task, TaskManager, running, create, persist_locked, has_inflight, inflight_domain,
}
use v_llm_dashboard.Deployment.Tasks.Thread.{
  returned, was_cancelled, begin, finish, await_reboot, cancel, complete_driver, reattach,
  finalize_reattached, record_history, push_history,
}
use v_llm_dashboard.Deployment.Recovery.{recover, recover_each, recovered, recover-Apart}
use v_llm_dashboard.Prelude.Set.{contains}
use v_llm_dashboard.Deployment.Tasks.Exclusive.{Apart}
use v_llm_dashboard.Deployment.Tasks.Runs.{
  Event, creating, beginning, finishing, awaiting_boot, completing, cancelling, reattaching,
  finalizing, step, run, run_unobstructed, run-Apart,
}

-- a task that ran when the last process ended
abbrev old_task : Task
old_task = record {
  id = "o";
  kind = "rollback_vllm";
  title = "Roll back";
  steps = [];
  current_step = none;
  status = running;
  error = "";
  created_at = 0;
  started_at = some 0;
  finished_at = none;
}

abbrev restarted : TaskManager
restarted = recover 1 (some old_task ∷ []) []

abbrev history : List Event
history =
    creating "d" "driver" "Apply driver" ("stop" ∷ "install" ∷ []) 1
    ∷ creating "c" "cuda" "Install CUDA" ("stop" ∷ []) 2
    ∷ beginning "d" 3
    ∷ creating "v" "vllm" "Install vLLM" ("stop" ∷ []) 4
    ∷ beginning "v" 4
    ∷ cancelling "v"
    ∷ finishing "v" was_cancelled 5
    ∷ awaiting_boot "d"
    ∷ finishing "d" returned 5
    ∷ completing "d" 6
    ∷ reattaching "o"
    ∷ finalizing "o" "exited with code 1" 7
    ∷ []

unobstructed : run_unobstructed history restarted ≡ true
unfolding run_unobstructed step create begin finish await_reboot cancel complete_driver reattach
    finalize_reattached recover recover_each recovered persist_locked get set has_inflight contains
    inflight_domain record_history push_history
unobstructed = refl

run-Apart_example : Apart (run history restarted)
run-Apart_example =
    run-Apart history restarted unobstructed (recover-Apart 1 (some old_task ∷ []) [])
