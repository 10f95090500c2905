-- ===== src/Deployment/Entry.antt =====
-- backend/service/deployment_entry.py: what the entry points share that the API calls to start a
-- deployment task. What the remote machine answers is an argument, and so is what the other requests
-- and threads do to the tasks in the meantime. A task's result, which nothing modelled here reads, is
-- left out.
pub mod System
pub mod Vllm
pub mod Requests
pub mod Reconcile
use Prim.Native.Char.{code}
use v_llm_dashboard.Prelude.{
  ℕ, String, Bool, true, false, not, ◌&&◌, ◌||◌, Option, none, some, List, [], ◌∷◌, if◌then◌else◌,
  ◌==◌, string_eq, nat_eq,
}
use v_llm_dashboard.Prelude.Dict.{values}
use v_llm_dashboard.Prelude.Texts.{◌+text◌}
use v_llm_dashboard.Prelude.Regex.{is_space}
use v_llm_dashboard.Deployment.Tasks.{Task, TaskManager, create, inflight_domain, has_inflight}

-- the settings of the server that the entry points read
pub record Server : Type 0 where
  pub host : String
  pub venv_name : String

-- the values of the deployment state that the entry points read and write
pub record Chosen : Type 0 where
  pub driver : String
  pub cuda : String
  pub cuda_install_system : Bool
  pub vllm_version : String
  pub vllm_runtime : String
  pub current_pkg : String
  pub previous_pkg : String
  pub previous_driver : String
  pub previous_vllm : String
  pub vllm_venv : String

pub record Deployments : Type 0 where
  pub manager : TaskManager
  pub chosen : Chosen

-- the id of a new task, the clock, and what others do to the tasks while the machine is asked
pub record Moment : Type 0 where
  pub id : String
  pub now : ℕ
  pub meanwhile : TaskManager → TaskManager

-- the DeploymentError of a request
pub data Refusal : Type 0 where
  not_remote invalid_package not_listed too_old invalid_version invalid_mode invalid_venv : Refusal
  invalid_python mismatched nothing_recorded busy : Refusal
  in_progress query_failed : String → Refusal

-- what a request returns, with what it leaves: an error, a task, or None
pub data Reply : Type 0 where
  refused : Refusal → Deployments → Reply
  started skipped : Deployments → Reply

abbrev pub left_by : Reply → Deployments
left_by (refused r d) = d
left_by (started d) = d
left_by (skipped d) = d

-- s.strip()
abbrev pub drop_front : String → String
drop_front String.[] = ""
drop_front (String.◌∷◌ c text) =
    let rest = drop_front text in if is_space (code c) then rest else String.◌∷◌ c text

abbrev pub drop_back : String → String
drop_back String.[] = ""
drop_back (String.◌∷◌ c text) =
    let rest = drop_back text in if is_space (code c) && rest == "" then "" else String.◌∷◌ c rest

abbrev pub strip : String → String
strip text = drop_back (drop_front text)

-- s or t
abbrev pub or_string : String → String → String
or_string s t = if s == "" then t else s

-- s.replace(".", "-")
abbrev pub dashed : String → String
dashed String.[] = ""
dashed (String.◌∷◌ c text) = (if code c == b'.' then "-" else String.◌∷◌ c "") +text dashed text

-- `_require_remote` and `_reject_inflight`
unfoldable pub first_inflight : List Task → List String → Option String
unfolding has_inflight
first_inflight tasks [] = none
first_inflight tasks (kind ∷ kinds) =
    if has_inflight tasks kind then some kind else first_inflight tasks kinds

abbrev pub is_remote_host : String → Bool
is_remote_host host = not (host == "" || host == "localhost" || host == "127.0.0.1")

abbrev pub by_inflight : Option String → Option Refusal
by_inflight none = none
by_inflight (some kind) = some (in_progress kind)

unfoldable pub entry_guard : Server → String → TaskManager → Option Refusal
unfolding first_inflight inflight_domain
entry_guard server kind m =
    if is_remote_host server.host
    then by_inflight (first_inflight (values m.tasks) (inflight_domain kind))
    else some not_remote

abbrev pub behind_guard : Option Refusal → Deployments → Reply → Reply
behind_guard none d reply = reply
behind_guard (some r) d reply = refused r d

-- `task_manager.create`, which looks for tasks in flight once more
abbrev pub created : Option TaskManager → Deployments → Reply
created none d = refused busy d
created (some m) d = started (record d { manager = m })

unfoldable pub launch : Moment → String → String → List String → Deployments → Reply
unfolding create
launch t kind title steps d = created (create t.id kind title steps t.now d.manager) d

-- the tasks once the machine has answered
unfoldable pub asked : Moment → Deployments → Deployments
asked t d = record d { manager = t.meanwhile d.manager }
