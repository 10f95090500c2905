-- ===== src/Deployment/Entry/Reconcile.antt =====
-- reconcile_driver_task of backend/service/deployment_entry.py: the driver task that awaits its reboot
-- against the driver that the server runs.
use v_llm_dashboard.Prelude.{
  ℕ, String, Bool, true, false, Option, none, some, List, [], ◌∷◌, ltb, if◌then◌else◌, ◌==◌, nat_eq,
}
use v_llm_dashboard.Prelude.Eq.{option_eq}
use v_llm_dashboard.Prelude.Dict.{values}
use v_llm_dashboard.Prelude.Texts.{code_points, show_nat}
use v_llm_dashboard.Deployment.Tasks.{Task}
use v_llm_dashboard.Deployment.Tasks.Thread.{is_superseded, complete_driver}
use v_llm_dashboard.Deployment.Versions.{major_driver_version}
use v_llm_dashboard.Deployment.Entry.{Chosen, Deployments}

-- of two tasks the one that was created later, the first of those created at once
abbrev newer : Task → Option Task → Option Task
newer t none = some t
newer t (some u) = if ltb t.created_at u.created_at then some u else some t

-- `pending_driver_task`: the newest driver task that awaits its reboot
unfoldable pub pending_driver_task : List Task → Option Task
pending_driver_task [] = none
pending_driver_task (t ∷ tasks) =
    let later = pending_driver_task tasks in if is_superseded t then newer t later else later

-- what the result of the task names: the package and its major version
pub record Target : Type 0 where
  pub name : String
  pub target_major : Option ℕ

-- what nvidia-smi prints, and whether it ran; none where the server cannot be asked
abbrev pub Smi : Type 0
Smi = Option (Bool × String)

abbrev choose_verified : Target → ℕ → Chosen → Chosen
choose_verified target major c = record c {
  current_pkg = target.name;
  previous_driver = show_nat major;
}

abbrev pub verify : Task → Target → Option ℕ → ℕ → Deployments → Deployments
verify t target none now d = d
verify t target (some major) now d =
    if target.target_major == some major
    then record d {
      manager = complete_driver t.id now d.manager;
      chosen = choose_verified target major d.chosen;
    }
    else d

-- `reconcile_driver_task`
unfoldable pub reconcile_driver_task : (String → Target) → Smi → ℕ → Deployments → Deployments
unfolding pending_driver_task complete_driver
reconcile_driver_task results none now d = d
reconcile_driver_task results (some (false, out)) now d = d
reconcile_driver_task results (some (true, out)) now d =
    elim (pending_driver_task (values d.manager.tasks)) [
      | none ↦ d
      | some t ↦ verify t (results t.id) (major_driver_version (code_points out)) now d
    ]
