-- ===== src/Deployment/Entry/System/Fits.antt =====
-- start_cuda_task of backend/service/deployment_entry.py: what holds of a task that starts.
use v_llm_dashboard.Prelude.{
  ℕ, ◌≡◌, ◌≤◌, refl, String, Bool, true, false, not, Option, none, some, List, anyb, ltb,
  if◌then◌else◌, arith, inl, inr, Bool-cases,
}
use v_llm_dashboard.Prelude.Dict.{values}
use v_llm_dashboard.Prelude.Texts.{code_points}
use v_llm_dashboard.Prelude.Regex.{full_match}
use v_llm_dashboard.Deployment.Tasks.{create, inflight_domain, has_inflight}
use v_llm_dashboard.Deployment.Versions.{
  cuda_ver_re, cuda_min_driver, required_by, check_cuda_compat, major_driver_version,
}
use v_llm_dashboard.Deployment.Entry.{
  Server, Deployments, Moment, Refusal, Reply, started, refused, entry_guard, behind_guard, launch,
  asked,
}
use v_llm_dashboard.Deployment.Entry.System.{
  DriverList, cuda_listed, cuda_checked, start_cuda_task, cuda_title, cuda_steps, choose_cuda,
}

abbrev pub has_started : Reply → Bool
has_started (started d) = true
has_started _ = false

check_cuda_compat-minimum :
    (version : String) (driver : Option ℕ) (need have : ℕ)
    → check_cuda_compat driver (code_points version) ≡ true
    → required_by (code_points version) cuda_min_driver ≡ some need
    → driver ≡ some have
    → need ≤ have
unfolding check_cuda_compat
check_cuda_compat-minimum version driver need have ok r v =
    let h : not (ltb have need) ≡ true = rw (r, v) at ok in ground arith

not-injective : (b : Bool) → not b ≡ false → b ≡ true
not-injective true h = refl
not-injective false h = absurd (ground arith)

behind_guard-started :
    (g : Option Refusal) (d : Deployments) (reply : Reply)
    → has_started (behind_guard g d reply) ≡ true
    → has_started reply ≡ true
behind_guard-started none d reply h = h
behind_guard-started (some r) d reply h = absurd (ground arith)

-- a task starts on one side of a test whose other side refuses
then_started :
    (b : Bool) (x : Reply) (r : Refusal) (d : Deployments)
    → has_started (if b then x else refused r d) ≡ true
    → (b ≡ true) × (has_started x ≡ true)
then_started true x r d h = (refl, h)
then_started false x r d h = absurd (ground arith)

else_started :
    (b : Bool) (x : Reply) (r : Refusal) (d : Deployments)
    → has_started (if b then refused r d else x) ≡ true
    → (b ≡ false) × (has_started x ≡ true)
else_started true x r d h = absurd (ground arith)
else_started false x r d h = (refl, h)

launch-free :
    (t : Moment) (kind title : String) (steps : List String) (d : Deployments)
    → has_started (launch t kind title steps d) ≡ true
    → anyb (has_inflight (values d.manager.tasks)) (inflight_domain kind) ≡ false
unfolding launch create
launch-free t kind title steps d h =
    elim (Bool-cases (anyb (has_inflight (values d.manager.tasks)) (inflight_domain kind))) [
      | inl busy ↦ absurd (let h' : false ≡ true = rw busy at h in ground arith)
      | inr free ↦ free
    ]

-- A CUDA install that starts is of a well-formed version, on a server that answered, and where the
-- installed driver and the minimum of the version are known the driver meets it. No driver or CUDA
-- install was in flight when its task was made.
pub start_cuda_task-fits :
    (server : Server) (t : Moment) (version : String) (info : DriverList) (d : Deployments)
    (need have : ℕ)
    → has_started (start_cuda_task server t version true info d) ≡ true
    → required_by (code_points version) cuda_min_driver ≡ some need
    → major_driver_version (code_points info.current_driver) ≡ some have
    → (full_match cuda_ver_re (code_points version) ≡ true)
      × (info.success ≡ true)
      × (need ≤ have)
      × (anyb (has_inflight (values (t.meanwhile d.manager).tasks)) (inflight_domain "cuda")
          ≡ false)
unfolding start_cuda_task cuda_checked cuda_listed asked
start_cuda_task-fits server t version info d need have s r v =
    let checked =
      behind_guard-started (entry_guard server "cuda" d.manager) d (cuda_checked t version info d)
        s in
    let (shape, listed) = then_started _ _ _ _ checked in
    let (answered, compared) = else_started (not info.success) _ _ _ listed in
    let (fits, launched) = then_started _ _ _ _ compared in
    let driver = major_driver_version (code_points info.current_driver) in
    (
      shape,
      not-injective info.success answered,
      check_cuda_compat-minimum version driver need have fits r v,
      launch-free t "cuda" (cuda_title version) (cuda_steps version)
          (choose_cuda version (asked t d)) launched,
    )
