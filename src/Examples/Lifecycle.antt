-- ===== src/Examples/Lifecycle.antt =====
-- Starts, the wait after a kill, and the stop window, on two models.
use v_llm_dashboard.Prelude.{
  ℕ, ◌≡◌, refl, Bool, true, false, some, List, [], ◌∷◌, arith, ==_iff, string_eq, nat_eq,
}
use v_llm_dashboard.Prelude.Dict.{get, set, remove}
use v_llm_dashboard.Prelude.Set.{contains, add, discard}
use v_llm_dashboard.Schemas.{running, loading, stopped, is_transient}
use v_llm_dashboard.StateMachine.Methods.{update_model_status, clear_current_model}
use v_llm_dashboard.StateMachine.Each.{EachModel}
use v_llm_dashboard.World.{World, clear}
use v_llm_dashboard.Lifecycle.{begin_deployment_stop_window, stop_each, set_stopped}
use v_llm_dashboard.Lifecycle.TakeDown.{status_of}
use v_llm_dashboard.Lifecycle.Window.{begin_window-quiet}
use v_llm_dashboard.Examples.Fixtures.{world_of}

abbrev idle : World
idle = world_of stopped stopped

abbrev rounds : List (Bool × ℕ)
rounds = (false, 1000000) ∷ (false, 2500000) ∷ (true, 3600000) ∷ (true, 5000000) ∷ []

abbrev busy : World
busy = world_of running loading

own_ids : EachModel (λ k m. m.id ≡ k) busy.registry.models
unfolding get
own_ids k = ground (arith, ==_iff "a" k, ==_iff "b" k)

down : status_of "b" (begin_deployment_stop_window 7 busy).0 ≡ some stopped
unfolding begin_deployment_stop_window stop_each set_stopped clear clear_current_model get set
    remove add discard contains update_model_status
down = refl

begin_window-quiet_example : is_transient stopped ≡ false
begin_window-quiet_example = begin_window-quiet 7 busy "b" stopped own_ids down
