-- ===== src/Lifecycle/Window.antt =====
-- What the stop window of a deployment does to each model.
use v_llm_dashboard.Prelude.{
  ℕ, String, ◌≡◌, refl, ap, ◌∙◌, Bool, true, false, not, ◌&&◌, ◌||◌, Option, none, some, List, [],
  ◌∷◌, arith, Bool-cases, inl, inr, if◌then◌else◌, ◌==◌, ==_refl, string_eq, nat_eq,
}
use v_llm_dashboard.Prelude.Dict.{Dict, get, values}
use v_llm_dashboard.Prelude.Set.{contains, discard, contains-discard}
use v_llm_dashboard.Schemas.{ModelInfo, ModelStatus, stopped, is_transient, status_eq}
use v_llm_dashboard.StateMachine.Each.{EachModel}
use v_llm_dashboard.StateMachine.Ops.{map_option}
use v_llm_dashboard.World.{World}
use v_llm_dashboard.Lifecycle.{
  is_stopping, stop_each, begin_deployment_stop_window, end_deployment_stop_window,
}
use v_llm_dashboard.Lifecycle.TakeDown.{
  take_down, Seen, seen, hit, is_hit, status_of, seen-stop_each,
}

affected-stop_each :
    (now : ℕ) (ms : List ModelInfo) (j : String) (w : World)
    → contains j (stop_each now ms w).1 ≡ is_hit j ms
unfolding stop_each contains
affected-stop_each now [] j w = refl
affected-stop_each now (m ∷ ms) j w = elim (Bool-cases (is_transient m.status)) [
  | inl up ↦ rw (up, affected-stop_each now ms j (take_down now m w)) refl
  | inr down ↦ rw (down, affected-stop_each now ms j w) refl
]

is_hit-values :
    (d : Dict String ModelInfo) (j : String) (m : ModelInfo)
    → get j d ≡ some m
    → is_transient m.status ≡ true
    → m.id ≡ j
    → is_hit j (values d) ≡ true
unfolding get
is_hit-values [] j m e up own = absurd (ground arith)
is_hit-values ((k, x) ∷ d) j m e up own = elim (Bool-cases (k == j)) [
  | inl same ↦ let here : x ≡ m = ground arith in rw (here, up, own, ==_refl j) refl
  | inr other ↦
      let there : get j d ≡ some m = ground arith in
      ground (arith, is_hit-values d j m there up own)
]

hit_not_up :
    (b : Bool) (o : Option ModelInfo) (r : Option ModelStatus) (s : ModelStatus)
    → ((m : ModelInfo) → o ≡ some m → is_transient m.status ≡ true → b ≡ true)
    → r ≡ (
        if b
        then map_option (λ x. stopped) (map_option (λ m. m.status) o)
        else map_option (λ m. m.status) o)
    → r ≡ some s
    → is_transient s ≡ false
hit_not_up b none r s h e f = absurd (ground arith)
hit_not_up true (some m) r s h e f = ground arith
hit_not_up false (some m) r s h e f = elim (Bool-cases (is_transient m.status)) [
  | inl up ↦ absurd (ground (arith, h m refl up))
  | inr down ↦ ground arith
]

status-if :
    (b : Bool) (s : Seen)
    → (if b then hit s else s).status ≡ (if b then map_option (λ x. stopped) s.status else s.status)
status-if true s = refl
status-if false s = refl

-- After the window has begun, no model is RUNNING or LOADING, if every model is kept under its own
-- id.
pub begin_window-quiet :
    (now : ℕ) (w : World) (j : String) (s : ModelStatus)
    → EachModel (λ k m. m.id ≡ k) w.registry.models
    → status_of j (begin_deployment_stop_window now w).0 ≡ some s
    → is_transient s ≡ false
unfolding begin_deployment_stop_window
begin_window-quiet now w j s own e =
    hit_not_up (is_hit j (values w.registry.models)) (get j w.registry.models) _ s
      (λ m f up. is_hit-values w.registry.models j m f up (rw f at (own j)))
      (ap (λ x. x.status) (seen-stop_each now (values w.registry.models) j w)
        ∙ status-if (is_hit j (values w.registry.models)) (seen j w))
      e

discard_each :
    (j : String) (is : List String) (w : World)
    → is_stopping j (end_deployment_stop_window is w) ≡ (is_stopping j w && not (contains j is))
unfolding is_stopping end_deployment_stop_window contains
discard_each j [] w = ground arith
discard_each j (i ∷ is) w =
    rw
      (
        discard_each j is (record w { stopping_models = discard i w.stopping_models }),
        contains-discard i j w.stopping_models,
      )
      (ground arith)

flag-if : (b : Bool) (s : Seen) → (if b then hit s else s).flagged ≡ (b || s.flagged)
flag-if true s = refl
flag-if false s = refl

-- The end of the window takes back exactly the flags of the models that the begin of the window
-- took down, and the others keep theirs.
pub end_window-begin_window :
    (now : ℕ) (w : World) (j : String)
    → is_stopping j (
        end_deployment_stop_window
          (begin_deployment_stop_window now w).1
          (begin_deployment_stop_window now w).0)
      ≡ (is_stopping j w && not (is_hit j (values w.registry.models)))
unfolding begin_deployment_stop_window
end_window-begin_window now w j =
    let ms = values w.registry.models in
    discard_each j (stop_each now ms w).1 (stop_each now ms w).0
    ∙ rw
        (
          affected-stop_each now ms j w,
          ap (λ x. x.flagged) (seen-stop_each now ms j w) ∙ flag-if (is_hit j ms) (seen j w),
        )
        (ground arith)
