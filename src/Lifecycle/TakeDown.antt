-- ===== src/Lifecycle/TakeDown.antt =====
-- What the loop of the stop window does to one id.
use v_llm_dashboard.Prelude.{
  ℕ, String, ◌≡◌, refl, sym, ap, ◌∙◌, Bool, true, false, ◌&&◌, ◌||◌, Option, none, some, List, [],
  ◌∷◌, arith, anyb, Bool-cases, Option-cases, inl, inr, if◌then◌else◌, ◌==◌, ==_iff, string_eq,
  nat_eq,
}
use v_llm_dashboard.Prelude.Dict.{get, get-remove}
use v_llm_dashboard.Prelude.Set.{add, contains-add}
use v_llm_dashboard.Schemas.{ModelInfo, ModelStatus, stopped, is_transient, status_eq}
use v_llm_dashboard.StateMachine.{StateMachine, schedule_save, start_timer}
use v_llm_dashboard.StateMachine.Methods.{update_model_status, clear_current_model, with_status}
use v_llm_dashboard.StateMachine.Ops.{map_option}
use v_llm_dashboard.Lifecycle.Starting.{get-update_model_status}
use v_llm_dashboard.World.{World, CrashEvent, clear, cancel_task, cancel_if}
use v_llm_dashboard.Lifecycle.{is_stopping, set_stopped, stop_each}

-- the id belongs to a listed model that is RUNNING or LOADING
abbrev pub is_hit : String → List ModelInfo → Bool
is_hit j ms = anyb (λ m. is_transient m.status && m.id == j) ms

registry-cancel_if : (o : Option ℕ) (w : World) → (cancel_if o w).registry ≡ w.registry
registry-cancel_if none w = refl
registry-cancel_if (some t) w = elim (Option-cases (get t w.attempting)) [
  | inl gone ↦ unfold cancel_task in rw (gone, cancel_task) refl
  | inr (m, e) ↦ unfold cancel_task in rw (e, cancel_task) refl
]

stopping-cancel_if :
    (o : Option ℕ) (w : World) → (cancel_if o w).stopping_models ≡ w.stopping_models
stopping-cancel_if none w = refl
stopping-cancel_if (some t) w = elim (Option-cases (get t w.attempting)) [
  | inl gone ↦ unfold cancel_task in rw (gone, cancel_task) refl
  | inr (m, e) ↦ unfold cancel_task in rw (e, cancel_task) refl
]

pub registry-clear : (i : String) (w : World) → (clear i w).registry ≡ w.registry
unfolding clear
registry-clear i w = registry-cancel_if (get i w.restart_tasks) w

pub stopping-clear : (i : String) (w : World) → (clear i w).stopping_models ≡ w.stopping_models
unfolding clear
stopping-clear i w = stopping-cancel_if (get i w.restart_tasks) w

-- one model of the loop
abbrev pub take_down : ℕ → ModelInfo → World → World
take_down now m w =
    clear m.id (set_stopped m.id now (record w { stopping_models = add m.id w.stopping_models }))

abbrev stopped_status : Option ModelInfo → Option ModelStatus
stopped_status o = map_option (λ m. stopped) o

abbrev pub status_of : String → World → Option ModelStatus
status_of j w = map_option (λ m. m.status) (get j w.registry.models)

stopping-take_down :
    (now : ℕ) (m : ModelInfo) (j : String) (w : World)
    → is_stopping j (take_down now m w) ≡ (if m.id == j then true else is_stopping j w)
unfolding is_stopping set_stopped
stopping-take_down now m j w = rw (stopping-clear m.id _) (contains-add m.id j w.stopping_models)

crash_events-take_down :
    (now : ℕ) (m : ModelInfo) (j : String) (w : World)
    → get j (take_down now m w).crash_events ≡ (if m.id == j then none else get j w.crash_events)
unfolding clear set_stopped
crash_events-take_down now m j w = get-remove m.id j w.crash_events

models-clear_current : (i : String) (s : StateMachine) → (clear_current_model i s).models ≡ s.models
unfolding clear_current_model schedule_save start_timer
models-clear_current i s = ground arith

registry-take_down :
    (now : ℕ) (m : ModelInfo) (w : World)
    → (take_down now m w).registry.models
      ≡ (update_model_status m.id stopped "" now w.registry).0.models
unfolding set_stopped
registry-take_down now m w =
    rw (registry-clear m.id _)
      (models-clear_current m.id (update_model_status m.id stopped "" now w.registry).0)

status-with_status :
    (b : Bool) (now : ℕ) (o p : Option ModelInfo)
    → (b ≡ true → o ≡ p)
    → map_option (λ m. m.status) (if b then map_option (with_status stopped "" now) o else p) ≡ (
        if b
        then map_option (λ s. stopped) (map_option (λ m. m.status) p)
        else map_option (λ m. m.status) p)
unfolding with_status
status-with_status true now none p same = rw (sym (same refl)) refl
status-with_status true now (some m) p same = rw (sym (same refl)) refl
status-with_status false now o p same = refl

status-take_down :
    (now : ℕ) (m : ModelInfo) (j : String) (w : World)
    → status_of j (take_down now m w)
      ≡ (if m.id == j then map_option (λ s. stopped) (status_of j w) else status_of j w)
status-take_down now m j w =
    rw (registry-take_down now m w, get-update_model_status m.id j stopped "" now w.registry)
      (status-with_status (m.id == j) now (get m.id w.registry.models) (get j w.registry.models)
        (λ same. ap (λ i. get i w.registry.models) ((==_iff m.id j).0 same)))

-- what the window does to one id, seen through the four things that are read of it
pub record Seen : Type 0 where
  pub flagged : Bool
  pub status : Option ModelStatus
  pub crashes : Option (List CrashEvent)

abbrev pub seen : String → World → Seen
seen j w = record {
  flagged = is_stopping j w;
  status = status_of j w;
  crashes = get j w.crash_events;
}

abbrev pub hit : Seen → Seen
hit s = record { flagged = true; status = map_option (λ x. stopped) s.status; crashes = none }

seen-take_down :
    (now : ℕ) (m : ModelInfo) (j : String) (w : World)
    → seen j (take_down now m w) ≡ (if m.id == j then hit (seen j w) else seen j w)
seen-take_down now m j w = elim (Bool-cases (m.id == j)) [
  | inl same ↦
      rw
        (
          stopping-take_down now m j w,
          status-take_down now m j w,
          crash_events-take_down now m j w,
          same,
        )
        refl
  | inr other ↦
      rw
        (
          stopping-take_down now m j w,
          status-take_down now m j w,
          crash_events-take_down now m j w,
          other,
        )
        refl
]

map_option-twice :
    (o : Option ModelStatus)
    → map_option (λ x. stopped) (map_option (λ x. stopped) o) ≡ map_option (λ x. stopped) o
map_option-twice none = refl
map_option-twice (some x) = refl

hit_once :
    (a b : Bool) (s : Seen)
    → (if b then hit (if a then hit s else s) else (if a then hit s else s))
      ≡ (if a || b then hit s else s)
hit_once true true s = rw (map_option-twice s.status) refl
hit_once true false s = refl
hit_once false true s = refl
hit_once false false s = refl

pub seen-stop_each :
    (now : ℕ) (ms : List ModelInfo) (j : String) (w : World)
    → seen j (stop_each now ms w).0 ≡ (if is_hit j ms then hit (seen j w) else seen j w)
unfolding stop_each
seen-stop_each now [] j w = refl
seen-stop_each now (m ∷ ms) j w = elim (Bool-cases (is_transient m.status)) [
  | inl up ↦ rw up (
      seen-stop_each now ms j (take_down now m w)
      ∙ (ap (λ s. if is_hit j ms then hit s else s) (seen-take_down now m j w)
          ∙ hit_once (m.id == j) (is_hit j ms) (seen j w)))
  | inr down ↦ rw down (seen-stop_each now ms j w)
]
