-- ===== src/StateMachine/Ops.antt =====
-- The calls of the registry as data, and what each does to the dictionary of models.
use v_llm_dashboard.Prelude.{
  ℕ, String, ◌≡◌, refl, Bool, false, Option, none, some, List, [], ◌∷◌, inl, inr, arith,
  Option-cases, if◌then◌else◌, ◌==◌, ==_iff, string_eq,
}
use v_llm_dashboard.Prelude.Dict.{Dict, get, get-set}
use v_llm_dashboard.Schemas.{ModelStatus, ModelConfig, ModelInfo, Json, make_config}
use v_llm_dashboard.StateMachine.{StateMachine, flush_state, fire_timer}
use v_llm_dashboard.StateMachine.Methods.{
  modify, new_model, add_model, update_model_status, update_model_size, update_model_config,
  replace_model_config, set_current_model, clear_current_model, remove_model, unlock_others,
  set_model_locked, take_pending_locked_restarts,
}

-- A call that raises leaves the registry as it was.
pub data Op : Type 0 where
  adding : String → String → String → Dict String Json → ℕ → ℕ → ℕ → Op
  status : String → ModelStatus → String → ℕ → Op
  size : String → ℕ → ℕ → Op
  config : String → Dict String Json → ℕ → Op
  replacing : String → Dict String Json → ℕ → Op
  current : String → Op
  clearing : String → Op
  removing : String → Op
  locking : String → Bool → ℕ → Op
  taking : Op
  firing : ℕ → Bool → Bool → Op
  exiting : Bool → Op

abbrev pub or_same {ℓ} : {A : Type ℓ} → StateMachine → Option (StateMachine × A) → StateMachine
or_same s none = s
or_same s (some (s', _)) = s'

unfoldable pub step : Op → StateMachine → StateMachine
step (adding i n p c z created updated) s = or_same s (add_model i n p c z created updated s)
step (status i st e now) s = (update_model_status i st e now s).0
step (size i z now) s = (update_model_size i z now s).0
step (config i c now) s = or_same s (update_model_config i c now s)
step (replacing i c now) s = or_same s (replace_model_config i c now s)
step (current i) s = (set_current_model i s).0
step (clearing i) s = clear_current_model i s
step (removing i) s = (remove_model i s).0
step (locking i b now) s = (set_model_locked i b now s).0
step taking s = (take_pending_locked_restarts s).0
step (firing t passes written) s = fire_timer t passes written s
step (exiting written) s = flush_state none written s

unfoldable pub run : List Op → StateMachine → StateMachine
run [] s = s
run (o ∷ os) s = run os (step o s)

abbrev pub map_option {ℓ κ} : {A : Type ℓ} {B : Type κ} → (A → B) → Option A → Option B
map_option f none = none
map_option f (some a) = some (f a)

-- A model after an update: looked up, it is the changed record; all others are as they were.
pub get-modify :
    (i j : String) (f : ModelInfo → ModelInfo) (s : StateMachine)
    → get j (modify i f s).0.models
      ≡ (if i == j then map_option f (get i s.models) else get j s.models)
unfolding modify
get-modify i j f s = elim (Option-cases (get i s.models)) [
  | inl gone ↦ rw (gone, modify) (ground (arith, ==_iff i j))
  | inr (m, e) ↦ rw (e, modify) (ground (arith, get-set i j (f m) s.models))
]

-- Unlocking the others keeps the model itself and clears the flag of each other one.
pub get-unlock_others :
    (i j : String) (now : ℕ) (d : Dict String ModelInfo)
    → get j (unlock_others i now d).0
      ≡ map_option
          (λ m.
            if j == i
            then m
            else if m.locked
            then record m { locked = false; updated_at = now }
            else m)
          (get j d)
unfolding unlock_others get
get-unlock_others i j now [] = refl
get-unlock_others i j now ((k, m) ∷ d) =
    ground (arith, ==_iff k j, ==_iff k i, ==_iff j i, get-unlock_others i j now d)

-- Adding a model: a valid configuration stores the new record, a bad one changes nothing.
pub get-adding :
    (i n p : String) (c : Dict String Json) (z t u : ℕ) (j : String) (s : StateMachine)
    → get j (step (adding i n p c z t u) s).models ≡ (
        if i == j
        then elim (make_config c) [
          | none ↦ get j s.models
          | some k ↦ some (new_model i n p k z t u)
        ]
        else get j s.models)
unfolding step add_model
get-adding i n p c z t u j s = go (make_config c) refl
  where
    go :
        (o : Option ModelConfig)
        → make_config c ≡ o
        → get j (step (adding i n p c z t u) s).models ≡ (
            if i == j
            then elim o [ none ↦ get j s.models | some k ↦ some (new_model i n p k z t u) ]
            else get j s.models)
    go none e = rw (e, add_model) (ground arith)
    go (some k) e = rw (e, add_model) (get-set i j (new_model i n p k z t u) s.models)
