-- ===== src/StateMachine/Each.antt =====
-- A property of each model that every update keeps holds of all models, whatever calls are made.
use v_llm_dashboard.Prelude.{
  ℕ, String, ◌≡◌, refl, inl, inr, Bool, true, false, Option, none, some, List, [], ◌∷◌, arith,
  Option-cases, Bool-cases, if◌then◌else◌, ◌==◌, ==_iff, string_eq,
}
use v_llm_dashboard.Prelude.Dict.{Dict, get, set, remove, get-set, get-remove}
use v_llm_dashboard.Schemas.{
  ModelStatus, ModelConfig, ModelInfo, Json, make_config, dump_config, update_dict,
}
use v_llm_dashboard.StateMachine.{StateMachine, flush_state, fire_timer}
use v_llm_dashboard.StateMachine.Methods.{
  modify, new_model, store_config, with_status, update_model_status, update_model_size,
  update_model_config, replace_model_config, set_current_model, clear_current_model, remove_model,
  unlock_others, set_model_locked, take_pending_locked_restarts,
}
use v_llm_dashboard.StateMachine.Ops.{
  Op, adding, status, size, config, replacing, current, clearing, removing, locking, taking, firing,
  exiting, step, run, map_option, get-modify, get-unlock_others, get-adding, or_same,
}

abbrev pub Models : Type 0
Models = Dict String ModelInfo

abbrev pub OfSome : (ModelInfo → Type 0) → Option ModelInfo → Type 0
OfSome P none = Unit
OfSome P (some m) = P m

-- `P` holds of every model and the id it is kept under.
abbrev pub EachModel : (String → ModelInfo → Type 0) → Models → Type 0
EachModel P d = (k : String) → OfSome (P k) (get k d)

-- What a property has to survive: a new model, and each kind of update.
pub record IsKept (P : String → ModelInfo → Type 0) : Type 0 where
  pub fresh : (i n p : String) (c : ModelConfig) (z t u : ℕ) → P i (new_model i n p c z t u)
  pub statuses :
      (i : String) (m : ModelInfo) (st : ModelStatus) (e : String) (now : ℕ)
      → P i m
      → P i (with_status st e now m)
  pub sizes :
      (i : String) (m : ModelInfo) (z now : ℕ)
      → P i m
      → P i (record m { size_bytes = z; updated_at = now })
  pub configs :
      (i : String) (m : ModelInfo) (c : ModelConfig) (now : ℕ)
      → P i m
      → P i (record m { config = c; updated_at = now })
  pub locks :
      (i : String) (m : ModelInfo) (b : Bool) (now : ℕ)
      → P i m
      → P i (record m { locked = b; updated_at = now })

module _ (P : String → ModelInfo → Type 0) where
  of_if :
      (i j : String) (a b : Option ModelInfo)
      → OfSome (P i) a
      → OfSome (P j) b
      → OfSome (P j) (if i == j then a else b)
  of_if i j a b pa pb = elim (Bool-cases (i == j)) [
    | inl same ↦ rw same (rw ((==_iff i j).0 same) at pa)
    | inr other ↦ rw other pb
  ]

  of_map :
      (i : String) (f : ModelInfo → ModelInfo) (o : Option ModelInfo)
      → ((m : ModelInfo) → P i m → P i (f m))
      → OfSome (P i) o
      → OfSome (P i) (map_option f o)
  of_map i f none k h = tt
  of_map i f (some m) k h = k m h

  EachModel-modify :
      (i : String) (f : ModelInfo → ModelInfo) (s : StateMachine)
      → ((m : ModelInfo) → P i m → P i (f m))
      → EachModel P s.models
      → EachModel P (modify i f s).0.models
  EachModel-modify i f s k h = λ j. rw (get-modify i j f s) (
      of_if i j (map_option f (get i s.models)) (get j s.models)
        (of_map i f (get i s.models) k (h i)) (h j))

  EachModel-set :
      (i : String) (m : ModelInfo) (d : Models) → P i m → EachModel P d → EachModel P (set i m d)
  EachModel-set i m d p h = λ j. rw (get-set i j m d) (of_if i j (some m) (get j d) p (h j))

  either : (j : String) (b : Bool) (m n : ModelInfo) → P j m → P j n → P j (if b then m else n)
  either j true m n p q = p
  either j false m n p q = q

  EachModel-remove : (i : String) (d : Models) → EachModel P d → EachModel P (remove i d)
  EachModel-remove i d h = λ j. rw (get-remove i j d) (of_if i j none (get j d) tt (h j))

module _ (P : String → ModelInfo → Type 0) (kept : IsKept P) where
  EachModel-unlock_others :
      (i : String) (now : ℕ) (d : Models) → EachModel P d → EachModel P (unlock_others i now d).0
  EachModel-unlock_others i now d h = λ j. rw (get-unlock_others i j now d) (go j (get j d) (h j))
    where
      go :
          (j : String) (o : Option ModelInfo)
          → OfSome (P j) o
          → OfSome (P j) (
              map_option
                (λ m.
                  if j == i
                  then m
                  else if m.locked
                  then record m { locked = false; updated_at = now }
                  else m)
                o)
      go j none p = tt
      go j (some m) p =
          either P j (j == i) m
            (if m.locked then record m { locked = false; updated_at = now } else m) p
            (either P j m.locked (record m { locked = false; updated_at = now }) m
              (kept.locks j m false now p) p)

  EachModel-store_config :
      (i : String) (o : Option ModelConfig) (now : ℕ) (s : StateMachine)
      → EachModel P s.models
      → EachModel P (or_same s (store_config i o now s)).models
  EachModel-store_config i none now s h = h
  EachModel-store_config i (some c) now s h =
      EachModel-modify P i (λ m. record m { config = c; updated_at = now }) s
        (λ m p. kept.configs i m c now p) h

  EachModel-adding :
      (i n p : String) (c : Dict String Json) (z t u : ℕ) (s : StateMachine)
      → EachModel P s.models
      → EachModel P (step (adding i n p c z t u) s).models
  EachModel-adding i n p c z t u s h = λ j. rw (get-adding i n p c z t u j s) (go j (make_config c))
    where
      go :
          (j : String) (o : Option ModelConfig)
          → OfSome (P j) (
              if i == j
              then elim o [ none ↦ get j s.models | some k ↦ some (new_model i n p k z t u) ]
              else get j s.models)
      go j none = elim (Bool-cases (i == j)) [
        | inl same ↦ rw same (h j)
        | inr other ↦ rw other (h j)
      ]
      go j (some k) =
          of_if P i j (some (new_model i n p k z t u)) (get j s.models) (kept.fresh i n p k z t u)
            (h j)

  EachModel-locking :
      (i : String) (b : Bool) (now : ℕ) (s : StateMachine)
      → EachModel P s.models
      → EachModel P (set_model_locked i b now s).0.models
  unfolding set_model_locked
  EachModel-locking i b now s h = go b (get i s.models) refl (h i)
    where
      go :
          (b : Bool) (o : Option ModelInfo)
          → get i s.models ≡ o
          → OfSome (P i) o
          → EachModel P (set_model_locked i b now s).0.models
      go b none e p = rw (e, set_model_locked) h
      go true (some m) e p =
          rw (e, set_model_locked)
            (EachModel-set P i (record m { locked = true; updated_at = now })
              (unlock_others i now s.models).0 (kept.locks i m true now p)
              (EachModel-unlock_others i now s.models h))
      go false (some m) e p =
          rw (e, set_model_locked)
            (EachModel-set P i (record m { locked = false; updated_at = now }) s.models
              (kept.locks i m false now p) h)

  EachModel-config :
      (i : String) (c : Dict String Json) (now : ℕ) (s : StateMachine)
      → EachModel P s.models
      → EachModel P (step (config i c now) s).models
  unfolding step update_model_config
  EachModel-config i c now s h = elim (Option-cases (get i s.models)) [
    | inl gone ↦ rw (gone, step, update_model_config) h
    | inr (m, e) ↦
        rw (e, step, update_model_config)
          (EachModel-store_config i (make_config (update_dict (dump_config m.config) c)) now s h)
  ]

  EachModel-replacing :
      (i : String) (c : Dict String Json) (now : ℕ) (s : StateMachine)
      → EachModel P s.models
      → EachModel P (step (replacing i c now) s).models
  unfolding step replace_model_config
  EachModel-replacing i c now s h = elim (Option-cases (get i s.models)) [
    | inl gone ↦ rw (gone, step, replace_model_config) h
    | inr (m, e) ↦
        rw (e, step, replace_model_config) (EachModel-store_config i (make_config c) now s h)
  ]

  EachModel-current :
      (i : String) (s : StateMachine)
      → EachModel P s.models
      → EachModel P (step (current i) s).models
  unfolding step set_current_model
  EachModel-current i s h = elim (Option-cases (get i s.models)) [
    | inl gone ↦ rw (gone, step, set_current_model) h
    | inr (m, e) ↦ rw (e, step, set_current_model) h
  ]

  EachModel-removing :
      (i : String) (s : StateMachine)
      → EachModel P s.models
      → EachModel P (step (removing i) s).models
  unfolding step remove_model
  EachModel-removing i s h = elim (Option-cases (get i s.models)) [
    | inl gone ↦ rw (gone, step, remove_model) h
    | inr (m, e) ↦ rw (e, step, remove_model) (EachModel-remove P i s.models h)
  ]

  models-clearing : (i : String) (s : StateMachine) → (step (clearing i) s).models ≡ s.models
  unfolding step clear_current_model
  models-clearing i s = ground arith

  models-firing :
      (t : ℕ) (p w : Bool) (s : StateMachine) → (step (firing t p w) s).models ≡ s.models
  unfolding step fire_timer
  models-firing t p w s = ground arith

  models-exiting : (w : Bool) (s : StateMachine) → (step (exiting w) s).models ≡ s.models
  unfolding step flush_state
  models-exiting w s = ground arith

  pub EachModel-step :
      (o : Op) (s : StateMachine) → EachModel P s.models → EachModel P (step o s).models
  EachModel-step (adding i n p c z t u) s h = EachModel-adding i n p c z t u s h
  EachModel-step (status i st e now) s h =
      unfold step update_model_status in
      EachModel-modify P i (with_status st e now) s (λ m p. kept.statuses i m st e now p) h
  EachModel-step (size i z now) s h =
      unfold step update_model_size in
      EachModel-modify P i (λ m. record m { size_bytes = z; updated_at = now }) s
        (λ m p. kept.sizes i m z now p) h
  EachModel-step (config i c now) s h = EachModel-config i c now s h
  EachModel-step (replacing i c now) s h = EachModel-replacing i c now s h
  EachModel-step (current i) s h = EachModel-current i s h
  EachModel-step (clearing i) s h = rw (models-clearing i s) h
  EachModel-step (removing i) s h = EachModel-removing i s h
  EachModel-step (locking i b now) s h = unfold step in EachModel-locking i b now s h
  EachModel-step taking s h = unfold step take_pending_locked_restarts in h
  EachModel-step (firing t p w) s h = rw (models-firing t p w s) h
  EachModel-step (exiting w) s h = rw (models-exiting w s) h

  pub EachModel-run :
      (os : List Op) (s : StateMachine) → EachModel P s.models → EachModel P (run os s).models
  unfolding run
  EachModel-run [] s h = h
  EachModel-run (o ∷ os) s h = EachModel-run os (step o s) (EachModel-step o s h)
