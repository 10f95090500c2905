-- ===== src/StateMachine/Locking.antt =====
-- The lock flag is exclusive: at most one model is locked, whatever calls are made.
use v_llm_dashboard.Prelude.{
  ℕ, String, ◌≡◌, refl, sym, ◌∙◌, inl, inr, ◌≢◌, Bool, true, false, Option, none, some, List, [],
  ◌∷◌, arith, Option-cases, if◌then◌else◌, ◌==◌, ==_iff, string_eq,
}
use v_llm_dashboard.Prelude.Dict.{Dict, get, get-set, get-remove}
use v_llm_dashboard.Schemas.{ModelConfig, ModelInfo, Json, make_config, dump_config, update_dict}
use v_llm_dashboard.StateMachine.{StateMachine, flush_state, fire_timer}
use v_llm_dashboard.StateMachine.Methods.{
  modify, new_model, store_config, with_status, update_model_status, update_model_size,
  update_model_config, replace_model_config, set_current_model, clear_current_model, remove_model,
  unlock_others, set_model_locked, take_pending_locked_restarts,
}
use v_llm_dashboard.StateMachine.Ops.{
  Op, adding, status, size, config, replacing, current, clearing, removing, locking, taking, firing,
  exiting, step, run, map_option, get-modify, get-unlock_others, get-adding, or_same,
}

abbrev pub flag : Option ModelInfo → Bool
flag none = false
flag (some m) = m.locked

-- whether the model of that id is there and locked
abbrev pub locked_at : String → Dict String ModelInfo → Bool
locked_at j d = flag (get j d)

abbrev pub SingleLock : Dict String ModelInfo → Type 0
SingleLock d = (j k : String) → locked_at j d ≡ true → locked_at k d ≡ true → j ≡ k

-- An update that leaves the flag alone keeps every flag.
locked_at-modify :
    (i j : String) (f : ModelInfo → ModelInfo) (s : StateMachine)
    → ((m : ModelInfo) → (f m).locked ≡ m.locked)
    → locked_at j (modify i f s).0.models ≡ locked_at j s.models
locked_at-modify i j f s same = rw (get-modify i j f s) (go (get i s.models) refl)
  where
    go :
        (o : Option ModelInfo)
        → get i s.models ≡ o
        → flag (if i == j then map_option f (get i s.models) else get j s.models)
          ≡ locked_at j s.models
    go none e = ground (arith, ==_iff i j)
    go (some m) e = ground (arith, ==_iff i j, same m)

-- Locking one model leaves it as the only locked one.
pub locked_at-set_model_locked :
    (i j : String) (now : ℕ) (s : StateMachine) (m : ModelInfo)
    → get i s.models ≡ some m
    → locked_at j (set_model_locked i true now s).0.models ≡ (i == j)
unfolding set_model_locked
locked_at-set_model_locked i j now s m e =
    rw (e, set_model_locked)
      (ground (
        arith,
        get-set i j (record m { locked = true; updated_at = now }) (unlock_others i now s.models).0,
        get-unlock_others i j now s.models,
        ==_iff i j,
        ==_iff j i,
      ))

-- Unlocking changes that model's flag alone.
pub locked_at-unlock :
    (i j : String) (now : ℕ) (s : StateMachine)
    → locked_at j (set_model_locked i false now s).0.models
      ≡ (if i == j then false else locked_at j s.models)
unfolding set_model_locked
locked_at-unlock i j now s = elim (Option-cases (get i s.models)) [
  | inl gone ↦ rw (gone, set_model_locked) (ground (arith, ==_iff i j))
  | inr (m, e) ↦
      rw (e, set_model_locked)
        (ground (arith, get-set i j (record m { locked = false; updated_at = now }) s.models))
]

locked_at-adding :
    (i n p : String) (c : Dict String Json) (z t u : ℕ) (j : String) (s : StateMachine)
    → locked_at j (step (adding i n p c z t u) s).models ≡ true
    → locked_at j s.models ≡ true
locked_at-adding i n p c z t u j s h = go (make_config c) (rw (get-adding i n p c z t u j s) at h)
  where
    go :
        (o : Option ModelConfig)
        → flag (
            if i == j
            then elim o [ none ↦ get j s.models | some k ↦ some (new_model i n p k z t u) ]
            else get j s.models)
          ≡ true
        → locked_at j s.models ≡ true
    go none h' = ground arith
    go (some k) h' = ground arith

locked_at-store_config :
    (i j : String) (o : Option ModelConfig) (now : ℕ) (s : StateMachine)
    → locked_at j (or_same s (store_config i o now s)).models ≡ locked_at j s.models
locked_at-store_config i j none now s = refl
locked_at-store_config i j (some c) now s =
    locked_at-modify i j (λ m. record m { config = c; updated_at = now }) s (λ m. refl)

locked_at-config :
    (i j : String) (c : Dict String Json) (now : ℕ) (s : StateMachine)
    → locked_at j (step (config i c now) s).models ≡ locked_at j s.models
unfolding step update_model_config
locked_at-config i j c now s = elim (Option-cases (get i s.models)) [
  | inl gone ↦ rw (gone, update_model_config) refl
  | inr (m, e) ↦
      rw (e, update_model_config)
        (locked_at-store_config i j (make_config (update_dict (dump_config m.config) c)) now s)
]

locked_at-replacing :
    (i j : String) (c : Dict String Json) (now : ℕ) (s : StateMachine)
    → locked_at j (step (replacing i c now) s).models ≡ locked_at j s.models
unfolding step replace_model_config
locked_at-replacing i j c now s = elim (Option-cases (get i s.models)) [
  | inl gone ↦ rw (gone, replace_model_config) refl
  | inr (m, e) ↦ rw (e, replace_model_config) (locked_at-store_config i j (make_config c) now s)
]

locked_at-removing :
    (i j : String) (s : StateMachine)
    → locked_at j (step (removing i) s).models ≡ true
    → locked_at j s.models ≡ true
unfolding step remove_model
locked_at-removing i j s h = elim (Option-cases (get i s.models)) [
  | inl gone ↦ rw (gone, step, remove_model) at h
  | inr (m, e) ↦ ground (arith, rw (e, step, remove_model) at h, get-remove i j s.models)
]

locked_at-current :
    (i j : String) (s : StateMachine)
    → locked_at j (step (current i) s).models ≡ locked_at j s.models
unfolding step set_current_model
locked_at-current i j s = elim (Option-cases (get i s.models)) [
  | inl gone ↦ rw (gone, step, set_current_model) refl
  | inr (m, e) ↦ rw (e, step, set_current_model) refl
]

-- Apart from a lock, no call makes a model locked that was not.
pub locked_at-step :
    (o : Op) (j : String) (s : StateMachine)
    → ((i : String) (now : ℕ) → o ≢ locking i true now)
    → locked_at j (step o s).models ≡ true
    → locked_at j s.models ≡ true
unfolding step update_model_status update_model_size clear_current_model fire_timer
    take_pending_locked_restarts flush_state
locked_at-step (adding i n p c z t u) j s _ h = locked_at-adding i n p c z t u j s h
locked_at-step (status i st e now) j s _ h =
    sym (locked_at-modify i j (with_status st e now) s (λ m. unfold with_status in refl)) ∙ h
locked_at-step (size i z now) j s _ h =
    sym (locked_at-modify i j (λ m. record m { size_bytes = z; updated_at = now }) s (λ m. refl))
    ∙ h
locked_at-step (config i c now) j s _ h = sym (locked_at-config i j c now s) ∙ h
locked_at-step (replacing i c now) j s _ h = sym (locked_at-replacing i j c now s) ∙ h
locked_at-step (current i) j s _ h = sym (locked_at-current i j s) ∙ h
locked_at-step (clearing i) j s _ h = ground arith
locked_at-step (removing i) j s _ h = locked_at-removing i j s h
locked_at-step (locking i true now) j s other h = absurd (other i now refl)
locked_at-step (locking i false now) j s _ h = ground (arith, locked_at-unlock i j now s)
locked_at-step taking j s _ h = h
locked_at-step (firing t passes written) j s _ h = ground arith
locked_at-step (exiting written) j s _ h = ground arith

lock-SingleLock :
    (i : String) (now : ℕ) (s : StateMachine)
    → SingleLock s.models
    → SingleLock (set_model_locked i true now s).0.models
lock-SingleLock i now s v j k hj hk = elim (Option-cases (get i s.models)) [
  | inl gone ↦
      v j k (unfold set_model_locked in rw (gone, set_model_locked) at hj)
        (unfold set_model_locked in rw (gone, set_model_locked) at hk)
  | inr (m, e) ↦
      sym ((==_iff i j).0 (sym (locked_at-set_model_locked i j now s m e) ∙ hj))
      ∙ (==_iff i k).0 (sym (locked_at-set_model_locked i k now s m e) ∙ hk)
]

pub step-SingleLock :
    (o : Op) (s : StateMachine) → SingleLock s.models → SingleLock (step o s).models
step-SingleLock (locking i true now) s v = unfold step in lock-SingleLock i now s v
step-SingleLock o s v = λ j k hj hk.
    v j k (locked_at-step o j s (λ i now e. ground arith) hj)
      (locked_at-step o k s (λ i now e. ground arith) hk)

-- However the registry is used, at most one model is locked if at most one was at the start.
pub run-SingleLock :
    (os : List Op) (s : StateMachine) → SingleLock s.models → SingleLock (run os s).models
unfolding run
run-SingleLock [] s v = v
run-SingleLock (o ∷ os) s v = run-SingleLock os (step o s) (step-SingleLock o s v)
