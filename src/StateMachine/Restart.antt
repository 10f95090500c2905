-- ===== src/StateMachine/Restart.antt =====
-- A restart of the dashboard: what a load makes of the file that a flush wrote.
use mathlib.Core.List.{append-nil, append_assoc}
use v_llm_dashboard.Prelude.{
  ℕ, String, ◌≡◌, refl, sym, ap, ◌∙◌, Bool, true, false, not, ◌&&◌, Option, none, some, List, [],
  ◌∷◌, ◌++◌, arith, Bool-cases, inl, inr, if◌then◌else◌, ◌==◌, ==_iff, string_eq,
}
use v_llm_dashboard.Prelude.Dict.{Dict, get, set, get-set, Unique}
use v_llm_dashboard.Schemas.{
  ModelInfo, ModelStatus, downloaded, loading, running, stopped, failed, is_transient, status_eq,
}
use v_llm_dashboard.StateMachine.{SavedState}
use v_llm_dashboard.StateMachine.Ops.{map_option}
use v_llm_dashboard.StateMachine.Each.{EachModel, OfSome}
use v_llm_dashboard.StateMachine.Status.{IsTimed}
use v_llm_dashboard.StateMachine.Locking.{SingleLock, flag, locked_at}
use v_llm_dashboard.StateMachine.Load.{
  coerced, restored, was_locked_up, load_models, loaded_current, load_state, entries, written,
  is_stale,
}

-- a model that a process ran or was starting when it ended
abbrev is_up : ModelStatus → Bool
is_up downloaded = false
is_up loading = true
is_up running = true
is_up stopped = false
is_up failed = false

-- what is left of a model after a restart: one that was up is STOPPED and has no loading time
abbrev pub restart_of : ModelInfo → ModelInfo
restart_of m = record m {
  status = if is_up m.status then stopped else m.status;
  loading_since = if is_up m.status then none else m.loading_since;
  download_progress = 0;
  error_message = "";
}

-- the ids of the locked models that are RUNNING or LOADING, in order
unfoldable pub locked_up : Dict String ModelInfo → List String
locked_up [] = []
locked_up ((k, m) ∷ d) = if m.locked && is_up m.status then k ∷ locked_up d else locked_up d

is_transient_lem : (st : ModelStatus) → is_transient st ≡ is_up st
is_transient_lem downloaded = refl
is_transient_lem loading = refl
is_transient_lem running = refl
is_transient_lem stopped = refl
is_transient_lem failed = refl

coerced_lem : (m : ModelInfo) → coerced m ≡ restart_of m
unfolding coerced
coerced_lem m = rw (is_transient_lem m.status) refl

coerced_each : (o : Option ModelInfo) → map_option coerced o ≡ map_option restart_of o
coerced_each none = refl
coerced_each (some m) = ap some (coerced_lem m)

abbrev or_else : Option ModelInfo → Option ModelInfo → Option ModelInfo
or_else none o = o
or_else (some m) o = some m

or_else-none : (o : Option ModelInfo) → or_else o none ≡ o
or_else-none none = refl
or_else-none (some m) = refl

abbrev pend : List String → String → ModelInfo → List String
pend p j m = if m.locked && is_transient m.status then p ++ j ∷ [] else p

load_models-entries :
    (now : ℕ) (j : String) (m : ModelInfo) (d a : Dict String ModelInfo) (p : List String)
    → load_models now (entries ((j, m) ∷ d)) a p
      ≡ load_models now (entries d) (set j (coerced m) a) (pend p j m)
unfolding load_models entries restored was_locked_up
load_models-entries now j m d a p = refl

pend_lem :
    (p : List String) (j : String) (m : ModelInfo) (r : List String)
    → pend p j m ++ r ≡ p ++ (if m.locked && is_up m.status then j ∷ r else r)
pend_lem p j m r = rw (is_transient_lem m.status) elim (Bool-cases (m.locked && is_up m.status)) [
  | inl up ↦ rw up (append_assoc p (j ∷ []) r)
  | inr down ↦ rw down refl
]

get-load_models :
    (now : ℕ) (k : String) (d a : Dict String ModelInfo) (p : List String)
    → Unique d
    → get k (load_models now (entries d) a p).0 ≡ or_else (map_option coerced (get k d)) (get k a)
unfolding get
get-load_models now k [] a p u = unfold load_models entries in refl
get-load_models now k ((j, m) ∷ d) a p u = rw (load_models-entries now j m d a p) (
    ground (
      arith,
      get-load_models now k d (set j (coerced m) a) (pend p j m) u.1,
      get-set j k (coerced m) a,
      ==_iff j k,
      u.0,
    ))

pending-load_models :
    (now : ℕ) (d a : Dict String ModelInfo) (p : List String)
    → (load_models now (entries d) a p).1 ≡ p ++ locked_up d
unfolding locked_up
pending-load_models now [] a p = unfold load_models entries in sym (append-nil p)
pending-load_models now ((j, m) ∷ d) a p =
    rw (load_models-entries now j m d a p)
      (pending-load_models now d (set j (coerced m) a) (pend p j m) ∙ pend_lem p j m (locked_up d))

get-load_state :
    (now : ℕ) (f : SavedState) (k : String)
    → Unique f.models
    → get k (load_state now (some f) (written f)).models ≡ map_option coerced (get k f.models)
unfolding load_state written get
get-load_state now f k u =
    get-load_models now k f.models [] [] u ∙ or_else-none (map_option coerced (get k f.models))

-- A restart on a file that a flush wrote, which keeps each model once: every model is there again,
-- with no progress and no message; one that was RUNNING or LOADING is STOPPED and has no loading
-- time; every other field is as it was; the locked models that were up are pending, in their order;
-- the state file is not touched.
pub restart :
    (now : ℕ) (f : SavedState)
    → Unique f.models
    → ((k : String)
        → get k (load_state now (some f) (written f)).models
          ≡ map_option restart_of (get k f.models))
      × ((load_state now (some f) (written f)).pending_locked_restarts ≡ locked_up f.models)
      × ((load_state now (some f) (written f)).state_file ≡ some f)
unfolding load_state written
restart now f u = (
  λ k. get-load_state now f k u ∙ coerced_each (get k f.models),
  pending-load_models now f.models [] [],
  refl,
)

locked_at-restart :
    (now : ℕ) (f : SavedState) (k : String)
    → Unique f.models
    → locked_at k (load_state now (some f) (written f)).models ≡ locked_at k f.models
unfolding coerced
locked_at-restart now f k u = rw (get-load_state now f k u) (go (get k f.models))
  where
    go : (o : Option ModelInfo) → flag (map_option coerced o) ≡ flag o
    go none = refl
    go (some m) = refl

-- A model that is not up, kept as `IsTimed` says.
abbrev pub IsIdle : String → ModelInfo → Type 0
IsIdle k m = IsTimed k m × (is_transient m.status ≡ false)

coerced-IsIdle :
    (k : String) (o : Option ModelInfo)
    → OfSome (IsTimed k) o
    → OfSome (IsIdle k) (map_option coerced o)
unfolding coerced
coerced-IsIdle k none h = tt
coerced-IsIdle k (some m) h = ground arith

-- After a restart no model counts as up, the start times are right, and at most one model is
-- locked, if the file held right start times and at most one lock.
pub restart-IsIdle :
    (now : ℕ) (f : SavedState)
    → Unique f.models
    → EachModel IsTimed f.models
    → SingleLock f.models
    → EachModel IsIdle (load_state now (some f) (written f)).models
      × SingleLock (load_state now (some f) (written f)).models
restart-IsIdle now f u h v = (
  λ k. rw (get-load_state now f k u) (coerced-IsIdle k (get k f.models) (h k)),
  λ j k hj hk.
      v j k (sym (locked_at-restart now f j u) ∙ hj) (sym (locked_at-restart now f k u) ∙ hk),
)

-- A current model that the file knows is no longer current after the restart.
pub restart-current :
    (now : ℕ) (f : SavedState) (c : String) (m : ModelInfo)
    → Unique f.models
    → f.current_model_id ≡ some c
    → (c == "") ≡ false
    → get c f.models ≡ some m
    → (load_state now (some f) (written f)).current_model_id ≡ none
unfolding load_state written coerced get
restart-current now f c m u e n found =
    rw (e, loaded_current) (go (get c (load_models now (entries f.models) [] []).0) back)
  where
    back : get c (load_models now (entries f.models) [] []).0 ≡ some (coerced m)
    back = get-load_models now c f.models [] [] u ∙ (rw found refl)

    go :
        (o : Option ModelInfo)
        → o ≡ some (coerced m)
        → (if not (c == "") && is_stale o then none else some c) ≡ none
    go none q = absurd (ground arith)
    go (some r) q = ground arith
