-- ===== src/Sync/Running.antt =====
-- A RUNNING model is dropped on positive evidence alone: an empty or failed answer of the API, with
-- no proof that the process is gone, changes no RUNNING model.
use v_llm_dashboard.Prelude.{
  ℕ, String, ◌≡◌, refl, sym, ap, ◌∙◌, Bool, true, false, Option, none, some, List, [], ◌∷◌, arith,
  length, filterb, Bool-cases, inl, inr, ◌==◌, ==_iff, ==_refl, string_eq,
}
use v_llm_dashboard.Prelude.Dict.{Dict, get, values, Unique}
use v_llm_dashboard.Schemas.{ModelInfo, running, stopped, failed, status_eq}
use v_llm_dashboard.StateMachine.{StateMachine}
use v_llm_dashboard.StateMachine.Methods.{update_model_status, clear_current_model}
use v_llm_dashboard.StateMachine.Each.{EachModel}
use v_llm_dashboard.StateMachine.Status.{IsTimed}
use v_llm_dashboard.Lifecycle.Starting.{get-update_model_status, get-set_current_model}
use v_llm_dashboard.World.{World, on_model_crash, suspend_message, recorded_events, is_real}
use v_llm_dashboard.Lifecycle.{set_stopped}
use v_llm_dashboard.Sync.{
  Answers, Evidence, Verdict, to_running, dropped, capped, unchanged, is_false, evidence,
  mark_running, drop_model, judge, apply_verdict, sync_model, sync_models, sync_status_once,
}
use v_llm_dashboard.Sync.Match.{match_model_name}

-- the record that the registry holds for an id
abbrev pub at : String → World → Option ModelInfo
at j w = get j w.registry.models

at-clear_current :
    (i j : String) (s : StateMachine) → get j (clear_current_model i s).models ≡ get j s.models
unfolding clear_current_model
at-clear_current i j s = ground arith

pub at-set_stopped :
    (i j : String) (now : ℕ) (w : World) → (i == j) ≡ false → at j (set_stopped i now w) ≡ at j w
unfolding set_stopped
at-set_stopped i j now w h =
    at-clear_current i j (update_model_status i stopped "" now w.registry).0
    ∙ get-update_model_status i j stopped "" now w.registry
    ∙ rw h refl

at-crash :
    (i j : String) (b : Bool) (now later : ℕ) (loop : Bool) (w : World)
    → (i == j) ≡ false
    → at j (on_model_crash i b now later loop w) ≡ at j w
unfolding on_model_crash
at-crash i j b now later loop w h = ground (
  arith,
  get-update_model_status i j failed
      (suspend_message (length (filterb is_real (recorded_events i b now w)))) later w.registry,
)

at-drop_model :
    (m : ModelInfo) (j : String) (now : ℕ) (w : World)
    → (m.id == j) ≡ false
    → at j (drop_model m now w) ≡ at j w
unfolding drop_model
at-drop_model m j now w h = ground (
  arith,
  at-set_stopped m.id j now w h,
  at-crash m.id j false now now true (set_stopped m.id now w) h,
)

at-mark_running :
    (track : Bool) (m : ModelInfo) (j : String) (now : ℕ) (w : World)
    → (m.id == j) ≡ false
    → at j (mark_running track m now w) ≡ at j w
unfolding mark_running
at-mark_running track m j now w h = ground (
  arith,
  get-update_model_status m.id j running "" now w.registry,
  get-set_current_model m.id j (update_model_status m.id running "" now w.registry).0,
)

-- The turn of another model does not touch this one.
pub at-sync_model :
    (e : Evidence) (track : Bool) (now : ℕ) (m : ModelInfo) (j : String) (w : World)
    → (m.id == j) ≡ false
    → at j (sync_model e track now m w) ≡ at j w
unfolding sync_model
at-sync_model e track now m j w h = go (judge e m (match_model_name m e.ids) now)
  where
    go : (v : Verdict) → at j (apply_verdict v track m now w) ≡ at j w
    go to_running = at-mark_running track m j now w h
    go dropped = at-drop_model m j now w h
    go capped = at-set_stopped m.id j now w h
    go unchanged = refl

-- `Q` holds of every listed record with that id
abbrev ForId : (ModelInfo → Type 0) → String → List ModelInfo → Type 0
ForId Q j [] = Unit
ForId Q j (m ∷ ms) = ((m.id == j) ≡ true → Q m) × ForId Q j ms

abbrev Unjudged : Evidence → ℕ → ModelInfo → Type 0
Unjudged e now m = judge e m (match_model_name m e.ids) now ≡ unchanged

match-nothing : (m : ModelInfo) → match_model_name m [] ≡ false
unfolding match_model_name
match-nothing m = ground arith

unjudged :
    (a : Answers) (ms : List ModelInfo) (now : ℕ) (r : ModelInfo)
    → r.status ≡ running
    → a.remote_ids ≡ []
    → is_false a.present ≡ false
    → Unjudged (evidence a ms) now r
unfolding judge evidence
unjudged a ms now r s ids p = rw ids (ground (arith, match-nothing r))

at-sync_models :
    (e : Evidence) (track : Bool) (now : ℕ) (ms : List ModelInfo) (j : String) (w : World)
    → ForId (Unjudged e now) j ms
    → at j (sync_models e track now ms w) ≡ at j w
unfolding sync_models sync_model
at-sync_models e track now [] j w q = refl
at-sync_models e track now (m ∷ ms) j w q =
    at-sync_models e track now ms j _ q.1 ∙ elim (Bool-cases (m.id == j)) [
      | inl same ↦ rw (q.0 same) refl
      | inr other ↦ at-sync_model e track now m j w other
    ]

EachModel-tail :
    (P : String → ModelInfo → Type 0) (k : String) (m : ModelInfo) (d : Dict String ModelInfo)
    → Unique ((k, m) ∷ d)
    → EachModel P ((k, m) ∷ d)
    → EachModel P d
unfolding get
EachModel-tail P k m d u h = λ j. elim (Bool-cases (k == j)) [
  | inl same ↦
      let gone : get j d ≡ none = ap (λ x. get x d) (sym ((==_iff k j).0 same)) ∙ u.0 in rw gone tt
  | inr other ↦ rw other at (h j)
]

EachModel-head :
    (P : String → ModelInfo → Type 0) (k : String) (m : ModelInfo) (d : Dict String ModelInfo)
    → EachModel P ((k, m) ∷ d)
    → P k m
unfolding get
EachModel-head P k m d h = rw (==_refl k) at (h k)

id_of_key :
    (k j : String) (m : ModelInfo) (d : Dict String ModelInfo)
    → EachModel IsTimed ((k, m) ∷ d)
    → (m.id == j) ≡ (k == j)
id_of_key k j m d h = ap (λ x. x == j) (EachModel-head IsTimed k m d h).0

ForId-absent :
    (Q : ModelInfo → Type 0) (j : String) (d : Dict String ModelInfo)
    → Unique d
    → EachModel IsTimed d
    → get j d ≡ none
    → ForId Q j (values d)
unfolding get
ForId-absent Q j [] u h e = tt
ForId-absent Q j ((k, m) ∷ d) u h e = elim (Bool-cases (k == j)) [
  | inl same ↦ absurd (let q = rw same at e in ground arith)
  | inr other ↦ (
    λ s. absurd (let q = sym s ∙ id_of_key k j m d h ∙ other in ground arith),
    ForId-absent Q j d u.1 (EachModel-tail IsTimed k m d u h) (rw other at e),
  )
]

-- The listed records of an id are the one that the dictionary holds under it.
ForId-values :
    (Q : ModelInfo → Type 0) (j : String) (r : ModelInfo) (d : Dict String ModelInfo)
    → Unique d
    → EachModel IsTimed d
    → get j d ≡ some r
    → Q r
    → ForId Q j (values d)
unfolding get
ForId-values Q j r [] u h e q = tt
ForId-values Q j r ((k, m) ∷ d) u h e q = elim (Bool-cases (k == j)) [
  | inl same ↦ (
    λ s.
        let here : some m ≡ some r = rw same at e in
        let same_record : m ≡ r = cc in rw same_record q,
    ForId-absent Q j d u.1 (EachModel-tail IsTimed k m d u h)
        (ap (λ x. get x d) (sym ((==_iff k j).0 same)) ∙ u.0),
  )
  | inr other ↦ (
    λ s. absurd (let x = sym s ∙ id_of_key k j m d h ∙ other in ground arith),
    ForId-values Q j r d u.1 (EachModel-tail IsTimed k m d u h) (rw other at e) q,
  )
]

-- With an empty or failed answer of the API, and no proof that the process is gone, a RUNNING
-- model stays exactly as it is.
pub sync-keeps_running :
    (a : Answers) (track : Bool) (now : ℕ) (j : String) (r : ModelInfo) (w : World)
    → Unique w.registry.models
    → EachModel IsTimed w.registry.models
    → at j w ≡ some r
    → r.status ≡ running
    → a.remote_ids ≡ []
    → is_false a.present ≡ false
    → at j (sync_status_once a track now w).0 ≡ some r
unfolding sync_status_once
sync-keeps_running a track now j r w u h e s ids p =
    at-sync_models (evidence a (values w.registry.models)) track now (values w.registry.models) j w
      (ForId-values (Unjudged (evidence a (values w.registry.models)) now) j r w.registry.models u h
        e (unjudged a (values w.registry.models) now r s ids p))
    ∙ e
