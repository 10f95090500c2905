-- ===== src/StateMachine/Status.antt =====
-- What a status update records, and the start times that every history keeps right.
use v_llm_dashboard.Prelude.{String, ◌≡◌, refl, List, arith, is_some, ◌==◌, string_eq}
use v_llm_dashboard.Schemas.{loading, ModelInfo, status_eq}
use v_llm_dashboard.StateMachine.{StateMachine}
use v_llm_dashboard.StateMachine.Methods.{with_status}
use v_llm_dashboard.StateMachine.Ops.{Op, run}
use v_llm_dashboard.StateMachine.Each.{EachModel, IsKept, EachModel-run}

-- A model is kept under its own id, and has a loading time exactly while it is LOADING.
abbrev pub IsTimed : String → ModelInfo → Type 0
IsTimed k m = (m.id ≡ k) × (is_some m.loading_since ≡ (m.status == loading))

IsTimed-IsKept : IsKept IsTimed
unfolding with_status
IsTimed-IsKept = record {
  fresh = λ i n p c z t u. (refl, refl);
  statuses = λ i m st e now h. ground arith;
  sizes = λ i m z now h. h;
  configs = λ i m c now h. h;
  locks = λ i m b now h. h;
}

-- After any calls, every model is kept under its own id and has a loading time exactly while it
-- is LOADING, if that held at the start.
pub run-IsTimed :
    (os : List Op) (s : StateMachine)
    → EachModel IsTimed s.models
    → EachModel IsTimed (run os s).models
run-IsTimed os s h = EachModel-run IsTimed IsTimed-IsKept os s h
