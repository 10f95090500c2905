-- ===== src/Access/Guarded.antt =====
-- No request without the key reaches a handler.
use v_llm_dashboard.Prelude.{
  ℕ, ◌≡◌, ◌⊎◌, refl, inl, inr, String, true, false, ◌&&◌, Option, none, some, if◌then◌else◌, ◌==◌,
  string_eq, Bool-cases,
}
use v_llm_dashboard.Access.{
  Request, RequestLog, requires_auth, auth_middleware, request_log_middleware, is_oversized,
  respond, is_ascii, compare_digest, or_internal_error,
}

-- what a request that brings another key gets
abbrev refusal : String → Request → Option ℕ
refusal key r =
    if r.api_key == ""
    then some 401
    else if is_ascii r.api_key && is_ascii key
    then some 401
    else none

refused :
    (key : String) (handler : Request → Option ℕ) (r : Request)
    → (key == "") ≡ false
    → requires_auth r.path ≡ true
    → (r.method == "OPTIONS") ≡ false
    → (r.api_key == key) ≡ false
    → auth_middleware key handler r ≡ refusal key r
unfolding auth_middleware compare_digest
refused key handler r k p o a = elim (Bool-cases (r.api_key == "")) [
  | inl bare ↦ rw (k, p, o, bare) refl
  | inr given ↦ elim (Bool-cases (is_ascii r.api_key && is_ascii key)) [
    | inl plain ↦ rw (k, p, o, given, plain, a) refl
    | inr exotic ↦ rw (k, p, o, given, exotic) refl
  ]
]

-- the answers of a chain that lets the request through to no handler
abbrev pub Turned : String → Request → ℕ → Type 0
Turned key r status =
    ((status ≡ 401) ⊎ (status ≡ 413))
    ⊎ ((status ≡ 500) × ((is_ascii r.api_key && is_ascii key) ≡ false))

Turned-refusal : (key : String) (r : Request) → Turned key r (or_internal_error (refusal key r))
Turned-refusal key r = elim (Bool-cases (r.api_key == "")) [
  | inl bare ↦ rw bare (inl (inl refl))
  | inr given ↦ elim (Bool-cases (is_ascii r.api_key && is_ascii key)) [
    | inl plain ↦ rw (given, plain) (inl (inl refl))
    | inr exotic ↦ rw (given, exotic) (inr (refl, refl))
  ]
]

respond-status :
    (key : String) (next : Request → Option ℕ) (now : ℕ) (r : Request) (log : RequestLog)
    → (respond key next now r log).0
      ≡ (if is_oversized r then 413 else or_internal_error (auth_middleware key next r))
unfolding respond request_log_middleware
respond-status key next now r log = elim (Bool-cases (is_oversized r)) [
  | inl big ↦ rw big refl
  | inr small ↦ rw small refl
]

Turned-respond :
    (key : String) (next : Request → Option ℕ) (now : ℕ) (r : Request) (log : RequestLog)
    → auth_middleware key next r ≡ refusal key r
    → Turned key r (respond key next now r log).0
Turned-respond key next now r log e =
    rw (respond-status key next now r log) elim (Bool-cases (is_oversized r)) [
      | inl big ↦ rw big (inl (inr refl))
      | inr small ↦ rw (small, e) (Turned-refusal key r)
    ]

-- With authentication on, a request for a guarded path that is no OPTIONS request and brings
-- another key is answered 401 or 413, or 500 where its key or the configured one is not ASCII; the
-- answer and the log do not depend on the handler.
pub respond-guarded :
    (key : String) (handler other : Request → Option ℕ) (now : ℕ) (r : Request) (log : RequestLog)
    → (key == "") ≡ false
    → requires_auth r.path ≡ true
    → (r.method == "OPTIONS") ≡ false
    → (r.api_key == key) ≡ false
    → Turned key r (respond key handler now r log).0
      × (respond key handler now r log ≡ respond key other now r log)
unfolding respond request_log_middleware
respond-guarded key handler other now r log k p o a =
    let mine : auth_middleware key handler r ≡ refusal key r = refused key handler r k p o a in
    let others : auth_middleware key other r ≡ refusal key r = refused key other r k p o a in
    (Turned-respond key handler now r log mine, rw (mine, others) refl)
