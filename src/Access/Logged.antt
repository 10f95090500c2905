-- ===== src/Access/Logged.antt =====
-- What the access log holds after any requests.
use v_llm_dashboard.Prelude.{
  ℕ, zero, suc, ◌+◌, ◌-◌, ◌≤◌, ◌≡◌, refl, ap, ◌∙◌, inl, inr, String, Bool, true, false, not, ◌&&◌,
  Option, none, some, List, [], ◌∷◌, ◌++◌, All, drop, length, length-drop, if◌then◌else◌, ◌==◌,
  ==_iff, string_eq, arith, Bool-cases,
}
use v_llm_dashboard.Prelude.Dict.{Dict, get, set, get-set}
use v_llm_dashboard.Prelude.Set.{contains}
use v_llm_dashboard.Access.{
  Request, RequestLog, Entry, Aggregate, max_entries, counted, request_log_middleware, is_oversized,
  is_unlogged, body_preview, record_entry, respond, logged, auth_middleware, credential_body_paths,
  body_methods, client_ip,
}

if_and_false : {A : Type 0} (b : Bool) (x y : A) → (if b && false then x else y) ≡ y
if_and_false true x y = refl
if_and_false false x y = refl

-- An entry of a path with credentials has no body.
abbrev pub IsClean : Entry → Type 0
IsClean e = contains e.path credential_body_paths ≡ true → e.body ≡ none

pub record IsBounded (log : RequestLog) : Type 0 where
  pub bounded : length log.entries ≤ max_entries
  pub clean : All IsClean log.entries

All-drop : (P : Entry → Type 0) (n : ℕ) (es : List Entry) → All P es → All P (drop n es)
All-drop P zero es a = a
All-drop P (suc n) [] a = tt
All-drop P (suc n) (e ∷ es) a = All-drop P n es a.1

All-append :
    (P : Entry → Type 0) (es : List Entry) (e : Entry) → All P es → P e → All P (es ++ e ∷ [])
All-append P [] e a p = (p, tt)
All-append P (x ∷ es) e a p = (a.0, All-append P es e a.1 p)

record_entry-IsBounded :
    (e : Entry) (log : RequestLog) → IsClean e → IsBounded log → IsBounded (record_entry e log)
unfolding record_entry
record_entry-IsBounded e log c h = record {
  bounded =
      omega
        (arith, length-drop (length (log.entries ++ e ∷ []) - max_entries) (log.entries ++ e ∷ []));
  clean = All-drop IsClean _ (log.entries ++ e ∷ []) (All-append IsClean log.entries e h.clean c);
}

preview-clean : (r : Request) → contains r.path credential_body_paths ≡ true → body_preview r ≡ none
unfolding body_preview
preview-clean r c = rw c (if_and_false (contains r.method body_methods) _ none)

logged-IsBounded :
    (answer : Option ℕ) (now : ℕ) (r : Request) (log : RequestLog)
    → IsBounded log
    → IsBounded (logged answer now r log)
unfolding logged
logged-IsBounded none now r log h = h
logged-IsBounded (some status) now r log h = record_entry-IsBounded _ log (preview-clean r) h

respond-IsBounded :
    (key : String) (handler : Request → Option ℕ) (now : ℕ) (r : Request) (log : RequestLog)
    → IsBounded log
    → IsBounded (respond key handler now r log).1
unfolding respond request_log_middleware
respond-IsBounded key handler now r log h = elim (Bool-cases (is_oversized r)) [
  | inl big ↦ rw big h
  | inr small ↦ elim (Bool-cases (is_unlogged r)) [
    | inl silent ↦ rw (small, silent) h
    | inr told ↦ rw (small, told) (logged-IsBounded (auth_middleware key handler r) now r log h)
  ]
]

-- the requests one after the other, each with its time
unfoldable pub serve : String → (Request → Option ℕ) → List (ℕ × Request) → RequestLog → RequestLog
unfolding respond
serve key handler [] log = log
serve key handler ((now, r) ∷ rs) log = serve key handler rs (respond key handler now r log).1

abbrev is_answered : Option ℕ → Bool
is_answered none = false
is_answered (some status) = true

-- how many of the requests count for an address; one that ends in an exception does not
abbrev pub counts_for : String → (Request → Option ℕ) → String → Request → Bool
counts_for key handler ip r =
    not (is_oversized r)
    && not (is_unlogged r)
    && is_answered (auth_middleware key handler r)
    && client_ip r.client == ip

abbrev pub tally : String → (Request → Option ℕ) → String → List (ℕ × Request) → ℕ
tally key handler ip [] = 0
tally key handler ip ((now, r) ∷ rs) =
    (if counts_for key handler ip r then 1 else 0) + tally key handler ip rs

counted-set :
    (i j : String) (a : Aggregate) (d : Dict String Aggregate)
    → a.count ≡ counted (get i d) + 1
    → counted (get j (set i a d)) ≡ counted (get j d) + (if i == j then 1 else 0)
counted-set i j a d e = elim (Bool-cases (i == j)) [
  | inl same ↦
      let at_j : get j (set i a d) ≡ some a = get-set i j a d ∙ rw same refl in
      rw (at_j, same) (e ∙ ap (λ k. counted (get k d) + 1) ((==_iff i j).0 same))
  | inr other ↦
      let at_j : get j (set i a d) ≡ get j d = get-set i j a d ∙ rw other refl in
      rw (at_j, other) (omega arith)
]

logged-counted :
    (answer : Option ℕ) (now : ℕ) (r : Request) (ip : String) (log : RequestLog)
    → counted (get ip (logged answer now r log).by_ip)
      ≡ counted (get ip log.by_ip)
        + (if is_answered answer && client_ip r.client == ip then 1 else 0)
unfolding logged record_entry
logged-counted none now r ip log = omega arith
logged-counted (some status) now r ip log = counted-set (client_ip r.client) ip _ log.by_ip refl

respond-counted :
    (key : String) (handler : Request → Option ℕ) (now : ℕ) (r : Request) (ip : String)
    (log : RequestLog)
    → counted (get ip (respond key handler now r log).1.by_ip)
      ≡ counted (get ip log.by_ip) + (if counts_for key handler ip r then 1 else 0)
unfolding respond request_log_middleware
respond-counted key handler now r ip log = elim (Bool-cases (is_oversized r)) [
  | inl big ↦ rw big (omega arith)
  | inr small ↦ elim (Bool-cases (is_unlogged r)) [
    | inl silent ↦ rw (small, silent) (omega arith)
    | inr told ↦ rw (small, told) (logged-counted (auth_middleware key handler r) now r ip log)
  ]
]

-- After any requests the log holds at most its number of entries, none with a body of a path that
-- carries credentials, and counts for each address the requests that are logged.
pub serve-IsBounded :
    (key : String) (handler : Request → Option ℕ) (rs : List (ℕ × Request)) (ip : String)
    (log : RequestLog)
    → IsBounded log
    → IsBounded (serve key handler rs log)
      × (counted (get ip (serve key handler rs log).by_ip)
          ≡ counted (get ip log.by_ip) + tally key handler ip rs)
unfolding serve
serve-IsBounded key handler [] ip log h = (h, omega arith)
serve-IsBounded key handler ((now, r) ∷ rs) ip log h =
    let next = (respond key handler now r log).1 in
    let (b, c) =
      serve-IsBounded key handler rs ip next (respond-IsBounded key handler now r log h) in
    (b, omega (arith, c, respond-counted key handler now r ip log))
