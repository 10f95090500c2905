-- ===== src/Tickets/Trace.antt =====
-- Whole histories of the ticket store: any sequence of issues, uses and resets.
use v_llm_dashboard.Prelude.{
  ℕ, ◌+◌, ◌≤◌, String, Bool, true, false, List, [], ◌∷◌, arith, if◌then◌else◌, ◌==◌, ==_iff,
  string_eq,
}
use v_llm_dashboard.Prelude.Dict.{get, has}
use v_llm_dashboard.Tickets.{
  TicketStore, Issued, prune_expired, issue, consume, reset, issued, ticket_store_full,
}
use v_llm_dashboard.Tickets.Store.{
  IsValid, issue-IsValid, consume-IsValid, get-prune_expired, get-issue, get-issue_full,
  get-consume, issue-cases,
}

pub data Event : Type 0 where
  issuing : ℕ → ℕ → String → Event
  consuming : ℕ → String → Event
  resetting : Event

unfoldable pub step : Event → TicketStore → TicketStore
step (issuing now later t) s = (issue now later t s).1
step (consuming now t) s = (consume now t s).1
step resetting s = reset s

abbrev pub count_if : Bool → ℕ
count_if true = 1
count_if false = 0

abbrev is_issued : Issued → Bool
is_issued (issued t) = true
is_issued ticket_store_full = false

-- 1 if the event hands out the ticket `t`, else 0
unfoldable pub granted : String → Event → TicketStore → ℕ
granted t (issuing now later j) s =
    count_if (if j == t then is_issued (issue now later j s).0 else false)
granted t _ s = 0

-- 1 if the event accepts the ticket `t`, else 0
unfoldable pub accepted : String → Event → TicketStore → ℕ
accepted t (consuming now j) s = count_if (if j == t then (consume now j s).0 else false)
accepted t _ s = 0

unfoldable pub run : List Event → TicketStore → TicketStore
run [] s = s
run (e ∷ es) s = run es (step e s)

unfoldable pub grants : String → List Event → TicketStore → ℕ
grants t [] s = 0
grants t (e ∷ es) s = granted t e s + grants t es (step e s)

unfoldable pub accepts : String → List Event → TicketStore → ℕ
accepts t [] s = 0
accepts t (e ∷ es) s = accepted t e s + accepts t es (step e s)

pub step-IsValid : (e : Event) (s : TicketStore) → IsValid s → IsValid (step e s)
unfolding step reset
step-IsValid (issuing now later t) s v = issue-IsValid now later t s v
step-IsValid (consuming now t) s v = consume-IsValid now t s v
step-IsValid resetting s v = record { bounded = omega arith; unique = tt }

-- The bound on the number of tickets holds after any history.
pub run-IsValid : (es : List Event) (s : TicketStore) → IsValid s → IsValid (run es s)
unfolding run
run-IsValid [] s v = v
run-IsValid (e ∷ es) s v = run-IsValid es (step e s) (step-IsValid e s v)

abbrev held : String → TicketStore → ℕ
held t s = count_if (has t s)

held-prune_expired :
    (now : ℕ) (t : String) (s : TicketStore) → IsValid s → held t (prune_expired now s) ≤ held t s
held-prune_expired now t s v = ground (arith, get-prune_expired now t s v.unique)

accepted_needs_held :
    (now : ℕ) (t : String) (s : TicketStore) → count_if (consume now t s).0 ≤ held t s
unfolding consume
accepted_needs_held now t s = ground arith

-- A step that accepts the ticket uses it up; only an issue brings it in.
step-held :
    (t : String) (e : Event) (s : TicketStore)
    → IsValid s
    → held t (step e s) + accepted t e s ≤ held t s + granted t e s
unfolding step granted accepted reset get
step-held t (issuing now later j) s v = ground (
  arith,
  held-prune_expired now t s v,
  get-issue now later j t s,
  get-issue_full now later j s,
  issue-cases now later j s,
)
step-held t (consuming now j) s v =
    ground (arith, get-consume now j t s, accepted_needs_held now j s, ==_iff j t)
step-held t resetting s v = ground arith

-- In any history a ticket is accepted at most as often as it was issued, counting one more if the
-- store held it at the start.
pub single_use :
    (t : String) (es : List Event) (s : TicketStore)
    → IsValid s
    → accepts t es s ≤ count_if (has t s) + grants t es s
unfolding accepts grants
single_use t [] s v = omega arith
single_use t (e ∷ es) s v =
    omega (arith, step-held t e s v, single_use t es (step e s) (step-IsValid e s v))
