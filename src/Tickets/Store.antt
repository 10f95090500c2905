-- ===== src/Tickets/Store.antt =====
-- What one operation of the ticket store does, in terms of look-ups.
use v_llm_dashboard.Prelude.{
  ℕ, ◌+◌, ◌≤◌, ◌⊎◌, ◌↔◌, String, ◌≡◌, false, none, some, arith, ltb, leb, length, if◌then◌else◌,
  ◌==◌, ==_refl, string_eq,
}
use v_llm_dashboard.Prelude.Dict.{
  get, set, keep, Unique, get-set, get-remove, get-filter_values, length-set,
  length-filter_values-le, length-remove-le, Unique-set, Unique-remove, Unique-filter_values,
}
use v_llm_dashboard.Tickets.{
  TicketStore, ticket_ttl, max_tickets, not_expired, prune_expired, issue, consume, issued,
  ticket_store_full,
}

-- A store holds at most `max_tickets` tickets, each once.
pub record IsValid (s : TicketStore) : Type 0 where
  pub bounded : length s ≤ max_tickets
  pub unique : Unique s

pub get-prune_expired :
    (now : ℕ) (t : String) (s : TicketStore)
    → Unique s
    → get t (prune_expired now s) ≡ keep (not_expired now) (get t s)
unfolding prune_expired
get-prune_expired now t s u = get-filter_values (not_expired now) t s u

pub prune_expired-IsValid : (now : ℕ) (s : TicketStore) → IsValid s → IsValid (prune_expired now s)
unfolding prune_expired
prune_expired-IsValid now s v = record {
  bounded = omega (arith, length-filter_values-le {0, 0} (not_expired now) s);
  unique = Unique-filter_values (not_expired now) s v.unique;
}

set-IsValid :
    (t : String) (e : ℕ) (s : TicketStore)
    → IsValid s
    → leb max_tickets (length s) ≡ false
    → IsValid (set t e s)
set-IsValid t e s v room = record {
  bounded = ground (arith, length-set t e s);
  unique = Unique-set t e s v.unique;
}

pub issue-IsValid :
    (now later : ℕ) (t : String) (s : TicketStore) → IsValid s → IsValid (issue now later t s).1
unfolding issue
issue-IsValid now later t s v = ground (
  arith,
  prune_expired-IsValid now s v,
  set-IsValid t (later + ticket_ttl) (prune_expired now s) (prune_expired-IsValid now s v),
)

pub consume-IsValid :
    (now : ℕ) (t : String) (s : TicketStore) → IsValid s → IsValid (consume now t s).1
unfolding consume
consume-IsValid now t s v = record {
  bounded = omega (arith, length-remove-le {0, 0} t s);
  unique = Unique-remove t s v.unique;
}

-- Issuing takes the ticket in; all others stay as the pruning left them.
pub get-issue :
    (now later : ℕ) (t j : String) (s : TicketStore)
    → (issue now later t s).0 ≡ issued t
    → get j (issue now later t s).1
      ≡ (if t == j then some (later + ticket_ttl) else get j (prune_expired now s))
unfolding issue
get-issue now later t j s h = ground (arith, get-set t j (later + ticket_ttl) (prune_expired now s))

pub get-issue_full :
    (now later : ℕ) (t : String) (s : TicketStore)
    → (issue now later t s).0 ≡ ticket_store_full
    → (issue now later t s).1 ≡ prune_expired now s
unfolding issue
get-issue_full now later t s h = ground arith

pub get-consume :
    (now : ℕ) (t j : String) (s : TicketStore)
    → get j (consume now t s).1 ≡ (if t == j then none else get j s)
unfolding consume
get-consume now t j s = get-remove t j s

-- A ticket that was just issued is accepted exactly while its lifetime lasts, and not again.
pub consume-issue :
    (now later at again : ℕ) (t : String) (s : TicketStore)
    → (issue now later t s).0 ≡ issued t
    → ((consume at t (issue now later t s).1).0 ≡ ltb at (later + ticket_ttl))
      × ((consume again t (consume at t (issue now later t s).1).1).0 ≡ false)
unfolding consume
consume-issue now later at again t s h = (
  rw (get-issue now later t t s h, ==_refl t),
  rw (get-remove t t (issue now later t s).1, ==_refl t),
)

-- Issuing is refused exactly when `max_tickets` unexpired tickets are out.
pub issue_full_iff :
    (now later : ℕ) (t : String) (s : TicketStore)
    → ((issue now later t s).0 ≡ ticket_store_full) ↔ (max_tickets ≤ length (prune_expired now s))
unfolding issue
issue_full_iff now later t s = (λ h. ground arith, λ h. ground arith)

pub issue-cases :
    (now later : ℕ) (t : String) (s : TicketStore)
    → ((issue now later t s).0 ≡ issued t) ⊎ ((issue now later t s).0 ≡ ticket_store_full)
unfolding issue
issue-cases now later t s = ground arith
