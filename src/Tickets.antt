-- ===== src/Tickets.antt =====
-- The one-time WebSocket tickets: TicketStore of backend/ws/ticket.py, the endpoint that issues
-- them (backend/api/ws_auth.py) and the WebSocket gate of backend/middleware.py.
-- A clock reading is a whole number of microseconds; each read of the clock is an argument.
pub mod Store
pub mod Trace
use v_llm_dashboard.Prelude.{
  ℕ, ◌+◌, ◌*◌, String, Bool, true, false, not, ◌&&◌, Option, none, some, List, [], ltb, leb, length,
  if◌then◌else◌, ◌==◌, string_eq,
}
use v_llm_dashboard.Prelude.Dict.{Dict, get, set, remove, filter_values}

-- seconds on the clock
abbrev pub seconds : ℕ → ℕ
seconds n = n * 1000000

-- TICKET_TTL
abbrev pub ticket_ttl : ℕ
ticket_ttl = seconds 60

-- _MAX_TICKETS
abbrev pub max_tickets : ℕ
max_tickets = 4096

-- `_tickets`: the expiry of each outstanding ticket
abbrev pub TicketStore : Type 0
TicketStore = Dict String ℕ

abbrev pub not_expired : ℕ → ℕ → Bool
not_expired now expires = not (leb expires now)

unfoldable pub prune_expired : ℕ → TicketStore → TicketStore
prune_expired now = filter_values (not_expired now)

pub data Issued : Type 0 where
  issued : String → Issued
  ticket_store_full : Issued

-- `ticket` is what secrets.token_urlsafe returns; `later` is the second clock reading.
unfoldable pub issue : ℕ → ℕ → String → TicketStore → Issued × TicketStore
issue now later ticket s =
    let pruned = prune_expired now s in
    if leb max_tickets (length pruned)
    then (ticket_store_full, pruned)
    else (issued ticket, set ticket (later + ticket_ttl) pruned)

abbrev unexpired_at : ℕ → Option ℕ → Bool
unexpired_at now none = false
unexpired_at now (some expires) = ltb now expires

unfoldable pub consume : ℕ → String → TicketStore → Bool × TicketStore
consume now ticket s = (unexpired_at now (get ticket s), remove ticket s)

unfoldable pub reset : TicketStore → TicketStore
reset s = []

pub data Response : Type 0 where
  ok_ticket : String → ℕ → Response
  http_error : ℕ → Response

abbrev respond : Issued → Response
respond (issued t) = ok_ticket t 60
respond ticket_store_full = http_error 503

-- GET /api/v1/auth/ws-ticket
unfoldable pub issue_ws_ticket : ℕ → ℕ → String → TicketStore → Response × TicketStore
unfolding issue
issue_ws_ticket now later ticket s = let (r, s') = issue now later ticket s in (respond r, s')

-- ws_api_key_valid: `api_key` is settings.API_KEY, `provided` the query parameter "ticket".
unfoldable pub ws_api_key_valid : String → String → ℕ → TicketStore → Bool × TicketStore
unfolding consume
ws_api_key_valid api_key provided now s =
    if api_key == ""
    then (true, s)
    else if provided == ""
    then (false, s)
    else consume now provided s
