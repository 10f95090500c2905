-- ===== src/Access.antt =====
-- backend/middleware.py and backend/service/request_log.py: the chain of HTTP middleware in the
-- order of backend/main.py (body gate, request log, authentication, handler), and the access log.
-- CORS, the request id and the metrics are left out; a response is its status code, and an exception
-- that leaves the chain is answered 500.
pub mod Guarded
pub mod Logged
pub mod Notes
use v_llm_dashboard.Prelude.{
  ℕ, ◌+◌, ◌*◌, String, Bool, true, false, not, ◌&&◌, ◌||◌, Option, none, some, List, [], ◌∷◌, ◌++◌,
  ltb, leb, anyb, filterb, last_n, take, length, if◌then◌else◌, ◌==◌, string_eq, nat_eq,
}
use v_llm_dashboard.Prelude.Dict.{Dict, get, set}
use v_llm_dashboard.Prelude.Set.{contains}
use v_llm_dashboard.Prelude.Texts.{code_points, starts_with, list_beq}

-- `content_length` is none where the header is no number, and zero where it is missing; `body` is
-- what the first bytes of the body decode to, none where reading it failed.
pub record Request : Type 0 where
  pub method : String
  pub path : String
  pub client : Option String
  pub api_key : String
  pub content_length : Option ℕ
  pub body : Option (List ℕ)

pub record Entry : Type 0 where
  pub ts : ℕ
  pub ip : String
  pub method : String
  pub path : String
  pub status : ℕ
  pub body : Option (List ℕ)

pub record Aggregate : Type 0 where
  pub count : ℕ
  pub last_seen : ℕ
  pub last_method : String
  pub last_path : String

pub record RequestLog : Type 0 where
  pub entries : List Entry
  pub by_ip : Dict String Aggregate

-- MAX_ENTRIES
abbrev pub max_entries : ℕ
max_entries = 2000

abbrev pub counted : Option Aggregate → ℕ
counted none = 0
counted (some a) = a.count

-- `RequestLog.record`
unfoldable pub record_entry : Entry → RequestLog → RequestLog
record_entry e log = record {
  entries = last_n max_entries (log.entries ++ e ∷ []);
  by_ip =
      set e.ip
        (record {
          count = counted (get e.ip log.by_ip) + 1;
          last_seen = e.ts;
          last_method = e.method;
          last_path = e.path;
        })
        log.by_ip;
}

-- _BODY_METHODS, _CREDENTIAL_BODY_PATHS, _BODY_PREVIEW_MAX, _BODY_SIZE_LIMIT
abbrev pub body_methods : List String
body_methods = "POST" ∷ "PUT" ∷ "PATCH" ∷ []

abbrev pub credential_body_paths : List String
credential_body_paths = "/api/v1/config/server" ∷ "/api/v1/models/launch-config" ∷ []

abbrev pub body_preview_max : ℕ
body_preview_max = 256 * 1024

abbrev pub body_size_limit : ℕ
body_size_limit = 64 * 1024 * 1024

abbrev pub or_zero : Option ℕ → ℕ
or_zero none = 0
or_zero (some n) = n

-- `_sanitize_body`, behind the cut and the decoding
unfoldable pub sanitize_body : List ℕ → Option (List ℕ)
sanitize_body [] = none
sanitize_body (c ∷ text) = some (filterb (λ x. x == 10 || x == 9 || leb 32 x) (c ∷ text))

abbrev lstrip_slash : List ℕ → List ℕ
lstrip_slash [] = []
lstrip_slash (c ∷ s) = let rest = lstrip_slash s in if c == b'/' then rest else c ∷ s

-- `_requires_auth`
unfoldable pub requires_auth : String → Bool
requires_auth path =
    let p = lstrip_slash (code_points path) in
    anyb (λ name. list_beq p (code_points name)) ("health" ∷ "metrics" ∷ "api" ∷ "ws" ∷ [])
    || starts_with p (code_points "api/")
    || starts_with p (code_points "ws/")

abbrev pub is_ascii : String → Bool
is_ascii s = not (anyb (λ c. leb 128 c) (code_points s))

-- hmac.compare_digest of two texts: none is the TypeError for a text that is not ASCII
unfoldable pub compare_digest : String → String → Option Bool
compare_digest a b = if is_ascii a && is_ascii b then some (a == b) else none

abbrev pub let_through : Option Bool → Option ℕ → Option ℕ
let_through none answer = none
let_through (some true) answer = answer
let_through (some false) answer = some 401

-- `auth_middleware`: `key` is the configured API key, empty where authentication is off. An answer is
-- none where an exception was raised.
unfoldable pub auth_middleware : String → (Request → Option ℕ) → Request → Option ℕ
unfolding requires_auth compare_digest
auth_middleware key call_next r =
    if key == "" || not (requires_auth r.path)
    then call_next r
    else if r.method == "OPTIONS"
    then call_next r
    else if r.api_key == ""
    then some 401
    else let_through (compare_digest r.api_key key) (call_next r)

-- the requests that the log leaves out
unfoldable pub is_unlogged : Request → Bool
is_unlogged r =
    r.method == "OPTIONS"
    || not (starts_with (code_points r.path) (code_points "/api/v1"))
    || starts_with (code_points r.path) (code_points "/api/v1/monitor/")

abbrev or_nothing : Option (List ℕ) → Option (List ℕ)
or_nothing none = none
or_nothing (some text) = sanitize_body text

-- the preview of the body that is logged
unfoldable pub body_preview : Request → Option (List ℕ)
unfolding sanitize_body
body_preview r =
    let n = or_zero r.content_length in
    if contains r.method body_methods && not (contains r.path credential_body_paths)
    then (if ltb 0 n && ltb n body_preview_max then or_nothing r.body else none)
    else none

abbrev pub client_ip : Option String → String
client_ip none = "?"
client_ip (some host) = host

-- what is recorded of an answer; an exception leaves before the record
unfoldable pub logged : Option ℕ → ℕ → Request → RequestLog → RequestLog
unfolding body_preview record_entry
logged none now r log = log
logged (some status) now r log =
    record_entry
      (record {
        ts = now;
        ip = client_ip r.client;
        method = r.method;
        path = r.path;
        status = status;
        body = body_preview r;
      })
      log

-- `request_log_middleware`
unfoldable pub request_log_middleware :
    (Request → Option ℕ) → ℕ → Request → RequestLog → Option ℕ × RequestLog
unfolding is_unlogged logged
request_log_middleware call_next now r log =
    (call_next r, if is_unlogged r then log else logged (call_next r) now r log)

-- `body_size_gate_middleware`
unfoldable pub is_oversized : Request → Bool
is_oversized r = contains r.method body_methods && leb body_size_limit (or_zero r.content_length)

-- `unhandled_exception_handler`, where an exception has left the chain
abbrev pub or_internal_error : Option ℕ → ℕ
or_internal_error none = 500
or_internal_error (some status) = status

-- the whole chain
unfoldable pub respond : String → (Request → Option ℕ) → ℕ → Request → RequestLog → ℕ × RequestLog
unfolding is_oversized request_log_middleware auth_middleware
respond key handler now r log =
    if is_oversized r
    then (413, log)
    else let (answer, log') = request_log_middleware (auth_middleware key handler) now r log in
      (or_internal_error answer, log')

-- the entries of one address, the newest first
unfoldable pub entries_of : String → List Entry → List Entry
entries_of ip [] = []
entries_of ip (e ∷ es) = if e.ip == ip then entries_of ip es ++ e ∷ [] else entries_of ip es

-- `requests_for`
unfoldable pub requests_for : String → ℕ → RequestLog → List Entry
unfolding entries_of
requests_for ip limit log = take limit (entries_of ip log.entries)
