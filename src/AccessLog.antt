-- ===== src/AccessLog.antt =====
-- backend/service/vllm_access_log.py: the per-address statistics of vLLM's own access log, which a
-- poller tails from the server. A text is the list of its bytes, which are taken to be ASCII; the
-- poller's thread is a sequence of polls.
pub mod Tail
pub mod Recent
use v_llm_dashboard.Prelude.{
  ℕ, ◌+◌, String, Bool, true, false, not, ◌&&◌, ◌||◌, Option, none, some, List, [], ◌∷◌, ◌++◌, ltb,
  anyb, last_n, take, length, if◌then◌else◌, ◌==◌, nat_eq,
}
use v_llm_dashboard.Prelude.Eq.{Eq}
use v_llm_dashboard.Prelude.Dict.{Dict, get, set, values}
use v_llm_dashboard.Prelude.Texts.{Text, text_eq, code_points, list_beq}
use v_llm_dashboard.Prelude.Decimal.{read_digits}
use v_llm_dashboard.Prelude.Regex.{
  Regex, Regex.one_of, Regex.empty, Regex.at_start, Regex.seq, Regex.alt, Regex.many, Regex.group,
  Scan, search, erase, lit, word, many1, optional, up_to, times, group_text, is_digit, is_upper,
  is_letter, is_space, sequence,
}

-- POLL_INTERVAL_SECONDS is left out; MAX_ENTRIES and _MAX_LINE_BUF, and what is kept of the latter
abbrev pub max_entries : ℕ
max_entries = 2000

abbrev pub max_line_buf : ℕ
max_line_buf = 65536

abbrev pub line_buf_tail : ℕ
line_buf_tail = 8192

pub record AccessEntry : Type 0 where
  pub ts : ℕ
  pub ip : Text
  pub method : Text
  pub path : Text
  pub status : ℕ
  pub body : Option Text

pub record AccessTotals : Type 0 where
  pub ip : Text
  pub count : ℕ
  pub last_seen : ℕ
  pub last_method : Text
  pub last_path : Text

-- `session` is the start point in the session file, none where there is no file
pub record VllmAccessLog : Type 0 where
  pub entries : List AccessEntry
  pub by_ip : Dict Text AccessTotals
  pub offset : ℕ
  pub line_buf : Text
  pub skip_to_end : Bool
  pub session : Option ℕ

abbrev pub count_of : Option AccessTotals → ℕ
count_of none = 0
count_of (some a) = a.count

-- `VllmAccessLog.record`
unfoldable pub record_request : AccessEntry → VllmAccessLog → VllmAccessLog
record_request e log = record log {
  entries = last_n max_entries (log.entries ++ e ∷ []);
  by_ip =
      set e.ip
        (record {
          ip = e.ip;
          count = count_of (get e.ip log.by_ip) + 1;
          last_seen = e.ts;
          last_method = e.method;
          last_path = e.path;
        })
        log.by_ip;
}

-- a stable sort by `last_seen`, the latest first
insert_row : AccessTotals → List AccessTotals → List AccessTotals
insert_row a [] = a ∷ []
insert_row a (b ∷ rows) =
    let later = insert_row a rows in if ltb a.last_seen b.last_seen then b ∷ later else a ∷ b ∷ rows

unfoldable pub sort_rows : List AccessTotals → List AccessTotals
unfolding insert_row
sort_rows [] = []
sort_rows (a ∷ rows) = insert_row a (sort_rows rows)

-- `VllmAccessLog.connections`
unfoldable pub connections : ℕ → VllmAccessLog → List AccessTotals
unfolding sort_rows
connections limit log = take limit (sort_rows (values log.by_ip))

newest_first : Text → List AccessEntry → List AccessEntry
newest_first ip [] = []
newest_first ip (e ∷ es) =
    let later = newest_first ip es in if list_beq e.ip ip then later ++ e ∷ [] else later

-- `VllmAccessLog.requests_for`
unfoldable pub requests_of : Text → ℕ → VllmAccessLog → List AccessEntry
unfolding newest_first
requests_of ip limit log = take limit (newest_first ip log.entries)

-- `VllmAccessLog.reset`
unfoldable pub reset_log : VllmAccessLog → VllmAccessLog
reset_log log = record log { entries = []; by_ip = []; offset = 1; line_buf = [] }

-- ACCESS_LINE_RE, with the groups ip, method, path and status
abbrev pub ip_group : ℕ
ip_group = 0

abbrev pub method_group : ℕ
method_group = 1

abbrev pub path_group : ℕ
path_group = 2

abbrev pub status_group : ℕ
status_group = 3

abbrev digit : Regex
digit = one_of is_digit

abbrev space : Regex
space = one_of is_space

abbrev non_space : Regex
non_space = one_of (λ c. not (is_space c))

abbrev octet : Regex
octet = seq digit (up_to 2 digit)

-- (?:\S+\s+\[[^\]]*\]\s+)?
abbrev date_part : Regex
date_part = optional (
    sequence (
      many1 non_space
      ∷ many1 space
      ∷ lit b'['
      ∷ many (one_of (λ c. not (c == b']')))
      ∷ lit b']'
      ∷ many1 space
      ∷ []))

abbrev pub access_line_re : Regex
access_line_re = sequence (
    alt at_start space
    ∷ group ip_group (seq octet (times 3 (seq (lit b'.') octet)))
    ∷ lit b':'
    ∷ many1 digit
    ∷ many1 space
    ∷ lit b'-'
    ∷ many1 space
    ∷ date_part
    ∷ lit b'"'
    ∷ group method_group (many1 (one_of is_upper))
    ∷ lit b' '
    ∷ group path_group (many1 non_space)
    ∷ word (code_points " HTTP/")
    ∷ many1 (one_of (λ c. is_digit c || c == b'.'))
    ∷ lit b'"'
    ∷ many1 space
    ∷ group status_group (times 3 digit)
    ∷ [])

-- _ANSI_RE
abbrev pub ansi_re : Regex
ansi_re =
    sequence
      (lit 27 ∷ lit b'[' ∷ many (one_of (λ c. is_digit c || c == b';')) ∷ one_of is_letter ∷ [])

-- _PROBE_PATHS
abbrev pub probe_paths : List String
probe_paths = "/health" ∷ "/metrics" ∷ "/v1/models" ∷ []

-- path.split("?", 1)[0]
abbrev pub before_query : Text → Text
before_query [] = []
before_query (c ∷ text) = let rest = before_query text in if c == b'?' then [] else c ∷ rest

-- line.rstrip("\r"), and what `$( )` does with newlines
unfoldable pub rstrip : ℕ → Text → Text
rstrip x [] = []
rstrip x (c ∷ text) =
    let rest = rstrip x text in if c == x && length rest == 0 then [] else c ∷ rest

entry_of : ℕ → Text → Scan → Option AccessEntry
entry_of now path m =
    if anyb (λ p. list_beq path (code_points p)) probe_paths
    then none
    else some (record {
      ts = now;
      ip = group_text ip_group m;
      method = group_text method_group m;
      path = path;
      status = (read_digits 0 (group_text status_group m)).0;
      body = none;
    })

entry_at : ℕ → Option Scan → Option AccessEntry
entry_at now none = none
entry_at now (some m) = entry_of now (before_query (group_text path_group m)) m

-- one round of the loop of `ingest`: the entry of a line, if it is an access of a client
unfoldable pub line_entry : ℕ → Text → Option AccessEntry
unfolding entry_of entry_at
line_entry now line = entry_at now (search access_line_re (erase ansi_re (rstrip b'\r' line)))
