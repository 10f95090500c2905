-- ===== src/AccessLog/Tail.antt =====
-- backend/service/vllm_access_log.py: `ingest`, the command that a poll runs on the server, and
-- what a poll does with its output. `now` is the time of a poll: the code reads the clock at each
-- line that it records, and these readings are taken to be one.
pub mod Times
pub mod Chunks
pub mod Polls
pub mod Sessions
use v_llm_dashboard.Prelude.{
  ℕ, ◌+◌, ◌-◌, Bool, true, false, Option, none, some, List, [], ◌∷◌, ◌++◌, ltb, last_n, drop,
  length, if◌then◌else◌, ◌==◌, nat_eq,
}
use v_llm_dashboard.Prelude.Texts.{Text, code_points, starts_with}
use v_llm_dashboard.Prelude.Decimal.{decimal, read_digits}
use v_llm_dashboard.Prelude.Regex.{is_digit}
use v_llm_dashboard.AccessLog.{
  AccessEntry, VllmAccessLog, max_line_buf, line_buf_tail, record_request, reset_log, line_entry,
  rstrip,
}

push_char : ℕ → List Text × Text → List Text × Text
push_char c ([], tail) = if c == b'\n' then ([] ∷ [], tail) else ([], c ∷ tail)
push_char c (line ∷ lines, tail) =
    if c == b'\n' then ([] ∷ line ∷ lines, tail) else ((c ∷ line) ∷ lines, tail)

-- parts[:-1] and parts[-1] of text.split("\n")
unfoldable pub split_lines : Text → List Text × Text
unfolding push_char
split_lines [] = ([], [])
split_lines (c ∷ text) = push_char c (split_lines text)

record_some : Option AccessEntry → VllmAccessLog → VllmAccessLog
record_some none log = log
record_some (some e) log = record_request e log

-- the entries of complete lines, recorded in order
unfoldable pub record_lines : ℕ → List Text → VllmAccessLog → VllmAccessLog
unfolding record_some
record_lines now [] log = log
record_lines now (line ∷ lines) log = record_lines now lines (record_some (line_entry now line) log)

-- the carried partial line, cut where it grows without end
unfoldable pub cut_line_buf : Text → Text
cut_line_buf buf = if ltb max_line_buf (length buf) then last_n line_buf_tail buf else buf

-- the lines of a split text are recorded, and its tail is carried
abbrev pub ingested : ℕ → List Text × Text → VllmAccessLog → VllmAccessLog
ingested now (lines, buf) log = record_lines now lines (record log { line_buf = cut_line_buf buf })

unfoldable pub ingest : ℕ → Text → VllmAccessLog → VllmAccessLog
unfolding split_lines record_lines cut_line_buf
ingest now [] log = log
ingest now (c ∷ text) log = ingested now (split_lines (log.line_buf ++ c ∷ text)) log

-- the markers, in a form that the poller reads
abbrev pub trunc_marker : Text
trunc_marker = code_points "VDB_LOG_TRUNC"

abbrev pub size_marker : Text
size_marker = code_points "VDB_SIZE="

abbrev pub bytes_marker : Text
bytes_marker = code_points "VDB_BYTES="

abbrev pub marker_line : Text → ℕ → Text → Text
marker_line marker n text = marker ++ decimal n ++ b'\n' ∷ text

-- what the command of `_build_poll_command` prints: the marker where the file is shorter than what
-- was read, its size, and the bytes behind the offset without the newlines at their end, which
-- `$( )` strips, counted. A missing file counts as an empty one.
unfoldable pub poll_output : ℕ → Text → Text
poll_output offset file =
    let chunk = rstrip b'\n' (drop (offset - 1) file) in
    let report =
      marker_line size_marker (length file) (marker_line bytes_marker (length chunk) chunk) in
    if ltb (length file) (offset - 1) then trunc_marker ++ b'\n' ∷ report else report

-- the digits that follow a marker, up to a newline
number_line : ℕ × Text → Option (ℕ × Text)
number_line (n, []) = none
number_line (n, c ∷ text) = if c == b'\n' then some (n, text) else none

some_digits : Text → Option (ℕ × Text)
unfolding number_line
some_digits [] = none
some_digits (c ∷ text) = if is_digit c then number_line (read_digits 0 (c ∷ text)) else none

-- _SIZE_RE and _BYTES_RE: the number on a marker's line, and what follows the line
unfoldable pub match_marker : Text → Text → Option (ℕ × Text)
unfolding some_digits number_line
match_marker marker out =
    if starts_with out marker then some_digits (drop (length marker) out) else none

abbrev pub behind : Option (ℕ × Text) → Text → Option ℕ × Text
behind none out = (none, out)
behind (some (n, text)) out = (some n, text)

-- without a count, the length of the text is taken
abbrev byte_length : Option ℕ → Text → ℕ
byte_length none out = length out
byte_length (some n) out = n

abbrev lstrip_newlines : Text → Text
lstrip_newlines [] = []
lstrip_newlines (c ∷ text) =
    let rest = lstrip_newlines text in if c == b'\n' then rest else c ∷ text

unfoldable pub advance : ℕ → ℕ → Text → VllmAccessLog → VllmAccessLog
advance now n out log = let log' = ingest now out log in record log' { offset = log'.offset + n }

-- the end of `_consume_poll_output`, by whether the file was truncated, whether a session start is
-- pending, and the size that was reported
settle : Bool → Bool → Option ℕ → ℕ → ℕ → Text → VllmAccessLog → VllmAccessLog
settle truncated true none now n out log = log
settle true true (some size) now n out log =
    advance now n out (record log { skip_to_end = false; session = some 0 })
settle false true (some size) now n out log = record log {
  skip_to_end = false;
  offset = size + 1;
  session = some size;
}
settle true false size now n out log =
    let log' = advance now n out log in record log' { session = none }
settle false false size now n out log = advance now n out log

-- `_consume_poll_output`
unfoldable pub consume_poll_output : ℕ → Text → VllmAccessLog → VllmAccessLog
unfolding settle advance match_marker
consume_poll_output now out log =
    let truncated = starts_with out trunc_marker in
    let text = if truncated then lstrip_newlines (drop (length trunc_marker) out) else out in
    let log' = if truncated then reset_log log else log in
    let (size, sized) = behind (match_marker size_marker text) text in
    let (count, chunk) = behind (match_marker bytes_marker sized) sized in
    settle truncated log'.skip_to_end size now (byte_length count chunk) chunk log'

-- `_poll_once` of a remote server that answers
unfoldable pub poll_once : ℕ → Text → VllmAccessLog → VllmAccessLog
unfolding poll_output consume_poll_output
poll_once now file log = consume_poll_output now (poll_output log.offset file) log

-- `mark_session_start`
unfoldable pub mark_session_start : VllmAccessLog → VllmAccessLog
mark_session_start log = record log { entries = []; by_ip = []; line_buf = []; skip_to_end = true }

-- `_load_session_offset`, on a session file that this program wrote
unfoldable pub load_session_offset : VllmAccessLog → VllmAccessLog
load_session_offset log = elim log.session [
  | none ↦ log
  | some offset ↦ record log { offset = offset + 1 }
]

-- a log of a new process, which finds a session file or none
abbrev pub new_log : Option ℕ → VllmAccessLog
new_log session = record {
  entries = [];
  by_ip = [];
  offset = 1;
  line_buf = [];
  skip_to_end = false;
  session = session;
}
