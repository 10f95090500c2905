-- ===== src/Downloads.antt =====
-- backend/service/model_download_status.py and model_downloads.py: the status of a download by its
-- log, its process and the bytes on disk, and the guards in front of a new download. A text is a
-- list of ASCII characters, a time a number of seconds; the answers of the server are inputs.
pub mod Progress
pub mod Inflight
use v_llm_dashboard.Prelude.{
  ℕ, ◌+◌, ◌-◌, ◌*◌, ◌^◌, String, Bool, true, false, not, ◌&&◌, ◌||◌, Option, none, some, List, [],
  ◌∷◌, ◌++◌, map, ltb, leb, max, anyb, take, drop, last_n, filterb, length, if◌then◌else◌, ◌==◌,
  nat_eq,
}
use v_llm_dashboard.Prelude.Dict.{Dict, get, set, remove}
use v_llm_dashboard.Prelude.Texts.{Text, text_eq, code_points, starts_with}
use v_llm_dashboard.Prelude.Decimal.{read_digits}
use v_llm_dashboard.Prelude.Words.{
  has_infix, strip_text, split_on, is_empty_text, as_newlines, partition,
}
use v_llm_dashboard.Prelude.Regex.{
  Regex, Regex.one_of, Regex.seq, Regex.many, Regex.group, Scan, search, find_all, lit, word, many1,
  optional, group_text, sequence, is_digit, is_word, is_space,
}

-- DL_STALL_THRESHOLD_SECS
abbrev pub stall_threshold_secs : ℕ
stall_threshold_secs = 180

-- the head of the report, in front of the marker of the log's tail
pub record Head : Type 0 where
  pub log_size : ℕ
  pub log_mtime : ℕ
  pub pid : Text

abbrev all_digits : Text → Bool
all_digits [] = true
all_digits (c ∷ text) = is_digit c && all_digits text

-- s.isdigit()
abbrev pub isdigit : Text → Bool
isdigit text = not (is_empty_text text) && all_digits text

abbrev number_or_zero : Text → ℕ
number_or_zero v = if isdigit v then (read_digits 0 v).0 else 0

abbrev behind : Text → Text → Text
behind prefix line = strip_text (drop (length prefix) line)

abbrev read_line : Text → Head → Head
read_line line h =
    if starts_with line (code_points "SIZE=")
    then record h { log_size = number_or_zero (behind (code_points "SIZE=") line) }
    else if starts_with line (code_points "MTIME=")
    then record h { log_mtime = number_or_zero (behind (code_points "MTIME=") line) }
    else if starts_with line (code_points "PID=")
    then record h { pid = behind (code_points "PID=") line }
    else h

read_lines : List Text → Head → Head
read_lines [] h = h
read_lines (line ∷ lines) h = read_lines lines (read_line line h)

abbrev tail_marker : Text
tail_marker = code_points "---TAIL---\n"

abbrev onto : ℕ → Text × Text → Text × Text
onto c (head, tail) = (c ∷ head, tail)

-- stdout.partition("---TAIL---\n"), without the separator
unfoldable pub split_tail : Text → Text × Text
split_tail [] = ([], [])
split_tail (c ∷ text) =
    let rest = split_tail text in
    if starts_with (c ∷ text) tail_marker
    then ([], drop (length tail_marker) (c ∷ text))
    else onto c rest

unfoldable pub read_head : Text → Head
unfolding read_lines
read_head head =
    read_lines (split_on b'\n' (as_newlines head))
      (record { log_size = 0; log_mtime = 0; pid = [] })

-- the texts that make a line a fatal error
abbrev pub fatal_words : List String
fatal_words =
    "ERROR: hf not found" ∷ "ERROR: huggingface-cli not found" ∷ "command not found" ∷ "Traceback"
    ∷ "Exception" ∷ "OSError" ∷ "ConnectionError" ∷ "is deprecated and no longer works"
    ∷ "Access denied" ∷ "requires approval" ∷ []

abbrev mentions : List String → Text → Bool
mentions words line = anyb (λ w. has_infix (code_points w) line) words

unfoldable pub has_fatal_error : Text → Bool
has_fatal_error log = anyb (mentions fatal_words) (split_on b'\n' log)

-- /models--[\w.()-]+/snapshots/[\w]+
abbrev is_model_char : ℕ → Bool
is_model_char c = is_word c || c == b'.' || c == b'(' || c == b')' || c == b'-'

abbrev complete_re : Regex
complete_re = sequence (
    word (code_points "/models--")
    ∷ many1 (one_of is_model_char)
    ∷ word (code_points "/snapshots/")
    ∷ many1 (one_of is_word)
    ∷ [])

abbrev found : Option Scan → Bool
found none = false
found (some s) = true

unfoldable pub complete_marker : Text → Bool
complete_marker log = found (search complete_re log)

-- (\d+(?:\.\d+)?)\s*%
abbrev progress_re : Regex
progress_re = sequence (
    group 0 (seq (many1 (one_of is_digit)) (optional (seq (lit b'.') (many1 (one_of is_digit)))))
    ∷ many (one_of is_space)
    ∷ lit b'%'
    ∷ [])

-- a number as a fraction
pub record Fraction : Type 0 where
  pub num : ℕ
  pub den : ℕ

abbrev as_fraction : Text × Option Text → Fraction
as_fraction (whole, none) = record { num = (read_digits 0 whole).0; den = 1 }
as_fraction (whole, some part) = record {
  num = (read_digits (read_digits 0 whole).0 part).0;
  den = 10 ^ length part;
}

last_scan : List Scan → Option Scan
last_scan [] = none
last_scan (s ∷ []) = some s
last_scan (s ∷ t ∷ scans) = last_scan (t ∷ scans)

abbrev fraction_of : Option Scan → Option Fraction
fraction_of none = none
fraction_of (some s) = some (as_fraction (partition b'.' (group_text 0 s)))

-- float(progress_matches[-1])
unfoldable pub parsed_progress : Text → Option Fraction
unfolding last_scan
parsed_progress log = fraction_of (last_scan (find_all progress_re log))

-- min(bound, f) and max(bound, f)
abbrev pub at_most : ℕ → Fraction → Fraction
at_most bound f = if leb (bound * f.den) f.num then record { num = bound; den = 1 } else f

abbrev pub at_least : ℕ → Fraction → Fraction
at_least bound f = if leb f.num (bound * f.den) then record { num = bound; den = 1 } else f

abbrev pub by_elapsed : ℕ → ℕ → Fraction
by_elapsed now mtime =
    if ltb 0 mtime
    then at_most 95 (at_least 5 (record { num = max 1 (now - mtime) * 100; den = 1800 }))
    else record { num = 5; den = 1 }

abbrev pub by_text : Option Fraction → ℕ → ℕ → Fraction
by_text none now mtime = by_elapsed now mtime
by_text (some f) now mtime = at_most 99 f

-- `_progress`, in percent, before it is rounded
unfoldable pub progress : ℕ → ℕ → Option Fraction → ℕ → ℕ → Fraction
progress total size parsed now mtime =
    if ltb 0 total && ltb 0 size
    then at_most 99 (record { num = size * 100; den = total })
    else by_text parsed now mtime

-- _dl_growth: for each log file the process, its bytes, and when they last grew
pub record Grown : Type 0 where
  pub pid : Text
  pub size : ℕ
  pub time : ℕ

-- the new entry, and the seconds without growth
unfoldable pub note_growth : Text → ℕ → ℕ → ℕ → Option Grown → Grown × ℕ
note_growth pid size now mtime none = (record { pid = pid; size = size; time = now }, 0)
note_growth pid size now mtime (some g) =
    if not (pid == g.pid) || ltb g.size size
    then (record { pid = pid; size = size; time = now }, 0)
    else if ltb 0 size
    then (g, now - g.time)
    else (g, if ltb 0 mtime then now - mtime else 0)

pub data DownloadStatus : Type 0 where
  unreadable not_found complete stopped : DownloadStatus
  downloading : Fraction → DownloadStatus
  stalled : Fraction → ℕ → DownloadStatus
  failed : Text → DownloadStatus

abbrev pub reason_words : List String
reason_words =
    "ERROR" ∷ "Traceback" ∷ "Exception" ∷ "command not found" ∷ "OSError" ∷ "ConnectionError"
    ∷ "not found" ∷ "Access denied" ∷ []

abbrev join_lines : List Text → Text
join_lines [] = []
join_lines (line ∷ []) = line
join_lines (line ∷ next ∷ lines) = line ++ code_points " | " ++ join_lines (next ∷ lines)

unfoldable pub fail_reason : Text → Text
fail_reason log =
    take 500 (
      join_lines (last_n 3 (map strip_text (filterb (mentions reason_words) (split_on b'\n' log)))))

abbrev pub Growth : Type 0
Growth = Dict Text Grown

abbrev running_status : Fraction → ℕ → DownloadStatus
running_status f secs = if ltb stall_threshold_secs secs then stalled f secs else downloading f

-- the status of a download whose process is gone
unfoldable pub ended_status : Text → DownloadStatus
unfolding has_fatal_error complete_marker fail_reason
ended_status log =
    if complete_marker log
    then complete
    else if has_fatal_error log
    then failed (fail_reason log)
    else stopped

abbrev with_head : Text → Head → Text → ℕ → ℕ → ℕ → Growth → DownloadStatus × Growth
with_head log_file h log size total now growth =
    let (g, secs) = note_growth h.pid size now h.log_mtime (get log_file growth) in
    if isdigit h.pid
    then (
      running_status (progress total size (parsed_progress log) now h.log_mtime) secs,
      set log_file g growth,
    )
    else (ended_status log, remove log_file growth)

-- `_compute_download_status`: the output of the command, or none where it failed, the bytes on
-- disk and the total of the repository
unfoldable pub compute_download_status :
    Text → Option Text → ℕ → ℕ → ℕ → Growth → DownloadStatus × Growth
unfolding split_tail read_head note_growth progress parsed_progress ended_status
compute_download_status log_file none size total now growth = (unreadable, growth)
compute_download_status log_file (some out) size total now growth =
    let (head, log) = split_tail out in
    let known = with_head log_file (read_head head) log size total now growth in
    if starts_with out (code_points "NOT_FOUND") then (not_found, growth) else known

-- the answer to a request for a download
pub data Launched : Type 0 where
  refused : ℕ → Launched
  started : Option ℕ → Launched

-- what the launch on the server reports: a download that runs already, a failure, or its output
pub data Launch : Type 0 where
  already_running launch_failed : Launch
  launched : Text → Launch

abbrev by_launch : Launch → Launched
by_launch already_running = refused 409
by_launch launch_failed = refused 500
by_launch (launched out) =
    let pid = strip_text out in started (if isdigit pid then some (read_digits 0 pid).0 else none)

-- `download_model`, by the output of its probe, none where that failed; the error is its status
unfoldable pub download_model : Option Text → Launch → Launched
download_model none launch = refused 503
download_model (some out) launch =
    let probe = strip_text out in
    let existing = strip_text (drop (length (code_points "EXIST=")) probe) in
    if not (starts_with probe (code_points "EXIST="))
    then refused 503
    else if not (is_empty_text existing) && not (existing == code_points "NONE")
    then refused 409
    else by_launch launch
