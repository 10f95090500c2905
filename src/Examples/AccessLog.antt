-- ===== src/Examples/AccessLog.antt =====
-- The properties of the access log of vLLM and of the downloads at concrete inputs.
use v_llm_dashboard.Prelude.{
  ℕ, Option, ◌+◌, ◌≤◌, ◌≡◌, refl, ◌++◌, ◌∷◌, [], arith, false, none, some, length,
}
use v_llm_dashboard.Prelude.Texts.{Text, code_points}
use v_llm_dashboard.Prelude.Dict.{get, set}
use v_llm_dashboard.Prelude.Decimal.{read_digits}
use v_llm_dashboard.Prelude.Regex.{search, erase}
use v_llm_dashboard.AccessLog.{AccessEntry, rstrip, line_entry}
use v_llm_dashboard.AccessLog.Tail.{
  split_lines, poll_once, mark_session_start, load_session_offset, new_log, ingest,
}
use v_llm_dashboard.AccessLog.Tail.Times.{untimed}
use v_llm_dashboard.AccessLog.Tail.Chunks.{at_position}
use v_llm_dashboard.AccessLog.Tail.Polls.{chunk_at, poll_once-poll_once, poll_once-newline}
use v_llm_dashboard.AccessLog.Tail.Sessions.{session-counts_new}
use v_llm_dashboard.Downloads.Inflight.{
  answered, Query, here, then_step, computed, timed_out, computing, storing, racing-stuck,
}

abbrev first_line : Text
first_line = code_points "10.0.0.1:5 - \"GET /v1/x HTTP/1.1\" 200\n"

abbrev second_line : Text
second_line = code_points "10.0.0.2:6 - \"POST /v1/y?q=1 HTTP/1.1\" 404\n"

abbrev entry_one : AccessEntry
entry_one = record {
  ts = 9;
  ip = code_points "10.0.0.1";
  method = code_points "GET";
  path = code_points "/v1/x";
  status = 200;
  body = none;
}

-- a line of the log is read, and a probe of the dashboard's own is not counted
line_one : line_entry 9 (code_points "10.0.0.1:5 - \"GET /v1/x HTTP/1.1\" 200") ≡ some entry_one
unfolding line_entry search erase rstrip get set read_digits
line_one = refl

line_probe : line_entry 9 (code_points "10.0.0.1:5 - \"GET /health HTTP/1.1\" 200") ≡ none
unfolding line_entry search erase rstrip get set read_digits
line_probe = refl

fits_first : length (split_lines (chunk_at 1 first_line)).1 ≤ 65536
unfolding split_lines rstrip
fits_first = omega arith

poll_once-poll_once_example :
    untimed (poll_once 12 (first_line ++ second_line) (poll_once 9 first_line (new_log none)))
    ≡ untimed (poll_once 12 (first_line ++ second_line) (new_log none))
poll_once-poll_once_example =
    poll_once-poll_once 9 12 first_line second_line (new_log none) (omega arith) (omega arith) refl
      fits_first

poll_once-newline_example :
    poll_once 9 (code_points "10.0.0.1:5 - \"GET /v1/x HTTP/1.1\" 200" ++ 10 ∷ []) (new_log none)
    ≡ poll_once 9 (code_points "10.0.0.1:5 - \"GET /v1/x HTTP/1.1\" 200") (new_log none)
poll_once-newline_example =
    poll_once-newline 9 (code_points "10.0.0.1:5 - \"GET /v1/x HTTP/1.1\" 200") (new_log none)
      (omega arith) refl

session-counts_new_example :
    (poll_once 9 first_line (mark_session_start (new_log none))
      ≡ load_session_offset (new_log (some (length first_line))))
    × (poll_once 9
          (first_line ++ second_line)
          (poll_once 9 first_line (mark_session_start (new_log none)))
        ≡ at_position
            (length first_line + 1 + length (rstrip 10 second_line))
            false
            (some (length first_line))
            (ingest 9 (rstrip 10 second_line) (new_log none)))
session-counts_new_example =
    session-counts_new 9 first_line second_line (new_log none) (omega arith)

abbrev earlier : Option ℕ
earlier = some 3

abbrev given_up : Query
given_up = record {
  owner = storing 7;
  follower = answered false earlier;
  event = false;
  last = earlier;
}

racing-stuck_example : (false ≡ false) × (earlier ≡ earlier)
racing-stuck_example =
    racing-stuck computing earlier given_up false earlier refl
      (then_step (then_step here (computed 7 refl)) (timed_out refl)) refl
