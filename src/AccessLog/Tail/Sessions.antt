-- ===== src/AccessLog/Tail/Sessions.antt =====
-- backend/service/vllm_access_log.py: where a session of the access log begins, after a start of
-- vLLM, after a rotation of the file and after a restart of the dashboard.
use v_llm_dashboard.Prelude.{
  ℕ, ◌+◌, ◌-◌, ◌≤◌, ◌<◌, ◌≡◌, refl, ap, ◌∙◌, true, false, none, some, [], ◌∷◌, ◌++◌, arith, length,
  ltb, if◌then◌else◌, length-append, Bool-cases, inl, inr,
}
use v_llm_dashboard.Prelude.Slices.{drop_end}
use v_llm_dashboard.Prelude.Texts.{Text}
use v_llm_dashboard.AccessLog.{VllmAccessLog, rstrip, reset_log}
use v_llm_dashboard.AccessLog.Tail.{
  trunc_marker, size_marker, bytes_marker, marker_line, poll_output, advance, settle,
  consume_poll_output, poll_once, ingest, mark_session_start, load_session_offset, new_log,
}
use v_llm_dashboard.AccessLog.Tail.Chunks.{at_position, ingest-at_position}
use v_llm_dashboard.AccessLog.Tail.Polls.{
  drop-length, match_marker-marker_line, poll_once-lem, chunk_at, advance-lem,
}

-- The first poll behind a start of vLLM drops what it read, and leaves the log as a new process
-- finds it that resumes from the session file.
poll_once-mark_session_start :
    (now : ℕ) (file : Text) (log : VllmAccessLog)
    → log.offset ≤ length file + 1
    → poll_once now file (mark_session_start log)
      ≡ load_session_offset (new_log (some (length file)))
unfolding poll_once poll_output consume_poll_output settle mark_session_start load_session_offset
poll_once-mark_session_start now file log h =
    let e : ltb (length file) (log.offset - 1) ≡ false = ground arith in
    let chunk = chunk_at log.offset file in
    let report = marker_line bytes_marker (length chunk) chunk in
    rw (e, match_marker-marker_line size_marker (length file) report) refl

resumed-ingest :
    (now : ℕ) (file more : Text)
    → poll_once now (file ++ more) (load_session_offset (new_log (some (length file))))
      ≡ at_position
          (length file + 1 + length (rstrip b'\n' more))
          false
          (some (length file))
          (ingest now (rstrip b'\n' more) (new_log none))
unfolding load_session_offset at_position
resumed-ingest now file more =
    let text : Text = rstrip b'\n' more in
    let start : VllmAccessLog = load_session_offset (new_log (some (length file))) in
    let e : length file + 1 - 1 ≡ length file = omega arith in
    let c : chunk_at (length file + 1) (file ++ more) ≡ rstrip b'\n' more =
      rw e (ap (rstrip b'\n') (drop-length file more)) in
    poll_once-lem now (file ++ more) start (omega (arith, length-append file more)) refl
    ∙ ap (λ t. advance now (length t) t start) c
    ∙ advance-lem now (length text) text start
    ∙ ap (at_position (length file + 1 + length text) false (some (length file)))
        (ingest-at_position now (length file + 1) false (some (length file)) text (new_log none))

poll_output-rotated :
    (offset : ℕ) (file : Text)
    → length file + 1 < offset
    → poll_output offset file
      ≡ trunc_marker
        ++ b'\n' ∷ marker_line size_marker (length file) (marker_line bytes_marker 0 [])
unfolding poll_output rstrip
poll_output-rotated offset file h =
    let e : ltb (length file) (offset - 1) ≡ true = ground arith in
    rw (e, drop_end (offset - 1) file (omega arith)) refl

consume_poll_output-truncated :
    (now size : ℕ) (log : VllmAccessLog)
    → consume_poll_output now
        (trunc_marker ++ b'\n' ∷ marker_line size_marker size (marker_line bytes_marker 0 []))
        log
      ≡ new_log (if log.skip_to_end then some 0 else none)
unfolding consume_poll_output settle advance reset_log ingest
consume_poll_output-truncated now size log =
    let sizes = match_marker-marker_line size_marker size (marker_line bytes_marker 0 []) in
    let counts = match_marker-marker_line bytes_marker 0 [] in
    elim (Bool-cases log.skip_to_end) [
      | inl pending ↦ rw (sizes, counts, pending) refl
      | inr plain ↦ rw (sizes, counts, plain) refl
    ]

-- The first poll behind a rotation only resets the log, whose next poll reads the new file from
-- its beginning: with a pending start of vLLM the session starts there, and without one no start
-- is recorded any more.
pub poll_once-rotated :
    (now : ℕ) (file : Text) (log : VllmAccessLog)
    → length file + 1 < log.offset
    → poll_once now file log ≡ new_log (if log.skip_to_end then some 0 else none)
unfolding poll_once
poll_once-rotated now file log h =
    ap (λ out. consume_poll_output now out log) (poll_output-rotated log.offset file h)
    ∙ consume_poll_output-truncated now (length file) log

-- After a start of vLLM the first poll drops what the file held, leaves the log as a new process
-- finds it that resumes from the session file, and the next poll counts exactly the lines that
-- were added since, as far as the last newline.
pub session-counts_new :
    (now : ℕ) (file more : Text) (log : VllmAccessLog)
    → log.offset ≤ length file + 1
    → (poll_once now file (mark_session_start log)
        ≡ load_session_offset (new_log (some (length file))))
      × (poll_once now (file ++ more) (poll_once now file (mark_session_start log))
          ≡ at_position
              (length file + 1 + length (rstrip b'\n' more))
              false
              (some (length file))
              (ingest now (rstrip b'\n' more) (new_log none)))
session-counts_new now file more log h =
    let first = poll_once-mark_session_start now file log h in
    (first, ap (poll_once now (file ++ more)) first ∙ resumed-ingest now file more)
