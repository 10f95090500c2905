-- ===== src/RemoteJob.antt =====
-- backend/service/deployment_task_ctx.py (`run_long`) and backend/service/deployment_reattach.py:
-- the loops that watch a background step on the server, which writes a log, a pid file and an exit
-- file. A text is a list of bytes, taken to be ASCII; what each round meets is an input.
pub mod Skipped
pub mod Ends
use v_llm_dashboard.Prelude.{
  ℕ, ◌+◌, Bool, true, false, not, ◌&&◌, ◌||◌, Option, none, some, List, [], ◌∷◌, ◌++◌, leb, drop,
  length, filterb, if◌then◌else◌, ◌==◌, nat_eq,
}
use v_llm_dashboard.Prelude.Texts.{Text, text_eq, code_points, starts_with}
use v_llm_dashboard.Prelude.Decimal.{decimal, read_digits}
use v_llm_dashboard.Prelude.Words.{strip_text, is_empty_text, split_on, as_newlines}
use v_llm_dashboard.Prelude.Regex.{is_digit}

-- what the shell finds of the job: its exit file, its process, or neither
pub data JobState : Type 0 where
  exited : ℕ → JobState
  alive absent : JobState

abbrev pub poll_marker : Text
poll_marker = code_points "VDB_POLL"

abbrev pub status_line : JobState → Text
status_line (exited code) = code_points "VDB_EXIT:" ++ decimal code ++ b'\n' ∷ []
status_line alive = code_points "VDB_RUNNING\n"
status_line absent = code_points "VDB_GONE\n"

-- what the command of a poll prints: the log behind the offset, a newline, the marker's line, and
-- the state of the job
abbrev pub poll_reply : ℕ → Text → JobState → Text
poll_reply offset log job = drop offset log ++ (b'\n' ∷ poll_marker ++ (b'\n' ∷ status_line job))

abbrev pub marker_line : Text
marker_line = b'\n' ∷ poll_marker ++ b'\n' ∷ []

abbrev pub or_here : ℕ → Text → Option (Text × Text) → Option (Text × Text)
or_here c text none =
    if starts_with (c ∷ text) marker_line
    then some ([], drop (length marker_line) (c ∷ text))
    else none
or_here c text (some (before, after)) = some (c ∷ before, after)

-- out.rfind("\nVDB_POLL\n"): what stands in front of the last occurrence, and what behind it
unfoldable pub rfind_marker : Text → Option (Text × Text)
rfind_marker [] = none
rfind_marker (c ∷ text) = or_here c text (rfind_marker text)

-- the content and the status of a poll's output; the content keeps the newline in front of the
-- marker
abbrev pub at_marker : Text → Option (Text × Text) → Text × Text
at_marker out none = (out, [])
at_marker out (some (before, after)) = (before ++ b'\n' ∷ [], strip_text after)

unfoldable pub read_poll : Text → Text × Text
unfolding rfind_marker
read_poll out = at_marker out (rfind_marker out)

-- the lines of the content that are logged
abbrev pub logged_lines : Text → List Text
logged_lines content =
    filterb (λ line. not (is_empty_text (strip_text line))) (split_on b'\n' (as_newlines content))

-- `tail_offset`, of ASCII bytes
abbrev pub tail_offset : Text → ℕ
tail_offset content = length content

-- the state of a loop, with the lines logged so far
pub record Watch : Type 0 where
  pub offset : ℕ
  pub gone_polls : ℕ
  pub lines : List Text

abbrev pub new_watch : Watch
new_watch = record { offset = 0; gone_polls = 0; lines = [] }

-- the exit code of a status, none where it is no number and counts as -1
abbrev pub exit_code : Text → Option ℕ
exit_code [] = none
exit_code (c ∷ text) =
    let (n, rest) = read_digits 0 (c ∷ text) in
    if is_digit c && is_empty_text rest then some n else none

abbrev pub exit_prefix : Text
exit_prefix = code_points "VDB_EXIT:"

-- why a loop ends: the job settled with a code, vanished, ran out of time, or was cancelled, or the
-- poll raised
pub data Ended : Type 0 where
  settled : Option ℕ → Ended
  vanished timed_out was_cancelled raised : Ended

pub data Polled : Type 0 where
  ended : Ended → Polled
  watching : Watch → Polled

-- the status of a poll, behind its content
unfoldable pub by_status : Text → Watch → Polled
by_status status w =
    if starts_with status exit_prefix
    then ended (settled (exit_code (drop (length exit_prefix) status)))
    else if status == code_points "VDB_RUNNING"
    then watching (record w { gone_polls = 0 })
    else if status == code_points "VDB_GONE"
    then (if leb 3 (w.gone_polls + 1)
        then ended vanished
        else watching (record w { gone_polls = w.gone_polls + 1 }))
    else watching w

-- the content is logged and moves the offset
unfoldable pub take_content : Text → Watch → Watch
take_content content w = record w {
  offset = w.offset + tail_offset content;
  lines = w.lines ++ logged_lines content;
}

abbrev pub polled : Text × Text → Watch → Polled
polled (content, status) w = by_status status (take_content content w)

unfoldable pub poll_job : Text → Watch → Polled
unfolding read_poll take_content by_status
poll_job out w = polled (read_poll out) w

-- a round of a loop: whether the task is cancelled and the time is up, and what the poll printed,
-- none where it raised
pub record Round : Type 0 where
  pub cancelled : Bool
  pub overdue : Bool
  pub reply : Option Text

-- `run_long` does not catch what a poll raises
abbrev pub poll_reading : Option Text → Watch → Polled
poll_reading none w = ended raised
poll_reading (some out) w = poll_job out w

-- the loop of `run_long`, none where more rounds are to come
unfoldable pub run_long : List Round → Watch → Option Ended
unfolding poll_job
run_long [] w = none
run_long (r ∷ rounds) w =
    if r.cancelled
    then some was_cancelled
    else if r.overdue
    then some timed_out
    else (elim (poll_reading r.reply w) [ ended why ↦ some why | watching w' ↦ run_long rounds w' ])

-- what `run_long` leaves: whether it killed the job and removed its files, the step's error, and
-- whether the task still names the files of the job
pub record LongEnd : Type 0 where
  pub killed : Bool
  pub cleaned : Bool
  pub error : Option Text
  pub names_files : Bool

abbrev code_text : Option ℕ → Text
code_text none = code_points "-1"
code_text (some n) = decimal n

abbrev pub is_zero : Option ℕ → Bool
is_zero none = false
is_zero (some n) = n == 0

-- the message of what a poll raised is an input
unfoldable pub end_long : ℕ → Text → Ended → LongEnd
end_long timeout message raised = record {
  killed = false;
  cleaned = false;
  error = some message;
  names_files = true;
}
end_long timeout message was_cancelled = record {
  killed = true;
  cleaned = true;
  error = none;
  names_files = false;
}
end_long timeout message timed_out = record {
  killed = true;
  cleaned = true;
  error = some (code_points "Step timed out after " ++ decimal timeout ++ code_points "s");
  names_files = true;
}
end_long timeout message vanished = record {
  killed = false;
  cleaned = true;
  error = some (code_points "Background step process exited unexpectedly");
  names_files = true;
}
end_long timeout message (settled code) =
    if is_zero code
    then record { killed = false; cleaned = true; error = none; names_files = false }
    else record {
      killed = false;
      cleaned = true;
      error = some (code_points "Step failed (exit code " ++ code_text code ++ code_points ")");
      names_files = true;
    }

-- a round of `_watch_remote_job` polls before it looks at the time, and goes on where the poll
-- raised
unfoldable pub watch_round : Round → Watch → Polled
unfolding poll_job
watch_round r w = if r.cancelled then ended was_cancelled else (elim r.reply [
  | none ↦ watching w
  | some out ↦ elim (poll_job out w) [
    | ended why ↦ ended why
    | watching w' ↦ if r.overdue then ended timed_out else watching w'
  ]
])

unfoldable pub watch_remote_job : List Round → Watch → Option Ended
unfolding watch_round
watch_remote_job [] w = none
watch_remote_job (r ∷ rounds) w = elim (watch_round r w) [
  | ended why ↦ some why
  | watching w' ↦ watch_remote_job rounds w'
]

pub data TaskEnd : Type 0 where
  task_cancelled : TaskEnd
  task_failed : Text → TaskEnd

abbrev job_detail : Option ℕ → Text
job_detail none = code_points "exited (unknown code) and the pipeline was not resumed"
job_detail (some n) =
    if n == 0
    then code_points
        "completed successfully (code 0) but the pipeline was not resumed — the remaining steps did not run"
    else code_points "exited with code "
      ++ decimal n
      ++ code_points " and the pipeline was not resumed"

-- `_finalize_reattached`, the error by the exit code
unfoldable pub finalize_reattached : Option ℕ → Text
finalize_reattached code =
    code_points "Dashboard restarted mid-task; the remote step "
    ++ job_detail code
    ++ code_points " — re-run the task to finish"

-- what a reattached task becomes; its loop never ends with `raised`
unfoldable pub end_watch : Ended → TaskEnd
unfolding finalize_reattached
end_watch was_cancelled = task_cancelled
end_watch timed_out = task_failed (finalize_reattached none)
end_watch vanished = task_failed (finalize_reattached none)
end_watch raised = task_failed (finalize_reattached none)
end_watch (settled none) = task_failed (
    code_points
      "Dashboard restarted mid-task; the remote step exited with code -1 and the pipeline was not resumed — re-run the task to finish")
end_watch (settled (some n)) = task_failed (finalize_reattached (some n))
