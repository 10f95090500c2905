-- ===== src/RemoteJob/Skipped.antt =====
-- backend/service/deployment_task_ctx.py: what a poll of a running step reads of its log.
use v_llm_dashboard.Prelude.{
  ℕ, suc, ◌+◌, ◌≤◌, ◌≡◌, refl, ap, ◌∙◌, some, [], ◌∷◌, ◌++◌, arith, length, length-append,
  length-drop, drop, nat_eq,
}
use v_llm_dashboard.Prelude.Texts.{Text, code_points}
use v_llm_dashboard.Prelude.Words.{drop_spaces, rstrip_spaces}
use v_llm_dashboard.RemoteJob.{
  alive, poll_marker, status_line, poll_reply, or_here, rfind_marker, read_poll, at_marker,
  logged_lines, Watch, Polled, ended, watching, by_status, take_content, poll_job, polled,
}

rfind_marker-alive :
    rfind_marker (b'\n' ∷ poll_marker ++ (b'\n' ∷ status_line alive)) ≡ some ([], status_line alive)
unfolding rfind_marker
rfind_marker-alive = refl

rfind_marker-append :
    (log out before after : Text)
    → rfind_marker out ≡ some (before, after)
    → rfind_marker (log ++ out) ≡ some (log ++ before, after)
unfolding rfind_marker
rfind_marker-append [] out before after h = h
rfind_marker-append (c ∷ log) out before after h =
    ap (or_here c (log ++ out)) (rfind_marker-append log out before after h)

append_nil : (xs : Text) → xs ++ [] ≡ xs
append_nil [] = refl
append_nil (x ∷ xs) = ap (λ l. x ∷ l) (append_nil xs)

-- what is read of a reply while the job runs
read_poll-alive :
    (offset : ℕ) (log : Text)
    → read_poll (poll_reply offset log alive)
      ≡ (drop offset log ++ b'\n' ∷ [], code_points "VDB_RUNNING")
unfolding read_poll drop_spaces rstrip_spaces
read_poll-alive offset log =
    let out : Text = b'\n' ∷ poll_marker ++ (b'\n' ∷ status_line alive) in
    let e : rfind_marker (drop offset log ++ out) ≡ some (drop offset log, status_line alive) =
      rfind_marker-append (drop offset log) out [] (status_line alive) rfind_marker-alive
      ∙ ap (λ t. some (t, status_line alive)) (append_nil (drop offset log)) in
    ap (at_marker (drop offset log ++ out)) e

-- While the job runs, a poll leaves the offset one byte behind the end of the log, since the
-- newline that the command prints in front of its marker is counted as the log's own.
pub poll_job-alive :
    (log : Text) (w : Watch)
    → w.offset ≤ length log
    → poll_job (poll_reply w.offset log alive) w
      ≡ watching (record {
        offset = length log + 1;
        gone_polls = 0;
        lines = w.lines ++ logged_lines (drop w.offset log ++ b'\n' ∷ []);
      })
unfolding poll_job take_content by_status
poll_job-alive log w h =
    let content : Text = drop w.offset log ++ b'\n' ∷ [] in
    let size : w.offset + length content ≡ length log + 1 =
      omega (arith, length-append (drop w.offset log) (b'\n' ∷ []), length-drop w.offset log) in
    ap (λ p. polled p w) (read_poll-alive w.offset log)
    ∙ ap {A = ℕ}
        (λ k.
          watching (record { offset = k; gone_polls = 0; lines = w.lines ++ logged_lines content }))
        size

-- the state that a poll leaves, if it goes on
abbrev pub after : Polled → Watch → Watch
after (ended why) w = w
after (watching w') w = w'

drop_past : (log more : Text) (c : ℕ) → drop (suc (length log)) (log ++ c ∷ more) ≡ more
drop_past [] more c = refl
drop_past (x ∷ log) more c = drop_past log more c

-- The next poll then misses the byte that the log grew by first, and reads only what follows it.
pub poll_job-skips :
    (log more : Text) (c : ℕ) (w : Watch)
    → w.offset ≤ length log
    → poll_reply
        (after (poll_job (poll_reply w.offset log alive) w) w).offset
        (log ++ c ∷ more)
        alive
      ≡ more ++ (b'\n' ∷ poll_marker ++ (b'\n' ∷ status_line alive))
poll_job-skips log more c w h =
    let out : Text = b'\n' ∷ poll_marker ++ (b'\n' ∷ status_line alive) in
    let e : length log + 1 ≡ suc (length log) = omega arith in
    ap (λ p. drop (after p w).offset (log ++ c ∷ more) ++ out) (poll_job-alive log w h)
    ∙ ap (λ k. drop k (log ++ c ∷ more) ++ out) e
    ∙ ap (λ t. t ++ out) (drop_past log more c)
