-- ===== src/AccessLog/Tail/Polls.antt =====
-- backend/service/vllm_access_log.py: what a sequence of polls of a growing file adds to the log.
use v_llm_dashboard.Prelude.{
  ℕ, ◌+◌, ◌-◌, ◌≤◌, ◌≡◌, refl, sym, ap, ◌∙◌, true, false, some, [], ◌∷◌, ◌++◌, arith, length, drop,
  ltb, ◌==◌, ==_iff, nat_eq, inl, inr, Bool-cases, ◌&&◌, length-append, length-drop,
}
use mathlib.Core.List.{append_assoc}
use v_llm_dashboard.Prelude.Slices.{drop-append, drop-drop}
use v_llm_dashboard.Prelude.Texts.{Text, starts_with}
use v_llm_dashboard.Prelude.Decimal.{decimal, read_digits, decimal_head, read_digits-decimal}
use v_llm_dashboard.AccessLog.{VllmAccessLog, rstrip}
use v_llm_dashboard.AccessLog.Tail.{
  size_marker, bytes_marker, marker_line, poll_output, number_line, some_digits, match_marker,
  advance, settle, consume_poll_output, poll_once, ingest,
}
use v_llm_dashboard.AccessLog.Tail.Times.{untimed, untimed-poll_once}
use v_llm_dashboard.AccessLog.Tail.Chunks.{
  Fits, ingest-ingest, at_position, ingest-at_position, ingest_position,
}

pub drop-length : (xs ys : Text) → drop (length xs) (xs ++ ys) ≡ ys
drop-length [] ys = refl
drop-length (x ∷ xs) ys = drop-length xs ys

pub starts_with-append : (xs ys : Text) → starts_with (xs ++ ys) xs ≡ true
starts_with-append [] ys = refl
starts_with-append (x ∷ xs) ys = ground (arith, ==_iff x x, starts_with-append xs ys)

some_digits-decimal :
    (n : ℕ) (text : Text) → some_digits (decimal n ++ b'\n' ∷ text) ≡ some (n, text)
unfolding some_digits number_line
some_digits-decimal n text =
    let (c, front, e, d) = decimal_head n in
    let read : read_digits 0 (c ∷ (front ++ b'\n' ∷ text)) ≡ (n, b'\n' ∷ text) =
      ap (λ t. read_digits 0 (t ++ b'\n' ∷ text)) (sym e) ∙ read_digits-decimal n b'\n' text refl in
    rw (e, d, read) refl

-- A marker's line is read back.
pub match_marker-marker_line :
    (marker : Text) (n : ℕ) (text : Text)
    → match_marker marker (marker_line marker n text) ≡ some (n, text)
unfolding match_marker
match_marker-marker_line marker n text =
    let e : marker_line marker n text ≡ marker ++ (decimal n ++ b'\n' ∷ text) =
      append_assoc marker (decimal n) (b'\n' ∷ text) in
    rw
      (
        e,
        starts_with-append marker (decimal n ++ b'\n' ∷ text),
        drop-length marker (decimal n ++ b'\n' ∷ text),
      )
      (some_digits-decimal n text)

-- the bytes that a poll of a file gets
abbrev pub chunk_at : ℕ → Text → Text
chunk_at offset file = rstrip b'\n' (drop (offset - 1) file)

pub poll_once-lem :
    (now : ℕ) (file : Text) (log : VllmAccessLog)
    → log.offset ≤ length file + 1
    → log.skip_to_end ≡ false
    → poll_once now file log
      ≡ advance now (length (chunk_at log.offset file)) (chunk_at log.offset file) log
unfolding poll_once poll_output consume_poll_output settle
poll_once-lem now file log h s =
    let e : ltb (length file) (log.offset - 1) ≡ false = ground arith in
    let chunk = chunk_at log.offset file in
    rw
      (
        e,
        match_marker-marker_line size_marker (length file)
            (marker_line bytes_marker (length chunk) chunk),
        match_marker-marker_line bytes_marker (length chunk) chunk,
        s,
      )
      refl

-- what is left behind a stripped text, and more
rstrip-resume :
    (x : ℕ) (s more : Text)
    → rstrip x s ++ rstrip x (drop (length (rstrip x s)) (s ++ more)) ≡ rstrip x (s ++ more)
unfolding rstrip
rstrip-resume x [] more = refl
rstrip-resume x (c ∷ s) more =
    let ih = rstrip-resume x s more in
    elim (Bool-cases (c == x && length (rstrip x s) == 0)) [
      | inl gone ↦ rw gone refl
      | inr kept ↦
          let n : length (rstrip x s) ≤ length (rstrip x (s ++ more)) = omega (
            arith,
            ap length ih,
            length-append (rstrip x s) (rstrip x (drop (length (rstrip x s)) (s ++ more))),
          ) in
          let kept' : (c == x && length (rstrip x (s ++ more)) == 0) ≡ false = ground arith in
          rw (kept, kept') (ap (λ l. c ∷ l) ih)
    ]

rstrip-newline : (x : ℕ) (s : Text) → rstrip x (s ++ x ∷ []) ≡ rstrip x s
unfolding rstrip
rstrip-newline x [] = ground (arith, ==_iff x x)
rstrip-newline x (c ∷ s) = rw (rstrip-newline x s) refl

length-rstrip-le : (x : ℕ) (s : Text) → length (rstrip x s) ≤ length s
unfolding rstrip
length-rstrip-le x [] = omega arith
length-rstrip-le x (c ∷ s) = ground (arith, length-rstrip-le x s)

pub advance-lem :
    (now n : ℕ) (text : Text) (log : VllmAccessLog)
    → advance now n text log
      ≡ at_position (log.offset + n) log.skip_to_end log.session (ingest now text log)
unfolding advance at_position
advance-lem now n text log =
    let l : VllmAccessLog = ingest now text log in
    let (o, b, e) = ingest_position now text log in
    ap (λ k. at_position (k + n) l.skip_to_end l.session l) o
    ∙ ap (λ s. at_position (log.offset + n) s l.session l) b
    ∙ ap (λ s. at_position (log.offset + n) log.skip_to_end s l) e

advance_offset :
    (now n : ℕ) (text : Text) (log : VllmAccessLog)
    → (advance now n text log).offset ≡ log.offset + n
unfolding at_position
advance_offset now n text log = ap (λ l. l.offset) (advance-lem now n text log)

advance_skip :
    (now n : ℕ) (text : Text) (log : VllmAccessLog)
    → (advance now n text log).skip_to_end ≡ log.skip_to_end
unfolding at_position
advance_skip now n text log = ap (λ l. l.skip_to_end) (advance-lem now n text log)

advance-advance :
    (now m n : ℕ) (a b : Text) (log : VllmAccessLog)
    → Fits a log
    → advance now n b (advance now m a log) ≡ advance now (m + n) (a ++ b) log
unfolding at_position
advance-advance now m n a b log h =
    let put : ℕ → VllmAccessLog → VllmAccessLog =
      λ k l. at_position k log.skip_to_end log.session l in
    let sum : (log.offset + m) + n ≡ log.offset + (m + n) = omega arith in
    ap (advance now n b) (advance-lem now m a log)
    ∙ advance-lem now n b (put (log.offset + m) (ingest now a log))
    ∙ ap (put (log.offset + m + n)) (
        ingest-at_position now (log.offset + m) log.skip_to_end log.session b (ingest now a log)
        ∙ ap (put (log.offset + m)) (ingest-ingest now a b log h))
    ∙ ap (λ k. put k (ingest now (a ++ b) log)) sum
    ∙ sym (advance-lem now (m + n) (a ++ b) log)

chunk_at-resume :
    (o : ℕ) (file more : Text)
    → o ≤ length file
    → chunk_at (o + 1) file ++ chunk_at (o + 1 + length (chunk_at (o + 1) file)) (file ++ more)
      ≡ chunk_at (o + 1) (file ++ more)
chunk_at-resume o file more h =
    let c : Text = rstrip b'\n' (drop o file) in
    let grown : drop o (file ++ more) ≡ drop o file ++ more = drop-append o file more h in
    let o1 : o + 1 - 1 ≡ o = omega arith in
    let at : o + 1 + length c - 1 ≡ o + length c = omega arith in
    let later : drop (o + length c) (file ++ more) ≡ drop (length c) (drop o file ++ more) =
      sym (drop-drop (length c) o (file ++ more)) ∙ ap (drop (length c)) grown in
    rw (o1, at, later, grown) (rstrip-resume b'\n' (drop o file) more)

poll_once_twice :
    (now : ℕ) (file more : Text) (log : VllmAccessLog)
    → log.offset ≤ length file + 1
    → 1 ≤ log.offset
    → log.skip_to_end ≡ false
    → Fits (chunk_at log.offset file) log
    → poll_once now (file ++ more) (poll_once now file log) ≡ poll_once now (file ++ more) log
poll_once_twice now file more log h p s f =
    let o : ℕ = log.offset - 1 in
    let whole : Text = file ++ more in
    let c : Text = chunk_at log.offset file in
    let log1 : VllmAccessLog = advance now (length c) c log in
    let e : o + 1 ≡ log.offset = omega arith in
    let first : poll_once now file log ≡ log1 = poll_once-lem now file log h s in
    let offset : log1.offset ≡ log.offset + length c = advance_offset now (length c) c log in
    let short : length c ≤ length file - o =
      omega (arith, length-rstrip-le b'\n' (drop o file), length-drop o file) in
    let within : log1.offset ≤ length whole + 1 = omega (arith, length-append file more) in
    let d : Text = chunk_at (log.offset + length c) whole in
    let joined : c ++ d ≡ chunk_at log.offset whole =
      rw e at (chunk_at-resume o file more (omega arith)) in
    let count : length c + length d ≡ length (c ++ d) = omega (arith, length-append c d) in
    ap (poll_once now whole) first
    ∙ poll_once-lem now whole log1 within (advance_skip now (length c) c log ∙ s)
    ∙ ap (λ k. advance now (length (chunk_at k whole)) (chunk_at k whole) log1) offset
    ∙ advance-advance now (length c) (length d) c d log f
    ∙ ap (λ k. advance now k (c ++ d) log) count
    ∙ ap (λ t. advance now (length t) t log) joined
    ∙ sym (poll_once-lem now whole log (omega (arith, length-append file more)) s)

-- Two polls, at any two times, of a file that has grown in between leave the log, but for its time
-- stamps, as the second would alone, if the tail is within the file, no session start is pending and
-- the partial line between the polls is carried whole.
pub poll_once-poll_once :
    (before now : ℕ) (file more : Text) (log : VllmAccessLog)
    → log.offset ≤ length file + 1
    → 1 ≤ log.offset
    → log.skip_to_end ≡ false
    → Fits (chunk_at log.offset file) log
    → untimed (poll_once now (file ++ more) (poll_once before file log))
      ≡ untimed (poll_once now (file ++ more) log)
poll_once-poll_once before now file more log h p s f =
    untimed-poll_once now (file ++ more) (poll_once before file log)
    ∙ ap (poll_once 0 (file ++ more)) (untimed-poll_once before file log)
    ∙ poll_once_twice 0 file more (untimed log) h p s f
    ∙ sym (untimed-poll_once now (file ++ more) log)

-- The newline at the end of the file changes nothing: the last line is counted only when more
-- follows.
pub poll_once-newline :
    (now : ℕ) (file : Text) (log : VllmAccessLog)
    → log.offset ≤ length file + 1
    → log.skip_to_end ≡ false
    → poll_once now (file ++ b'\n' ∷ []) log ≡ poll_once now file log
poll_once-newline now file log h s =
    let grown : length (file ++ b'\n' ∷ []) ≡ length file + 1 = length-append file (b'\n' ∷ []) in
    let chunk : chunk_at log.offset (file ++ b'\n' ∷ []) ≡ chunk_at log.offset file =
      ap (rstrip b'\n') (drop-append (log.offset - 1) file (b'\n' ∷ []) (omega arith))
      ∙ rstrip-newline b'\n' (drop (log.offset - 1) file) in
    poll_once-lem now (file ++ b'\n' ∷ []) log (omega arith) s
    ∙ ap (λ c. advance now (length c) c log) chunk
    ∙ sym (poll_once-lem now file log h s)
