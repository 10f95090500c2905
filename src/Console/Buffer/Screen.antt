-- ===== src/Console/Buffer/Screen.antt =====
-- What a reader shows is a gapless piece of the output, up to where it reads.
use v_llm_dashboard.Prelude.{
  ℕ, ◌+◌, ◌-◌, ◌≤◌, ◌≡◌, refl, sym, ap, ◌∙◌, Bool, true, false, List, [], ◌∷◌, ◌++◌, ltb, leb,
  length, drop, take, if◌then◌else◌, arith, length-append, length-drop, Bool-cases, inl, inr,
}
use mathlib.Core.List.{append-nil, append_assoc}
use v_llm_dashboard.Prelude.Slices.{
  drop-append, drop-drop, drop_end, drop-take, take-append, take_all,
}
use v_llm_dashboard.Console.Buffer.{
  Text, max_buffer_size, keep_tail_size, ConsoleSession, trim, append_locked, get_output_since,
  Reader, read_output,
}

-- The buffer holds the end of the whole output, within its bound.
pub record Holds (stream : Text) (s : ConsoleSession) : Type 0 where
  pub total : s.total_written ≡ length stream
  pub base : s.base_offset ≤ s.total_written
  pub tail : s.buffer ≡ drop s.base_offset stream
  pub bounded : length s.buffer ≤ max_buffer_size

trim-Holds :
    (stream : Text) (s : ConsoleSession)
    → s.total_written ≡ length stream
    → s.base_offset ≤ s.total_written
    → s.buffer ≡ drop s.base_offset stream
    → Holds stream (trim s)
trim-Holds stream s t b d =
    let size : length s.buffer ≡ length stream - s.base_offset =
      ap length d ∙ length-drop s.base_offset stream in
    let kept = length-drop (length s.buffer - keep_tail_size) s.buffer in
    record {
      total = t;
      base = omega arith;
      tail =
          ap (drop (length s.buffer - keep_tail_size)) d
          ∙ (drop-drop (length s.buffer - keep_tail_size) s.base_offset stream
              ∙ ap (λ k. drop k stream) (omega (arith, kept, size, t, b)));
      bounded = omega (arith, kept);
    }

trim_if :
    (stream : Text) (s : ConsoleSession) (over : Bool)
    → ltb max_buffer_size (length s.buffer) ≡ over
    → s.total_written ≡ length stream
    → s.base_offset ≤ s.total_written
    → s.buffer ≡ drop s.base_offset stream
    → Holds stream (if over then trim s else s)
trim_if stream s true o t b d = trim-Holds stream s t b d
trim_if stream s false o t b d = record { total = t; base = b; tail = d; bounded = ground arith }

-- An append keeps the buffer the end of the output, and within its bound.
pub append_locked-Holds :
    (text stream : Text) (s : ConsoleSession)
    → Holds stream s
    → Holds (stream ++ text) (append_locked text s)
unfolding append_locked
append_locked-Holds text stream s h =
    let t : s.total_written + length text ≡ length (stream ++ text) =
      omega (arith, h.total, length-append stream text) in
    let b : s.base_offset ≤ s.total_written + length text = omega (arith, h.base) in
    let d : s.buffer ++ text ≡ drop s.base_offset (stream ++ text) =
      ap (λ x. x ++ text) h.tail
      ∙ sym (drop-append s.base_offset stream text (omega (arith, h.base, h.total))) in
    trim_if (stream ++ text)
      (record s { buffer = s.buffer ++ text; total_written = s.total_written + length text }) _ refl
      t b d

-- what happens on a session with one reader
pub data Event : Type 0 where
  wrote : Text → Event
  polled : Event

unfoldable pub run : List Event → ConsoleSession → Reader → ConsoleSession × Reader
unfolding append_locked read_output
run [] s r = (s, r)
run (wrote text ∷ es) s r = run es (append_locked text s) r
run (polled ∷ es) s r = run es s (read_output s r)

-- the output that the events produce
abbrev pub output : List Event → Text
output [] = []
output (wrote text ∷ es) = text ++ output es
output (polled ∷ es) = output es

-- The screen is the output from some place up to the reader's position.
abbrev pub IsPiece : Text → Reader → Type 0
IsPiece stream r =
    (k : ℕ) × (k ≤ r.read_position)
    × (r.read_position ≤ length stream)
    × (r.screen ≡ drop k (take r.read_position stream))

IsPiece-append : (text stream : Text) (r : Reader) → IsPiece stream r → IsPiece (stream ++ text) r
IsPiece-append text stream r (k, low, high, p) = (
  k,
  low,
  omega (arith, high, length-append stream text),
  p ∙ ap (drop k) (sym (take-append r.read_position stream text high)),
)

continued :
    (stream : Text) (s : ConsoleSession) (r : Reader)
    → Holds stream s
    → (k : ℕ) → k ≤ r.read_position
    → r.read_position ≤ length stream
    → r.screen ≡ drop k (take r.read_position stream)
    → s.base_offset ≤ r.read_position
    → r.screen ++ drop (r.read_position - s.base_offset) s.buffer ≡ drop k stream
continued stream s r h k low high p b =
    ap (λ x. x ++ drop (r.read_position - s.base_offset) s.buffer) p
    ∙ (ap (λ x. drop k (take r.read_position stream) ++ drop (r.read_position - s.base_offset) x)
          h.tail
        ∙ (ap (λ x. drop k (take r.read_position stream) ++ x)
              (drop-drop (r.read_position - s.base_offset) s.base_offset stream
                ∙ ap (λ n. drop n stream) (omega (arith, b)))
            ∙ drop-take k r.read_position stream low high))

IsPiece-read :
    (stream : Text) (s : ConsoleSession) (r : Reader)
    → Holds stream s
    → IsPiece stream r
    → IsPiece stream (read_output s r)
unfolding read_output get_output_since
IsPiece-read stream s r h (k, low, high, p) =
    let all = take_all s.total_written stream h.total in
    elim (Bool-cases (leb s.total_written r.read_position)) [
      | inl late ↦
          let late_lem : s.total_written ≤ r.read_position = ground arith in
          rw late (
            k,
            omega (arith, low, h.total, late_lem),
            omega (arith, h.total),
            append-nil r.screen
                ∙ (p ∙ ap (λ n. drop k (take n stream)) (omega (arith, high, h.total, late_lem))),
          )
      | inr early ↦ rw early (elim (Bool-cases (ltb r.read_position s.base_offset)) [
        | inl behind ↦ rw behind (
          s.base_offset,
          h.base,
          omega (arith, h.total),
          h.tail ∙ ap (drop s.base_offset) (sym all),
        )
        | inr within ↦ rw within (
          k,
          omega (arith, low, high, h.total),
          omega (arith, h.total),
          continued stream s r h k low high p (ground arith) ∙ ap (drop k) (sym all),
        )
      ])
    ]

-- In every history of output and polls the screen is a gapless piece of the output, which ends at
-- the reader's position, and the session's buffer is the end of the output, within its bound.
pub run-IsPiece :
    (es : List Event) (stream : Text) (s : ConsoleSession) (r : Reader)
    → Holds stream s
    → IsPiece stream r
    → Holds (stream ++ output es) (run es s r).0 × IsPiece (stream ++ output es) (run es s r).1
unfolding run
run-IsPiece [] stream s r h p = rw (append-nil stream) (h, p)
run-IsPiece (wrote text ∷ es) stream s r h p = rw (sym (append_assoc stream text (output es))) (
    run-IsPiece es (stream ++ text) (append_locked text s) r (append_locked-Holds text stream s h)
      (IsPiece-append text stream r p))
run-IsPiece (polled ∷ es) stream s r h p =
    run-IsPiece es stream s (read_output s r) h (IsPiece-read stream s r h p)

-- After a poll the reader stands at the end of the output, if it was not beyond it.
pub read_output-latest :
    (stream : Text) (s : ConsoleSession) (r : Reader)
    → Holds stream s
    → (read_output s r).read_position ≡ length stream
unfolding read_output get_output_since
read_output-latest stream s r h = ground (arith, h.total)

-- A poll that is not too late loses nothing: the screen grows by all the output since the position.
pub read_output-lossless :
    (stream : Text) (s : ConsoleSession) (r : Reader)
    → Holds stream s
    → s.base_offset ≤ r.read_position
    → r.read_position ≤ length stream
    → (read_output s r).screen ≡ r.screen ++ drop r.read_position stream
unfolding read_output get_output_since
read_output-lossless stream s r h b high = elim (Bool-cases (leb s.total_written r.read_position)) [
  | inl late ↦
      rw late
        (ap (λ x. r.screen ++ x) (sym (drop_end r.read_position stream (ground (arith, h.total)))))
  | inr early ↦
      let near : ltb r.read_position s.base_offset ≡ false = ground arith in
      rw (early, near)
        (ap (λ x. r.screen ++ x)
          (ap (drop (r.read_position - s.base_offset)) h.tail
            ∙ (drop-drop (r.read_position - s.base_offset) s.base_offset stream
                ∙ ap (λ n. drop n stream) (omega (arith, b)))))
]
