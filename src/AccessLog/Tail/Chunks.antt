-- ===== src/AccessLog/Tail/Chunks.antt =====
-- backend/service/vllm_access_log.py: `ingest` of a text that arrives in pieces.
use v_llm_dashboard.Prelude.{
  ℕ, ◌≡◌, refl, ◌≤◌, Bool, true, false, Option, none, some, List, [], ◌∷◌, ◌++◌, arith, length, sym,
  ap, ◌∙◌, ◌==◌, nat_eq, inl, inr, Bool-cases, ltb,
}
use mathlib.Core.List.{append-nil, append_assoc}
use v_llm_dashboard.Prelude.Texts.{Text}
use v_llm_dashboard.AccessLog.{AccessEntry, VllmAccessLog, max_line_buf, line_entry, record_request}
use v_llm_dashboard.AccessLog.Tail.{
  push_char, split_lines, record_some, record_lines, cut_line_buf, ingested, ingest,
}

-- more lines behind a split text
abbrev behind_tail : List Text → List Text × Text → List Text × Text
behind_tail lines (lines', tail) = (lines ++ lines', tail)

abbrev join : List Text × Text → Text → List Text × Text
join (lines, tail) text = behind_tail lines (split_lines (tail ++ text))

push_newline :
    (c : ℕ) (p : List Text × Text) → (c == b'\n') ≡ true → push_char c p ≡ ([] ∷ p.0, p.1)
unfolding push_char
push_newline c ([], tail) e = rw e refl
push_newline c (line ∷ lines, tail) e = rw e refl

join-push_char :
    (c : ℕ) (p : List Text × Text) (text : Text)
    → join (push_char c p) text ≡ push_char c (join p text)
unfolding push_char split_lines
join-push_char c ([], tail) text = elim (Bool-cases (c == b'\n')) [
  | inl e ↦ rw (push_newline c (split_lines (tail ++ text)) e, e) refl
  | inr e ↦ rw e refl
]
join-push_char c (line ∷ lines, tail) text = elim (Bool-cases (c == b'\n')) [
  | inl e ↦ rw e refl
  | inr e ↦ rw e refl
]

pub split_lines-append : (a b : Text) → split_lines (a ++ b) ≡ join (split_lines a) b
unfolding split_lines
split_lines-append [] b = refl
split_lines-append (c ∷ a) b =
    ap (push_char c) (split_lines-append a b) ∙ sym (join-push_char c (split_lines a) b)

-- the fields that recording an entry leaves alone
abbrev pub frame : ℕ → Text → Bool → Option ℕ → VllmAccessLog → VllmAccessLog
frame k buf skip session log = record log {
  offset = k;
  line_buf = buf;
  skip_to_end = skip;
  session = session;
}

record_some-frame :
    (o : Option AccessEntry) (k : ℕ) (buf : Text) (skip : Bool) (session : Option ℕ)
    (log : VllmAccessLog)
    → record_some o (frame k buf skip session log) ≡ frame k buf skip session (record_some o log)
unfolding record_some record_request
record_some-frame none k buf skip session log = refl
record_some-frame (some e) k buf skip session log = refl

pub record_lines-frame :
    (now : ℕ) (lines : List Text) (k : ℕ) (buf : Text) (skip : Bool) (session : Option ℕ)
    (log : VllmAccessLog)
    → record_lines now lines (frame k buf skip session log)
      ≡ frame k buf skip session (record_lines now lines log)
unfolding record_lines
record_lines-frame now [] k buf skip session log = refl
record_lines-frame now (line ∷ lines) k buf skip session log =
    ap (record_lines now lines) (record_some-frame (line_entry now line) k buf skip session log)
    ∙ record_lines-frame now lines k buf skip session (record_some (line_entry now line) log)

record_lines-append :
    (now : ℕ) (xs ys : List Text) (log : VllmAccessLog)
    → record_lines now (xs ++ ys) log ≡ record_lines now ys (record_lines now xs log)
unfolding record_lines
record_lines-append now [] ys log = refl
record_lines-append now (x ∷ xs) ys log =
    record_lines-append now xs ys (record_some (line_entry now x) log)

-- the partial line that a text leaves is carried whole
abbrev pub Fits : Text → VllmAccessLog → Type 0
Fits a log = length (split_lines (log.line_buf ++ a)).1 ≤ max_line_buf

cut_line_buf_fits : (buf : Text) → length buf ≤ max_line_buf → cut_line_buf buf ≡ buf
unfolding cut_line_buf
cut_line_buf_fits buf h = let e : ltb max_line_buf (length buf) ≡ false = ground arith in rw e refl

with_buf :
    (now : ℕ) (lines : List Text) (buf : Text) (log : VllmAccessLog)
    → record_lines now lines (record log { line_buf = buf })
      ≡ record (record_lines now lines log) { line_buf = buf }
with_buf now lines buf log =
    let same : record_lines now lines
          (frame log.offset log.line_buf log.skip_to_end log.session log)
        ≡ frame log.offset log.line_buf log.skip_to_end log.session (record_lines now lines log) =
      record_lines-frame now lines log.offset log.line_buf log.skip_to_end log.session log in
    record_lines-frame now lines log.offset buf log.skip_to_end log.session log
    ∙ ap {A = VllmAccessLog} (λ l. record l { line_buf = buf }) (sym same)

ingested-ingested :
    (now : ℕ) (p : List Text × Text) (b : Text) (log : VllmAccessLog)
    → length p.1 ≤ max_line_buf
    → ingested now (split_lines ((ingested now p log).line_buf ++ b)) (ingested now p log)
      ≡ ingested now (join p b) log
ingested-ingested now (lines, buf) b log h =
    let first : ingested now (lines, buf) log
        ≡ record (record_lines now lines log) { line_buf = buf } =
      with_buf now lines (cut_line_buf buf) log
      ∙ ap (λ t. record (record_lines now lines log) { line_buf = t }) (cut_line_buf_fits buf h) in
    ap (λ l. ingested now (split_lines (l.line_buf ++ b)) l) first
    ∙ sym (
        record_lines-append now lines (split_lines (buf ++ b)).0
          (record log { line_buf = cut_line_buf (split_lines (buf ++ b)).1 })
        ∙ ap (record_lines now (split_lines (buf ++ b)).0)
            (with_buf now lines (cut_line_buf (split_lines (buf ++ b)).1) log))

-- A text is ingested in pieces as in one, where the partial line between the pieces is carried
-- whole.
pub ingest-ingest :
    (now : ℕ) (a b : Text) (log : VllmAccessLog)
    → Fits a log
    → ingest now b (ingest now a log) ≡ ingest now (a ++ b) log
unfolding ingest
ingest-ingest now [] b log h = refl
ingest-ingest now (c ∷ a) [] log h = ap (λ t. ingest now t log) (sym (append-nil (c ∷ a)))
ingest-ingest now (c ∷ a) (d ∷ b) log h =
    let lines : Text → List Text × Text = λ t. split_lines (log.line_buf ++ t) in
    let whole : lines ((c ∷ a) ++ (d ∷ b)) ≡ join (lines (c ∷ a)) (d ∷ b) =
      ap split_lines (sym (append_assoc log.line_buf (c ∷ a) (d ∷ b)))
      ∙ split_lines-append (log.line_buf ++ c ∷ a) (d ∷ b) in
    let x : ingested now (split_lines ((ingested now (lines (c ∷ a)) log).line_buf ++ d ∷ b))
          (ingested now (lines (c ∷ a)) log)
        ≡ ingested now (join (lines (c ∷ a)) (d ∷ b)) log =
      ingested-ingested now (lines (c ∷ a)) (d ∷ b) log h in
    let l : ingest now (d ∷ b) (ingest now (c ∷ a) log)
        ≡ ingested now (split_lines ((ingested now (lines (c ∷ a)) log).line_buf ++ d ∷ b))
            (ingested now (lines (c ∷ a)) log) =
      refl in
    let r : ingested now (lines ((c ∷ a) ++ (d ∷ b))) log ≡ ingest now ((c ∷ a) ++ (d ∷ b)) log =
      refl in
    l ∙ x ∙ ap (λ p. ingested now p log) (sym whole) ∙ r

-- `ingest` reads and writes neither the position nor the session.
unfoldable pub at_position : ℕ → Bool → Option ℕ → VllmAccessLog → VllmAccessLog
at_position k skip session log = record log { offset = k; skip_to_end = skip; session = session }

ingested-at_position :
    (now k : ℕ) (skip : Bool) (session : Option ℕ) (p : List Text × Text) (log : VllmAccessLog)
    → ingested now p (at_position k skip session log)
      ≡ at_position k skip session (ingested now p log)
unfolding at_position
ingested-at_position now k skip session (lines, buf) log =
    let buf' = cut_line_buf buf in
    record_lines-frame now lines k buf' skip session log
    ∙ ap (at_position k skip session)
        (sym (record_lines-frame now lines log.offset buf' log.skip_to_end log.session log))

pub ingest-at_position :
    (now k : ℕ) (skip : Bool) (session : Option ℕ) (text : Text) (log : VllmAccessLog)
    → ingest now text (at_position k skip session log)
      ≡ at_position k skip session (ingest now text log)
unfolding ingest at_position
ingest-at_position now k skip session [] log = refl
ingest-at_position now k skip session (c ∷ text) log =
    ingested-at_position now k skip session (split_lines (log.line_buf ++ c ∷ text)) log

pub ingest_position :
    (now : ℕ) (text : Text) (log : VllmAccessLog)
    → ((ingest now text log).offset ≡ log.offset)
      × ((ingest now text log).skip_to_end ≡ log.skip_to_end)
      × ((ingest now text log).session ≡ log.session)
unfolding at_position
ingest_position now text log =
    let e : ingest now text log
        ≡ at_position log.offset log.skip_to_end log.session (ingest now text log) =
      ingest-at_position now log.offset log.skip_to_end log.session text log in
    (ap (λ l. l.offset) e, ap (λ l. l.skip_to_end) e, ap (λ l. l.session) e)
