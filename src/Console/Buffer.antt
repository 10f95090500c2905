-- ===== src/Console/Buffer.antt =====
-- backend/console/session.py: the bounded output buffer of a console session, and the loop of the
-- WebSocket (console/session_manager.py) that reads it. A text is the list of its code points.
pub mod Screen
use v_llm_dashboard.Prelude.{
  ℕ, ◌+◌, ◌-◌, Bool, true, false, List, [], ◌∷◌, ◌++◌, ltb, leb, length, drop, last_n,
  if◌then◌else◌,
}

abbrev pub Text : Type 0
Text = List ℕ

-- _MAX_BUFFER_SIZE and _KEEP_TAIL_SIZE
abbrev pub max_buffer_size : ℕ
max_buffer_size = 100000

abbrev pub keep_tail_size : ℕ
keep_tail_size = 50000

pub record ConsoleSession : Type 0 where
  pub buffer : Text
  pub base_offset : ℕ
  pub total_written : ℕ

abbrev pub new_session : ConsoleSession
new_session = record { buffer = []; base_offset = 0; total_written = 0 }

-- what is kept of an oversized buffer
abbrev pub trim : ConsoleSession → ConsoleSession
trim s =
    let kept = last_n keep_tail_size s.buffer in
    record s { buffer = kept; base_offset = s.total_written - length kept }

-- `_append_locked`
unfoldable pub append_locked : Text → ConsoleSession → ConsoleSession
append_locked text s =
    let s' = record s {
      buffer = s.buffer ++ text;
      total_written = s.total_written + length text;
    } in
    if ltb max_buffer_size (length s'.buffer) then trim s' else s'

-- the text, the new position, and whether the reader must drop what it shows
unfoldable pub get_output_since : ℕ → ConsoleSession → Text × (ℕ × Bool)
get_output_since position s =
    if leb s.total_written position
    then ([], (s.total_written, false))
    else if ltb position s.base_offset
    then (s.buffer, (s.total_written, true))
    else (drop (position - s.base_offset) s.buffer, (s.total_written, false))

unfoldable pub get_history_with_position : ConsoleSession → Text × ℕ
get_history_with_position s = (s.buffer, s.total_written)

-- a reader: what it shows, and where it reads on
pub record Reader : Type 0 where
  pub screen : Text
  pub read_position : ℕ

abbrev pub show : Text → Bool → Text → Text
show text true screen = text
show text false screen = screen ++ text

abbrev pub shown : Text × (ℕ × Bool) → Reader → Reader
shown (text, (position, needs_replace)) r = record {
  screen = show text needs_replace r.screen;
  read_position = position;
}

-- one round of `read_output`; the message buffer_truncated empties the screen
unfoldable pub read_output : ConsoleSession → Reader → Reader
unfolding get_output_since
read_output s r = shown (get_output_since r.read_position s) r

-- The start of a WebSocket: a reconnected one is shown the history, a new one starts at the end.
unfoldable pub connect : Bool → ConsoleSession → Reader
unfolding get_history_with_position
connect shows_history s =
    if shows_history
    then record { screen = s.buffer; read_position = s.total_written }
    else record { screen = []; read_position = s.total_written }
