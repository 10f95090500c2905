-- ===== src/AccessLog/Tail/Times.antt =====
-- backend/service/vllm_access_log.py: the access log up to the times at which lines were recorded.
use v_llm_dashboard.Prelude.{
  ℕ, zero, suc, ◌+◌, ◌-◌, ◌≡◌, refl, sym, ap, ◌∙◌, inl, inr, Bool, true, false, Option, none, some,
  List, [], ◌∷◌, ◌++◌, map, drop, last_n, length, anyb, ◌==◌, Bool-cases,
}
use v_llm_dashboard.Prelude.Dict.{Dict, get, set}
use v_llm_dashboard.Prelude.Texts.{Text, text_eq, starts_with, list_beq, code_points}
use v_llm_dashboard.Prelude.Regex.{Scan, search, erase, group_text}
use v_llm_dashboard.StateMachine.Ops.{map_option}
use v_llm_dashboard.AccessLog.{
  AccessEntry, AccessTotals, VllmAccessLog, record_request, reset_log, line_entry, entry_at,
  entry_of, count_of, max_entries, probe_paths, before_query, path_group, access_line_re, ansi_re,
  rstrip,
}
use v_llm_dashboard.AccessLog.Tail.{
  record_some, record_lines, cut_line_buf, ingest, split_lines, advance, settle,
  consume_poll_output, poll_output, poll_once, trunc_marker, size_marker, bytes_marker, behind,
  byte_length, match_marker, lstrip_newlines,
}

abbrev pub untimed_entry : AccessEntry → AccessEntry
untimed_entry e = record e { ts = 0 }

abbrev pub untimed_totals : AccessTotals → AccessTotals
untimed_totals a = record a { last_seen = 0 }

abbrev pub untimed_rows : Dict Text AccessTotals → Dict Text AccessTotals
untimed_rows [] = []
untimed_rows ((ip, a) ∷ d) = (ip, untimed_totals a) ∷ untimed_rows d

-- the log without its time stamps: when each entry was recorded, and each address last seen
abbrev pub untimed : VllmAccessLog → VllmAccessLog
untimed log = record log { entries = map untimed_entry log.entries; by_ip = untimed_rows log.by_ip }

untimed_rows-set :
    (ip : Text) (a : AccessTotals) (d : Dict Text AccessTotals)
    → untimed_rows (set ip a d) ≡ set ip (untimed_totals a) (untimed_rows d)
unfolding set
untimed_rows-set ip a [] = refl
untimed_rows-set ip a ((k, b) ∷ d) = elim (Bool-cases (k == ip)) [
  | inl same ↦ rw same refl
  | inr other ↦ rw other (ap (λ l. (k, untimed_totals b) ∷ l) (untimed_rows-set ip a d))
]

count_of-get :
    (ip : Text) (d : Dict Text AccessTotals)
    → count_of (get ip (untimed_rows d)) ≡ count_of (get ip d)
unfolding get
count_of-get ip [] = refl
count_of-get ip ((k, b) ∷ d) = elim (Bool-cases (k == ip)) [
  | inl same ↦ rw same refl
  | inr other ↦ rw other (count_of-get ip d)
]

map-drop :
    (n : ℕ) (es : List AccessEntry) → map untimed_entry (drop n es) ≡ drop n (map untimed_entry es)
map-drop zero es = refl
map-drop (suc n) [] = refl
map-drop (suc n) (e ∷ es) = map-drop n es

length-map_lem : (es : List AccessEntry) → length (map untimed_entry es) ≡ length es
length-map_lem [] = refl
length-map_lem (e ∷ es) = ap suc (length-map_lem es)

map-snoc :
    (es : List AccessEntry) (e : AccessEntry)
    → map untimed_entry (es ++ e ∷ []) ≡ map untimed_entry es ++ untimed_entry e ∷ []
map-snoc [] e = refl
map-snoc (x ∷ es) e = ap (λ l. untimed_entry x ∷ l) (map-snoc es e)

map-last_n :
    (n : ℕ) (es : List AccessEntry)
    → map untimed_entry (last_n n es) ≡ last_n n (map untimed_entry es)
map-last_n n es =
    map-drop (length es - n) es
    ∙ ap (λ k. drop (k - n) (map untimed_entry es)) (sym (length-map_lem es))

untimed-record_request :
    (e : AccessEntry) (log : VllmAccessLog)
    → untimed (record_request e log) ≡ record_request (untimed_entry e) (untimed log)
unfolding record_request
untimed-record_request e log =
    let row : ℕ → ℕ → AccessTotals = λ n t. record {
      ip = e.ip;
      count = n + 1;
      last_seen = t;
      last_method = e.method;
      last_path = e.path;
    } in
    let rows : Dict Text AccessTotals = untimed_rows log.by_ip in
    let kept : List AccessEntry = map untimed_entry (last_n max_entries (log.entries ++ e ∷ [])) in
    let es : kept ≡ last_n max_entries (map untimed_entry log.entries ++ untimed_entry e ∷ []) =
      map-last_n max_entries (log.entries ++ e ∷ [])
      ∙ ap (last_n max_entries) (map-snoc log.entries e) in
    let ds : untimed_rows (set e.ip (row (count_of (get e.ip log.by_ip)) e.ts) log.by_ip)
        ≡ set e.ip (row (count_of (get e.ip rows)) 0) rows =
      untimed_rows-set e.ip (row (count_of (get e.ip log.by_ip)) e.ts) log.by_ip
      ∙ ap (λ n. set e.ip (row n 0) rows) (sym (count_of-get e.ip log.by_ip)) in
    ap (λ d. record log { entries = kept; by_ip = d }) ds
    ∙ ap (λ l. record log { entries = l; by_ip = set e.ip (row (count_of (get e.ip rows)) 0) rows })
        es

untimed-line_entry :
    (now : ℕ) (line : Text) → map_option untimed_entry (line_entry now line) ≡ line_entry 0 line
unfolding line_entry entry_at entry_of
untimed-line_entry now line = at_scan (search access_line_re (erase ansi_re (rstrip b'\r' line)))
  where
    at_scan : (o : Option Scan) → map_option untimed_entry (entry_at now o) ≡ entry_at 0 o
    at_scan none = refl
    at_scan (some m) =
        elim (Bool-cases (
          anyb (λ p. list_beq (before_query (group_text path_group m)) (code_points p))
            probe_paths)) [ inl probe ↦ rw probe refl | inr client ↦ rw client refl ]

untimed-record_some :
    (o : Option AccessEntry) (log : VllmAccessLog)
    → untimed (record_some o log) ≡ record_some (map_option untimed_entry o) (untimed log)
unfolding record_some
untimed-record_some none log = refl
untimed-record_some (some e) log = untimed-record_request e log

untimed-record_lines :
    (now : ℕ) (lines : List Text) (log : VllmAccessLog)
    → untimed (record_lines now lines log) ≡ record_lines 0 lines (untimed log)
unfolding record_lines
untimed-record_lines now [] log = refl
untimed-record_lines now (line ∷ lines) log =
    untimed-record_lines now lines (record_some (line_entry now line) log)
    ∙ ap (record_lines 0 lines) (
        untimed-record_some (line_entry now line) log
        ∙ ap (λ o. record_some o (untimed log)) (untimed-line_entry now line))

untimed-ingest :
    (now : ℕ) (text : Text) (log : VllmAccessLog)
    → untimed (ingest now text log) ≡ ingest 0 text (untimed log)
unfolding ingest
untimed-ingest now [] log = refl
untimed-ingest now (c ∷ text) log =
    let (lines, buf) = split_lines (log.line_buf ++ c ∷ text) in
    untimed-record_lines now lines (record log { line_buf = cut_line_buf buf })

untimed-advance :
    (now n : ℕ) (out : Text) (log : VllmAccessLog)
    → untimed (advance now n out log) ≡ advance 0 n out (untimed log)
unfolding advance
untimed-advance now n out log =
    ap (λ (l : VllmAccessLog). record l { offset = l.offset + n }) (untimed-ingest now out log)

untimed-settle :
    (truncated skip : Bool) (size : Option ℕ) (now n : ℕ) (out : Text) (log : VllmAccessLog)
    → untimed (settle truncated skip size now n out log)
      ≡ settle truncated skip size 0 n out (untimed log)
unfolding settle advance
untimed-settle truncated true none now n out log = refl
untimed-settle true true (some size) now n out log =
    untimed-advance now n out (record log { skip_to_end = false; session = some 0 })
untimed-settle false true (some size) now n out log = refl
untimed-settle true false size now n out log =
    ap (λ (l : VllmAccessLog). record l { session = none }) (untimed-advance now n out log)
untimed-settle false false size now n out log = untimed-advance now n out log

untimed-consume_poll_output :
    (now : ℕ) (out : Text) (log : VllmAccessLog)
    → untimed (consume_poll_output now out log) ≡ consume_poll_output 0 out (untimed log)
unfolding consume_poll_output reset_log
untimed-consume_poll_output now out log = elim (Bool-cases (starts_with out trunc_marker)) [
  | inl shorter ↦
      let text : Text = lstrip_newlines (drop (length trunc_marker) out) in
      let (size, sized) = behind (match_marker size_marker text) text in
      let (count, chunk) = behind (match_marker bytes_marker sized) sized in
      rw shorter (
        untimed-settle true log.skip_to_end size now (byte_length count chunk) chunk
          (reset_log log))
  | inr longer ↦
      let (size, sized) = behind (match_marker size_marker out) out in
      let (count, chunk) = behind (match_marker bytes_marker sized) sized in
      rw longer (untimed-settle false log.skip_to_end size now (byte_length count chunk) chunk log)
]

-- The times of a poll are all that its clock decides.
pub untimed-poll_once :
    (now : ℕ) (file : Text) (log : VllmAccessLog)
    → untimed (poll_once now file log) ≡ poll_once 0 file (untimed log)
unfolding poll_once
untimed-poll_once now file log = untimed-consume_poll_output now (poll_output log.offset file) log
