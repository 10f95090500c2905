-- ===== src/Launch.antt =====
-- backend/config/model_launch_config.py: the parsing of a launch configuration. A text is a list of
-- ASCII characters; `shlex.split` is that of Python's library, in its POSIX mode.
pub mod Api
pub mod Valid
pub mod Serving
pub mod Store
use v_llm_dashboard.Prelude.{
  ℕ, ◌+◌, ◌-◌, ◌*◌, Bool, true, false, not, ◌&&◌, ◌||◌, Option, none, some, List, [], ◌∷◌, ◌++◌,
  leb, if◌then◌else◌, ◌==◌, nat_eq,
}
use v_llm_dashboard.Prelude.Texts.{Text, text_eq, code_points, list_beq, starts_with}
use v_llm_dashboard.Prelude.Words.{
  is_empty_text, strip_text, rstrip_spaces, split_on, partition, as_newlines,
}
use v_llm_dashboard.Prelude.Regex.{
  Regex, Regex.one_of, Regex.seq, Regex.many, full_match, is_digit, is_letter, is_word, is_space,
}

-- the state of `strip_shell_comment`: the quotes, and whether a `#` would begin a comment
unfoldable pub comment_from : Bool → Bool → Bool → Text → Text
comment_from in_single in_double fresh [] = []
comment_from in_single in_double fresh (c ∷ line) =
    let quote = comment_from (not in_single) in_double false line in
    let double_quote = comment_from in_single (not in_double) false line in
    let other = comment_from in_single in_double (is_space c) line in
    if c == b'\'' && not in_double
    then c ∷ quote
    else if c == b'"' && not in_single
    then c ∷ double_quote
    else if c == b'#' && not in_single && not in_double && fresh
    then []
    else c ∷ other

unfoldable pub has_comment : Bool → Bool → Bool → Text → Bool
has_comment in_single in_double fresh [] = false
has_comment in_single in_double fresh (c ∷ line) =
    let quote = has_comment (not in_single) in_double false line in
    let double_quote = has_comment in_single (not in_double) false line in
    let other = has_comment in_single in_double (is_space c) line in
    if c == b'\'' && not in_double
    then quote
    else if c == b'"' && not in_single
    then double_quote
    else if c == b'#' && not in_single && not in_double && fresh
    then true
    else other

-- `strip_shell_comment`
unfoldable pub strip_shell_comment : Text → Text
unfolding comment_from has_comment
strip_shell_comment line =
    if has_comment false false true line
    then rstrip_spaces (comment_from false false true line)
    else line

-- the states of `shlex`: between tokens, in a word, in quotes, and behind a backslash
pub data Lexer : Type 0 where
  between : Lexer
  in_word : Text → Lexer
  in_quotes : ℕ → Text → Lexer
  escaping : Option ℕ → Text → Lexer

abbrev pub is_quote : ℕ → Bool
is_quote c = c == b'\'' || c == b'"'

-- shlex's whitespace
abbrev pub is_blank : ℕ → Bool
is_blank c = c == b' ' || c == b'\t' || c == b'\r' || c == b'\n'

abbrev emit : Text → Option (List Text) → Option (List Text)
emit token none = none
emit token (some tokens) = some (token ∷ tokens)

-- back in the quotes, or in the word, that the backslash stands in
abbrev resume : Option ℕ → Text → Lexer
resume none token = in_word token
resume (some q) token = in_quotes q token

-- inside quotes a backslash stays, unless it is in front of a backslash or of the quote
abbrev escaped : Option ℕ → ℕ → Text → Text
escaped none c token = token ++ c ∷ []
escaped (some q) c token = if c == b'\\' || c == q then token ++ c ∷ [] else token ++ b'\\' ∷ c ∷ []

unfoldable pub lex : Lexer → Text → Option (List Text)
lex between [] = some []
lex (in_word token) [] = some (token ∷ [])
lex (in_quotes q token) [] = none
lex (escaping q token) [] = none
lex between (c ∷ text) =
    let blank = lex between text in
    let slash = lex (escaping none []) text in
    let quote = lex (in_quotes c []) text in
    let word = lex (in_word (c ∷ [])) text in
    if is_blank c then blank else if c == b'\\' then slash else if is_quote c then quote else word
lex (in_word token) (c ∷ text) =
    let blank = lex between text in
    let slash = lex (escaping none token) text in
    let quote = lex (in_quotes c token) text in
    let word = lex (in_word (token ++ c ∷ [])) text in
    if is_blank c
    then emit token blank
    else if is_quote c
    then quote
    else if c == b'\\'
    then slash
    else word
lex (in_quotes q token) (c ∷ text) =
    let close = lex (in_word token) text in
    let slash = lex (escaping (some q) token) text in
    let inside = lex (in_quotes q (token ++ c ∷ [])) text in
    if c == q then close else if c == b'\\' && q == b'"' then slash else inside
lex (escaping q token) (c ∷ text) = lex (resume q (escaped q c token)) text

-- shlex.split, none where it raises ValueError
unfoldable pub shlex_split : Text → Option (List Text)
unfolding lex
shlex_split text = lex between text

-- a list of assignments or the message of a ValueError
pub data Parsed : Type 0 where
  pairs : List (Text × Text) → Parsed
  bad_line : Text → Parsed

-- _ENV_KEY_RE
abbrev pub is_key_start : ℕ → Bool
is_key_start c = is_letter c || c == b'_'

abbrev pub env_key_re : Regex
env_key_re = seq (one_of is_key_start) (many (one_of is_word))

-- what is joined to the value of the last assignment
abbrev joined : Text → Text → Text
joined [] token = token
joined (c ∷ value) token = strip_text ((c ∷ value) ++ b' ' ∷ token)

unfoldable pub extend_last : Text → List (Text × Text) → List (Text × Text)
extend_last token [] = []
extend_last token ((k, v) ∷ []) = (k, joined v token) ∷ []
extend_last token ((k, v) ∷ p ∷ ps) = (k, v) ∷ extend_last token (p ∷ ps)

-- a token of a line: an assignment, or more of the value of the line's last one
unfoldable pub add_tokens : Text → Bool → List Text → List (Text × Text) → Parsed
unfolding extend_last
add_tokens line begun [] parsed = pairs parsed
add_tokens line begun (token ∷ tokens) parsed =
    let (key, after) = partition b'=' token in
    elim after [
      | some value ↦ elim (full_match env_key_re key) [
        | true ↦ add_tokens line true tokens (parsed ++ (key, value) ∷ [])
        | false ↦ bad_line line
      ]
      | none ↦ elim begun [
        | true ↦ add_tokens line true tokens (extend_last token parsed)
        | false ↦ bad_line line
      ]
    ]

abbrev pub without_export : List Text → List Text
without_export [] = []
without_export (t ∷ tokens) =
    let rest = without_export tokens in if t == code_points "export" then rest else t ∷ rest

abbrev pub tokens_of : Text → Option (List Text) → List (Text × Text) → Parsed
tokens_of line none parsed = bad_line line
tokens_of line (some tokens) parsed = add_tokens line false (without_export tokens) parsed

-- a line that is stripped of its comment
abbrev pub parse_code : Text → List (Text × Text) → Parsed
parse_code [] parsed = pairs parsed
parse_code (c ∷ line) parsed = tokens_of (c ∷ line) (shlex_split (c ∷ line)) parsed

unfoldable pub parse_line : Text → List (Text × Text) → Parsed
unfolding add_tokens shlex_split strip_shell_comment
parse_line raw parsed =
    let line = strip_text raw in
    if is_empty_text line || starts_with line (code_points "#")
    then pairs parsed
    else parse_code (strip_shell_comment line) parsed

unfoldable pub parse_lines : List Text → List (Text × Text) → Parsed
unfolding parse_line
parse_lines [] parsed = pairs parsed
parse_lines (line ∷ lines) parsed = elim (parse_line line parsed) [
  | pairs parsed' ↦ parse_lines lines parsed'
  | bad_line why ↦ bad_line why
]

-- `parse_env_vars`
unfoldable pub parse_env_vars : Text → Parsed
unfolding parse_lines
parse_env_vars text = parse_lines (split_on b'\n' (as_newlines text)) []
