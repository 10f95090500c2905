-- ===== src/Launch/Api.antt =====
-- backend/config/model_launch_config.py: the port and the key of the API that a launch
-- configuration sets, and the models whose configuration is asked.
use v_llm_dashboard.Prelude.{
  ℕ, ◌+◌, ◌-◌, ◌*◌, String, Bool, true, false, not, ◌&&◌, ◌||◌, Option, none, some, List, [], ◌∷◌,
  ◌++◌, leb, drop, length, is_some, anyb, if◌then◌else◌, ◌==◌, nat_eq, string_eq,
}
use v_llm_dashboard.Prelude.Texts.{Text, text_eq, code_points, starts_with}
use v_llm_dashboard.Prelude.Words.{is_empty_text, strip_text, split_on}
use v_llm_dashboard.Prelude.Regex.{is_digit, is_space}
use v_llm_dashboard.Prelude.Set.{contains}
use v_llm_dashboard.Schemas.{ModelStatus, loading, running}
use v_llm_dashboard.Launch.{Parsed, pairs, bad_line, parse_env_vars, shlex_split}

-- int(s) of a text without sign: digits, with single underscores between them
unfoldable pub read_int : ℕ → Bool → Text → Option ℕ
read_int n begun [] = if begun then some n else none
read_int n begun (c ∷ text) =
    let next = read_int (n * 10 + (c - b'0')) true text in
    let below = read_int n false text in
    if is_digit c then next else if c == b'_' && begun then below else none

abbrev unsigned : Text → Option ℕ
unsigned [] = none
unsigned (c ∷ text) = if c == b'_' then none else read_int 0 false (c ∷ text)

-- a negative number is no port, so that it counts as none
unfoldable pub int_of : Text → Option ℕ
unfolding read_int
int_of [] = none
int_of (c ∷ text) = if c == b'+' then unsigned text else unsigned (c ∷ text)

abbrev pub in_range : Option ℕ → Option ℕ
in_range none = none
in_range (some port) = if leb 1 port && leb port 65535 then some port else none

-- `_to_port`
unfoldable pub to_port : Text → Option ℕ
unfolding int_of read_int
to_port value = in_range (int_of (strip_text value))

unfoldable pub first_part : List Text → Option Text
first_part [] = none
first_part (part ∷ parts) =
    let rest = first_part parts in
    if is_empty_text (strip_text part) then rest else some (strip_text part)

-- `_first_api_key`
unfoldable pub first_api_key : Text → Option Text
unfolding first_part
first_api_key value = first_part (split_on b',' value)

-- v or None
abbrev pub or_none : Text → Option Text
or_none [] = none
or_none (c ∷ v) = some (c ∷ v)

abbrev pub Api : Type 0
Api = Option ℕ × Option Text

-- flag.partition("=")[2] of a flag that begins with the given text
abbrev pub behind_flag : Text → Text → Text
behind_flag prefix flag = drop (length prefix) flag

-- the flags that stand in one token
unfoldable pub joined_flag : Text → Api → Api
unfolding to_port first_api_key
joined_flag flag (port, key) =
    if starts_with flag (code_points "--port=")
    then (to_port (behind_flag (code_points "--port=") flag), key)
    else if starts_with flag (code_points "--api-key=")
    then (port, or_none (behind_flag (code_points "--api-key=") flag))
    else if starts_with flag (code_points "--api-keys=")
    then (port, first_api_key (behind_flag (code_points "--api-keys=") flag))
    else (port, key)

-- the flags that take the next token
unfoldable pub spaced_flag : Text → Text → Api → Option Api
unfolding to_port first_api_key
spaced_flag flag value (port, key) =
    if flag == code_points "--port"
    then some (to_port value, key)
    else if flag == code_points "--api-key"
    then some (port, or_none value)
    else if flag == code_points "--api-keys"
    then some (port, first_api_key value)
    else none

-- the scan of the command's tokens
unfoldable pub scan_flags : List Text → Api → Api
unfolding joined_flag spaced_flag
scan_flags [] api = api
scan_flags (flag ∷ []) api = joined_flag flag api
scan_flags (flag ∷ value ∷ tokens) api = elim (spaced_flag flag value api) [
  | some api' ↦ scan_flags tokens api'
  | none ↦ scan_flags (value ∷ tokens) (joined_flag flag api)
]

-- the port, and the two keys of the environment
pub record EnvApi : Type 0 where
  pub port : Option ℕ
  pub vllm_api_key : Option Text
  pub generic_api_key : Option Text

abbrev pub read_env : Text → Text → EnvApi → EnvApi
read_env key value e =
    if key == code_points "PORT" && not (is_some e.port)
    then record e { port = to_port value }
    else if key == code_points "VLLM_API_KEY" && not (is_some e.vllm_api_key)
    then record e { vllm_api_key = or_none value }
    else if key == code_points "API_KEY" && not (is_some e.generic_api_key)
    then record e { generic_api_key = or_none value }
    else e

unfoldable pub scan_env : List (Text × Text) → EnvApi → EnvApi
unfolding to_port
scan_env [] e = e
scan_env ((key, value) ∷ env) e = scan_env env (read_env key value e)

abbrev pub env_pairs : Parsed → List (Text × Text)
env_pairs (pairs env) = env
env_pairs (bad_line why) = []

abbrev pub or_else {ℓ} : {A : Type ℓ} → Option A → Option A → Option A
or_else none b = b
or_else (some a) b = some a

abbrev pub scanned : Text → Option ℕ → Option Text → Api
scanned env port key =
    let e =
      scan_env (env_pairs (parse_env_vars env))
        (record { port = port; vllm_api_key = none; generic_api_key = none }) in
    (e.port, or_else key (or_else e.vllm_api_key e.generic_api_key))

-- the environment is read where the flags leave something open
abbrev pub with_env : Text → Api → Api
with_env env (some port, some key) = (some port, some key)
with_env env (some port, none) = scanned env (some port) none
with_env env (none, key) = scanned env none key

-- the words of a command that shlex does not parse: str.split()
unfoldable pub words_from : Text → Text → List Text
words_from [] [] = []
words_from (w ∷ word) [] = (w ∷ word) ∷ []
words_from word (c ∷ text) =
    let next = words_from [] text in
    let more = words_from (word ++ c ∷ []) text in
    if is_space c then (if is_empty_text word then next else word ∷ next) else more

abbrev pub or_words : Text → Option (List Text) → List Text
or_words text none = words_from [] text
or_words text (some tokens) = tokens

-- `parse_launch_api`
unfoldable pub parse_launch_api : Text → Text → Api
unfolding scan_flags scan_env words_from shlex_split parse_env_vars
parse_launch_api start_command env_vars =
    with_env env_vars (scan_flags (or_words start_command (shlex_split start_command)) (none, none))

-- a model of the registry, as far as its status goes
pub record ServedModel : Type 0 where
  pub id : String
  pub status : ModelStatus

abbrev pub is_loading : ModelStatus → Bool
is_loading loading = true
is_loading _ = false

abbrev pub is_running : ModelStatus → Bool
is_running running = true
is_running _ = false

abbrev pub is_serving : ServedModel → Bool
is_serving m = is_loading m.status || is_running m.status

unfoldable pub add_models : (ServedModel → Bool) → List ServedModel → List String → List String
add_models p [] candidates = candidates
add_models p (m ∷ models) candidates =
    add_models p models
      (if not (contains m.id candidates) && p m then candidates ++ m.id ∷ [] else candidates)

abbrev pub current_of : Option String → List ServedModel → List String
current_of none models = []
current_of (some id) models = if anyb (λ m. m.id == id && is_serving m) models then id ∷ [] else []

abbrev pub any_current : Option String → List String
any_current none = []
any_current (some id) = if id == "" then [] else id ∷ []

abbrev pub or_any : Option String → List ServedModel → List String → List String
or_any current models [] = add_models (λ m. true) models (any_current current)
or_any current models (c ∷ candidates) = c ∷ candidates

-- the candidates of `resolve_launch_api`, in order
unfoldable pub launch_candidates : Option String → List ServedModel → List String
unfolding add_models
launch_candidates current models =
    let loading_ones = add_models (λ m. is_loading m.status) models (current_of current models) in
    or_any current models (add_models (λ m. is_running m.status) models loading_ones)

-- what a configuration yields: a start command and environment variables, or nothing stored
unfoldable pub api_of : Option (Text × Text) → Api
unfolding parse_launch_api
api_of none = (none, none)
api_of (some (command, env)) = parse_launch_api command env

unfoldable pub first_api : (String → Option (Text × Text)) → List String → Api
unfolding api_of
first_api load [] = (none, none)
first_api load (id ∷ ids) =
    let rest = first_api load ids in
    let (port, key) = api_of (load id) in if is_some port || is_some key then (port, key) else rest

-- `resolve_launch_api`
unfoldable pub resolve_launch_api :
    Option String → List ServedModel → (String → Option (Text × Text)) → Api
unfolding launch_candidates first_api
resolve_launch_api current models load = first_api load (launch_candidates current models)
