-- ===== src/Launch/Valid.antt =====
-- backend/config/model_launch_config.py: what the parsed configuration is, and which models are
-- asked.
use v_llm_dashboard.Prelude.{
  ℕ, ◌≡◌, refl, ◌≤◌, inl, inr, Bool, true, false, not, ◌&&◌, ◌||◌, Option, none, some, List, [],
  ◌∷◌, ◌++◌, leb, is_some, All, ◌==◌, nat_eq, string_eq, arith, Bool-cases,
}
use v_llm_dashboard.Prelude.Texts.{Text, text_eq, code_points, starts_with}
use v_llm_dashboard.Prelude.Regex.{full_match}
use v_llm_dashboard.Prelude.Words.{partition, strip_text, is_empty_text, split_on, as_newlines}
use v_llm_dashboard.Launch.{
  Parsed, pairs, bad_line, env_key_re, extend_last, add_tokens, parse_line, parse_lines,
  parse_env_vars, tokens_of, parse_code, without_export, shlex_split, strip_shell_comment,
}
use v_llm_dashboard.Launch.Api.{
  Api, to_port, joined_flag, spaced_flag, scan_flags, EnvApi, scan_env, parse_launch_api, in_range,
  int_of, first_part, first_api_key, or_none, read_env, with_env, scanned, env_pairs, or_words,
  or_else, behind_flag,
}

-- every name is an identifier of the shell
abbrev pub Named : List (Text × Text) → Type 0
Named = All (λ p. full_match env_key_re p.0 ≡ true)

abbrev pub Sound : Parsed → Type 0
Sound (pairs env) = Named env
Sound (bad_line why) = Unit

Named-append : (xs ys : List (Text × Text)) → Named xs → Named ys → Named (xs ++ ys)
Named-append [] ys a b = b
Named-append (x ∷ xs) ys (h, a) b = (h, Named-append xs ys a b)

Named-extend_last :
    (token : Text) (env : List (Text × Text)) → Named env → Named (extend_last token env)
unfolding extend_last
Named-extend_last token [] n = tt
Named-extend_last token ((k, v) ∷ []) n = n
Named-extend_last token ((k, v) ∷ p ∷ env) (h, n) = (h, Named-extend_last token (p ∷ env) n)

add_tokens-Sound :
    (line : Text) (begun : Bool) (tokens : List Text) (env : List (Text × Text))
    → Named env
    → Sound (add_tokens line begun tokens env)
unfolding add_tokens
add_tokens-Sound line begun [] env n = n
add_tokens-Sound line begun (token ∷ tokens) env n =
    let key : Text = (partition b'=' token).0 in
    let joined_on : Sound (add_tokens line true tokens (extend_last token env)) =
      add_tokens-Sound line true tokens (extend_last token env) (Named-extend_last token env n) in
    let added : (value : Text)
        → full_match env_key_re key ≡ true
        → Sound (add_tokens line true tokens (env ++ (key, value) ∷ [])) =
      λ value good.
        add_tokens-Sound line true tokens (env ++ (key, value) ∷ [])
          (Named-append env ((key, value) ∷ []) n (good, tt)) in
    at_value (partition b'=' token).1 begun (full_match env_key_re key) refl joined_on added
  where
    at_value :
        (after : Option Text) (b good : Bool)
        → full_match env_key_re (partition b'=' token).0 ≡ good
        → Sound (add_tokens line true tokens (extend_last token env))
        → ((value : Text)
            → full_match env_key_re (partition b'=' token).0 ≡ true
            → Sound (add_tokens line true tokens (env ++ ((partition b'=' token).0, value) ∷ [])))
        → Sound (elim after [
          | some value ↦ elim good [
            | true ↦ add_tokens line true tokens (env ++ ((partition b'=' token).0, value) ∷ [])
            | false ↦ bad_line line
          ]
          | none ↦ elim b [
            | true ↦ add_tokens line true tokens (extend_last token env)
            | false ↦ bad_line line
          ]
        ])
    at_value none true good e j a = j
    at_value none false good e j a = tt
    at_value (some value) b true e j a = a value e
    at_value (some value) b false e j a = tt

parse_code-Sound :
    (line : Text) (env : List (Text × Text)) → Named env → Sound (parse_code line env)
parse_code-Sound [] env n = n
parse_code-Sound (c ∷ line) env n = at (shlex_split (c ∷ line))
  where
    at : (o : Option (List Text)) → Sound (tokens_of (c ∷ line) o env)
    at none = tt
    at (some tokens) = add_tokens-Sound (c ∷ line) false (without_export tokens) env n

parse_line-Sound : (raw : Text) (env : List (Text × Text)) → Named env → Sound (parse_line raw env)
unfolding parse_line
parse_line-Sound raw env n =
    let line : Text = strip_text raw in
    elim (Bool-cases (is_empty_text line || starts_with line (code_points "#"))) [
      | inl y ↦ rw y n
      | inr z ↦ rw z (parse_code-Sound (strip_shell_comment line) env n)
    ]

parse_lines-Sound :
    (lines : List Text) (env : List (Text × Text)) → Named env → Sound (parse_lines lines env)
unfolding parse_lines
parse_lines-Sound [] env n = n
parse_lines-Sound (line ∷ lines) env n =
    at (parse_line line env) (parse_line-Sound line env n) (parse_lines-Sound lines)
  where
    at :
        (p : Parsed)
        → Sound p
        → ((env' : List (Text × Text)) → Named env' → Sound (parse_lines lines env'))
        → Sound (elim p [ pairs env' ↦ parse_lines lines env' | bad_line why ↦ bad_line why ])
    at (pairs env') s later = later env' s
    at (bad_line why) s later = tt

-- Where the environment of a launch configuration is accepted, every name in it is an identifier,
-- so that it can be exported by the shell.
pub parse_env_vars-Sound : (text : Text) → Sound (parse_env_vars text)
unfolding parse_env_vars
parse_env_vars-Sound text = parse_lines-Sound (split_on b'\n' (as_newlines text)) [] tt

abbrev pub IsPort : Option ℕ → Type 0
IsPort none = Unit
IsPort (some port) = (1 ≤ port) × (port ≤ 65535)

abbrev pub IsKey : Option Text → Type 0
IsKey none = Unit
IsKey (some key) = is_empty_text key ≡ false

abbrev pub IsApi : Api → Type 0
IsApi (port, key) = IsPort port × IsKey key

IsPort-to_port : (value : Text) → IsPort (to_port value)
unfolding to_port
IsPort-to_port value = at (int_of (strip_text value))
  where
    at : (o : Option ℕ) → IsPort (in_range o)
    at none = tt
    at (some port) = elim (Bool-cases (leb 1 port && leb port 65535)) [
      | inl y ↦ rw y (ground arith, ground arith)
      | inr z ↦ rw z tt
    ]

IsKey-or_none : (v : Text) → IsKey (or_none v)
IsKey-or_none [] = tt
IsKey-or_none (c ∷ v) = refl

IsKey-first_part : (parts : List Text) → IsKey (first_part parts)
unfolding first_part
IsKey-first_part [] = tt
IsKey-first_part (part ∷ parts) = elim (Bool-cases (is_empty_text (strip_text part))) [
  | inl y ↦ rw y (IsKey-first_part parts)
  | inr z ↦ rw z z
]

IsKey-first_api_key : (value : Text) → IsKey (first_api_key value)
unfolding first_api_key
IsKey-first_api_key value = IsKey-first_part (split_on b',' value)

IsApi-joined_flag : (flag : Text) (api : Api) → IsApi api → IsApi (joined_flag flag api)
unfolding joined_flag
IsApi-joined_flag flag (port, key) (p, k) =
    elim (Bool-cases (starts_with flag (code_points "--port="))) [
      | inl y ↦ rw y (IsPort-to_port (behind_flag (code_points "--port=") flag), k)
      | inr y ↦ elim (Bool-cases (starts_with flag (code_points "--api-key="))) [
        | inl z ↦ rw (y, z) (p, IsKey-or_none (behind_flag (code_points "--api-key=") flag))
        | inr z ↦ elim (Bool-cases (starts_with flag (code_points "--api-keys="))) [
          | inl w ↦
              rw (y, z, w) (p, IsKey-first_api_key (behind_flag (code_points "--api-keys=") flag))
          | inr w ↦ rw (y, z, w) (p, k)
        ]
      ]
    ]

abbrev IsSomeApi : Option Api → Type 0
IsSomeApi none = Unit
IsSomeApi (some api) = IsApi api

IsSomeApi-spaced_flag :
    (flag value : Text) (api : Api) → IsApi api → IsSomeApi (spaced_flag flag value api)
unfolding spaced_flag
IsSomeApi-spaced_flag flag value (port, key) (p, k) =
    elim (Bool-cases (flag == code_points "--port")) [
      | inl y ↦ rw y (IsPort-to_port value, k)
      | inr y ↦ elim (Bool-cases (flag == code_points "--api-key")) [
        | inl z ↦ rw (y, z) (p, IsKey-or_none value)
        | inr z ↦ elim (Bool-cases (flag == code_points "--api-keys")) [
          | inl w ↦ rw (y, z, w) (p, IsKey-first_api_key value)
          | inr w ↦ rw (y, z, w) tt
        ]
      ]
    ]

IsApi-scan_flags : (tokens : List Text) (api : Api) → IsApi api → IsApi (scan_flags tokens api)
unfolding scan_flags
IsApi-scan_flags [] api h = h
IsApi-scan_flags (flag ∷ []) api h = IsApi-joined_flag flag api h
IsApi-scan_flags (flag ∷ value ∷ tokens) api h =
    at (spaced_flag flag value api) (IsSomeApi-spaced_flag flag value api h)
      (IsApi-scan_flags tokens)
      (IsApi-scan_flags (value ∷ tokens) (joined_flag flag api) (IsApi-joined_flag flag api h))
  where
    at :
        (o : Option Api)
        → IsSomeApi o
        → ((api' : Api) → IsApi api' → IsApi (scan_flags tokens api'))
        → IsApi (scan_flags (value ∷ tokens) (joined_flag flag api))
        → IsApi (elim o [
          | some api' ↦ scan_flags tokens api'
          | none ↦ scan_flags (value ∷ tokens) (joined_flag flag api)
        ])
    at none h later next = next
    at (some api') h later next = later api' h

abbrev IsEnvApi : EnvApi → Type 0
IsEnvApi e = IsPort e.port × IsKey e.vllm_api_key × IsKey e.generic_api_key

IsEnvApi-read_env : (key value : Text) (e : EnvApi) → IsEnvApi e → IsEnvApi (read_env key value e)
IsEnvApi-read_env key value e (p, v, g) =
    elim (Bool-cases (key == code_points "PORT" && not (is_some e.port))) [
      | inl y ↦ rw y (IsPort-to_port value, v, g)
      | inr y ↦
          elim (Bool-cases (key == code_points "VLLM_API_KEY" && not (is_some e.vllm_api_key))) [
            | inl z ↦ rw (y, z) (p, IsKey-or_none value, g)
            | inr z ↦
                elim (Bool-cases
                  (key == code_points "API_KEY" && not (is_some e.generic_api_key))) [
                    | inl w ↦ rw (y, z, w) (p, v, IsKey-or_none value)
                    | inr w ↦ rw (y, z, w) (p, v, g)
                  ]
          ]
    ]

IsEnvApi-scan_env : (env : List (Text × Text)) (e : EnvApi) → IsEnvApi e → IsEnvApi (scan_env env e)
unfolding scan_env
IsEnvApi-scan_env [] e h = h
IsEnvApi-scan_env ((key, value) ∷ env) e h =
    IsEnvApi-scan_env env (read_env key value e) (IsEnvApi-read_env key value e h)

IsKey-or_else : (a b : Option Text) → IsKey a → IsKey b → IsKey (or_else a b)
IsKey-or_else none b h k = k
IsKey-or_else (some a) b h k = h

with_env_lem :
    (env : Text) (port : Option ℕ) (key : Option Text)
    → IsApi (port, key)
    → IsApi (scanned env port key)
with_env_lem env port key (p, k) =
    let start : EnvApi = record { port = port; vllm_api_key = none; generic_api_key = none } in
    let e : EnvApi = scan_env (env_pairs (parse_env_vars env)) start in
    let (p', v, g) = IsEnvApi-scan_env (env_pairs (parse_env_vars env)) start (p, tt, tt) in
    (
      p',
      IsKey-or_else key (or_else e.vllm_api_key e.generic_api_key) k
          (IsKey-or_else e.vllm_api_key e.generic_api_key v g),
    )

IsApi-with_env : (env : Text) (api : Api) → IsApi api → IsApi (with_env env api)
IsApi-with_env env (some port, some key) h = h
IsApi-with_env env (some port, none) h = with_env_lem env (some port) none h
IsApi-with_env env (none, key) h = with_env_lem env none key h

-- Whatever the launch configuration, a port that it sets is a port number, and a key is not empty.
pub parse_launch_api-IsApi : (command env : Text) → IsApi (parse_launch_api command env)
unfolding parse_launch_api
parse_launch_api-IsApi command env =
    let tokens : List Text = or_words command (shlex_split command) in
    IsApi-with_env env (scan_flags tokens (none, none))
      (IsApi-scan_flags tokens (none, none) (tt, tt))
