-- ===== src/Health.antt =====
-- backend/config/api_target.py and backend/config/connection_probes.py: where the vLLM API is, the two
-- probes of a connection with their verdict, and the light of the API. What the HTTP client, the
-- executor and the socket answer are inputs, and the measured times are left out.
pub mod Verdict
use v_llm_dashboard.Prelude.{
  ℕ, Bool, true, false, not, ◌&&◌, ◌||◌, Option, none, some, List, [], ◌∷◌, ◌++◌, ltb, leb, take,
  if◌then◌else◌, ◌==◌, nat_eq,
}
use v_llm_dashboard.Prelude.Dict.{Dict, set}
use v_llm_dashboard.Prelude.Texts.{Text, text_eq, code_points}
use v_llm_dashboard.Prelude.Decimal.{decimal}
use v_llm_dashboard.Prelude.Words.{is_empty_text, or_text, strip_text, split_on}
use v_llm_dashboard.Launch.Api.{Api}

-- the settings of the server that these functions read
pub record Server : Type 0 where
  pub host : Text
  pub ssh_username : Text
  pub use_auth : Bool
  pub api_key : Option Text
  pub extra_headers : List (Text × Text)

pub record ApiTarget : Type 0 where
  pub base_url : Text
  pub port : ℕ
  pub headers : Dict Text Text
  pub api_key : Option Text

-- VLLM_DEFAULT_PORT
abbrev port_or_default : Option ℕ → ℕ
port_or_default none = 8000
port_or_default (some port) = port

abbrev pub some_text : Option Text → Bool
some_text none = false
some_text (some text) = not (is_empty_text text)

-- the key of the launch configuration, or that of the settings where they ask for it
abbrev pub effective_key : Option Text → Server → Option Text
effective_key (some key) c = some key
effective_key none c = if c.use_auth && some_text c.api_key then c.api_key else none

abbrev bearer : Option Text → Dict Text Text
bearer none = []
bearer (some []) = []
bearer (some (c ∷ key)) = (code_points "Authorization", code_points "Bearer " ++ c ∷ key) ∷ []

-- headers.update(extra)
unfoldable pub update_headers : List (Text × Text) → Dict Text Text → Dict Text Text
update_headers [] d = d
update_headers ((name, v) ∷ extra) d = update_headers extra (set name v d)

-- `resolve_api_target`, from what resolve_launch_api yields
unfoldable pub resolve_api_target : Api → Server → ApiTarget
unfolding update_headers
resolve_api_target (port, key) c =
    let p = port_or_default port in
    let sent = effective_key key c in
    record {
      base_url = code_points "http://" ++ c.host ++ code_points ":" ++ decimal p;
      port = p;
      headers = update_headers c.extra_headers (bearer sent);
      api_key = sent;
    }

pub data ServerStatus : Type 0 where
  unknown connected disconnected error : ServerStatus

pub record ConnectionDetail : Type 0 where
  pub status : ServerStatus
  pub version : Option Text
  pub error : Option Text

-- what the request for /v1/models came to: a status with the number of models, where the body is
-- readable, or what it raised
pub data ModelsAnswer : Type 0 where
  answered : ℕ → Option ℕ → ModelsAnswer
  no_connection too_slow : ModelsAnswer
  raised : Text → ModelsAnswer

abbrev pub unknown_version : Text
unknown_version = code_points "unknown"

abbrev models_text : Option ℕ → Text
models_text none = unknown_version
models_text (some n) =
    if n == 0 then code_points "vLLM 运行中 (无模型)" else decimal n ++ code_points " 个模型已加载"

abbrev failed : Text → ConnectionDetail
failed message = record { status = disconnected; version = none; error = some message }

-- `_check_http`
unfoldable pub check_http : ModelsAnswer → ConnectionDetail
check_http (answered code models) =
    if code == 200
    then record { status = connected; version = some (models_text models); error = none }
    else failed (code_points "HTTP " ++ decimal code)
check_http no_connection = failed (code_points "vLLM 未启动或无法连接")
check_http too_slow = failed (code_points "连接超时")
check_http (raised message) = failed message

-- what the executor answers, or raises
pub data ShellAnswer : Type 0 where
  ran : Bool → Text → Text → ShellAnswer
  broke : Text → ShellAnswer

-- the second line that the version probe prints
abbrev second_line : List Text → Text
second_line (line ∷ v ∷ rest) = or_text (strip_text v) unknown_version
second_line _ = unknown_version

abbrev is_known : Option Text → Bool
is_known none = false
is_known (some v) = not (v == unknown_version)

abbrev known_or : Option Text → Text → Text
known_or none v = v
known_or (some u) v = if u == unknown_version then v else u

-- a version that is unknown is not cached
abbrev cache_version : Text → Option Text → Option Text
cache_version v cached = if v == unknown_version then cached else some v

-- `_check_ssh`, with the version that is cached behind it
unfoldable pub check_ssh : ShellAnswer → Option Text → ConnectionDetail × Option Text
check_ssh (ran true stdout stderr) cached =
    let v = known_or cached (second_line (split_on b'\n' (strip_text stdout))) in
    (
      record { status = connected; version = some v; error = none },
      (if is_known cached then cached else cache_version v cached),
    )
check_ssh (ran false stdout stderr) cached =
    (failed (or_text stderr (code_points "Connection failed")), none)
check_ssh (broke message) cached = (failed message, none)

abbrev is_connected : Option ConnectionDetail → Bool
is_connected none = false
is_connected (some d) = elim d.status [
  | connected ↦ true
  | unknown ↦ false
  | disconnected ↦ false
  | error ↦ false
]

abbrev is_disconnected : Option ConnectionDetail → Bool
is_disconnected none = false
is_disconnected (some d) = elim d.status [
  | disconnected ↦ true
  | unknown ↦ false
  | connected ↦ false
  | error ↦ false
]

abbrev is_there : Option ConnectionDetail → Bool
is_there none = false
is_there (some d) = true

unfoldable pub overall : Option ConnectionDetail → Option ConnectionDetail → ServerStatus
overall http ssh =
    if is_connected http || is_connected ssh
    then connected
    else if is_disconnected http || is_disconnected ssh
    then disconnected
    else if is_there http || is_there ssh
    then error
    else unknown

-- DetailedConnectionStatus
pub record Detailed : Type 0 where
  pub http : Option ConnectionDetail
  pub ssh : Option ConnectionDetail
  pub total : ServerStatus

abbrev shown : Option ConnectionDetail → Option ConnectionDetail → Detailed
shown http ssh = record { http = http; ssh = ssh; total = overall http ssh }

-- `check_connection`, with the cached version behind it
unfoldable pub check_connection :
    Server → Bool → ModelsAnswer → ShellAnswer → Option Text → Detailed × Option Text
unfolding check_http check_ssh overall
check_connection c refresh models shell cached =
    let before = if refresh then none else cached in
    let (ssh, behind) = check_ssh shell before in
    if is_empty_text c.host
    then (shown none none, before)
    else if is_empty_text c.ssh_username
    then (shown (some (check_http models)) none, before)
    else (shown (some (check_http models)) (some ssh), behind)

-- what the TCP probe and the request for /health come to
pub data Tcp : Type 0 where
  ok refused timeout : Tcp

pub data HealthAnswer : Type 0 where
  responded : ℕ → HealthAnswer
  timed_out : HealthAnswer
  http_error : Text → HealthAnswer

pub record Light : Type 0 where
  pub reachable : Bool
  pub service_ok : Bool
  pub error_code : Option Text
  pub error : Option Text

abbrev dark : Bool → Text → Text → Light
dark reachable code message = record {
  reachable = reachable;
  service_ok = false;
  error_code = some code;
  error = some message;
}

abbrev bright : Light
bright = record { reachable = true; service_ok = true; error_code = none; error = none }

abbrev by_health : HealthAnswer → Light
by_health timed_out =
    dark true (code_points "no_response") (code_points "vLLM /health request timed out")
by_health (http_error message) = dark true (code_points "no_response") (take 200 message)
by_health (responded code) =
    if leb 200 code && ltb code 300
    then bright
    else dark true (code_points "http:" ++ decimal code)
        (code_points "vLLM /health returned HTTP " ++ decimal code)

abbrev pub is_local : Text → Bool
is_local host =
    is_empty_text host || host == code_points "localhost" || host == code_points "127.0.0.1"

-- `get_health`, for a body of /health that sets none of these fields
unfoldable pub get_health : Server → Tcp → HealthAnswer → Light
get_health c tcp answer =
    let behind_tcp : Light = elim tcp [
      | ok ↦ by_health answer
      | refused ↦ dark false (code_points "refused") (code_points "connection refused")
      | timeout ↦ dark false (code_points "timeout") (code_points "connection timeout")
    ] in
    if is_local c.host then bright else behind_tcp
