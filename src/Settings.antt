-- ===== src/Settings.antt =====
-- backend/config/server_config.py: the validators of the server's settings. A validator gives the
-- stored value or the message of its error; a text is a list of ASCII characters.
pub mod Safe
use v_llm_dashboard.Prelude.{
  ℕ, Bool, true, false, not, ◌&&◌, ◌||◌, Option, none, some, List, [], ◌∷◌, ◌++◌, map, ltb, leb,
  anyb, length, if◌then◌else◌, ◌==◌, nat_eq,
}
use v_llm_dashboard.Prelude.Texts.{Text, text_eq, code_points, list_beq}
use v_llm_dashboard.Prelude.Words.{split_on, strip_text, is_empty_text}
use v_llm_dashboard.Prelude.Decimal.{read_digits}
use v_llm_dashboard.Prelude.Regex.{
  Regex, Regex.one_of, Regex.seq, full_match, is_digit, is_word, is_letter, many1, up_to, times,
  lit,
}

-- a value of the request before its type is known
pub data Raw : Type 0 where
  null other : Raw
  text : Text → Raw

pub data Checked {ℓ} (A : Type ℓ) : Type ℓ where
  valid : A → Checked A
  invalid : Text → Checked A

-- `has_parent_path_segment`
unfoldable pub has_parent_path_segment : Text → Bool
has_parent_path_segment path = anyb (λ part. list_beq part (code_points "..")) (split_on b'/' path)

-- the classes [\w/\-.~] and [\w/\-.~:@]
abbrev pub is_venv_char : ℕ → Bool
is_venv_char c = is_word c || c == b'/' || c == b'-' || c == b'.' || c == b'~'

abbrev pub is_path_char : ℕ → Bool
is_path_char c = is_venv_char c || c == b':' || c == b'@'

-- `validate_venv_name`
unfoldable pub validate_venv_name : Text → Checked Text
validate_venv_name v =
    if is_empty_text v
    then valid []
    else if has_parent_path_segment v
    then invalid (code_points "Path traversal not allowed in venv_name")
    else if full_match (many1 (one_of is_venv_char)) v
    then valid v
    else invalid
        (code_points "Invalid characters in venv_name (only alphanumeric / - _ . ~ allowed)")

-- the checks of a path, with the name of its field; `v` is stripped
unfoldable pub check_path : Text → Text → Checked Text
check_path field v =
    if is_empty_text v
    then valid []
    else if ltb 512 (length v)
    then invalid (field ++ code_points " too long (max 512 chars)")
    else if has_parent_path_segment v
    then invalid (code_points "Path traversal not allowed in " ++ field)
    else if full_match (many1 (one_of is_path_char)) v
    then valid v
    else invalid (code_points "Invalid characters in " ++ field)

-- `validate_model_save_path`
unfoldable pub validate_model_save_path : Raw → Checked Text
unfolding check_path
validate_model_save_path null = valid []
validate_model_save_path other = invalid (code_points "model_save_path must be a string")
validate_model_save_path (text v) = check_path (code_points "model_save_path") (strip_text v)

abbrev some_checked : Checked Text → Checked (Option Text)
some_checked (valid v) = valid (some v)
some_checked (invalid e) = invalid e

-- `validate_ssh_key_path`
unfoldable pub validate_ssh_key_path : Raw → Checked (Option Text)
unfolding check_path
validate_ssh_key_path null = valid none
validate_ssh_key_path other = invalid (code_points "ssh_key_path must be a string")
validate_ssh_key_path (text v) =
    some_checked (check_path (code_points "ssh_key_path") (strip_text v))

-- `validate_ssh_password`, `validate_bmc_password` and `validate_api_key`: a bound on the length
unfoldable pub validate_secret : Text → Text → ℕ → Text → Raw → Checked (Option Text)
validate_secret field label bound amount null = valid none
validate_secret field label bound amount other = invalid (field ++ code_points " must be a string")
validate_secret field label bound amount (text v) =
    if ltb bound (length v)
    then invalid (label ++ code_points " too long (max " ++ amount ++ code_points " chars)")
    else valid (some v)

unfoldable pub validate_ssh_password : Raw → Checked (Option Text)
unfolding validate_secret
validate_ssh_password =
    validate_secret (code_points "ssh_password") (code_points "SSH password") 1024
      (code_points "1024")

unfoldable pub validate_bmc_password : Raw → Checked (Option Text)
unfolding validate_secret
validate_bmc_password =
    validate_secret (code_points "bmc_password") (code_points "BMC password") 1024
      (code_points "1024")

unfoldable pub validate_api_key : Raw → Checked (Option Text)
unfolding validate_secret
validate_api_key =
    validate_secret (code_points "api_key") (code_points "api_key") 256 (code_points "256")

-- `validate_hf_token`
unfoldable pub validate_hf_token : Raw → Checked (Option Text)
validate_hf_token null = valid none
validate_hf_token other = invalid (code_points "hf_token must be a string")
validate_hf_token (text v) =
    let t = strip_text v in
    if is_empty_text t
    then valid none
    else if ltb 256 (length t)
    then invalid (code_points "hf_token too long (max 256 chars)")
    else valid (some t)

-- \d{1,3}(\.\d{1,3}){3}
abbrev octet_re : Regex
octet_re = seq (one_of is_digit) (up_to 2 (one_of is_digit))

abbrev pub ipv4_re : Regex
ipv4_re = seq octet_re (times 3 (seq (lit b'.') octet_re))

-- [int(o) for o in v.split('.')], of texts of digits
abbrev pub octets_of : Text → List ℕ
octets_of v = map (λ o. (read_digits 0 o).0) (split_on b'.' v)

-- `_check_reserved_ipv4`: octets[0] and octets[1] exist where the pattern matched
unfoldable pub is_reserved : List ℕ → Bool
is_reserved (a ∷ b ∷ octets) = a == 0 || a == 127 || (a == 169 && b == 254) || leb 224 a
is_reserved _ = false

-- the checks of an address, with the name of its field
unfoldable pub check_ipv4 : Text → Text → Checked Text
unfolding is_reserved
check_ipv4 field v =
    if not (full_match ipv4_re v)
    then invalid (field ++ code_points " must be an IPv4 address")
    else if anyb (λ o. ltb 255 o) (octets_of v)
    then invalid (field ++ code_points " must be a valid IPv4 address")
    else if is_reserved (octets_of v)
    then invalid (
        field
        ++ code_points
            " is in a reserved range (0.0.0.0/8, 127.0.0.0/8, 169.254.0.0/16, or 224.0.0.0/4+); a routable IPv4 address is required")
    else valid v

-- `validate_host`
unfoldable pub validate_host : Raw → Checked Text
unfolding check_ipv4
validate_host null = valid []
validate_host other = invalid (code_points "host must be a string")
validate_host (text raw) =
    let v = strip_text raw in
    if is_empty_text v
    then valid []
    else if v == code_points "localhost"
    then valid v
    else check_ipv4 (code_points "host") v

-- `validate_bmc_host`
unfoldable pub validate_bmc_host : Raw → Checked Text
unfolding check_ipv4
validate_bmc_host null = valid []
validate_bmc_host other = invalid (code_points "bmc_host must be a string")
validate_bmc_host (text raw) =
    let v = strip_text raw in
    if is_empty_text v then valid [] else check_ipv4 (code_points "bmc_host") v

-- the keys and values of extra_headers
abbrev is_header_char : ℕ → Bool
is_header_char c = is_letter c || is_digit c || c == b'-'

abbrev is_bad_header : Raw × Raw → Bool
is_bad_header (text k, text v) =
    not (full_match (many1 (one_of is_header_char)) k && leb (length k) 256) || ltb 256 (length v)
is_bad_header _ = true

abbrev is_bad_key : Raw × Raw → Bool
is_bad_key (text k, v) = not (full_match (many1 (one_of is_header_char)) k && leb (length k) 256)
is_bad_key _ = true

first_bad : List (Raw × Raw) → Option Text
first_bad [] = none
first_bad (h ∷ headers) =
    let rest = first_bad headers in
    if is_bad_key h
    then some (code_points "extra_headers keys must be 1-256 chars of [A-Za-z0-9-]")
    else if is_bad_header h
    then some (code_points "extra_headers values must be strings (max 256 chars)")
    else rest

abbrev checked_headers : Option Text → List (Raw × Raw) → Checked (List (Raw × Raw))
checked_headers none headers = valid headers
checked_headers (some e) headers = invalid e

-- `validate_extra_headers`, of a dictionary
unfoldable pub validate_extra_headers : List (Raw × Raw) → Checked (List (Raw × Raw))
unfolding first_bad
validate_extra_headers headers =
    if ltb 20 (length headers)
    then invalid (code_points "extra_headers has too many entries (max 20)")
    else checked_headers (first_bad headers) headers

-- `is_remote`
unfoldable pub is_remote : Text → Bool
is_remote host =
    not (is_empty_text host)
    && not (host == code_points "localhost" || host == code_points "127.0.0.1")
