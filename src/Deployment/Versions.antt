-- ===== src/Deployment/Versions.antt =====
-- backend/service/deployment_common.py, with check_cuda_compat and driver_max_cuda of
-- deployment_pipelines_env.py and _check_runtime_toolkit_compat of deployment_pipelines_vllm.py: which
-- versions and names a deployment accepts, and which of them fit together.
pub mod Newest
use v_llm_dashboard.Prelude.{
  ℕ, String, Bool, true, false, not, ◌&&◌, ◌||◌, Option, none, some, List, [], ◌∷◌, anyb, map, ltb,
  if◌then◌else◌, ◌==◌, string_eq, nat_eq,
}
use v_llm_dashboard.Prelude.Texts.{Text, text_eq, code_points, starts_with}
use v_llm_dashboard.Prelude.Decimal.{read_digits}
use v_llm_dashboard.Prelude.Words.{strip_text, is_empty_text, split_on, lower, has_infix}
use v_llm_dashboard.Prelude.Regex.{
  Regex, one_of, seq, group, many, Scan, match_prefix, full_match, lit, word, many1, optional,
  up_to, times, group_text, sequence, is_digit, is_word,
}
use v_llm_dashboard.Settings.{has_parent_path_segment}

abbrev digit : Regex
digit = one_of is_digit

abbrev is_tag_char : ℕ → Bool
is_tag_char c = is_digit c || (not (ltb c b'a') && not (ltb b'z' c))

-- DRIVER_PKG_RE, CUDA_VER_RE, VLLM_VER_RE and PY_VER_RE
abbrev pub driver_pkg_re : Regex
driver_pkg_re = sequence (
    word (code_points "nvidia-driver-")
    ∷ times 3 digit
    ∷ up_to 1 digit
    ∷ many (seq (lit b'-') (many1 (one_of is_tag_char)))
    ∷ [])

abbrev pub cuda_ver_re : Regex
cuda_ver_re = sequence (digit ∷ up_to 1 digit ∷ lit b'.' ∷ digit ∷ up_to 1 digit ∷ [])

abbrev pub vllm_ver_re : Regex
vllm_ver_re = sequence (many1 digit ∷ lit b'.' ∷ many1 digit ∷ lit b'.' ∷ many1 digit ∷ [])

abbrev pub py_ver_re : Regex
py_ver_re = sequence (many1 digit ∷ lit b'.' ∷ digit ∷ up_to 1 digit ∷ [])

abbrev is_venv_char : ℕ → Bool
is_venv_char c = is_word c || c == b'.' || c == b'/' || c == b'-' || c == b'~'

-- VENV_NAME_RE
abbrev venv_name_re : Regex
venv_name_re = seq (one_of is_venv_char) (up_to 127 (one_of is_venv_char))

-- `_validate_venv_name`: whether it raises nothing
unfoldable pub is_valid_venv_name : Text → Bool
is_valid_venv_name name = full_match venv_name_re name && not (has_parent_path_segment name)

abbrev major_re : Regex
major_re = seq (group 0 (seq (times 3 digit) (up_to 1 digit))) (lit b'.')

abbrev major_of : Option Scan → Option ℕ
major_of none = none
major_of (some m) = some (read_digits 0 (group_text 0 m)).0

-- `_major_driver_version`
unfoldable pub major_driver_version : Text → Option ℕ
major_driver_version version = major_of (match_prefix major_re (strip_text version))

abbrev package_re : Regex
package_re =
    seq (word (code_points "nvidia-driver-")) (group 0 (seq (times 3 digit) (up_to 1 digit)))

-- `_driver_pkg_major`
unfoldable pub driver_pkg_major : Text → Option ℕ
driver_pkg_major name = major_of (match_prefix package_re name)

-- CUDA_MIN_DRIVER, in its order
abbrev pub cuda_min_driver : List (Text × ℕ)
cuda_min_driver =
    (code_points "12.5", 555)
    ∷ (code_points "12.6", 560)
    ∷ (code_points "12.8", 570)
    ∷ (code_points "12.9", 575)
    ∷ (code_points "13.0", 580)
    ∷ (code_points "13.1", 590)
    ∷ (code_points "13.2", 595)
    ∷ (code_points "13.3", 610)
    ∷ (code_points "13.4", 615)
    ∷ []

unfoldable pub required_by : Text → List (Text × ℕ) → Option ℕ
required_by version [] = none
required_by version ((v, need) ∷ table) =
    if v == version then some need else required_by version table

abbrev is_too_old : Option ℕ → Option ℕ → Bool
is_too_old (some need) (some driver) = ltb driver need
is_too_old _ _ = false

-- `check_cuda_compat`: whether it names no problem
unfoldable pub check_cuda_compat : Option ℕ → Text → Bool
check_cuda_compat driver version = not (is_too_old (required_by version cuda_min_driver) driver)

-- tuples of numbers in their order
abbrev pub key_ltb : List ℕ → List ℕ → Bool
key_ltb xs [] = false
key_ltb [] (y ∷ ys) = true
key_ltb (x ∷ xs) (y ∷ ys) = if x == y then key_ltb xs ys else ltb x y

abbrev is_number : Text → Bool
is_number part = not (is_empty_text part) && not (anyb (λ c. not (is_digit c)) part)

-- `_cuda_ver_key`, of parts that are digits or not numbers
unfoldable pub cuda_ver_key : Text → List ℕ
cuda_ver_key version =
    let parts = split_on b'.' version in
    if anyb (λ p. not (is_number p)) parts then 0 ∷ [] else map (λ p. (read_digits 0 p).0) parts

-- the loop of `driver_max_cuda`
unfoldable pub newest_of : ℕ → List (Text × ℕ) → Text → Text
newest_of driver [] best = best
newest_of driver ((v, need) ∷ table) best =
    newest_of driver table
      (if not (ltb driver need) && key_ltb (cuda_ver_key best) (cuda_ver_key v) then v else best)

-- `driver_max_cuda`
unfoldable pub driver_max_cuda : Option ℕ → Text
unfolding newest_of
driver_max_cuda none = []
driver_max_cuda (some driver) = if driver == 0 then [] else newest_of driver cuda_min_driver []

-- the major version of CUDA that the wheels of torch are for
pub data Family : Type 0 where
  cuda12 cuda13 : Family

abbrev pub same_family : Family → Family → Bool
same_family cuda12 cuda12 = true
same_family cuda13 cuda13 = true
same_family _ _ = false

abbrev pub toolkit_family : Text → Option Family
toolkit_family version =
    if starts_with version (code_points "13")
    then some cuda13
    else if starts_with version (code_points "12")
    then some cuda12
    else none

abbrev pub torch_family : Bool → Text → Family
torch_family is_system selected =
    if is_system && starts_with selected (code_points "13") then cuda13 else cuda12

abbrev is_same_or_unknown : Option Family → Family → Bool
is_same_or_unknown none f = true
is_same_or_unknown (some e) f = same_family e f

-- `_check_runtime_toolkit_compat`, for the system runtime or the built-in one: whether it raises nothing
unfoldable pub check_runtime_toolkit_compat : Bool → Text → Text → Bool
check_runtime_toolkit_compat is_system selected effective =
    if is_empty_text (strip_text selected)
    then true
    else is_same_or_unknown (toolkit_family (strip_text effective))
        (torch_family is_system selected)

abbrev mentions : List String → Text → Bool
mentions words m = anyb (λ w. has_infix (code_points w) m) words

-- `_suggest_error`
unfoldable pub suggest_error : Text → String
suggest_error message =
    let m = lower message in
    if mentions ("timed out" ∷ "timeout" ∷ []) m
    then "Network or package repository is slow. Try switching the mirror source (Mirror Sources panel) and retry."
    else if mentions ("unable to locate package" ∷ "no candidate" ∷ []) m
    then "Package not found in the configured repositories. Check the selected version."
    else if mentions ("could not get lock" ∷ "dpkg lock" ∷ []) m
    then "Another apt/dpkg process is running. Wait for it to finish, then retry."
    else if mentions ("no space left" ∷ []) m
    then "Insufficient disk space. Free up space and retry."
    else if mentions ("password" ∷ "authentication" ∷ "sudo" ∷ []) m
    then "sudo authentication failed. The SSH password must match the sudo password."
    else if mentions ("could not resolve" ∷ "unreachable" ∷ "curl" ∷ []) m
    then "Network unreachable from the target server. Check its egress / mirror configuration."
    else ""
