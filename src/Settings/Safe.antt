-- ===== src/Settings/Safe.antt =====
-- backend/config/server_config.py: what the accepted settings are.
use v_llm_dashboard.Prelude.{
  ◌≡◌, refl, ◌≤◌, sym, ap, ◌∙◌, inl, inr, Bool, true, false, not, ◌||◌, ℕ, List, [], ◌∷◌, ◌++◌, ltb,
  All, anyb, length, ◌==◌, ==_iff, nat_eq, arith, Bool-cases,
}
use mathlib.Core.Path.{subst}
use mathlib.Core.List.{append_assoc}
use v_llm_dashboard.Prelude.Texts.{Text, text_eq, code_points, list_beq}
use v_llm_dashboard.Prelude.Words.{split_on, strip_text, is_empty_text, has_infix}
use v_llm_dashboard.Prelude.Segments.{split_on-append, has_infix_sound, anyb-append}
use v_llm_dashboard.Prelude.Set.{contains}
use v_llm_dashboard.Prelude.Decimal.{read_digits}
use v_llm_dashboard.Prelude.Regex.{Regex.one_of, full_match, many1}
use v_llm_dashboard.Prelude.RegexChars.{full_match-Chars}
use v_llm_dashboard.Settings.{
  Raw, null, other, text, Checked, valid, invalid, has_parent_path_segment, is_path_char,
  check_path, validate_model_save_path, ipv4_re, octets_of, is_reserved, check_ipv4, validate_host,
  is_remote,
}

-- A ".." between two slashes, where a slash stands before the path and one behind it.
abbrev step_up : Text
step_up = b'/' ∷ b'.' ∷ b'.' ∷ b'/' ∷ []

abbrev pub climbs : Text → Bool
climbs v = has_infix step_up (b'/' ∷ v ++ b'/' ∷ [])

-- white space, and what a shell reads as more than a character of a word:
-- ! " # $ & ' ( ) * ; < = > ? [ \ ] ^ ` { | }
-- A "~", which the code accepts, is not among them.
abbrev pub shell_characters : List ℕ
shell_characters =
    9 ∷ 10 ∷ 11 ∷ 12 ∷ 13 ∷ 32 ∷ 33 ∷ 34 ∷ 35 ∷ 36 ∷ 38 ∷ 39 ∷ 40 ∷ 41 ∷ 42 ∷ 59 ∷ 60 ∷ 61 ∷ 62 ∷ 63
    ∷ 91 ∷ 92 ∷ 93 ∷ 94 ∷ 96 ∷ 123 ∷ 124 ∷ 125 ∷ []

-- a path that is short, climbs nowhere and has none of these characters
abbrev pub SafePath : Text → Type 0
SafePath v =
    (length v ≤ 512) × (climbs v ≡ false) × All (λ c. contains c shell_characters ≡ false) v

dots : Text → Bool
dots part = list_beq part (code_points "..")

climbs_parts :
    (v a b : Text) → b'/' ∷ v ++ b'/' ∷ [] ≡ a ++ step_up ++ b → has_parent_path_segment v ≡ true
unfolding has_parent_path_segment split_on dots
climbs_parts v a b e =
    let left : anyb dots (split_on b'/' (b'/' ∷ v ++ b'/' ∷ [])) ≡ anyb dots (split_on b'/' v) =
      ap (anyb dots) (split_on-append b'/' v [])
      ∙ anyb-append dots (split_on b'/' v) ([] ∷ [])
      ∙ (ground arith) in
    let parts : split_on b'/' (a ++ step_up ++ b)
        ≡ split_on b'/' a ++ (b'.' ∷ b'.' ∷ []) ∷ split_on b'/' b =
      ap (split_on b'/') (append_assoc a step_up b)
      ∙ split_on-append b'/' a (b'.' ∷ b'.' ∷ b'/' ∷ b) in
    let both : anyb dots (split_on b'/' a ++ (b'.' ∷ b'.' ∷ []) ∷ split_on b'/' b)
        ≡ anyb dots (split_on b'/' a) || true =
      anyb-append dots (split_on b'/' a) ((b'.' ∷ b'.' ∷ []) ∷ split_on b'/' b) in
    let right : anyb dots (split_on b'/' (a ++ step_up ++ b)) ≡ true =
      ap (anyb dots) parts ∙ both ∙ (ground arith) in
    sym left ∙ ap (λ t. anyb dots (split_on b'/' t)) e ∙ right

climbs_lem : (v : Text) → has_parent_path_segment v ≡ false → climbs v ≡ false
climbs_lem v h = elim (Bool-cases (climbs v)) [
  | inr level ↦ level
  | inl up ↦
      let (a, b, e) = has_infix_sound step_up (b'/' ∷ v ++ b'/' ∷ []) up in
      let found = climbs_parts v a b e in absurd (ground arith)
]

-- what a test refuses one by one does not contain a character that it accepts
contains_refused :
    (p : ℕ → Bool) (c : ℕ) (xs : List ℕ) → anyb p xs ≡ false → p c ≡ true → contains c xs ≡ false
unfolding contains
contains_refused p c [] a h = refl
contains_refused p c (x ∷ xs) a h = elim (Bool-cases (x == c)) [
  | inl same ↦
      let e : x ≡ c = (==_iff x c).0 same in let e' : p x ≡ p c = ap p e in absurd (ground arith)
  | inr apart ↦ let a' : anyb p xs ≡ false = ground arith in rw apart (contains_refused p c xs a' h)
]

shell_refused : anyb is_path_char shell_characters ≡ false
shell_refused = refl

no_shell_characters :
    (v : Text)
    → All (λ c. is_path_char c ≡ true) v
    → All (λ c. contains c shell_characters ≡ false) v
no_shell_characters [] a = tt
no_shell_characters (c ∷ v) a =
    (contains_refused is_path_char c shell_characters shell_refused a.0, no_shell_characters v a.1)

abbrev value_of : Checked Text → Text
value_of (valid v) = v
value_of (invalid e) = []

abbrev is_valid : Checked Text → Bool
is_valid (valid v) = true
is_valid (invalid e) = false

valid_inj : (v w : Text) → valid v ≡ valid w → v ≡ w
valid_inj v w h = ap value_of h

not_valid : {A : Type 0} (e w : Text) → invalid e ≡ valid w → A
not_valid e w h = let f : false ≡ true = ap is_valid h in absurd (ground arith)

SafePath-nil : SafePath []
unfolding has_infix
SafePath-nil = (omega arith, refl, tt)

check_path-SafePath : (field v p : Text) → check_path field v ≡ valid p → SafePath p
unfolding check_path
check_path-SafePath field v p h = elim (Bool-cases (is_empty_text v)) [
  | inl y ↦ subst SafePath (valid_inj [] p (rw y at h)) SafePath-nil
  | inr n ↦ elim (Bool-cases (ltb 512 (length v))) [
    | inl long ↦ not_valid (field ++ code_points " too long (max 512 chars)") p (rw (n, long) at h)
    | inr short ↦ elim (Bool-cases (has_parent_path_segment v)) [
      | inl up ↦
          not_valid (code_points "Path traversal not allowed in " ++ field) p
            (rw (n, short, up) at h)
      | inr within ↦ elim (Bool-cases (full_match (many1 (one_of is_path_char)) v)) [
        | inl fits ↦
            let e : v ≡ p = valid_inj v p (rw (n, short, within, fits) at h) in
            let chars : All (λ c. is_path_char c ≡ true) v =
              full_match-Chars is_path_char (many1 (one_of is_path_char)) v ((λ c k. k), (λ c k. k))
                fits in
            let small : length v ≤ 512 = ground arith in
            subst SafePath e (small, climbs_lem v within, no_shell_characters v chars)
        | inr odd ↦
            not_valid (code_points "Invalid characters in " ++ field) p
              (rw (n, short, within, odd) at h)
      ]
    ]
  ]
]

-- An accepted path for the models has at most 512 characters, no ".." between slashes or at an end,
-- and no white space, quote, backslash, dollar, backquote, operator, bracket, brace or wildcard of the
-- shell.
pub validate_model_save_path-SafePath :
    (raw : Raw) (p : Text) → validate_model_save_path raw ≡ valid p → SafePath p
unfolding validate_model_save_path
validate_model_save_path-SafePath null p h = subst SafePath (valid_inj [] p h) SafePath-nil
validate_model_save_path-SafePath other p h =
    not_valid (code_points "model_save_path must be a string") p h
validate_model_save_path-SafePath (text v) p h =
    check_path-SafePath (code_points "model_save_path") (strip_text v) p h

check_ipv4_valid :
    (field v w : Text)
    → check_ipv4 field v ≡ valid w
    → (v ≡ w) × (is_reserved (octets_of v) ≡ false)
unfolding check_ipv4
check_ipv4_valid field v w h = elim (Bool-cases (full_match ipv4_re v)) [
  | inr odd ↦ not_valid (field ++ code_points " must be an IPv4 address") w (rw odd at h)
  | inl fits ↦ elim (Bool-cases (anyb (λ o. ltb 255 o) (octets_of v))) [
    | inl big ↦
        not_valid (field ++ code_points " must be a valid IPv4 address") w (rw (fits, big) at h)
    | inr small ↦ elim (Bool-cases (is_reserved (octets_of v))) [
      | inl kept ↦
          let h' : is_valid (check_ipv4 field v) ≡ false = rw (fits, small, kept) refl in
          let bad : true ≡ false = sym (ap is_valid h) ∙ h' in absurd (ground arith)
      | inr free ↦ (valid_inj v w (rw (fits, small, free) at h), free)
    ]
  ]
]

loopback_reserved : is_reserved (octets_of (code_points "127.0.0.1")) ≡ true
unfolding is_reserved split_on read_digits
loopback_reserved = refl

abbrev RemoteOrLocal : Text → Type 0
RemoteOrLocal v = is_remote v ≡ not (is_empty_text v || v == code_points "localhost")

check_ipv4-RemoteOrLocal : (field v w : Text) → check_ipv4 field v ≡ valid w → RemoteOrLocal w
unfolding is_remote
check_ipv4-RemoteOrLocal field v w h =
    let (e, free) = check_ipv4_valid field v w h in
    elim (Bool-cases (v == code_points "127.0.0.1")) [
      | inl same ↦
          let e' : v ≡ code_points "127.0.0.1" = (==_iff v (code_points "127.0.0.1")).0 same in
          let bad : true ≡ false =
            sym loopback_reserved ∙ ap (λ t. is_reserved (octets_of t)) (sym e') ∙ free in
          absurd (ground arith)
      | inr apart ↦ subst RemoteOrLocal e (ground arith)
    ]

-- An accepted host is remote, for the code that opens connections, exactly where it is neither
-- empty nor the name localhost: no address of the loopback range is accepted.
pub validate_host-is_remote :
    (raw : Raw) (v : Text)
    → validate_host raw ≡ valid v
    → is_remote v ≡ not (is_empty_text v || v == code_points "localhost")
unfolding validate_host is_remote
validate_host-is_remote null v h = subst RemoteOrLocal (valid_inj [] v h) refl
validate_host-is_remote other v h = not_valid (code_points "host must be a string") v h
validate_host-is_remote (text raw) v h =
    let s : Text = strip_text raw in
    elim (Bool-cases (is_empty_text s)) [
      | inl y ↦ subst RemoteOrLocal (valid_inj [] v (rw y at h)) refl
      | inr n ↦ elim (Bool-cases (s == code_points "localhost")) [
        | inl local ↦
            let e : s ≡ code_points "localhost" = (==_iff s (code_points "localhost")).0 local in
            let e' : s ≡ v = valid_inj s v (rw (n, local) at h) in
            subst RemoteOrLocal (sym e ∙ e') refl
        | inr away ↦ check_ipv4-RemoteOrLocal (code_points "host") s v (rw (n, away) at h)
      ]
    ]
