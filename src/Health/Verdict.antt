-- ===== src/Health/Verdict.antt =====
-- check_connection of backend/config/connection_probes.py: the status that is shown.
use v_llm_dashboard.Prelude.{
  ◌≡◌, refl, sym, ap, ◌∙◌, Bool, true, false, not, ◌&&◌, ◌||◌, Option, none, some, if◌then◌else◌,
  ◌==◌, nat_eq, inl, inr, Bool-cases,
}
use v_llm_dashboard.Prelude.Texts.{Text}
use v_llm_dashboard.Prelude.Words.{is_empty_text}
use v_llm_dashboard.Health.{
  Server, ServerStatus, ConnectionDetail, unknown, connected, disconnected, ModelsAnswer, answered,
  no_connection, too_slow, raised, ShellAnswer, ran, broke, check_http, check_ssh, overall,
  check_connection,
}

-- the API answers
abbrev pub api_up : ModelsAnswer → Bool
api_up (answered code models) = code == 200
api_up _ = false

-- the command runs
abbrev pub shell_up : ShellAnswer → Bool
shell_up (ran success stdout stderr) = success
shell_up (broke message) = false

abbrev pub expected : Server → ModelsAnswer → ShellAnswer → ServerStatus
expected c models shell =
    if is_empty_text c.host
    then unknown
    else if api_up models || (not (is_empty_text c.ssh_username) && shell_up shell)
    then connected
    else disconnected

abbrev state : Bool → ServerStatus
state true = connected
state false = disconnected

http_status : (models : ModelsAnswer) → (check_http models).status ≡ state (api_up models)
unfolding check_http
http_status (answered code models) = elim (Bool-cases (code == 200)) [
  | inl y ↦ rw y refl
  | inr n ↦ rw n refl
]
http_status no_connection = refl
http_status too_slow = refl
http_status (raised message) = refl

ssh_status :
    (shell : ShellAnswer) (cached : Option Text)
    → (check_ssh shell cached).0.status ≡ state (shell_up shell)
unfolding check_ssh
ssh_status (ran true stdout stderr) cached = refl
ssh_status (ran false stdout stderr) cached = refl
ssh_status (broke message) cached = refl

overall_alone :
    (d : ConnectionDetail) (b : Bool) → d.status ≡ state b → overall (some d) none ≡ state b
unfolding overall
overall_alone d true h = rw h refl
overall_alone d false h = rw h refl

overall_both :
    (d e : ConnectionDetail) (a b : Bool)
    → d.status ≡ state a
    → e.status ≡ state b
    → overall (some d) (some e) ≡ state (a || b)
unfolding overall
overall_both d e true true h k = rw h refl
overall_both d e true false h k = rw h refl
overall_both d e false true h k = rw (h, k) refl
overall_both d e false false h k = rw (h, k) refl

overall-none : overall none none ≡ unknown
unfolding overall
overall-none = refl

or_false : (b : Bool) → (b || false) ≡ b
or_false true = refl
or_false false = refl

if_state : (b : Bool) → state b ≡ (if b then connected else disconnected)
if_state true = refl
if_state false = refl

-- The status shown is connected where the API answers, or where a user is set and the command runs,
-- it is unknown exactly where no host is set, and disconnected otherwise. It is never error.
pub check_connection-expected :
    (c : Server) (refresh : Bool) (models : ModelsAnswer) (shell : ShellAnswer)
    (cached : Option Text)
    → (check_connection c refresh models shell cached).0.total ≡ expected c models shell
unfolding check_connection
check_connection-expected c refresh models shell cached =
    let before : Option Text = if refresh then none else cached in
    let http = check_http models in
    elim (Bool-cases (is_empty_text c.host)) [
      | inl no_host ↦ rw no_host overall-none
      | inr host ↦ elim (Bool-cases (is_empty_text c.ssh_username)) [
        | inl no_user ↦
            rw (host, no_user)
              (overall_alone http (api_up models) (http_status models)
                ∙ if_state (api_up models)
                ∙ ap (λ b. if b then connected else disconnected) (sym (or_false (api_up models))))
        | inr user ↦
            rw (host, user)
              (overall_both http (check_ssh shell before).0 (api_up models) (shell_up shell)
                  (http_status models) (ssh_status shell before)
                ∙ if_state (api_up models || shell_up shell))
      ]
    ]
