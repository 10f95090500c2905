-- ===== src/Probe/Power.antt =====
-- backend/executor/remote/power_ops.py: the loop that powers the server on and verifies it, by the
-- BMC and by the network. The clock is in milliseconds and is read once a round; what each round
-- meets is an input.
pub mod Verified
use v_llm_dashboard.Prelude.{
  ℕ, ◌+◌, ◌-◌, String, Bool, true, false, not, ◌&&◌, ◌||◌, Option, none, some, List, [], ◌∷◌, ◌++◌,
  ltb, leb, if◌then◌else◌,
}
use v_llm_dashboard.Prelude.Texts.{Text, code_points, starts_with}
use v_llm_dashboard.Probe.Ssh.{ProbeResult}
use v_llm_dashboard.Probe.Bmc.{
  BmcConfig, IpmiRun, Power, power_on, power_off, Done, done, failed, ipmi_power_on, power_guard,
}

-- POWERON_TOTAL_TIMEOUT, BMC_POWERON_RETRY_INTERVAL, the pause between status reads, and
-- POWERON_SSH_PROBE_INTERVAL
abbrev pub poweron_total_ms : ℕ
poweron_total_ms = 120000

abbrev pub retry_interval_ms : ℕ
retry_interval_ms = 8000

abbrev pub status_interval_ms : ℕ
status_interval_ms = 3000

abbrev pub ssh_probe_interval_ms : ℕ
ssh_probe_interval_ms = 5000

-- a full probe of the server, or the exception that ended it
pub data Seen : Type 0 where
  answered : ProbeResult → Seen
  broke : Text → Seen

-- what a round meets where it acts: `readings` are the statuses read while the power is confirmed
pub record PowerRound : Type 0 where
  pub now : ℕ
  pub run : IpmiRun
  pub power : Option Power
  pub readings : List (Option Power)
  pub seen : Seen

pub record PowerLoop : Type 0 where
  pub last_issue : Option ℕ
  pub last_bmc : Option ℕ
  pub last_ssh : Option ℕ
  pub last_error : Option Text
  pub last_ssh_error : Option Text

abbrev pub new_loop : PowerLoop
new_loop = record {
  last_issue = none;
  last_bmc = none;
  last_ssh = none;
  last_error = none;
  last_ssh_error = none;
}

abbrev pub is_on : Option Power → Bool
is_on (some power_on) = true
is_on (some power_off) = false
is_on none = false

-- `_confirm_power_on`
unfoldable pub confirm_power_on : List (Option Power) → Bool
confirm_power_on [] = true
confirm_power_on (p ∷ readings) = is_on p && confirm_power_on readings

abbrev pub due : ℕ → ℕ → Option ℕ → Bool
due interval now none = true
due interval now (some t) = leb interval (now - t)

abbrev or_keep : Option Text → Option Text → Option Text
or_keep none old = old
or_keep (some e) old = some e

abbrev pub issue : PowerRound → PowerLoop → PowerLoop
issue r s =
    if due retry_interval_ms r.now s.last_issue
    then record s {
      last_issue = some r.now;
      last_error = or_keep (ipmi_power_on (code_points "on") r.run) s.last_error;
    }
    else s

abbrev seen_result : Seen → ProbeResult
seen_result (answered r) = r
seen_result (broke e) = record {
  connected = false;
  error = some e;
  error_code = none;
  host_down = none;
  net_state = none;
}

abbrev pub error_text : Option Text → Text
error_text none = []
error_text (some e) = e

abbrev is_true : Option Bool → Bool
is_true (some true) = true
is_true (some false) = false
is_true none = false

-- what the probe proves, if anything
unfoldable pub verified : ProbeResult → Option Text
verified p =
    if p.connected
    then some (code_points "verified via SSH")
    else if not (is_true p.host_down)
        && not (starts_with (error_text p.error) (code_points "Remote host not configured"))
    then some (code_points "verified via network")
    else none

pub data Step : Type 0 where
  finish : Done → Step
  again : PowerLoop → Step

abbrev or_unreachable : Option Text → Text
or_unreachable none = code_points "server not reachable"
or_unreachable (some []) = code_points "server not reachable"
or_unreachable (some (c ∷ e)) = c ∷ e

abbrev pub by_probe : Option Text → ProbeResult → PowerLoop → Step
by_probe (some note) p s = finish (done (some note))
by_probe none p s = again (record s { last_ssh_error = some (or_unreachable p.error) })

abbrev pub look : PowerRound → PowerLoop → Step
look r s =
    let p = seen_result r.seen in
    if due ssh_probe_interval_ms r.now s.last_ssh
    then by_probe (verified p) p (record s { last_ssh = some r.now })
    else again s

abbrev pub read_status : PowerRound → PowerLoop → Step
read_status r s =
    if due status_interval_ms r.now s.last_bmc
    then (if is_on r.power && confirm_power_on r.readings
        then finish (done none)
        else look r (record s { last_bmc = some r.now }))
    else look r s

-- one round of the loop
unfoldable pub power_on_round : PowerRound → PowerLoop → Step
unfolding ipmi_power_on confirm_power_on verified
power_on_round r s = read_status r (issue r s)

abbrev bmc_part : Option Text → Text
bmc_part none = []
bmc_part (some e) = code_points "BMC: " ++ e ++ code_points "; "

abbrev ssh_part : Option Text → Text
ssh_part none = code_points "unreachable"
ssh_part (some e) = e

abbrev pub not_confirmed : PowerLoop → Done
not_confirmed s = failed (
    bmc_part s.last_error
    ++ code_points "server did not come online (SSH: "
    ++ ssh_part s.last_ssh_error
    ++ code_points ")")

-- the loop, over the rounds up to its deadline; none where more rounds are to come
unfoldable pub power_on_loop : ℕ → List PowerRound → PowerLoop → Option Done
unfolding power_on_round
power_on_loop deadline [] s = none
power_on_loop deadline (r ∷ rounds) s =
    if ltb r.now deadline
    then (elim (power_on_round r s) [
      | finish d ↦ some d
      | again s' ↦ power_on_loop deadline rounds s'
    ])
    else some (not_confirmed s)

abbrev after_guard : Option Text → Option Done → Option Done
after_guard none d = d
after_guard (some e) d = some (failed e)

-- `power_on_server`, from a start of the clock
unfoldable pub power_on_server : BmcConfig → ℕ → List PowerRound → Option Done
unfolding power_guard power_on_loop
power_on_server c start rounds =
    after_guard (power_guard c) (power_on_loop (start + poweron_total_ms) rounds new_loop)
