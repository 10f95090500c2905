-- ===== src/Probe/Bmc.antt =====
-- backend/executor/remote/power_ops.py: the check of the BMC's light, and the one chassis command
-- that the power-off dialog sends. What the ping and ipmitool answer are inputs, and the measured
-- times are left out.
use v_llm_dashboard.Prelude.{
  ℕ, String, Bool, true, false, not, Option, none, some, List, [], ◌∷◌, ◌++◌, take, if◌then◌else◌,
  ◌==◌, string_eq, nat_eq,
}
use v_llm_dashboard.Prelude.Texts.{Text, code_points}
use v_llm_dashboard.Prelude.Decimal.{decimal}
use v_llm_dashboard.Prelude.Set.{contains}
use v_llm_dashboard.Prelude.Words.{lower, has_infix, strip_text, or_text}
use v_llm_dashboard.Probe.{NetState, up, PingTracker, record_ping}
use v_llm_dashboard.Probe.Ssh.{ErrorCode, not_configured, ping_failed, auth, no_response}

-- the settings of the BMC, and whether ipmitool is installed beside the dashboard
pub record BmcConfig : Type 0 where
  pub bmc_host : String
  pub bmc_password : String
  pub has_ipmitool : Bool

-- what became of a run of ipmitool
pub data IpmiRun : Type 0 where
  timed_out : IpmiRun
  not_run : Text → IpmiRun
  finished : ℕ → Text → Text → IpmiRun

pub data Power : Type 0 where
  power_on power_off : Power

pub record BmcStatus : Type 0 where
  pub configured : Bool
  pub connected : Bool
  pub power : Option Power
  pub error : Option Text
  pub error_code : Option ErrorCode
  pub net_state : NetState

abbrev pub no_password : Text
no_password = code_points "BMC password not configured (Server Config: BMC Password)"

abbrev pub no_ipmitool : Text
no_ipmitool = code_points "ipmitool not available on dashboard host"

abbrev refused : Text
refused =
    code_points "Cannot reach BMC or BMC authentication failed (check BMC address and credentials)"

abbrev is_refused : Text → Bool
is_refused err = has_infix (code_points "unable to establish ipmi") (lower err)

-- the first 200 characters of what it printed, or its exit code
abbrev exit_detail : ℕ → Text → Text
exit_detail rc err =
    if is_refused err
    then refused
    else or_text (take 200 err) (code_points "ipmitool exited with code " ++ decimal rc)

abbrev bmc_failure : NetState → Text → ErrorCode → BmcStatus
bmc_failure net error code = record {
  configured = true;
  connected = false;
  power = none;
  error = some error;
  error_code = some code;
  net_state = net;
}

-- the chassis power that `ipmitool chassis power status` prints
unfoldable pub parse_power : Text → Option Power
parse_power out =
    if has_infix (code_points "power is on") (lower out)
    then some power_on
    else if has_infix (code_points "power is off") (lower out)
    then some power_off
    else none

-- the status by the outcome of the run
unfoldable pub ipmi_status : NetState → IpmiRun → BmcStatus
unfolding parse_power
ipmi_status net timed_out =
    bmc_failure net (code_points "BMC status probe timeout (no response from BMC)") no_response
ipmi_status net (not_run e) =
    bmc_failure net (code_points "BMC status probe failed: " ++ e) no_response
ipmi_status net (finished rc out err) =
    let text = strip_text (or_text err out) in
    if rc == 0
    then record {
      configured = true;
      connected = true;
      power = parse_power out;
      error = none;
      error_code = none;
      net_state = net;
    }
    else bmc_failure net (exit_detail rc text) (if is_refused text then auth else no_response)

abbrev over_network : NetState → IpmiRun → BmcStatus
over_network up run = ipmi_status up run
over_network net run =
    bmc_failure net (code_points "BMC unreachable (ping no response)") ping_failed

-- `check_bmc_status`
unfoldable pub check_bmc_status :
    BmcConfig → Option ℕ → IpmiRun → PingTracker → BmcStatus × PingTracker
unfolding record_ping ipmi_status
check_bmc_status c rtt run t =
    let (t', (net, good)) = record_ping c.bmc_host rtt t in
    if c.bmc_host == ""
    then (
      record {
        configured = false;
        connected = false;
        power = none;
        error = none;
        error_code = some not_configured;
        net_state = up;
      },
      t,
    )
    else if c.bmc_password == ""
    then (bmc_failure up no_password not_configured, t)
    else if not c.has_ipmitool
    then (bmc_failure up no_ipmitool no_response, t)
    else (over_network net run, t')

-- the result of an action: whether it succeeded, or its error
pub data Done : Type 0 where
  done : Option Text → Done
  failed : Text → Done

-- `_ipmi_power_on`
unfoldable pub ipmi_power_on : Text → IpmiRun → Option Text
ipmi_power_on action timed_out =
    some (code_points "BMC power " ++ action ++ code_points " timeout (no response from BMC)")
ipmi_power_on action (not_run e) =
    some (code_points "BMC power " ++ action ++ code_points " failed: " ++ e)
ipmi_power_on action (finished rc out err) =
    if rc == 0 then none else some (exit_detail rc (strip_text (or_text err out)))

-- the guards that `power_on_server` and `power_off_server` share
unfoldable pub power_guard : BmcConfig → Option Text
power_guard c =
    if c.bmc_host == ""
    then some (code_points "BMC host not configured (Server Config: BMC Address)")
    else if c.bmc_password == ""
    then some no_password
    else if not c.has_ipmitool
    then some no_ipmitool
    else none

-- CHASSIS_ACTIONS
abbrev pub chassis_actions : List String
chassis_actions = "off" ∷ "soft" ∷ "reset" ∷ "cycle" ∷ []

abbrev by_error : Option Text → Done
by_error none = done none
by_error (some e) = failed e

abbrev guarded : Option Text → Done → Done
guarded none d = d
guarded (some e) d = failed e

-- `power_off_server`
unfoldable pub power_off_server : BmcConfig → String → IpmiRun → Done
unfolding power_guard ipmi_power_on
power_off_server c action run =
    if contains action chassis_actions
    then guarded (power_guard c) (by_error (ipmi_power_on (code_points action) run))
    else failed (
        code_points "Invalid power action: "
        ++ code_points action
        ++ code_points " (expected off/soft/reset/cycle)")

-- a command over SSH: whether it succeeded, whether its channel never opened, and its stderr
pub record ShellResult : Type 0 where
  pub success : Bool
  pub channel_open_failed : Bool
  pub stderr : Text

abbrev delivered : ShellResult → Done
delivered r = if r.channel_open_failed then failed r.stderr else done none

-- `ssh_poweroff_server`: the answers to `sudo true` and `poweroff`, without and with the password
unfoldable pub ssh_poweroff_server :
    Bool → Bool → ShellResult → ShellResult → ShellResult → ShellResult → Done
ssh_poweroff_server is_remote has_password probe off probe_pw off_pw =
    if not is_remote
    then failed (code_points "Server poweroff requires remote SSH mode")
    else if probe.success
    then delivered off
    else if not has_password
    then failed (
        or_text probe.stderr (
          code_points
            "sudo requires a password: set an SSH password or configure NOPASSWD sudoers for passwordless poweroff"))
    else if not probe_pw.success
    then failed (or_text probe_pw.stderr (code_points "sudo authentication failed"))
    else delivered off_pw
