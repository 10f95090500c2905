-- ===== src/Examples/Probe.antt =====
-- The properties of the probes of the server and of its settings at concrete inputs.
use v_llm_dashboard.Prelude.{
  ℕ, zero, suc, ◌+◌, ◌≡◌, ◌≤◌, refl, ◌∷◌, [], List, string_eq, nat_eq, arith, false, true, none,
  some, is_some, anyb, length,
}
use v_llm_dashboard.Prelude.Dict.{get, set}
use v_llm_dashboard.Prelude.Texts.{code_points}
use v_llm_dashboard.Prelude.Regex.{full_match}
use v_llm_dashboard.Prelude.Words.{split_on, drop_spaces, rstrip_spaces}
use v_llm_dashboard.Probe.{checksum, echo_packet, up, down, record_ping, next_streak}
use v_llm_dashboard.Probe.Lights.{checksum-echo_packet}
use v_llm_dashboard.Probe.Ssh.{
  SshConfig, ProbeResult, printed, SshProbe, ssh_probe_fingerprint, check_ssh_connectivity,
  run_ssh_probe, restart_stale, overlay,
}
use v_llm_dashboard.Probe.Ssh.Honest.{
  net_of, Backed, check_ssh_connectivity-down, check_ssh_connectivity-Backed,
}
use v_llm_dashboard.Probe.Bmc.{BmcConfig, timed_out, done, power_on, power_guard, ipmi_power_on}
use v_llm_dashboard.Probe.Power.{
  PowerRound, broke, answered, power_on_server, power_on_loop, power_on_round, verified,
  confirm_power_on, poweron_total_ms,
}
use v_llm_dashboard.Probe.Power.Verified.{
  Paced, proof, power_on_server-ends, power_on_server-proof, power_on_server-broke,
}
use v_llm_dashboard.Settings.{
  text, valid, validate_model_save_path, has_parent_path_segment, check_path,
}
use v_llm_dashboard.Settings.Safe.{SafePath, validate_model_save_path-SafePath}

checksum-echo_packet_example : checksum (echo_packet 7 (1 ∷ 2 ∷ 3 ∷ 4 ∷ 0 ∷ 0 ∷ 0 ∷ 0 ∷ [])) ≡ 0
checksum-echo_packet_example = checksum-echo_packet 7 1 2 3 4 0 0 0 0 (omega arith) (
  omega arith,
  (
    omega arith,
    (omega arith, (omega arith, (omega arith, (omega arith, (omega arith, (omega arith, tt)))))),
  ),
)

abbrev gpu_config : SshConfig
gpu_config = record {
  host = "10.0.0.9";
  ssh_port = 22;
  ssh_username = "u";
  ssh_password = none;
  ssh_key_path = none;
}

abbrev green : ProbeResult
green = record {
  connected = true;
  error = none;
  error_code = none;
  host_down = none;
  net_state = some up;
}

-- a cache that still says connected, with one failed ping on record
abbrev probe_state : SshProbe
probe_state = record {
  cache = some green;
  fp = ssh_probe_fingerprint gpu_config;
  ts = 100000;
  thread_alive = true;
  starts = 1;
  restart_ts = 0;
  warn_ts = 0;
  tracker = record { streak = ("10.0.0.9", 1) ∷ []; rtt = [] };
}

second_failure : net_of gpu_config none probe_state ≡ down
unfolding record_ping next_streak get set
second_failure = refl

check_ssh_connectivity-down_example :
    ((check_ssh_connectivity gpu_config 101000 none none probe_state).0.connected ≡ false)
    × ((check_ssh_connectivity gpu_config 101000 none none probe_state).0.host_down ≡ some true)
    × ((check_ssh_connectivity gpu_config 101000 none none probe_state).0.net_state ≡ some down)
check_ssh_connectivity-down_example =
    check_ssh_connectivity-down gpu_config 101000 none none probe_state refl second_failure

still_green :
    (check_ssh_connectivity gpu_config 101000
      (some 3)
      (some (some 3, printed []))
      probe_state).0.connected
    ≡ true
unfolding check_ssh_connectivity record_ping next_streak get set restart_stale run_ssh_probe overlay
still_green = refl

check_ssh_connectivity-Backed_example :
    Backed gpu_config 101000 (some 3) (printed []) probe_state.cache probe_state
check_ssh_connectivity-Backed_example =
    check_ssh_connectivity-Backed gpu_config 101000 (some 3) (some 3) (printed []) probe_state refl
      still_green

abbrev bmc_config : BmcConfig
bmc_config = record { bmc_host = "10.0.0.8"; bmc_password = "x"; has_ipmitool = true }

-- a round in which nothing shows the server yet
abbrev silent : ℕ → PowerRound
silent now = record {
  now = now;
  run = timed_out;
  power = none;
  readings = [];
  seen = answered (record {
    connected = false;
    error = none;
    error_code = none;
    host_down = some true;
    net_state = none;
  });
}

silent_from : ℕ → ℕ → List PowerRound
silent_from zero now = []
silent_from (suc n) now = silent now ∷ silent_from n (now + 1000)

silent-Paced : (n now : ℕ) → Paced poweron_total_ms now (silent_from n now)
unfolding silent_from
silent-Paced zero now = tt
silent-Paced (suc n) now = (omega arith, silent-Paced n (now + 1000))

length-silent_from : (n now : ℕ) → length (silent_from n now) ≡ n
unfolding silent_from
length-silent_from zero now = refl
length-silent_from (suc n) now = omega (arith, length-silent_from n (now + 1000))

enough_rounds : 121 ≤ length (silent_from 121 0)
enough_rounds = omega (arith, length-silent_from 121 0)

power_on_server-ends_example : is_some (power_on_server bmc_config 0 (silent_from 121 0)) ≡ true
power_on_server-ends_example =
    power_on_server-ends bmc_config 0 (silent_from 121 0) (silent-Paced 121 0) enough_rounds

abbrev seen_on : List PowerRound
seen_on = record (silent 5) { power = some power_on; readings = some power_on ∷ [] } ∷ []

on_result : power_on_server bmc_config 0 seen_on ≡ some (done none)
unfolding power_on_server power_guard power_on_loop power_on_round ipmi_power_on confirm_power_on
    verified
on_result = refl

power_on_server-proof_example : anyb proof seen_on ≡ true
power_on_server-proof_example = power_on_server-proof bmc_config 0 seen_on none on_result

guard_open : power_guard bmc_config ≡ none
unfolding power_guard
guard_open = refl

power_on_server-broke_example :
    power_on_server bmc_config 0 (record (silent 5) { seen = broke [] } ∷ [])
    ≡ some (done (some (code_points "verified via network")))
power_on_server-broke_example =
    power_on_server-broke bmc_config 0 (record (silent 5) { seen = broke [] }) [] [] guard_open
      (omega arith) refl refl refl

path_accepted :
    validate_model_save_path (text (code_points " /data/models "))
    ≡ valid (code_points "/data/models")
unfolding validate_model_save_path check_path has_parent_path_segment split_on full_match
    drop_spaces rstrip_spaces
path_accepted = refl

validate_model_save_path-SafePath_example : SafePath (code_points "/data/models")
validate_model_save_path-SafePath_example =
    validate_model_save_path-SafePath (text (code_points " /data/models "))
      (code_points "/data/models") path_accepted
