-- ===== src/Probe/Ssh.antt =====
-- backend/executor/remote/ssh_probe.py: one probe of the server, and the check that the header's
-- light shows, over a cache that a thread refreshes. The clock is in milliseconds and is read once
-- in a check; the measured latencies are left out. The pings and what the server answers are
-- inputs.
pub mod Honest
use v_llm_dashboard.Prelude.{
  ℕ, ◌-◌, String, Bool, true, false, not, ◌&&◌, ◌||◌, Option, none, some, ◌+◌, ltb, leb, take,
  if◌then◌else◌, ◌==◌, string_eq, nat_eq,
}
use v_llm_dashboard.Prelude.Eq.{pair_eq, option_eq}
use v_llm_dashboard.Prelude.Texts.{Text, code_points, list_beq}
use v_llm_dashboard.Prelude.Words.{lower, has_infix, strip_text}
use v_llm_dashboard.Probe.{NetState, up, degraded, down, PingTracker, record_ping}

pub record SshConfig : Type 0 where
  pub host : String
  pub ssh_port : ℕ
  pub ssh_username : String
  pub ssh_password : Option String
  pub ssh_key_path : Option String

abbrev or_empty : Option String → String
or_empty none = ""
or_empty (some path) = path

abbrev pub Fingerprint : Type 0
Fingerprint = String × (ℕ × (String × (Option String × String)))

-- `_ssh_probe_fingerprint`
abbrev pub ssh_probe_fingerprint : SshConfig → Fingerprint
ssh_probe_fingerprint c =
    (c.host, (c.ssh_port, (c.ssh_username, (c.ssh_password, or_empty c.ssh_key_path))))

pub data ErrorCode : Type 0 where
  not_configured ping_failed auth no_response : ErrorCode

-- the fields that a result may lack are none there
pub record ProbeResult : Type 0 where
  pub connected : Bool
  pub error : Option Text
  pub error_code : Option ErrorCode
  pub host_down : Option Bool
  pub net_state : Option NetState

-- what `echo ok` printed, or the exception on the way to it
pub data Answer : Type 0 where
  printed raised : Text → Answer

abbrev pub is_local : String → Bool
is_local host = host == "" || host == "localhost" || host == "127.0.0.1"

-- `_classify_service_error`
unfoldable pub classify_service_error : Text → ErrorCode
classify_service_error error =
    if has_infix (code_points "authentication") (lower error)
      || has_infix (code_points "permission denied") (lower error)
    then auth
    else no_response

abbrev pub not_configured_result : ProbeResult
not_configured_result = record {
  connected = false;
  error = some (code_points "Remote host not configured");
  error_code = some not_configured;
  host_down = some true;
  net_state = some down;
}

abbrev unreachable_result : ProbeResult
unreachable_result = record {
  connected = false;
  error = some (code_points "host unreachable (ping no response)");
  error_code = some ping_failed;
  host_down = some true;
  net_state = some down;
}

abbrev service_result : Answer → ProbeResult
service_result (printed out) =
    if list_beq (strip_text out) (code_points "ok")
    then record {
      connected = true;
      error = none;
      error_code = none;
      host_down = none;
      net_state = some up;
    }
    else record {
      connected = false;
      error = some (code_points "SSH probe returned unexpected output");
      error_code = some no_response;
      host_down = none;
      net_state = some up;
    }
service_result (raised e) = record {
  connected = false;
  error = some (take 200 e);
  error_code = some (classify_service_error e);
  host_down = none;
  net_state = some up;
}

abbrev reached : Option ℕ → Answer → ProbeResult
reached none answer = unreachable_result
reached (some rtt) answer = service_result answer

-- `_probe_once`
unfoldable pub probe_once : SshConfig → Option ℕ → Answer → ProbeResult
unfolding classify_service_error
probe_once c rtt answer = if is_local c.host then not_configured_result else reached rtt answer

-- SSH_PROBE_STALE_SECONDS, SSH_SERVICE_REFRESH_SECONDS, and the pause between warnings
abbrev pub probe_stale_ms : ℕ
probe_stale_ms = 60000

abbrev pub service_refresh_ms : ℕ
service_refresh_ms = 5000

abbrev stale_warn_ms : ℕ
stale_warn_ms = 30000

-- the variables of the module; `starts` counts the probe threads that were started
pub record SshProbe : Type 0 where
  pub cache : Option ProbeResult
  pub fp : Fingerprint
  pub ts : ℕ
  pub thread_alive : Bool
  pub starts : ℕ
  pub restart_ts : ℕ
  pub warn_ts : ℕ
  pub tracker : PingTracker

-- `_run_ssh_probe`
unfoldable pub run_ssh_probe : SshConfig → Option ℕ → Answer → ℕ → SshProbe → ProbeResult × SshProbe
unfolding probe_once
run_ssh_probe c rtt answer now s =
    let r = probe_once c rtt answer in
    (r, record s { cache = some r; fp = ssh_probe_fingerprint c; ts = now })

abbrev start_thread : SshProbe → SshProbe
start_thread s = record s { thread_alive = true; starts = s.starts + 1 }

-- a cache that is too old restarts the thread, once in a while
unfoldable pub restart_stale : ℕ → SshProbe → SshProbe
restart_stale now s =
    let started = record (start_thread s) { restart_ts = now } in
    let warned = record s { warn_ts = now } in
    if ltb probe_stale_ms (now - s.ts)
    then (if leb probe_stale_ms (now - s.restart_ts)
        then started
        else if leb stale_warn_ms (now - s.warn_ts)
        then warned
        else s)
    else s

-- the cached result of this configuration, with its age
abbrev pub cached :
    SshConfig → ℕ → Option ProbeResult → SshProbe → Option ProbeResult × (ℕ × SshProbe)
cached c now none s = (none, (0, if s.thread_alive then s else start_thread s))
cached c now (some r) s =
    if s.fp == ssh_probe_fingerprint c
    then (some r, (now - s.ts, restart_stale now s))
    else (none, (0, if s.thread_alive then s else start_thread s))

-- `_self_heal_round`, which answers in time or not
abbrev pub healed :
    SshConfig → ℕ → Option (Option ℕ × Answer) → ProbeResult → SshProbe → ProbeResult × SshProbe
healed c now none r s = (r, s)
healed c now (some (rtt, answer)) r s = run_ssh_probe c rtt answer now s

abbrev not_ready : ProbeResult
not_ready = record {
  connected = false;
  error = some (code_points "SSH probe not ready");
  error_code = some no_response;
  host_down = none;
  net_state = none;
}

abbrev pub serve :
    SshConfig
    → ℕ
    → Option (Option ℕ × Answer)
    → Option ProbeResult × (ℕ × SshProbe)
    → ProbeResult × SshProbe
serve c now heal (none, (age, s)) = (not_ready, s)
serve c now heal (some r, (age, s)) =
    if ltb service_refresh_ms age then healed c now heal r s else (r, s)

abbrev pub is_down : NetState → Bool
is_down down = true
is_down _ = false

abbrev pub is_up : NetState → Bool
is_up up = true
is_up _ = false

-- the network layer over the service layer
unfoldable pub overlay : NetState → ProbeResult → ProbeResult
overlay net r =
    let shown =
      if is_down net && r.connected
      then record r {
        connected = false;
        error = some (code_points "host unreachable (ping no response)");
        error_code = some ping_failed;
      }
      else r in
    record shown { net_state = some net; host_down = some (not (is_up net)) }

-- `check_ssh_connectivity` without a refresh; with one it is `run_ssh_probe`
unfoldable pub check_ssh_connectivity :
    SshConfig → ℕ → Option ℕ → Option (Option ℕ × Answer) → SshProbe → ProbeResult × SshProbe
unfolding record_ping restart_stale run_ssh_probe overlay
check_ssh_connectivity c now rtt heal s =
    let (tracker, (net, good)) = record_ping c.host rtt s.tracker in
    let s' = record s { tracker = tracker } in
    let (r, s'') = serve c now heal (cached c now s'.cache s') in
    if is_local c.host then (not_configured_result, s) else (overlay net r, s'')
