-- ===== src/Probe/Ssh/Honest.antt =====
-- backend/executor/remote/ssh_probe.py: what a green light of the header rests on.
use v_llm_dashboard.Prelude.{
  ℕ, ◌-◌, ◌≤◌, ◌≡◌, refl, sym, ap, ◌∙◌, true, false, ◌&&◌, Option, none, some, ◌⊎◌, inl, inr, arith,
  ltb, ◌==◌, ==_iff, string_eq, Bool-cases, nat_eq,
}
use v_llm_dashboard.Prelude.Eq.{pair_eq, option_eq}
use v_llm_dashboard.Probe.{NetState, down, record_ping}
use v_llm_dashboard.Probe.Ssh.{
  SshConfig, ssh_probe_fingerprint, ProbeResult, Answer, is_local, probe_once, service_refresh_ms,
  SshProbe, run_ssh_probe, cached, serve, is_down, overlay, check_ssh_connectivity,
}

-- the light that the fresh ping gives
abbrev pub net_of : SshConfig → Option ℕ → SshProbe → NetState
net_of c rtt s = (record_ping c.host rtt s.tracker).1.0

-- the service layer of a check
abbrev service :
    SshConfig → ℕ → Option ℕ → Option (Option ℕ × Answer) → SshProbe → ProbeResult × SshProbe
service c now rtt heal s =
    serve c now heal
      (cached c now s.cache (record s { tracker = (record_ping c.host rtt s.tracker).0 }))

check_lem :
    (c : SshConfig) (now : ℕ) (rtt : Option ℕ) (heal : Option (Option ℕ × Answer)) (s : SshProbe)
    → is_local c.host ≡ false
    → (check_ssh_connectivity c now rtt heal s).0
      ≡ overlay (net_of c rtt s) (service c now rtt heal s).0
unfolding check_ssh_connectivity
check_lem c now rtt heal s l = rw l refl

overlay-down : (r : ProbeResult) → (overlay down r).connected ≡ false
unfolding overlay
overlay-down r = elim (Bool-cases r.connected) [ inl y ↦ rw y refl | inr n ↦ rw n refl ]

overlay_connected :
    (net : NetState) (r : ProbeResult) → (overlay net r).connected ≡ true → r.connected ≡ true
unfolding overlay
overlay_connected net r h = elim (Bool-cases r.connected) [
  | inl y ↦ y
  | inr n ↦
      let same : (is_down net && r.connected) ≡ false = ground arith in
      let h' : r.connected ≡ true = rw same at h in h'
]

-- Where the tracker says that the host is down, the check says so and never that it is connected,
-- whatever its cache holds and a fresh round answers.
pub check_ssh_connectivity-down :
    (c : SshConfig) (now : ℕ) (rtt : Option ℕ) (heal : Option (Option ℕ × Answer)) (s : SshProbe)
    → is_local c.host ≡ false
    → net_of c rtt s ≡ down
    → ((check_ssh_connectivity c now rtt heal s).0.connected ≡ false)
      × ((check_ssh_connectivity c now rtt heal s).0.host_down ≡ some true)
      × ((check_ssh_connectivity c now rtt heal s).0.net_state ≡ some down)
unfolding overlay
check_ssh_connectivity-down c now rtt heal s l d =
    let e : (check_ssh_connectivity c now rtt heal s).0
        ≡ overlay down (service c now rtt heal s).0 =
      check_lem c now rtt heal s l ∙ ap (λ n. overlay n (service c now rtt heal s).0) d in
    (
      ap (λ r. r.connected) e ∙ overlay-down (service c now rtt heal s).0,
      ap (λ r. r.host_down) e,
      ap (λ r. r.net_state) e,
    )

-- a cached result of this configuration, young enough, that says connected itself
abbrev Cached : SshConfig → ℕ → Option ProbeResult → SshProbe → Type 0
Cached c now o s =
    (r : ProbeResult) × (o ≡ some r)
    × (r.connected ≡ true)
    × (s.fp ≡ ssh_probe_fingerprint c)
    × (now - s.ts ≤ service_refresh_ms)

-- such a result in the cache, or a fresh round that says connected
abbrev pub Backed : SshConfig → ℕ → Option ℕ → Answer → Option ProbeResult → SshProbe → Type 0
Backed c now fresh answer o s = Cached c now o s ⊎ ((probe_once c fresh answer).connected ≡ true)

serve-Backed :
    (c : SshConfig) (now : ℕ) (fresh : Option ℕ) (answer : Answer) (o : Option ProbeResult)
    (s : SshProbe)
    → (serve c now (some (fresh, answer)) (cached c now o s)).0.connected ≡ true
    → Backed c now fresh answer o s
unfolding run_ssh_probe
serve-Backed c now fresh answer none s h = absurd (ground arith)
serve-Backed c now fresh answer (some r) s h = elim (Bool-cases (s.fp == ssh_probe_fingerprint c)) [
  | inl own ↦ elim (Bool-cases (ltb service_refresh_ms (now - s.ts))) [
    | inl old ↦ let h' : (probe_once c fresh answer).connected ≡ true = rw (own, old) at h in inr h'
    | inr young ↦
        let green : r.connected ≡ true = rw (own, young) at h in
        inl (r, refl, green, (==_iff s.fp (ssh_probe_fingerprint c)).0 own, ground arith)
  ]
  | inr foreign ↦ let h' : false ≡ true = rw foreign at h in absurd (ground arith)
]

-- Where the fresh round of a remote host answers in time, a light that says connected rests on a
-- cached result of this very configuration that says connected and is at most five seconds old, or
-- on a fresh round that says connected.
pub check_ssh_connectivity-Backed :
    (c : SshConfig) (now : ℕ) (rtt fresh : Option ℕ) (answer : Answer) (s : SshProbe)
    → is_local c.host ≡ false
    → (check_ssh_connectivity c now rtt (some (fresh, answer)) s).0.connected ≡ true
    → Backed c now fresh answer s.cache s
check_ssh_connectivity-Backed c now rtt fresh answer s l h =
    let heal : Option (Option ℕ × Answer) = some (fresh, answer) in
    let h' : (overlay (net_of c rtt s) (service c now rtt heal s).0).connected ≡ true =
      ap (λ r. r.connected) (sym (check_lem c now rtt heal s l)) ∙ h in
    serve-Backed c now fresh answer s.cache
      (record s { tracker = (record_ping c.host rtt s.tracker).0 })
      (overlay_connected (net_of c rtt s) (service c now rtt heal s).0 h')
