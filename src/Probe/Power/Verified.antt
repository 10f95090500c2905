-- ===== src/Probe/Power/Verified.antt =====
-- backend/executor/remote/power_ops.py: the power-on loop ends, and what its success rests on.
use v_llm_dashboard.Prelude.{
  ℕ, ◌+◌, ◌*◌, ◌≤◌, ◌<◌, ◌≡◌, refl, Bool, true, false, ◌&&◌, ◌||◌, Option, none, some, List, [],
  ◌∷◌, arith, ltb, min, length, anyb, is_some, Bool-cases, Option-cases, inl, inr,
}
use v_llm_dashboard.Prelude.Texts.{Text, code_points, starts_with}
use v_llm_dashboard.Probe.Ssh.{ProbeResult}
use v_llm_dashboard.Probe.Bmc.{BmcConfig, done, failed, power_guard}
use v_llm_dashboard.Probe.Power.{
  poweron_total_ms, broke, PowerRound, PowerLoop, new_loop, is_on, confirm_power_on, seen_result,
  verified, Step, finish, again, power_on_round, power_on_loop, power_on_server, not_confirmed,
  by_probe, look, read_status, issue, due, ssh_probe_interval_ms, status_interval_ms,
}

-- Each round comes a second after the one before it, or at the deadline: the loop sleeps for the
-- shorter of the two.
abbrev pub Paced : ℕ → ℕ → List PowerRound → Type 0
Paced deadline t [] = Unit
Paced deadline t (r ∷ rounds) = (min t deadline ≤ r.now) × Paced deadline (r.now + 1000) rounds

loop_ends :
    (deadline t : ℕ) (rounds : List PowerRound) (s : PowerLoop)
    → Paced deadline t rounds
    → t < deadline + 1000
    → deadline + 1000 ≤ t + 1000 * length rounds
    → is_some (power_on_loop deadline rounds s) ≡ true
unfolding power_on_loop
loop_ends deadline t [] s p lt enough = absurd (omega arith)
loop_ends deadline t (r ∷ rounds) s (p, ps) lt enough = elim (Bool-cases (ltb r.now deadline)) [
  | inl early ↦
      let next : (s' : PowerLoop) → is_some (power_on_loop deadline rounds s') ≡ true =
        λ s'. loop_ends deadline (r.now + 1000) rounds s' ps (ground arith) (ground arith) in
      rw early (ends (power_on_round r s) next)
  | inr late ↦ rw late refl
]
  where
    ends :
        (x : Step)
        → ((s' : PowerLoop) → is_some (power_on_loop deadline rounds s') ≡ true)
        → is_some (elim x [ finish d ↦ some d | again s' ↦ power_on_loop deadline rounds s' ])
          ≡ true
    ends (finish d) next = refl
    ends (again s') next = next s'

-- With 121 rounds, each a second after the last or at the deadline, the server's power-on returns a
-- result.
pub power_on_server-ends :
    (c : BmcConfig) (start : ℕ) (rounds : List PowerRound)
    → Paced (start + poweron_total_ms) start rounds
    → 121 ≤ length rounds
    → is_some (power_on_server c start rounds) ≡ true
unfolding power_on_server
power_on_server-ends c start rounds p enough = elim (Option-cases (power_guard c)) [
  | inl open_guard ↦
      rw open_guard
        (loop_ends (start + poweron_total_ms) start rounds new_loop p (omega arith) (omega arith))
  | inr (e, refused) ↦ rw refused refl
]

-- what a round shows of the power: the BMC reads on and stays on, or the probe verifies it
abbrev pub proof : PowerRound → Bool
proof r = (is_on r.power && confirm_power_on r.readings) || is_some (verified (seen_result r.seen))

abbrev Proven : Step → Bool → Type 0
Proven (finish d) b = b ≡ true
Proven (again s) b = Unit

by_probe-Proven :
    (o : Option Text) (p : ProbeResult) (s : PowerLoop) → Proven (by_probe o p s) (is_some o)
by_probe-Proven none p s = tt
by_probe-Proven (some note) p s = refl

look-Proven :
    (r : PowerRound) (s : PowerLoop) → Proven (look r s) (is_some (verified (seen_result r.seen)))
look-Proven r s =
    let p : ProbeResult = seen_result r.seen in
    elim (Bool-cases (due ssh_probe_interval_ms r.now s.last_ssh)) [
      | inl now_due ↦
          rw now_due (by_probe-Proven (verified p) p (record s { last_ssh = some r.now }))
      | inr not_due ↦ rw not_due tt
    ]

Proven-or : (x : Step) (a b : Bool) → Proven x b → Proven x (a || b)
Proven-or (finish d) a b h = ground arith
Proven-or (again s) a b h = tt

read_status-Proven : (r : PowerRound) (s : PowerLoop) → Proven (read_status r s) (proof r)
read_status-Proven r s =
    let on : Bool = is_on r.power && confirm_power_on r.readings in
    let rest : (q : PowerLoop) → Proven (look r q) (proof r) =
      λ q. Proven-or (look r q) on (is_some (verified (seen_result r.seen))) (look-Proven r q) in
    elim (Bool-cases (due status_interval_ms r.now s.last_bmc)) [
      | inl now_due ↦ elim (Bool-cases on) [
        | inl seen_on ↦ rw (now_due, seen_on) refl
        | inr not_on ↦
            let e : read_status r s ≡ look r (record s { last_bmc = some r.now }) =
              rw (now_due, not_on) refl in
            rw e (rest (record s { last_bmc = some r.now }))
      ]
      | inr not_due ↦ let e : read_status r s ≡ look r s = rw not_due refl in rw e (rest s)
    ]

step_proof :
    (x : Step) (b : Bool) (deadline : ℕ) (rounds : List PowerRound) (why : Option Text)
    → Proven x b
    → ((s : PowerLoop)
        → power_on_loop deadline rounds s ≡ some (done why)
        → anyb proof rounds ≡ true)
    → (elim x [ finish d ↦ some d | again s' ↦ power_on_loop deadline rounds s' ]) ≡ some (done why)
    → (b || anyb proof rounds) ≡ true
step_proof (finish d) b deadline rounds why p later h = ground arith
step_proof (again s) b deadline rounds why p later h = ground (arith, later s h)

loop_proof :
    (deadline : ℕ) (rounds : List PowerRound) (s : PowerLoop) (why : Option Text)
    → power_on_loop deadline rounds s ≡ some (done why)
    → anyb proof rounds ≡ true
unfolding power_on_loop power_on_round
loop_proof deadline [] s why h = absurd (ground arith)
loop_proof deadline (r ∷ rounds) s why h = elim (Bool-cases (ltb r.now deadline)) [
  | inl early ↦
      step_proof (read_status r (issue r s)) (proof r) deadline rounds why
        (read_status-Proven r (issue r s)) (λ s' h'. loop_proof deadline rounds s' why h')
        (rw early at h)
  | inr late ↦
      let h' : some (not_confirmed s) ≡ some (done why) = rw late at h in absurd (ground arith)
]

-- A result that says the server is on rests on a round that saw it.
pub power_on_server-proof :
    (c : BmcConfig) (start : ℕ) (rounds : List PowerRound) (why : Option Text)
    → power_on_server c start rounds ≡ some (done why)
    → anyb proof rounds ≡ true
unfolding power_on_server
power_on_server-proof c start rounds why h = elim (Option-cases (power_guard c)) [
  | inl open_guard ↦ loop_proof (start + poweron_total_ms) rounds new_loop why (rw open_guard at h)
  | inr (e, refused) ↦
      let h' : some (failed e) ≡ some (done why) = rw refused at h in absurd (ground arith)
]

-- A probe that ends in an exception counts as the server answering: where the first round's BMC
-- does not read on and the probe breaks, power-on succeeds as verified via the network.
pub power_on_server-broke :
    (c : BmcConfig) (start : ℕ) (r : PowerRound) (rounds : List PowerRound) (e : Text)
    → power_guard c ≡ none
    → r.now < start + poweron_total_ms
    → is_on r.power ≡ false
    → r.seen ≡ broke e
    → starts_with e (code_points "Remote host not configured") ≡ false
    → power_on_server c start (r ∷ rounds) ≡ some (done (some (code_points "verified via network")))
unfolding power_on_server power_on_loop power_on_round verified
power_on_server-broke c start r rounds e g h off b n =
    let early : ltb r.now (start + poweron_total_ms) ≡ true = ground arith in
    rw (g, early, off, b, n) refl
