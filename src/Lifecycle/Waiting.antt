-- ===== src/Lifecycle/Waiting.antt =====
-- The wait for the remote process to go: it ends, and its answer is right.
use v_llm_dashboard.Prelude.{
  ℕ, zero, suc, ◌+◌, ◌*◌, ◌≤◌, ◌<◌, ◌≡◌, refl, Bool, true, false, some, List, [], ◌∷◌, arith, leb,
  length, anyb, Bool-cases, inl, inr,
}
use v_llm_dashboard.Lifecycle.{wait_for_remote_stop}

-- asyncio.sleep(1), in microseconds
abbrev pub poll_pause : ℕ
poll_pause = 1000000

-- The clock of each round is at least a pause later than that of the round before.
abbrev pub Advances : ℕ → List (Bool × ℕ) → Type 0
Advances from [] = Unit
Advances from ((clean, now) ∷ rounds) = (from ≤ now) × Advances (now + poll_pause) rounds

-- With one round more than the pauses that fit before the deadline, the wait has its answer; if any
-- of those rounds is clean before the deadline the answer is that the process is gone.
pub wait_for_remote_stop_total :
    (n deadline from : ℕ) (rounds : List (Bool × ℕ))
    → Advances from rounds
    → deadline ≤ from + n * poll_pause
    → n < length rounds
    → (r : Bool) × (wait_for_remote_stop deadline rounds ≡ some r)
unfolding wait_for_remote_stop
wait_for_remote_stop_total n deadline from [] a d l = absurd (omega arith)
wait_for_remote_stop_total n deadline from ((true, now) ∷ rounds) a d l = (true, refl)
wait_for_remote_stop_total zero deadline from ((false, now) ∷ rounds) a d l =
    (false, ground (arith, a.0))
wait_for_remote_stop_total (suc n) deadline from ((false, now) ∷ rounds) a d l =
    elim (Bool-cases (leb deadline now)) [
      | inl late ↦ (false, rw late refl)
      | inr early ↦
          let (r, e) =
            wait_for_remote_stop_total n deadline (now + poll_pause) rounds a.1 (omega (arith, a.0))
              (omega arith) in
          (r, rw (early, e) refl)
    ]

-- The answer is true only if a check came back clean.
pub wait_for_remote_stop_sound :
    (deadline : ℕ) (rounds : List (Bool × ℕ))
    → wait_for_remote_stop deadline rounds ≡ some true
    → anyb (λ r. r.0) rounds ≡ true
unfolding wait_for_remote_stop
wait_for_remote_stop_sound deadline [] h = absurd (ground arith)
wait_for_remote_stop_sound deadline ((clean, now) ∷ rounds) h =
    ground (arith, wait_for_remote_stop_sound deadline rounds)
