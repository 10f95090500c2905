-- ===== src/RemoteJob/Ends.antt =====
-- backend/service/deployment_task_ctx.py and backend/service/deployment_reattach.py: when the loops
-- that watch a background step end, and why.
use v_llm_dashboard.Prelude.{
  ℕ, suc, drop, length, not, ◌⊎◌, ◌+◌, ◌≤◌, ◌≡◌, refl, sym, ap, ◌∙◌, Bool, true, false, ◌||◌,
  Option, none, some, List, [], ◌∷◌, arith, leb, anyb, is_some, if◌then◌else◌, ◌==◌, nat_eq, inl,
  inr, Bool-cases,
}
use mathlib.Core.Path.{subst}
use v_llm_dashboard.Prelude.Texts.{Text, text_eq, code_points, starts_with}
use v_llm_dashboard.RemoteJob.{
  read_poll, Watch, new_watch, exit_code, exit_prefix, Ended, settled, vanished, timed_out,
  was_cancelled, Polled, ended, watching, by_status, take_content, poll_job, Round, raised,
  poll_reading, run_long,
}

abbrev reply_text : Option Text → Text
reply_text none = []
reply_text (some out) = out

-- the status that a round reads
abbrev status_of : Round → Text
status_of r = (read_poll (reply_text r.reply)).1

abbrev shows_exit : Round → Bool
shows_exit r = starts_with (status_of r) exit_prefix

abbrev shows_gone : Round → Bool
shows_gone r = status_of r == code_points "VDB_GONE"

unfoldable pub gone_rounds : List Round → ℕ
gone_rounds [] = 0
gone_rounds (r ∷ rounds) = if shows_gone r then suc (gone_rounds rounds) else gone_rounds rounds

-- what the end of a loop rests on, with a count of rounds before it that saw no process
unfoldable pub Grounds : Ended → ℕ → List Round → Type 0
Grounds was_cancelled n rounds = anyb (λ r. r.cancelled) rounds ≡ true
Grounds raised n rounds = anyb (λ r. not (is_some r.reply)) rounds ≡ true
Grounds timed_out n rounds = anyb (λ r. r.overdue) rounds ≡ true
Grounds (settled code) n rounds = anyb shows_exit rounds ≡ true
Grounds vanished n rounds = 3 ≤ n + gone_rounds rounds

-- the same, for a round that goes on or ends
abbrev Grounded : Polled → ℕ → Round → List Round → Type 0
Grounded (ended why) n r rounds = Grounds why n (r ∷ rounds)
Grounded (watching w) n r rounds = w.gone_polls ≤ n + gone_rounds (r ∷ [])

gone_one : (r : Round) (rounds : List Round) → gone_rounds (r ∷ []) ≤ gone_rounds (r ∷ rounds)
unfolding gone_rounds
gone_one r rounds = ground arith

gone_two :
    (r : Round) (rounds : List Round)
    → gone_rounds (r ∷ rounds) ≡ gone_rounds (r ∷ []) + gone_rounds rounds
unfolding gone_rounds
gone_two r rounds = ground arith

seen_gone : (r : Round) → shows_gone r ≡ true → gone_rounds (r ∷ []) ≡ 1
unfolding gone_rounds
seen_gone r h = rw h refl

by_status-Grounded :
    (r : Round) (rounds : List Round) (w : Watch)
    → Grounded (by_status (status_of r) w) w.gone_polls r rounds
unfolding by_status Grounds
by_status-Grounded r rounds w =
    let s : Text = status_of r in
    let again : Watch = record w { gone_polls = w.gone_polls + 1 } in
    elim (Bool-cases (starts_with s exit_prefix)) [
      | inl y ↦
          let e : by_status s w ≡ ended (settled (exit_code (drop (length exit_prefix) s))) =
            rw y refl in
          rw e (ground arith)
      | inr y ↦ elim (Bool-cases (s == code_points "VDB_RUNNING")) [
        | inl z ↦
            let e : by_status s w ≡ watching (record w { gone_polls = 0 }) = rw (y, z) refl in
            rw e (omega arith)
        | inr z ↦ elim (Bool-cases (s == code_points "VDB_GONE")) [
          | inr u ↦ let e : by_status s w ≡ watching w = rw (y, z, u) refl in rw e (omega arith)
          | inl u ↦
              let one : gone_rounds (r ∷ []) ≡ 1 = seen_gone r u in
              elim (Bool-cases (leb 3 (w.gone_polls + 1))) [
                | inl third ↦
                    let e : by_status s w ≡ ended vanished = rw (y, z, u, third) refl in
                    let three : 3 ≤ w.gone_polls + 1 = ground arith in
                    rw e (omega (arith, gone_one r rounds))
                | inr early ↦
                    let e : by_status s w ≡ watching again = rw (y, z, u, early) refl in
                    rw e (omega arith)
              ]
        ]
      ]
    ]

-- the grounds of what is left of the rounds are grounds of them all
Grounds-later :
    (why : Ended) (n m : ℕ) (r : Round) (rounds : List Round)
    → m ≤ n + gone_rounds (r ∷ [])
    → Grounds why m rounds
    → Grounds why n (r ∷ rounds)
unfolding Grounds
Grounds-later was_cancelled n m r rounds le g = ground arith
Grounds-later raised n m r rounds le g = ground arith
Grounds-later timed_out n m r rounds le g = ground arith
Grounds-later (settled code) n m r rounds le g = ground arith
Grounds-later vanished n m r rounds le g = omega (arith, gone_two r rounds)

abbrev next : Polled → List Round → Option Ended
next (ended why) rounds = some why
next (watching w) rounds = run_long rounds w

next-Grounds :
    (p : Polled) (n : ℕ) (r : Round) (rounds : List Round) (why : Ended)
    → Grounded p n r rounds
    → ((w : Watch) → run_long rounds w ≡ some why → Grounds why w.gone_polls rounds)
    → next p rounds ≡ some why
    → Grounds why n (r ∷ rounds)
next-Grounds (ended why') n r rounds why g later h =
    let e : why' ≡ why = ap (λ o. elim o [ none ↦ why' | some x ↦ x ]) h in
    subst (λ x. Grounds x n (r ∷ rounds)) e g
next-Grounds (watching w) n r rounds why g later h =
    Grounds-later why n w.gone_polls r rounds g (later w h)

run_long_lem :
    (r : Round) (rounds : List Round) (w : Watch)
    → r.cancelled ≡ false
    → r.overdue ≡ false
    → run_long (r ∷ rounds) w ≡ next (poll_reading r.reply w) rounds
unfolding run_long
run_long_lem r rounds w c o = rw (c, o) (at (poll_reading r.reply w))
  where
    at :
        (p : Polled)
        → (elim p [ ended why ↦ some why | watching w' ↦ run_long rounds w' ]) ≡ next p rounds
    at (ended why) = refl
    at (watching w') = refl

reply-cases : (o : Option Text) → (o ≡ none) ⊎ (out : Text) × (o ≡ some out)
reply-cases none = inl refl
reply-cases (some out) = inr (out, refl)

poll_reading-Grounded :
    (r : Round) (rounds : List Round) (w : Watch)
    → Grounded (poll_reading r.reply w) w.gone_polls r rounds
unfolding poll_job take_content Grounds
poll_reading-Grounded r rounds w = elim (reply-cases r.reply) [
  | inl e ↦ rw e (ground arith)
  | inr (out, e) ↦
      let w' : Watch = take_content (read_poll (reply_text r.reply)).0 w in
      let p : poll_reading r.reply w ≡ by_status (status_of r) w' = rw e refl in
      rw p (by_status-Grounded r rounds w')
]

run_long-Grounds_from :
    (rounds : List Round) (w : Watch) (why : Ended)
    → run_long rounds w ≡ some why
    → Grounds why w.gone_polls rounds
unfolding run_long Grounds
run_long-Grounds_from [] w why h = absurd (ground arith)
run_long-Grounds_from (r ∷ rounds) w why h = elim (Bool-cases r.cancelled) [
  | inl c ↦
      let h' : some was_cancelled ≡ some why = rw c at h in
      let e : was_cancelled ≡ why = ap (λ o. elim o [ none ↦ was_cancelled | some x ↦ x ]) h' in
      subst (λ x. Grounds x w.gone_polls (r ∷ rounds)) e (ground arith)
  | inr c ↦ elim (Bool-cases r.overdue) [
    | inl o ↦
        let h' : some timed_out ≡ some why = rw (c, o) at h in
        let e : timed_out ≡ why = ap (λ x. elim x [ none ↦ timed_out | some y ↦ y ]) h' in
        subst (λ x. Grounds x w.gone_polls (r ∷ rounds)) e (ground arith)
    | inr o ↦
        next-Grounds (poll_reading r.reply w) w.gone_polls r rounds why
          (poll_reading-Grounded r rounds w) (λ w' h'. run_long-Grounds_from rounds w' why h')
          (sym (run_long_lem r rounds w c o) ∙ h)
  ]
]

-- A step that `run_long` watches ends as cancelled or timed out only where a round was, with an
-- exit code only where a poll read one, with an error only where a poll raised, and as vanished only
-- where three polls found no process.
pub run_long-Grounds :
    (rounds : List Round) (why : Ended)
    → run_long rounds new_watch ≡ some why
    → Grounds why 0 rounds
run_long-Grounds rounds why h = run_long-Grounds_from rounds new_watch why h

next_ends :
    (p : Polled) (rounds : List Round)
    → ((w : Watch) → is_some (run_long rounds w) ≡ true)
    → is_some (next p rounds) ≡ true
next_ends (ended why) rounds h = refl
next_ends (watching w) rounds h = h w

-- A step ends at the first round that finds it cancelled or out of time, at the latest.
pub run_long-ends :
    (rounds : List Round) (w : Watch)
    → anyb (λ r. r.cancelled || r.overdue) rounds ≡ true
    → is_some (run_long rounds w) ≡ true
unfolding run_long
run_long-ends [] w h = absurd (ground arith)
run_long-ends (r ∷ rounds) w h = elim (Bool-cases r.cancelled) [
  | inl c ↦ rw c refl
  | inr c ↦ elim (Bool-cases r.overdue) [
    | inl o ↦ rw (c, o) refl
    | inr o ↦
        let later : anyb (λ q. q.cancelled || q.overdue) rounds ≡ true = ground arith in
        ap is_some (run_long_lem r rounds w c o)
        ∙ next_ends (poll_reading r.reply w) rounds (λ w'. run_long-ends rounds w' later)
  ]
]
