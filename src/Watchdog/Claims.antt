-- ===== src/Watchdog/Claims.antt =====
-- The claim on a model that an attempt holds, and that entering, clearing and cancelling keep it
-- exclusive.
use v_llm_dashboard.Prelude.{
  ℕ, String, ◌≡◌, ◌≢◌, refl, Bool, true, false, not, ◌||◌, Option, none, some, List, inl, inr,
  arith, Bool-cases, Option-cases, if◌then◌else◌, ◌==◌, ==_iff, string_eq, nat_eq,
}
use v_llm_dashboard.Prelude.Dict.{Dict, get, set, remove, get-set, get-remove}
use v_llm_dashboard.Prelude.Set.{contains, add, discard, contains-add, contains-discard}
use v_llm_dashboard.Schemas.{ModelInfo, running, loading, status_eq}
use v_llm_dashboard.World.{World, cancel_task, cancel_if, clear, forget_task}
use v_llm_dashboard.Watchdog.{Caller, task, tick, finish, claim_for, enter_with, enter, wake}

abbrev Attempts : Type 0
Attempts = Dict ℕ String

-- An attempt has the only claim on its model, and the claim is marked as in flight.
pub record IsClaimed (attempting : Attempts) (tick_at : Option String) (inflight : List String)
    : Type 0 where
  pub one : (t u : ℕ) (m : String) → get t attempting ≡ some m → get u attempting ≡ some m → t ≡ u
  pub apart : (t : ℕ) (m : String) → get t attempting ≡ some m → tick_at ≢ some m
  pub held : (t : ℕ) (m : String) → get t attempting ≡ some m → contains m inflight ≡ true
  pub tick_held : (m : String) → tick_at ≡ some m → contains m inflight ≡ true

abbrev pub Claims : World → Type 0
Claims w = IsClaimed w.attempting w.tick_attempt w.inflight

claim-task :
    (t : ℕ) (m : String) (a : Attempts) (k : Option String) (f : List String)
    → contains m f ≡ false
    → IsClaimed a k f
    → IsClaimed (set t m a) k (add m f)
claim-task t m a k f free c = record {
  one = λ u v n p q. ground (
    arith,
    get-set t u m a,
    get-set t v m a,
    ==_iff t u,
    ==_iff t v,
    c.one u v n,
    c.held u n,
    c.held v n,
  );
  apart = λ u n p q. ground (arith, get-set t u m a, ==_iff t u, c.apart u n, c.tick_held n);
  held = λ u n p. ground (arith, get-set t u m a, contains-add m n f, ==_iff m n, c.held u n);
  tick_held = λ n p. ground (arith, contains-add m n f, c.tick_held n);
}

claim-tick :
    (m : String) (a : Attempts) (k : Option String) (f : List String)
    → contains m f ≡ false
    → IsClaimed a k f
    → IsClaimed a (some m) (add m f)
claim-tick m a k f free c = record {
  one = c.one;
  apart = λ u n p q. ground (arith, c.held u n);
  held = λ u n p. ground (arith, contains-add m n f, c.held u n);
  tick_held = λ n p. ground (arith, contains-add m n f, ==_iff m n);
}

-- A task that is alone on a model gives the claim back.
pub release-task :
    (t : ℕ) (m : String) (a : Attempts) (k : Option String) (f : List String)
    → ((u : ℕ) → get u a ≡ some m → u ≡ t)
    → k ≢ some m
    → IsClaimed a k f
    → IsClaimed (remove t a) k (discard m f)
release-task t m a k f alone far c = record {
  one = λ u v n p q. ground (arith, get-remove t u a, get-remove t v a, c.one u v n);
  apart = λ u n p q. ground (arith, get-remove t u a, c.apart u n);
  held = λ u n p. ground (
    arith,
    get-remove t u a,
    contains-discard m n f,
    ==_iff m n,
    ==_iff t u,
    c.held u n,
    alone u,
  );
  tick_held = λ n p. ground (arith, contains-discard m n f, ==_iff m n, c.tick_held n);
}

pub release-tick :
    (m : String) (a : Attempts) (k : Option String) (f : List String)
    → ((u : ℕ) → get u a ≢ some m)
    → IsClaimed a k f
    → IsClaimed a none (discard m f)
release-tick m a k f alone c = record {
  one = c.one;
  apart = λ u n p q. ground arith;
  held = λ u n p. ground (arith, contains-discard m n f, ==_iff m n, c.held u n, alone u);
  tick_held = λ n p. absurd (ground arith);
}

pub cancel_task-Claims : (t : ℕ) (w : World) → Claims w → Claims (cancel_task t w)
cancel_task-Claims t w c = elim (Option-cases (get t w.attempting)) [
  | inl gone ↦
      unfold cancel_task in
      rw (gone, cancel_task)
        (record { one = c.one; apart = c.apart; held = c.held; tick_held = c.tick_held })
  | inr (m, e) ↦
      unfold cancel_task in
      rw (e, cancel_task)
        (release-task t m w.attempting w.tick_attempt w.inflight (λ u p. c.one u t m p e)
          (c.apart t m e) c)
]

cancel_task-attempts :
    (t : ℕ) (w : World) (u : ℕ) (m : String)
    → get u (cancel_task t w).attempting ≡ some m
    → get u w.attempting ≡ some m
cancel_task-attempts t w u m p = elim (Option-cases (get t w.attempting)) [
  | inl gone ↦ unfold cancel_task in rw (gone, cancel_task) at p
  | inr (n, e) ↦
      let q : get u (remove t w.attempting) ≡ some m =
        unfold cancel_task in rw (e, cancel_task) at p in
      ground (arith, get-remove t u w.attempting)
]

cancel_task-tick : (t : ℕ) (w : World) → (cancel_task t w).tick_attempt ≡ w.tick_attempt
unfolding cancel_task
cancel_task-tick t w = elim (Option-cases (get t w.attempting)) [
  | inl gone ↦ rw (gone, cancel_task) refl
  | inr (n, e) ↦ rw (e, cancel_task) refl
]

-- A clear starts no attempt.
pub clear-attempts :
    (i : String) (w : World) (u : ℕ) (m : String)
    → get u (clear i w).attempting ≡ some m
    → get u w.attempting ≡ some m
unfolding clear
clear-attempts i w u m p = go (get i w.restart_tasks) p
  where
    go : (o : Option ℕ) → get u (cancel_if o w).attempting ≡ some m → get u w.attempting ≡ some m
    go none q = q
    go (some t) q = cancel_task-attempts t w u m q

pub clear-tick : (i : String) (w : World) → (clear i w).tick_attempt ≡ w.tick_attempt
unfolding clear
clear-tick i w = go (get i w.restart_tasks)
  where
    go : (o : Option ℕ) → (cancel_if o w).tick_attempt ≡ w.tick_attempt
    go none = refl
    go (some t) = cancel_task-tick t w

pub clear-Claims : (i : String) (w : World) → Claims w → Claims (clear i w)
unfolding clear
clear-Claims i w c = go (get i w.restart_tasks)
  where
    go :
        (o : Option ℕ)
        → IsClaimed (cancel_if o w).attempting (cancel_if o w).tick_attempt (cancel_if o w).inflight
    go none = c
    go (some t) = cancel_task-Claims t w c

pub forget_task-Claims : (i : String) (t : ℕ) (w : World) → Claims w → Claims (forget_task i t w)
unfolding forget_task
forget_task-Claims i t w c = go (get i w.restart_tasks) refl
  where
    go : (o : Option ℕ) → get i w.restart_tasks ≡ o → Claims (forget_task i t w)
    go none e = rw (e, forget_task) c
    go (some u) e = elim (Bool-cases (u == t)) [
      | inl same ↦
          rw (e, forget_task, same)
            (record { one = c.one; apart = c.apart; held = c.held; tick_held = c.tick_held })
      | inr other ↦ rw (e, forget_task, other) c
    ]

finish-Claims : (who : Caller) (i : String) (w : World) → Claims w → Claims (finish who i w)
finish-Claims (task t) i w c = forget_task-Claims i t w c
finish-Claims tick i w c = c

claim-Claims :
    (who : Caller) (i : String) (w : World)
    → contains i w.inflight ≡ false
    → Claims w
    → Claims (claim_for who i (record w { inflight = add i w.inflight }))
claim-Claims (task t) i w free c = claim-task t i w.attempting w.tick_attempt w.inflight free c
claim-Claims tick i w free c = claim-tick i w.attempting w.tick_attempt w.inflight free c

or-false_right : (a b : Bool) → (a || b) ≡ false → b ≡ false
or-false_right true b h = absurd (ground arith)
or-false_right false b h = h

pub enter-Claims : (who : Caller) (i : String) (w : World) → Claims w → Claims (enter who i w)
unfolding enter
enter-Claims who i w c = go (get i w.registry.models)
  where
    cleared : Claims (finish who i (clear i w))
    cleared = finish-Claims who i (clear i w) (clear-Claims i w c)

    kept : Claims (finish who i w)
    kept = finish-Claims who i w c

    busy :
        (b : Bool)
        → (contains i w.suspended || contains i w.inflight) ≡ b
        → Claims (
            if b
            then finish who i w
            else claim_for who i (record w { inflight = add i w.inflight }))
    busy true e = kept
    busy false e =
        claim-Claims who i w (or-false_right (contains i w.suspended) (contains i w.inflight) e) c

    tests :
        (a b d : Bool)
        → Claims (
            if a
            then finish who i (clear i w)
            else if b
            then finish who i (clear i w)
            else if d
            then finish who i w
            else if contains i w.suspended || contains i w.inflight
            then finish who i w
            else claim_for who i (record w { inflight = add i w.inflight }))
    tests true b d = cleared
    tests false true d = cleared
    tests false false true = kept
    tests false false false = busy (contains i w.suspended || contains i w.inflight) refl

    go : (o : Option ModelInfo) → Claims (enter_with o who i w)
    go none = cleared
    go (some m) = tests (not m.locked) (m.status == running) (m.status == loading)

pub wake-Claims : (t : ℕ) (w : World) → Claims w → Claims (wake t w)
unfolding wake
wake-Claims t w c = elim (Option-cases (get t w.sleeping)) [
  | inl gone ↦ rw (gone, wake) c
  | inr (m, e) ↦
      rw (e, wake)
        (enter-Claims (task t) m (record w { sleeping = remove t w.sleeping })
          (record { one = c.one; apart = c.apart; held = c.held; tick_held = c.tick_held }))
]
