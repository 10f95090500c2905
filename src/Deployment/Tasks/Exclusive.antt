-- ===== src/Deployment/Tasks/Exclusive.antt =====
-- Pipelines that write the same part of the system are never in flight together.
use v_llm_dashboard.Prelude.{
  ◌≡◌, ◌≢◌, ◌⊎◌, refl, sym, ap, ◌∙◌, inl, inr, String, Bool, true, false, ◌&&◌, Option, none, some,
  List, [], ◌∷◌, anyb, if◌then◌else◌, ◌==◌, ==_iff, string_eq, nat_eq, arith, Bool-cases,
}
use v_llm_dashboard.Prelude.Dict.{Dict, get, set, values, get-set}
use v_llm_dashboard.Prelude.Set.{contains}
use v_llm_dashboard.Deployment.Tasks.{
  Task, TaskManager, Worker, waiting, queued, in_flight, inflight_domain, has_inflight,
}

-- what the exclusion looks at: whether a task is in flight, and its kind
abbrev pub flying : Option Task → Option String
flying none = none
flying (some t) = if in_flight t.status then some t.kind else none

abbrev pub flying_at : String → TaskManager → Option String
flying_at i m = flying (get i m.tasks)

-- the kinds exclude each other
abbrev pub exclusive : String → String → Bool
exclusive a b = contains a (inflight_domain b) && contains b (inflight_domain a)

abbrev pub Tasks : Type 0
Tasks = Dict String Task

abbrev pub Threads : Type 0
Threads = Dict String Worker

-- Two tasks in flight are of kinds that do not exclude each other, and a thread that waits to start
-- has a queued task.
pub record IsApart (tasks : Dict String Task) (threads : Dict String Worker) : Type 0 where
  pub apart :
      (i j a b : String)
      → i ≢ j
      → flying (get i tasks) ≡ some a
      → flying (get j tasks) ≡ some b
      → exclusive a b ≡ false
  pub ready :
      (i : String)
      → get i threads ≡ some waiting
      → (t : Task) × (get i tasks ≡ some t) × (t.status ≡ queued)

abbrev pub Apart : TaskManager → Type 0
Apart m = IsApart m.tasks m.threads

-- a task that changes, but does not come into flight, nor leaves the queue while its thread waits
pub put-IsApart :
    (id : String) (t t' : Task) (d : Tasks) (th : Threads)
    → get id d ≡ some t
    → ((a : String) → flying (some t') ≡ some a → flying (some t) ≡ some a)
    → (get id th ≡ some waiting → t'.status ≡ queued)
    → IsApart d th
    → IsApart (set id t' d) th
put-IsApart id t t' d th e falls stays h = record {
  apart = λ i j a b x p q. h.apart i j a b x (fell i a p) (fell j b q);
  ready = λ i w. elim (Bool-cases (id == i)) [
    | inl same ↦
        let here = (==_iff id i).0 same in
        (t', get-set id i t' d ∙ rw same refl, stays (rw (sym here) at w))
    | inr other ↦ let (u, g, q) = h.ready i w in (u, get-set id i t' d ∙ rw other g, q)
  ];
}
  where
    fell : (i a : String) → flying (get i (set id t' d)) ≡ some a → flying (get i d) ≡ some a
    fell i a p = elim (Bool-cases (id == i)) [
      | inl same ↦
          let here = (==_iff id i).0 same in
          let at_id : get i (set id t' d) ≡ some t' = get-set id i t' d ∙ rw same refl in
          ap (λ x. flying (get x d)) (sym here)
          ∙ (ap flying e ∙ falls a (sym (ap flying at_id) ∙ p))
      | inr other ↦ ap flying (sym (get-set id i t' d ∙ rw other refl)) ∙ p
    ]

-- a thread that goes on
pub thread-IsApart :
    (id : String) (w : Worker) (d : Tasks) (th : Threads)
    → w ≢ waiting
    → IsApart d th
    → IsApart d (set id w th)
thread-IsApart id w d th x h = record {
  apart = h.apart;
  ready = λ i p. elim (Bool-cases (id == i)) [
    | inl same ↦ absurd (x (some_injective w waiting (sym (get-set id i w th ∙ rw same refl) ∙ p)))
    | inr other ↦ h.ready i (sym (get-set id i w th ∙ rw other refl) ∙ p)
  ];
}
  where
    some_injective : (a b : Worker) → some a ≡ some b → a ≡ b
    some_injective a b p = ground arith

has_inflight-get :
    (d : Dict String Task) (i a : String)
    → flying (get i d) ≡ some a
    → has_inflight (values d) a ≡ true
unfolding get has_inflight
has_inflight-get [] i a e = absurd (ground arith)
has_inflight-get ((k, t) ∷ d) i a e = ground (arith, has_inflight-get d i a, ==_iff t.kind a)

any_domain :
    (ks : List String) (p : String → Bool) (k : String)
    → anyb p ks ≡ false
    → p k ≡ true
    → contains k ks ≡ false
unfolding contains
any_domain [] p k e f = refl
any_domain (x ∷ ks) p k e f = ground (arith, any_domain ks p k, ==_iff x k, ap p)

-- a task that comes into flight where nothing in flight excludes it
joins :
    (id : String) (t : Task) (d : Tasks) (th : Threads)
    → anyb (has_inflight (values d)) (inflight_domain t.kind) ≡ false
    → IsApart d th
    → (i j a b : String) → i ≢ j
    → flying (get i (set id t d)) ≡ some a
    → flying (get j (set id t d)) ≡ some b
    → exclusive a b ≡ false
joins id t d th free h i j a b x p r = both i j a b x (after i a p) (after j b r)
  where
    clear_of :
        (j b : String) → flying (get j d) ≡ some b → contains b (inflight_domain t.kind) ≡ false
    clear_of j b r =
        any_domain (inflight_domain t.kind) (has_inflight (values d)) b free
          (has_inflight-get d j b r)

    after :
        (i a : String)
        → flying (get i (set id t d)) ≡ some a
        → ((id ≡ i) × (a ≡ t.kind)) ⊎ (flying (get i d) ≡ some a)
    after i a p = elim (Bool-cases (id == i)) [
      | inl same ↦
          let at_id : get i (set id t d) ≡ some t = get-set id i t d ∙ rw same refl in
          inl ((==_iff id i).0 same, ground (arith, sym (ap flying at_id) ∙ p))
      | inr other ↦ inr (ap flying (sym (get-set id i t d ∙ rw other refl)) ∙ p)
    ]

    both :
        (i j a b : String)
        → i ≢ j
        → ((id ≡ i) × (a ≡ t.kind)) ⊎ (flying (get i d) ≡ some a)
        → ((id ≡ j) × (b ≡ t.kind)) ⊎ (flying (get j d) ≡ some b)
        → exclusive a b ≡ false
    both i j a b x (inl (e, f)) (inl (g, k)) = absurd (x (sym e ∙ g))
    both i j a b x (inl (e, f)) (inr r) = rw f (ground (arith, clear_of j b r))
    both i j a b x (inr p) (inl (g, k)) = rw k (ground (arith, clear_of i a p))
    both i j a b x (inr p) (inr r) = h.apart i j a b x p r

pub create-IsApart :
    (id : String) (t : Task) (d : Tasks) (th : Threads)
    → t.status ≡ queued
    → anyb (has_inflight (values d)) (inflight_domain t.kind) ≡ false
    → IsApart d th
    → IsApart (set id t d) (set id waiting th)
create-IsApart id t d th q free h = record {
  apart = joins id t d th free h;
  ready = λ i w. elim (Bool-cases (id == i)) [
    | inl same ↦ (t, get-set id i t d ∙ rw same refl, q)
    | inr other ↦
        let (u, g, p) = h.ready i (sym (get-set id i waiting th ∙ rw other refl) ∙ w) in
        (u, get-set id i t d ∙ rw other g, p)
  ];
}

-- a task without a thread that waits comes into flight
pub attach-IsApart :
    (id : String) (t : Task) (d : Tasks) (th : Threads)
    → get id th ≢ some waiting
    → anyb (has_inflight (values d)) (inflight_domain t.kind) ≡ false
    → IsApart d th
    → IsApart (set id t d) th
attach-IsApart id t d th idle free h = record {
  apart = joins id t d th free h;
  ready = λ i w. elim (Bool-cases (id == i)) [
    | inl same ↦ let here = (==_iff id i).0 same in absurd (idle (rw (sym here) at w))
    | inr other ↦ let (u, g, p) = h.ready i w in (u, get-set id i t d ∙ rw other g, p)
  ];
}
