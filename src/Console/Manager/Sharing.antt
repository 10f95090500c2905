-- ===== src/Console/Manager/Sharing.antt =====
-- A claim spares the consoles in use, makes one creation per key, and is refused only when nothing
-- can be evicted.
use v_llm_dashboard.Prelude.{
  ℕ, ◌≤◌, ◌≡◌, ◌≢◌, refl, sym, ap, ◌∙◌, inl, inr, String, true, false, Option, none, some, ltb, leb,
  length, All, ◌==◌, ==_iff, ==_refl, string_eq, nat_eq, arith, Bool-cases, Option-cases,
}
use v_llm_dashboard.Prelude.Dict.{Dict, get, get-set}
use v_llm_dashboard.Prelude.Set.{contains, contains-discard}
use v_llm_dashboard.Console.Manager.{
  Slot, creating, session, Manager, max_sessions, attached, close, purge_stale, is_evictable,
  without_first, close_if, evict_one_locked, found, in_flight, full, claimed, mark, make_room,
  claim_new, claim_slot, claim,
}
use v_llm_dashboard.Console.Manager.Capacity.{
  get-live_slots, get-without_first, picked-without_first, none-without_first,
}

-- The session is the one of its key, its reader runs, and a WebSocket is attached to it.
pub record InUse (k : String) (s : ℕ) (m : Manager) : Type 0 where
  pub kept : get k m.sessions ≡ some (session s)
  pub runs : contains s m.alive ≡ true
  pub watched : ltb 0 (attached s m) ≡ true

InUse-purge_stale : (k : String) (s : ℕ) (m : Manager) → InUse k s m → InUse k s (purge_stale m)
unfolding purge_stale attached
InUse-purge_stale k s m u = record {
  kept = get-live_slots m.alive k (session s) m.sessions u.kept (ground (arith, u.runs));
  runs = u.runs;
  watched = u.watched;
}

InUse-close_if :
    (k : String) (s : ℕ) (o : Option ℕ) (d : Dict String Slot) (m : Manager)
    → InUse k s m
    → get k d ≡ some (session s)
    → ((v : ℕ) → o ≡ some v → (v == s) ≡ false)
    → InUse k s (record (close_if o m) { sessions = d })
unfolding close attached
InUse-close_if k s none d m u g h = record { kept = g; runs = u.runs; watched = u.watched }
InUse-close_if k s (some v) d m u g h = record {
  kept = g;
  runs = contains-discard v s m.alive ∙ rw (h v refl) u.runs;
  watched = u.watched;
}

not_picked :
    (s : ℕ) (m : Manager) (d : Dict String Slot) (o : Option ℕ)
    → ltb 0 (attached s m) ≡ true
    → without_first (is_evictable m) m.sessions ≡ some (d, o)
    → (v : ℕ) → o ≡ some v
    → (v == s) ≡ false
unfolding is_evictable
not_picked s m d none w f v p = absurd (ground arith)
not_picked s m d (some x) w f v p = elim (Bool-cases (x == s)) [
  | inl same ↦
      let picked = picked-without_first (is_evictable m) m.sessions d x f in
      absurd (ground (arith, picked, ap (λ y. attached y m) ((==_iff x s).0 same)))
  | inr other ↦ ground arith
]

other_key :
    (key k : String) (s : ℕ) (m : Manager) (o : Option Slot)
    → get key m.sessions ≡ o
    → get k m.sessions ≡ some (session s)
    → o ≢ some (session s)
    → (key == k) ≡ false
other_key key k s m o e g h = elim (Bool-cases (key == k)) [
  | inl same ↦ absurd (h (sym e ∙ (ap (λ x. get x m.sessions) ((==_iff key k).0 same) ∙ g)))
  | inr other ↦ other
]

dead :
    (v s : ℕ) (m : Manager)
    → contains v m.alive ≡ false
    → contains s m.alive ≡ true
    → some (session v) ≢ some (session s)
dead v s m down up p =
    let same : v ≡ s = ground arith in absurd (ground (arith, ap (λ x. contains x m.alive) same))

InUse-evict :
    (k : String) (s : ℕ) (m m' : Manager)
    → InUse k s m
    → evict_one_locked m ≡ some m'
    → InUse k s m'
unfolding evict_one_locked is_evictable
InUse-evict k s m m' u e = elim (Option-cases (without_first (is_evictable m) m.sessions)) [
  | inl gone ↦ absurd (ground arith)
  | inr ((d, o), f) ↦
      let same : m' ≡ record (close_if o m) { sessions = d } = ground arith in
      rw same (
        InUse-close_if k s o d m u
          (get-without_first (is_evictable m) k (session s) m.sessions d o f u.kept
            (ground (arith, u.watched)))
          (λ v p. not_picked s m d o u.watched f v p))
]

InUse-mark :
    (key k : String) (s : ℕ) (m : Manager)
    → (key == k) ≡ false
    → InUse k s m
    → InUse k s (mark key m)
unfolding attached
InUse-mark key k s m other u = record {
  kept = get-set key k creating m.sessions ∙ rw other u.kept;
  runs = u.runs;
  watched = u.watched;
}

InUse-make_room :
    (key k : String) (s : ℕ) (o : Option Manager) (m : Manager)
    → evict_one_locked m ≡ o
    → (key == k) ≡ false
    → InUse k s m
    → InUse k s (make_room key o m).1
InUse-make_room key k s none m e other u = u
InUse-make_room key k s (some m') m e other u =
    InUse-mark key k s m' other (InUse-evict k s m m' u e)

InUse-claim_new :
    (key k : String) (s : ℕ) (m : Manager)
    → (key == k) ≡ false
    → InUse k s m
    → InUse k s (claim_new key m).1
InUse-claim_new key k s m other u = elim (Bool-cases (leb max_sessions (length m.sessions))) [
  | inl at_bound ↦ rw at_bound (InUse-make_room key k s (evict_one_locked m) m refl other u)
  | inr below ↦ rw below (InUse-mark key k s m other u)
]

InUse-claim_slot :
    (o : Option Slot) (key k : String) (s : ℕ) (m : Manager)
    → get key m.sessions ≡ o
    → InUse k s m
    → InUse k s (claim_slot o key m).1
InUse-claim_slot none key k s m e u =
    InUse-claim_new key k s m (other_key key k s m none e u.kept (ground arith)) u
InUse-claim_slot (some creating) key k s m e u = u
InUse-claim_slot (some (session v)) key k s m e u = elim (Bool-cases (contains v m.alive)) [
  | inl up ↦ rw up u
  | inr down ↦ rw down (
      InUse-claim_new key k s m
        (other_key key k s m (some (session v)) e u.kept (dead v s m down u.runs)) u)
]

-- A console that is in use stays in use, whatever key a claim is for.
pub claim-InUse : (key k : String) (s : ℕ) (m : Manager) → InUse k s m → InUse k s (claim key m).1
unfolding claim
claim-InUse key k s m u =
    InUse-claim_slot (get key (purge_stale m).sessions) key k s (purge_stale m) refl
      (InUse-purge_stale k s m u)

get-mark : (key : String) (m : Manager) → get key (mark key m).sessions ≡ some creating
get-mark key m = get-set key key creating m.sessions ∙ rw (==_refl key) refl

-- the way to `claimed` leaves the mark
claimed-make_room :
    (key : String) (o : Option Manager) (m : Manager)
    → (make_room key o m).0 ≡ claimed
    → get key (make_room key o m).1.sessions ≡ some creating
claimed-make_room key none m e = absurd (ground arith)
claimed-make_room key (some m') m e = get-mark key m'

claimed-claim_new :
    (key : String) (m : Manager)
    → (claim_new key m).0 ≡ claimed
    → get key (claim_new key m).1.sessions ≡ some creating
claimed-claim_new key m e = elim (Bool-cases (leb max_sessions (length m.sessions))) [
  | inl at_bound ↦ rw at_bound (claimed-make_room key (evict_one_locked m) m (rw at_bound at e))
  | inr below ↦ rw below (get-mark key m)
]

claimed-claim_slot :
    (o : Option Slot) (key : String) (m : Manager)
    → (claim_slot o key m).0 ≡ claimed
    → get key (claim_slot o key m).1.sessions ≡ some creating
claimed-claim_slot none key m e = claimed-claim_new key m e
claimed-claim_slot (some creating) key m e = absurd (ground arith)
claimed-claim_slot (some (session s)) key m e = elim (Bool-cases (contains s m.alive)) [
  | inl up ↦ absurd (claim_found s (rw up at e))
  | inr down ↦ rw down (claimed-claim_new key m (rw down at e))
]
  where
    claim_found : (s : ℕ) → found s ≢ claimed
    claim_found s p = absurd (ground arith)

-- While a creation is in flight every further claim for its key is told to wait, and changes at
-- most the entries of dead sessions.
pub claim-claim :
    (key : String) (m : Manager)
    → (claim key m).0 ≡ claimed
    → claim key (claim key m).1 ≡ (in_flight, purge_stale (claim key m).1)
unfolding claim
claim-claim key m e =
    let marked = claimed-claim_slot (get key (purge_stale m).sessions) key (purge_stale m) e in
    let m' = (claim_slot (get key (purge_stale m).sessions) key (purge_stale m)).1 in
    rw (get-live_slots m'.alive key creating m'.sessions marked) refl

full-make_room :
    (key : String) (o : Option Manager) (m : Manager)
    → evict_one_locked m ≡ o
    → (make_room key o m).0 ≡ full
    → All (λ x. is_evictable m x.1 ≡ false) m.sessions
unfolding evict_one_locked
full-make_room key (some m') m g e = absurd (ground arith)
full-make_room key none m g e = elim (Option-cases (without_first (is_evictable m) m.sessions)) [
  | inl gone ↦ none-without_first (is_evictable m) m.sessions gone
  | inr (x, f) ↦ absurd (ground arith)
]

abbrev pub IsFull : Manager → Type 0
IsFull m = (max_sessions ≤ length m.sessions) × All (λ x. is_evictable m x.1 ≡ false) m.sessions

full-claim_new : (key : String) (m : Manager) → (claim_new key m).0 ≡ full → IsFull m
full-claim_new key m e = elim (Bool-cases (leb max_sessions (length m.sessions))) [
  | inl at_bound ↦ (ground arith, full-make_room key (evict_one_locked m) m refl (rw at_bound at e))
  | inr below ↦ absurd (ground arith)
]

full-claim_slot :
    (o : Option Slot) (key : String) (m : Manager) → (claim_slot o key m).0 ≡ full → IsFull m
full-claim_slot none key m e = full-claim_new key m e
full-claim_slot (some creating) key m e = absurd (ground arith)
full-claim_slot (some (session s)) key m e = elim (Bool-cases (contains s m.alive)) [
  | inl up ↦ absurd (claim_found s (rw up at e))
  | inr down ↦ full-claim_new key m (rw down at e)
]
  where
    claim_found : (s : ℕ) → found s ≢ full
    claim_found s p = absurd (ground arith)

-- A claim is refused for capacity only when the bound is reached and every session without the
-- dead ones is in creation or has a WebSocket attached.
pub claim-full : (key : String) (m : Manager) → (claim key m).0 ≡ full → IsFull (purge_stale m)
unfolding claim
claim-full key m e = full-claim_slot (get key (purge_stale m).sessions) key (purge_stale m) e
