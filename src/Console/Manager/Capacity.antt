-- ===== src/Console/Manager/Capacity.antt =====
-- The bound on the sessions, and what an eviction spares.
use v_llm_dashboard.Prelude.{
  ℕ, suc, ◌≤◌, ◌≡◌, refl, inl, inr, String, Bool, true, false, Option, none, some, List, [], ◌∷◌,
  leb, length, All, string_eq, nat_eq, arith, Bool-cases, Option-cases,
}
use v_llm_dashboard.Prelude.Dict.{Dict, get, length-set, length-remove-le}
use v_llm_dashboard.Prelude.Set.{contains}
use v_llm_dashboard.Console.Manager.{
  Slot, creating, session, Manager, max_sessions, close, is_stale, live_slots, purge_stale,
  is_evictable, without_first, close_if, evict_one_locked, attach, detach, mark, make_room,
  claim_new, claim_slot, claim, install_at, install, opened,
}

length-live_slots : (alive : List ℕ) (d : Dict String Slot) → length (live_slots alive d) ≤ length d
unfolding live_slots
length-live_slots alive [] = omega arith
length-live_slots alive ((k, v) ∷ d) = ground (arith, length-live_slots alive d)

pub get-live_slots :
    (alive : List ℕ) (k : String) (v : Slot) (d : Dict String Slot)
    → get k d ≡ some v
    → is_stale alive v ≡ false
    → get k (live_slots alive d) ≡ some v
unfolding get live_slots
get-live_slots alive k v [] e h = absurd (ground arith)
get-live_slots alive k v ((j, u) ∷ d) e h = ground (arith, get-live_slots alive k v d)

length-without_first :
    (p : Slot → Bool) (d r : Dict String Slot) (s : Option ℕ)
    → without_first p d ≡ some (r, s)
    → suc (length r) ≡ length d
unfolding without_first
length-without_first p [] r s e = absurd (ground arith)
length-without_first p ((k, v) ∷ d) r s e = elim (Option-cases (without_first p d)) [
  | inl gone ↦ ground arith
  | inr ((r', s'), f) ↦ ground (arith, length-without_first p d r' s' f)
]

pub get-without_first :
    (p : Slot → Bool) (k : String) (v : Slot) (d r : Dict String Slot) (s : Option ℕ)
    → without_first p d ≡ some (r, s)
    → get k d ≡ some v
    → p v ≡ false
    → get k r ≡ some v
unfolding get without_first
get-without_first p k v [] r s e g h = absurd (ground arith)
get-without_first p k v ((j, u) ∷ d) r s e g h = elim (Option-cases (without_first p d)) [
  | inl gone ↦ ground arith
  | inr ((r', s'), f) ↦ ground (arith, get-without_first p k v d r' s' f)
]

pub picked-without_first :
    (p : Slot → Bool) (d r : Dict String Slot) (s : ℕ)
    → without_first p d ≡ some (r, some s)
    → p (session s) ≡ true
unfolding without_first
picked-without_first p [] r s e = absurd (ground arith)
picked-without_first p ((k, creating) ∷ d) r s e = elim (Option-cases (without_first p d)) [
  | inl gone ↦ absurd (ground arith)
  | inr ((r', s'), f) ↦ ground (arith, picked-without_first p d r' s)
]
picked-without_first p ((k, session u) ∷ d) r s e = elim (Option-cases (without_first p d)) [
  | inl gone ↦ ground arith
  | inr ((r', s'), f) ↦ ground (arith, picked-without_first p d r' s)
]

pub none-without_first :
    (p : Slot → Bool) (d : Dict String Slot) → without_first p d ≡ none → All (λ x. p x.1 ≡ false) d
unfolding without_first
none-without_first p [] e = tt
none-without_first p ((k, v) ∷ d) e = elim (Option-cases (without_first p d)) [
  | inl gone ↦ (ground arith, none-without_first p d gone)
  | inr (x, f) ↦ absurd (ground arith)
]

-- the bound
abbrev pub IsBounded : Manager → Type 0
IsBounded m = length m.sessions ≤ max_sessions

pub sessions-close_if : (s : Option ℕ) (m : Manager) → (close_if s m).sessions ≡ m.sessions
unfolding close
sessions-close_if none m = refl
sessions-close_if (some s) m = refl

evict-length :
    (m m' : Manager) → evict_one_locked m ≡ some m' → suc (length m'.sessions) ≡ length m.sessions
unfolding evict_one_locked
evict-length m m' e = elim (Option-cases (without_first (is_evictable m) m.sessions)) [
  | inl gone ↦ absurd (ground arith)
  | inr ((d, s), f) ↦ ground (arith, length-without_first (is_evictable m) m.sessions d s f)
]

length-mark : (key : String) (m : Manager) → length (mark key m).sessions ≤ suc (length m.sessions)
length-mark key m = ground (arith, length-set key creating m.sessions)

make_room-IsBounded :
    (key : String) (o : Option Manager) (m : Manager)
    → evict_one_locked m ≡ o
    → IsBounded m
    → IsBounded (make_room key o m).1
make_room-IsBounded key none m e b = b
make_room-IsBounded key (some m') m e b = omega (arith, length-mark key m', evict-length m m' e)

claim_new-IsBounded : (key : String) (m : Manager) → IsBounded m → IsBounded (claim_new key m).1
claim_new-IsBounded key m b = elim (Bool-cases (leb max_sessions (length m.sessions))) [
  | inl at_bound ↦ rw at_bound (make_room-IsBounded key (evict_one_locked m) m refl b)
  | inr below ↦ rw below (ground (arith, length-mark key m))
]

claim_slot-IsBounded :
    (o : Option Slot) (key : String) (m : Manager) → IsBounded m → IsBounded (claim_slot o key m).1
claim_slot-IsBounded none key m b = claim_new-IsBounded key m b
claim_slot-IsBounded (some creating) key m b = b
claim_slot-IsBounded (some (session s)) key m b = elim (Bool-cases (contains s m.alive)) [
  | inl up ↦ rw up b
  | inr down ↦ rw down (claim_new-IsBounded key m b)
]

claim-IsBounded : (key : String) (m : Manager) → IsBounded m → IsBounded (claim key m).1
unfolding claim purge_stale
claim-IsBounded key m b =
    claim_slot-IsBounded (get key (purge_stale m).sessions) key (purge_stale m)
      (omega (arith, length-live_slots m.alive m.sessions))

install-IsBounded :
    (key : String) (made : Option ℕ) (m : Manager) → IsBounded m → IsBounded (install key made m).1
unfolding install
install-IsBounded key made m b = go (get key m.sessions) made refl
  where
    go :
        (o : Option Slot) (made : Option ℕ)
        → get key m.sessions ≡ o
        → IsBounded (install_at o key made m).1
    go none made e = rw (sessions-close_if made m) b
    go (some creating) none e = omega (arith, length-remove-le key m.sessions)
    go (some creating) (some s) e = ground (arith, length-set key (session s) m.sessions)
    go (some (session u)) made e = rw (sessions-close_if made m) b

-- what happens to the manager; `ended` is a reader that stops by itself
pub data Event : Type 0 where
  claiming : String → Event
  installing : String → Option ℕ → Event
  attaching detaching opening ended : ℕ → Event

unfoldable pub step : Event → Manager → Manager
unfolding claim install attach detach opened close
step (claiming key) m = (claim key m).1
step (installing key made) m = (install key made m).1
step (attaching s) m = attach s m
step (detaching s) m = detach s m
step (opening s) m = opened s m
step (ended s) m = close s m

unfoldable pub run : List Event → Manager → Manager
unfolding step
run [] m = m
run (e ∷ es) m = run es (step e m)

-- No history of the manager holds more sessions, with those in creation, than the bound.
pub run-IsBounded : (es : List Event) (m : Manager) → IsBounded m → IsBounded (run es m)
unfolding run step attach detach opened close
run-IsBounded [] m b = b
run-IsBounded (claiming key ∷ es) m b = run-IsBounded es (claim key m).1 (claim-IsBounded key m b)
run-IsBounded (installing key made ∷ es) m b =
    run-IsBounded es (install key made m).1 (install-IsBounded key made m b)
run-IsBounded (attaching s ∷ es) m b = run-IsBounded es (attach s m) b
run-IsBounded (detaching s ∷ es) m b = run-IsBounded es (detach s m) b
run-IsBounded (opening s ∷ es) m b = run-IsBounded es (opened s m) b
run-IsBounded (ended s ∷ es) m b = run-IsBounded es (close s m) b
