-- ===== src/SshPool/Idle.antt =====
-- backend/executor/remote/ssh.py: a command that runs for longer than the idle time.
use v_llm_dashboard.Prelude.{
  ℕ, ◌+◌, ◌<◌, ◌≡◌, refl, ap, ◌∙◌, inl, inr, Bool, true, false, Option, none, some, List, [], ◌∷◌,
  All, length, leb, ◌==◌, ==_refl, string_eq, nat_eq, pair_eq, arith, Bool-cases,
}
use v_llm_dashboard.Prelude.Dict.{get, get-set, get-remove}
use v_llm_dashboard.Prelude.Set.{discard}
use v_llm_dashboard.SshPool.{
  Key, SshConnectionPool, max_idle_time, max_connections, refcount, count_up, count_down, acquire,
  acquire_at, install, install_at, abandon, release, evict, evict_oldest_idle, is_usable, is_alive,
  close, store, drop_if, touch_or_close, is_pooled,
}
use v_llm_dashboard.SshPool.Spared.{evict_oldest_idle-spares, acquire-stale}
use v_llm_dashboard.SshPool.Holders.{
  Event, acquired, installed, abandoned, released, evicted, died, step, run, step-holders,
}

-- whether an event is about the connections of this key
abbrev pub concerns : Key → Event → Bool
concerns key (acquired k now) = k == key
concerns key (installed k made now) = k == key
concerns key (abandoned k) = k == key
concerns key (released client k now) = k == key
concerns key (evicted client k) = k == key
concerns key (died client) = false

get-acquire_at :
    (key k : Key) (now : ℕ) (o : Option (ℕ × ℕ)) (p : SshConnectionPool)
    → (k == key) ≡ false
    → get key (acquire_at o k now p).1.pool ≡ get key p.pool
unfolding close
get-acquire_at key k now none p e = refl
get-acquire_at key k now (some (c, t)) p e = elim (Bool-cases (is_usable now (c, t) p)) [
  | inl good ↦ rw good (get-set k key (c, now) _ ∙ (rw e (get-remove k key p.pool ∙ rw e refl)))
  | inr bad ↦ rw bad (get-remove k key p.pool ∙ rw e refl)
]

get-store :
    (key k : Key) (c now : ℕ) (p : SshConnectionPool)
    → (k == key) ≡ false
    → 0 < refcount key p
    → get key (store k c now p).pool ≡ get key p.pool
get-store key k c now p e busy = elim (Bool-cases (leb max_connections (length p.pool))) [
  | inl full ↦ rw full (
      get-set k key (c, now) (evict_oldest_idle p).pool
      ∙ (rw e (evict_oldest_idle-spares key p busy)))
  | inr room ↦ rw room (get-set k key (c, now) p.pool ∙ rw e refl)
]

get-install_at :
    (key k : Key) (c now : ℕ) (o : Option (ℕ × ℕ)) (p : SshConnectionPool)
    → (k == key) ≡ false
    → 0 < refcount key p
    → get key (install_at o k c now p).1.pool ≡ get key p.pool
unfolding close refcount
get-install_at key k c now none p e busy = get-store key k c now p e busy
get-install_at key k c now (some (d, t)) p e busy = elim (Bool-cases (is_usable now (d, t) p)) [
  | inl good ↦ rw good (get-set k key (d, now) p.pool ∙ rw e refl)
  | inr bad ↦ rw bad (get-store key k c now (close d p) e busy)
]

get-drop_if :
    (key k : Key) (b : Bool) (p : SshConnectionPool)
    → (k == key) ≡ false
    → get key (drop_if b k p).pool ≡ get key p.pool
get-drop_if key k true p e = get-remove k key p.pool ∙ rw e refl
get-drop_if key k false p e = refl

get-touch_or_close :
    (key k : Key) (b : Bool) (c now : ℕ) (p : SshConnectionPool)
    → (k == key) ≡ false
    → get key (touch_or_close b k c now p).pool ≡ get key p.pool
unfolding close
get-touch_or_close key k true c now p e =
    get-set k key (c, now) _ ∙ (rw e (get-remove k key p.pool ∙ rw e refl))
get-touch_or_close key k false c now p e = refl

get-release :
    (key k : Key) (c now : ℕ) (p : SshConnectionPool)
    → (k == key) ≡ false
    → get key (release c k now p).pool ≡ get key p.pool
unfolding release count_down close
get-release key k c now p e = elim (Bool-cases (is_alive c (count_down k p))) [
  | inl up ↦ rw up (
      get-touch_or_close key k (is_pooled (get k (count_down k p).pool) c) c now (count_down k p) e)
  | inr down ↦
      rw down
        (get-drop_if key k (is_pooled (get k (count_down k p).pool) c) (close c (count_down k p)) e)
]

get-step :
    (key : Key) (v : Event) (p : SshConnectionPool)
    → concerns key v ≡ false
    → 0 < refcount key p
    → get key (step v p).pool ≡ get key p.pool
unfolding step acquire install abandon evict close count_down
get-step key (acquired k now) p e busy = get-acquire_at key k now (get k p.pool) (count_up k p) e
get-step key (installed k made now) p e busy = get-install_at key k made now (get k p.pool) p e busy
get-step key (abandoned k) p e busy = refl
get-step key (released c k now) p e busy = get-release key k c now p e
get-step key (evicted c k) p e busy =
    get-drop_if key k (is_pooled (get k (count_down k p).pool) c) (count_down k p) e
get-step key (died c) p e busy = refl

refcount-step :
    (key : Key) (v : Event) (p : SshConnectionPool)
    → concerns key v ≡ false
    → refcount key (step v p) ≡ refcount key p
refcount-step key (acquired k now) p e = step-holders key (acquired k now) p ∙ rw e refl
refcount-step key (installed k made now) p e = step-holders key (installed k made now) p
refcount-step key (abandoned k) p e = step-holders key (abandoned k) p ∙ rw e refl
refcount-step key (released c k now) p e = step-holders key (released c k now) p ∙ rw e refl
refcount-step key (evicted c k) p e = step-holders key (evicted c k) p ∙ rw e refl
refcount-step key (died c) p e = step-holders key (died c) p

get-run :
    (key : Key) (es : List Event) (p : SshConnectionPool)
    → All (λ v. concerns key v ≡ false) es
    → 0 < refcount key p
    → (get key (run es p).pool ≡ get key p.pool) × (refcount key (run es p) ≡ refcount key p)
unfolding run
get-run key [] p a busy = (refl, refl)
get-run key (v ∷ es) p a busy =
    let same = refcount-step key v p a.0 in
    let rest = get-run key es (step v p) a.1 (omega (arith, same, busy)) in
    (rest.0 ∙ get-step key v p a.0 busy, rest.1 ∙ same)

-- the pool once a command has taken the connection that it had to make
abbrev pub opened : Key → ℕ → ℕ → SshConnectionPool → SshConnectionPool
opened key c t p = (install key c t (acquire key t p).1).1

get-store_own :
    (key : Key) (c t : ℕ) (p : SshConnectionPool) → get key (store key c t p).pool ≡ some (c, t)
get-store_own key c t p = elim (Bool-cases (leb max_connections (length p.pool))) [
  | inl full ↦ rw full (get-set key key (c, t) (evict_oldest_idle p).pool ∙ rw (==_refl key) refl)
  | inr room ↦ rw room (get-set key key (c, t) p.pool ∙ rw (==_refl key) refl)
]

acquire_fresh :
    (key : Key) (t : ℕ) (p : SshConnectionPool)
    → get key p.pool ≡ none
    → acquire key t p ≡ (none, count_up key p)
unfolding acquire
acquire_fresh key t p e = rw e refl

install_fresh :
    (key : Key) (c t : ℕ) (p : SshConnectionPool)
    → get key p.pool ≡ none
    → install key c t p ≡ (c, store key c t p)
unfolding install
install_fresh key c t p e = rw e refl

get-opened :
    (key : Key) (c t : ℕ) (p : SshConnectionPool)
    → get key p.pool ≡ none
    → (get key (opened key c t p).pool ≡ some (c, t))
      × (refcount key (opened key c t p) ≡ refcount key p + 1)
unfolding step
get-opened key c t p e =
    let taken : (acquire key t p).1 ≡ count_up key p = ap (λ x. x.1) (acquire_fresh key t p e) in
    let up : refcount key (acquire key t p).1 ≡ refcount key p + 1 =
      step-holders key (acquired key t) p ∙ rw (==_refl key) refl in
    let made = install_fresh key c t (count_up key p) e in
    (
      ap (λ q. get key (install key c t q).1.pool) taken
          ∙ ap (λ x. get key x.1.pool) made
          ∙ get-store_own key c t (count_up key p),
      step-holders key (installed key c t) (acquire key t p).1 ∙ up,
    )

-- A command takes a connection that it had to make, and still runs; meanwhile the pool serves
-- other keys only. Then the next request for that key, later than the idle time after the command
-- began, still counts the command and closes the very connection it runs on, and no other.
pub acquire-run :
    (key : Key) (c t now : ℕ) (es : List Event) (p : SshConnectionPool)
    → get key p.pool ≡ none
    → All (λ v. concerns key v ≡ false) es
    → t + max_idle_time < now
    → let q = run es (opened key c t p) in
      (get key q.pool ≡ some (c, t))
      × (refcount key q ≡ refcount key p + 1)
      × ((acquire key now q).0 ≡ none)
      × (is_alive c (acquire key now q).1 ≡ false)
      × ((acquire key now q).1.active ≡ discard c q.active)
acquire-run key c t now es p e a late =
    let o = get-opened key c t p e in
    let r = get-run key es (opened key c t p) a (omega (arith, o.1)) in
    let held = r.0 ∙ o.0 in
    let closed = acquire-stale key c t now (run es (opened key c t p)) held late in
    (held, r.1 ∙ o.1, closed.0, closed.1, closed.2)
