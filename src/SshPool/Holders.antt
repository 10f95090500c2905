-- ===== src/SshPool/Holders.antt =====
-- The count of each key is the number of commands that hold a connection of it.
use v_llm_dashboard.Prelude.{
  ℕ, ◌+◌, ◌-◌, ◌≡◌, refl, ap, ◌∙◌, inl, inr, Bool, true, false, Option, none, some, List, [], ◌∷◌,
  leb, length, if◌then◌else◌, ◌==◌, ==_iff, string_eq, nat_eq, pair_eq, arith, Bool-cases,
  Option-cases,
}
use v_llm_dashboard.Prelude.Dict.{get, get-set, get-remove}
use v_llm_dashboard.SshPool.{
  Key, SshConnectionPool, refcount, count_up, count_down, acquire, acquire_at, install, install_at,
  abandon, release, evict, evict_oldest_idle, is_usable, is_alive, close, oldest_idle, store,
  max_connections, drop_if, touch_or_close, is_pooled,
}

-- what the users of the pool do; `made` is the client that was made meanwhile
pub data Event : Type 0 where
  acquired : Key → ℕ → Event
  installed : Key → ℕ → ℕ → Event
  abandoned : Key → Event
  released : ℕ → Key → ℕ → Event
  evicted : ℕ → Key → Event
  died : ℕ → Event

unfoldable pub step : Event → SshConnectionPool → SshConnectionPool
unfolding acquire install abandon release evict close
step (acquired key now) p = (acquire key now p).1
step (installed key made now) p = (install key made now p).1
step (abandoned key) p = abandon key p
step (released client key now) p = release client key now p
step (evicted client key) p = evict client key p
step (died client) p = close client p

unfoldable pub run : List Event → SshConnectionPool → SshConnectionPool
unfolding step
run [] p = p
run (e ∷ es) p = run es (step e p)

-- the holders of a key after an event, by the event alone
abbrev pub holds_after : Key → Event → ℕ → ℕ
holds_after k (acquired key now) n = if key == k then n + 1 else n
holds_after k (abandoned key) n = if key == k then n - 1 else n
holds_after k (released client key now) n = if key == k then n - 1 else n
holds_after k (evicted client key) n = if key == k then n - 1 else n
holds_after k (installed key made now) n = n
holds_after k (died client) n = n

abbrev pub holders : Key → List Event → ℕ → ℕ
holders k [] n = n
holders k (e ∷ es) n = holders k es (holds_after k e n)

count_up_lem :
    (k key : Key) (p : SshConnectionPool)
    → refcount k (count_up key p) ≡ (if key == k then refcount k p + 1 else refcount k p)
unfolding refcount
count_up_lem k key p = ground (
  arith,
  get-set key k (refcount key p + 1) p.refcounts,
  ap (λ x. get x p.refcounts),
  ==_iff key k,
)

count_down_lem :
    (k key : Key) (p : SshConnectionPool)
    → refcount k (count_down key p) ≡ (if key == k then refcount k p - 1 else refcount k p)
unfolding refcount count_down
count_down_lem k key p = ground (
  arith,
  get-set key k (refcount key p - 1) p.refcounts,
  get-remove key k p.refcounts,
  ap (λ x. get x p.refcounts),
  ==_iff key k,
)

-- only the counts, and so the rest of each operation, is left aside
refcounts-acquire_at :
    (o : Option (ℕ × ℕ)) (key : Key) (now : ℕ) (p : SshConnectionPool)
    → (acquire_at o key now p).1.refcounts ≡ p.refcounts
unfolding close
refcounts-acquire_at none key now p = refl
refcounts-acquire_at (some (c, t)) key now p = elim (Bool-cases (is_usable now (c, t) p)) [
  | inl good ↦ rw good refl
  | inr bad ↦ rw bad refl
]

refcounts-evict_oldest_idle :
    (p : SshConnectionPool) → (evict_oldest_idle p).refcounts ≡ p.refcounts
unfolding evict_oldest_idle close
refcounts-evict_oldest_idle p = elim (Option-cases (oldest_idle p.refcounts p.pool)) [
  | inl gone ↦ rw (gone, evict_oldest_idle) refl
  | inr ((key, c), e) ↦ rw (e, evict_oldest_idle) refl
]

refcounts-store :
    (key : Key) (c now : ℕ) (p : SshConnectionPool) → (store key c now p).refcounts ≡ p.refcounts
refcounts-store key c now p = elim (Bool-cases (leb max_connections (length p.pool))) [
  | inl at_bound ↦ rw at_bound (refcounts-evict_oldest_idle p)
  | inr below ↦ rw below refl
]

refcounts-install_at :
    (o : Option (ℕ × ℕ)) (key : Key) (c now : ℕ) (p : SshConnectionPool)
    → (install_at o key c now p).1.refcounts ≡ p.refcounts
unfolding close
refcounts-install_at none key c now p = refcounts-store key c now p
refcounts-install_at (some (d, t)) key c now p = elim (Bool-cases (is_usable now (d, t) p)) [
  | inl good ↦ rw good refl
  | inr bad ↦ rw bad (refcounts-store key c now (close d p))
]

refcounts-drop_if :
    (b : Bool) (key : Key) (p : SshConnectionPool) → (drop_if b key p).refcounts ≡ p.refcounts
refcounts-drop_if true key p = refl
refcounts-drop_if false key p = refl

refcounts-touch_or_close :
    (b : Bool) (key : Key) (c now : ℕ) (p : SshConnectionPool)
    → (touch_or_close b key c now p).refcounts ≡ p.refcounts
unfolding close
refcounts-touch_or_close true key c now p = refl
refcounts-touch_or_close false key c now p = refl

refcounts-release :
    (c : ℕ) (key : Key) (now : ℕ) (p : SshConnectionPool)
    → (release c key now p).refcounts ≡ (count_down key p).refcounts
unfolding release close
refcounts-release c key now p = elim (Bool-cases (is_alive c (count_down key p))) [
  | inl up ↦ rw up (
      refcounts-touch_or_close (is_pooled (get key (count_down key p).pool) c) key c now
        (count_down key p))
  | inr down ↦ rw down (
      refcounts-drop_if (is_pooled (get key (count_down key p).pool) c) key
        (close c (count_down key p)))
]

refcount-same :
    (k : Key) (p q : SshConnectionPool) → p.refcounts ≡ q.refcounts → refcount k p ≡ refcount k q
unfolding refcount
refcount-same k p q e = rw e refl

pub step-holders :
    (k : Key) (e : Event) (p : SshConnectionPool)
    → refcount k (step e p) ≡ holds_after k e (refcount k p)
unfolding step acquire install abandon evict close
step-holders k (acquired key now) p =
    refcount-same k _ (count_up key p)
      (refcounts-acquire_at (get key p.pool) key now (count_up key p))
    ∙ count_up_lem k key p
step-holders k (installed key made now) p =
    refcount-same k _ p (refcounts-install_at (get key p.pool) key made now p)
step-holders k (abandoned key) p = count_down_lem k key p
step-holders k (released c key now) p =
    refcount-same k _ (count_down key p) (refcounts-release c key now p) ∙ count_down_lem k key p
step-holders k (evicted c key) p =
    refcount-same k _ (count_down key p)
      (refcounts-drop_if (is_pooled (get key (count_down key p).pool) c) key (count_down key p))
    ∙ count_down_lem k key p
step-holders k (died c) p = refcount-same k _ p refl

-- In every history the count of a key is the number of its holders: the requests, less those that
-- failed, were released or were evicted.
pub run-holders :
    (k : Key) (es : List Event) (p : SshConnectionPool)
    → refcount k (run es p) ≡ holders k es (refcount k p)
unfolding run
run-holders k [] p = refl
run-holders k (e ∷ es) p = run-holders k es (step e p) ∙ ap (holders k es) (step-holders k e p)
