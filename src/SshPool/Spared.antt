-- ===== src/SshPool/Spared.antt =====
-- Which connections the pool closes and which it spares, and how large it grows.
use v_llm_dashboard.Prelude.{
  ℕ, suc, ◌+◌, ◌≤◌, ◌<◌, ◌≡◌, ◌≢◌, refl, sym, ap, ◌∙◌, ◌⊎◌, inl, inr, true, false, Option, none,
  some, [], ◌∷◌, ltb, leb, length, All, ◌==◌, ==_iff, ==_refl, string_eq, nat_eq, pair_eq, arith,
  Bool-cases, Option-cases,
}
use v_llm_dashboard.Prelude.Dict.{Dict, get, set, has, get-remove, length-set, length-remove}
use v_llm_dashboard.Prelude.Set.{contains, discard, contains-discard}
use v_llm_dashboard.SshPool.{
  Key, SshConnectionPool, max_idle_time, max_connections, or_zero, refcount, count_up, count_down,
  acquire, install, install_at, release, evict, evict_oldest_idle, is_usable, is_alive, close,
  oldest_idle, store,
}

oldest_idle-is_idle :
    (r : Dict Key ℕ) (d : Dict Key (ℕ × ℕ)) (key : Key) (c : ℕ)
    → oldest_idle r d ≡ some (key, c)
    → or_zero (get key r) ≡ 0
unfolding oldest_idle
oldest_idle-is_idle r [] key c e = absurd (ground arith)
oldest_idle-is_idle r ((k, (x, t)) ∷ d) key c e = elim (Bool-cases (ltb 0 (or_zero (get k r)))) [
  | inl busy ↦ oldest_idle-is_idle r d key c (rw busy at e)
  | inr idle ↦ let same : k ≡ key = ground arith in rw (sym same) (ground arith)
]

oldest_idle-has :
    (r : Dict Key ℕ) (d : Dict Key (ℕ × ℕ)) (key : Key) (c : ℕ)
    → oldest_idle r d ≡ some (key, c)
    → has key d ≡ true
unfolding oldest_idle get
oldest_idle-has r [] key c e = absurd (ground arith)
oldest_idle-has r ((k, (x, t)) ∷ d) key c e =
    ground (arith, oldest_idle-has r d key c, ==_iff k key)

oldest_idle-none :
    (r : Dict Key ℕ) (d : Dict Key (ℕ × ℕ))
    → oldest_idle r d ≡ none
    → All (λ x. or_zero (get x.0 r) ≢ 0) d
unfolding oldest_idle
oldest_idle-none r [] e = tt
oldest_idle-none r ((k, (x, t)) ∷ d) e = elim (Bool-cases (ltb 0 (or_zero (get k r)))) [
  | inl busy ↦ ((λ z. absurd (ground arith)), oldest_idle-none r d (rw busy at e))
  | inr idle ↦ absurd (ground arith)
]

-- An eviction for room never takes the connection of a key that a command uses.
pub evict_oldest_idle-spares :
    (k : Key) (p : SshConnectionPool)
    → 0 < refcount k p
    → get k (evict_oldest_idle p).pool ≡ get k p.pool
unfolding evict_oldest_idle refcount close
evict_oldest_idle-spares k p busy = elim (Option-cases (oldest_idle p.refcounts p.pool)) [
  | inl gone ↦ rw (gone, evict_oldest_idle) refl
  | inr ((key, c), e) ↦
      let idle = oldest_idle-is_idle p.refcounts p.pool key c e in
      rw (e, evict_oldest_idle)
        (get-remove key k p.pool
          ∙ ground (arith, idle, ==_iff key k, ap (λ x. or_zero (get x p.refcounts))))
]

-- every pooled connection is in use
abbrev pub AllBusy : SshConnectionPool → Type 0
AllBusy p = All (λ x. or_zero (get x.0 p.refcounts) ≢ 0) p.pool

evicted-length :
    (p : SshConnectionPool) → (length (evict_oldest_idle p).pool < length p.pool) ⊎ AllBusy p
unfolding evict_oldest_idle close
evicted-length p = elim (Option-cases (oldest_idle p.refcounts p.pool)) [
  | inl gone ↦ inr (oldest_idle-none p.refcounts p.pool gone)
  | inr ((key, c), e) ↦ inl (
      rw (e, evict_oldest_idle)
        (length-remove key p.pool (oldest_idle-has p.refcounts p.pool key c e)))
]

length-set-le :
    (key : Key) (v : ℕ × ℕ) (d : Dict Key (ℕ × ℕ)) → length (set key v d) ≤ suc (length d)
length-set-le key v d = ground (arith, length-set key v d)

store-bound :
    (key : Key) (c now : ℕ) (p : SshConnectionPool)
    → length p.pool ≤ max_connections
    → (length (store key c now p).pool ≤ max_connections) ⊎ AllBusy p
store-bound key c now p b = elim (Bool-cases (leb max_connections (length p.pool))) [
  | inl at_bound ↦ elim (evicted-length p) [
    | inl less ↦ inl (
        rw at_bound (omega (arith, less, b, length-set-le key (c, now) (evict_oldest_idle p).pool)))
    | inr busy ↦ inr busy
  ]
  | inr below ↦ inl (rw below (ground (arith, length-set-le key (c, now) p.pool)))
]

-- A new connection keeps the pool within its bound, or every pooled connection is in use.
pub install-bound :
    (key : Key) (c now : ℕ) (p : SshConnectionPool)
    → length p.pool ≤ max_connections
    → (length (install key c now p).1.pool ≤ max_connections) ⊎ AllBusy p
unfolding install close
install-bound key c now p b = go (get key p.pool) refl
  where
    go :
        (o : Option (ℕ × ℕ))
        → get key p.pool ≡ o
        → (length (install_at o key c now p).1.pool ≤ max_connections) ⊎ AllBusy p
    go none e = store-bound key c now p b
    go (some (d, t)) e = elim (Bool-cases (is_usable now (d, t) p)) [
      | inl good ↦ inl (rw good (ground (arith, length-set key (d, now) p.pool)))
      | inr bad ↦ rw bad (store-bound key c now (close d p) b)
    ]

pub acquire-stale :
    (key : Key) (c t now : ℕ) (p : SshConnectionPool)
    → get key p.pool ≡ some (c, t)
    → t + max_idle_time < now
    → ((acquire key now p).0 ≡ none)
      × (is_alive c (acquire key now p).1 ≡ false)
      × ((acquire key now p).1.active ≡ discard c p.active)
unfolding acquire is_usable is_alive close
acquire-stale key c t now p e late =
    let old : is_usable now (c, t) (count_up key p) ≡ false = ground arith in
    rw (e, old) (refl, contains-discard c c p.active ∙ rw (==_refl c) refl, refl)

-- A command that gives back or evicts a superseded client never touches the newer connection of
-- the key, and the superseded client is closed.
pub release-superseded :
    (key : Key) (c d t now : ℕ) (p : SshConnectionPool)
    → get key p.pool ≡ some (d, t)
    → (d == c) ≡ false
    → ((release c key now p).pool ≡ p.pool)
      × ((evict c key p).pool ≡ p.pool)
      × (is_alive c (release c key now p) ≡ false)
      × (is_alive c (evict c key p) ≡ false)
unfolding release evict count_down is_alive close
release-superseded key c d t now p e newer = elim (Bool-cases (contains c p.active)) [
  | inl up ↦ rw (e, newer, up) (refl, refl, closed, closed)
  | inr down ↦ rw (e, newer, down) (refl, refl, closed, closed)
]
  where
    closed : contains c (discard c p.active) ≡ false
    closed = contains-discard c c p.active ∙ rw (==_refl c) refl
