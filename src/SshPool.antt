-- ===== src/SshPool.antt =====
-- backend/executor/remote/ssh.py: the pool of SSH connections. A client is a number; `active` holds
-- the clients whose transport is up. `get` is cut where it gives up the pool's lock: `acquire`, and
-- `install` after a client was made or `abandon` after that failed. Times are in microseconds.
pub mod Holders
pub mod Spared
pub mod Idle
use v_llm_dashboard.Prelude.{
  ℕ, ◌+◌, ◌-◌, String, Bool, true, false, not, ◌&&◌, ◌||◌, Option, none, some, List, [], ◌∷◌, ltb,
  leb, length, if◌then◌else◌, ◌==◌, string_eq, nat_eq, pair_eq,
}
use v_llm_dashboard.Prelude.Dict.{Dict, get, set, remove}
use v_llm_dashboard.Prelude.Set.{contains, discard}

-- host, port and user name
abbrev pub Key : Type 0
Key = String × (ℕ × String)

-- `pool` maps a key to a client and the time of its last use, in the order of use; `refcounts`
-- counts the commands under way.
pub record SshConnectionPool : Type 0 where
  pub pool : Dict Key (ℕ × ℕ)
  pub refcounts : Dict Key ℕ
  pub active : List ℕ

-- the constructor's defaults
abbrev pub max_idle_time : ℕ
max_idle_time = 30000000

abbrev pub max_connections : ℕ
max_connections = 10

abbrev pub or_zero : Option ℕ → ℕ
or_zero none = 0
or_zero (some n) = n

-- self._refcounts.get(key, 0)
unfoldable pub refcount : Key → SshConnectionPool → ℕ
refcount key p = or_zero (get key p.refcounts)

-- `_is_alive`
unfoldable pub is_alive : ℕ → SshConnectionPool → Bool
is_alive client p = contains client p.active

-- client.close()
unfoldable pub close : ℕ → SshConnectionPool → SshConnectionPool
close client p = record p { active = discard client p.active }

abbrev pub count_up : Key → SshConnectionPool → SshConnectionPool
count_up key p = record p { refcounts = set key (or_zero (get key p.refcounts) + 1) p.refcounts }

-- one holder less; a count of zero is dropped
unfoldable pub count_down : Key → SshConnectionPool → SshConnectionPool
count_down key p =
    let n = or_zero (get key p.refcounts) - 1 in
    record p { refcounts = if n == 0 then remove key p.refcounts else set key n p.refcounts }

-- whether a pooled client can be used at this time
unfoldable pub is_usable : ℕ → ℕ × ℕ → SshConnectionPool → Bool
unfolding is_alive
is_usable now (client, last_used) p = is_alive client p && leb now (last_used + max_idle_time)

abbrev pub to_end : Key → ℕ → ℕ → SshConnectionPool → SshConnectionPool
to_end key client now p = record p { pool = set key (client, now) (remove key p.pool) }

abbrev pub drop_entry : Key → SshConnectionPool → SshConnectionPool
drop_entry key p = record p { pool = remove key p.pool }

abbrev acquire_at : Option (ℕ × ℕ) → Key → ℕ → SshConnectionPool → Option ℕ × SshConnectionPool
acquire_at none key now p = (none, p)
acquire_at (some (client, last_used)) key now p =
    if is_usable now (client, last_used) p
    then (some client, to_end key client now p)
    else (none, drop_entry key (close client p))

-- the first locked part of `_get_or_create_locked`: the pooled client, or none if one must be made
unfoldable pub acquire : Key → ℕ → SshConnectionPool → Option ℕ × SshConnectionPool
unfolding is_usable close
acquire key now p = acquire_at (get key p.pool) key now (count_up key p)

-- the first entry whose key no command uses
unfoldable pub oldest_idle : Dict Key ℕ → Dict Key (ℕ × ℕ) → Option (Key × ℕ)
oldest_idle refcounts [] = none
oldest_idle refcounts ((key, (client, last_used)) ∷ d) =
    if ltb 0 (or_zero (get key refcounts)) then oldest_idle refcounts d else some (key, client)

-- `_evict_oldest_idle`
unfoldable pub evict_oldest_idle : SshConnectionPool → SshConnectionPool
unfolding oldest_idle close
evict_oldest_idle p = elim (oldest_idle p.refcounts p.pool) [
  | none ↦ p
  | some (key, client) ↦ drop_entry key (close client p)
]

-- the end of `_get_or_create_locked`
abbrev pub store : Key → ℕ → ℕ → SshConnectionPool → SshConnectionPool
store key client now p =
    let p' = if leb max_connections (length p.pool) then evict_oldest_idle p else p in
    record p' { pool = set key (client, now) p'.pool }

abbrev install_at : Option (ℕ × ℕ) → Key → ℕ → ℕ → SshConnectionPool → ℕ × SshConnectionPool
install_at none key client now p = (client, store key client now p)
install_at (some (existing, last_used)) key client now p =
    if is_usable now (existing, last_used) p
    then (existing, record (close client p) { pool = set key (existing, now) p.pool })
    else (client, store key client now (close existing p))

-- the second locked part, with the client that was made meanwhile
unfoldable pub install : Key → ℕ → ℕ → SshConnectionPool → ℕ × SshConnectionPool
unfolding is_usable close evict_oldest_idle
install key client now p = install_at (get key p.pool) key client now p

-- the handler of `get`, where no client could be made
unfoldable pub abandon : Key → SshConnectionPool → SshConnectionPool
unfolding count_down
abandon key p = count_down key p

abbrev pub is_pooled : Option (ℕ × ℕ) → ℕ → Bool
is_pooled none client = false
is_pooled (some (c, last_used)) client = c == client

abbrev pub drop_if : Bool → Key → SshConnectionPool → SshConnectionPool
drop_if true key p = drop_entry key p
drop_if false key p = p

abbrev pub touch_or_close : Bool → Key → ℕ → ℕ → SshConnectionPool → SshConnectionPool
touch_or_close true key client now p = to_end key client now p
touch_or_close false key client now p = close client p

unfoldable pub release : ℕ → Key → ℕ → SshConnectionPool → SshConnectionPool
unfolding count_down is_alive close
release client key now p =
    let p' = count_down key p in
    let pooled = is_pooled (get key p'.pool) client in
    if not (is_alive client p')
    then drop_if pooled key (close client p')
    else touch_or_close pooled key client now p'

unfoldable pub evict : ℕ → Key → SshConnectionPool → SshConnectionPool
unfolding count_down close
evict client key p =
    let p' = count_down key p in close client (drop_if (is_pooled (get key p'.pool) client) key p')
