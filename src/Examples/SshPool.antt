-- ===== src/Examples/SshPool.antt =====
-- A pool with one connection in use and one that is idle.
use v_llm_dashboard.Prelude.{
  ◌+◌, ◌≡◌, refl, false, none, some, List, [], ◌∷◌, arith, string_eq, nat_eq, pair_eq,
}
use v_llm_dashboard.Prelude.Dict.{get}
use v_llm_dashboard.Prelude.Set.{discard}
use v_llm_dashboard.SshPool.{Key, SshConnectionPool, refcount, acquire, is_alive}
use v_llm_dashboard.SshPool.Holders.{Event, acquired, released, died, run, holders, run-holders}
use v_llm_dashboard.SshPool.Idle.{opened, acquire-run}

abbrev gpu_host : Key
gpu_host = ("gpu", (22, "root"))

abbrev other_host : Key
other_host = ("other", (22, "root"))

abbrev pool : SshConnectionPool
pool = record {
  pool = (gpu_host, (1, 1000000)) ∷ (other_host, (2, 2000000)) ∷ [];
  refcounts = (gpu_host, 1) ∷ [];
  active = 1 ∷ 2 ∷ [];
}

abbrev history : List Event
history =
    acquired other_host 3000000
    ∷ acquired gpu_host 4000000
    ∷ released 2 other_host 5000000
    ∷ died 1
    ∷ released 1 gpu_host 6000000
    ∷ []

run-holders_example :
    refcount gpu_host (run history pool) ≡ holders gpu_host history (refcount gpu_host pool)
run-holders_example = run-holders gpu_host history pool

abbrev third_host : Key
third_host = ("third", (22, "root"))

abbrev meanwhile : List Event
meanwhile = acquired other_host 8000000 ∷ died 2 ∷ released 2 other_host 9000000 ∷ []

apart : get third_host pool.pool ≡ none
unfolding get
apart = refl

abbrev busy_pool : SshConnectionPool
busy_pool = run meanwhile (opened third_host 3 7000000 pool)

acquire-run_example :
    (get third_host busy_pool.pool ≡ some (3, 7000000))
    × (refcount third_host busy_pool ≡ refcount third_host pool + 1)
    × ((acquire third_host 40000000 busy_pool).0 ≡ none)
    × (is_alive 3 (acquire third_host 40000000 busy_pool).1 ≡ false)
    × ((acquire third_host 40000000 busy_pool).1.active ≡ discard 3 busy_pool.active)
acquire-run_example =
    acquire-run third_host 3 7000000 40000000 meanwhile pool apart (refl, (refl, (refl, tt)))
      (omega arith)
