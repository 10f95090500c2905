-- ===== src/AccessLog/Recent.antt =====
-- backend/service/vllm_access_log.py: the order of the rows that `connections` returns.
use v_llm_dashboard.Prelude.{
  ℕ, zero, suc, ◌≤◌, ◌≡◌, refl, List, [], ◌∷◌, arith, length, take, min, length-take,
}
use v_llm_dashboard.Prelude.Dict.{values}
use v_llm_dashboard.AccessLog.{AccessTotals, VllmAccessLog, insert_row, sort_rows, connections}

-- nothing in the rows is later than a moment, and no row is later than the one before it
abbrev NotLater : ℕ → List AccessTotals → Type 0
NotLater t [] = Unit
NotLater t (a ∷ rows) = (a.last_seen ≤ t) × NotLater a.last_seen rows

abbrev pub Descending : List AccessTotals → Type 0
Descending [] = Unit
Descending (a ∷ rows) = NotLater a.last_seen rows

NotLater-insert_row :
    (t : ℕ) (a : AccessTotals) (rows : List AccessTotals)
    → a.last_seen ≤ t
    → NotLater t rows
    → NotLater t (insert_row a rows)
unfolding insert_row
NotLater-insert_row t a [] h d = (h, tt)
NotLater-insert_row t a (b ∷ rows) h d = ground (arith, NotLater-insert_row b.last_seen a rows)

Descending-insert_row :
    (a : AccessTotals) (rows : List AccessTotals) → Descending rows → Descending (insert_row a rows)
unfolding insert_row
Descending-insert_row a [] d = tt
Descending-insert_row a (b ∷ rows) d = ground (arith, NotLater-insert_row b.last_seen a rows)

Descending-sort_rows : (rows : List AccessTotals) → Descending (sort_rows rows)
unfolding sort_rows
Descending-sort_rows [] = tt
Descending-sort_rows (a ∷ rows) =
    Descending-insert_row a (sort_rows rows) (Descending-sort_rows rows)

NotLater-take : (n t : ℕ) (rows : List AccessTotals) → NotLater t rows → NotLater t (take n rows)
NotLater-take zero t rows d = tt
NotLater-take (suc n) t [] d = tt
NotLater-take (suc n) t (a ∷ rows) (h, d) = (h, NotLater-take n a.last_seen rows d)

Descending-take : (n : ℕ) (rows : List AccessTotals) → Descending rows → Descending (take n rows)
Descending-take zero rows d = tt
Descending-take (suc n) [] d = tt
Descending-take (suc n) (a ∷ rows) d = NotLater-take n a.last_seen rows d

length-insert_row :
    (a : AccessTotals) (rows : List AccessTotals) → length (insert_row a rows) ≡ suc (length rows)
unfolding insert_row
length-insert_row a [] = refl
length-insert_row a (b ∷ rows) = ground (arith, length-insert_row a rows)

length-sort_rows : (rows : List AccessTotals) → length (sort_rows rows) ≡ length rows
unfolding sort_rows
length-sort_rows [] = refl
length-sort_rows (a ∷ rows) =
    omega (arith, length-insert_row a (sort_rows rows), length-sort_rows rows)

-- `connections` lists the addresses by their last request, the latest first, as many as there are
-- up to its limit.
connections-Descending :
    (limit : ℕ) (log : VllmAccessLog)
    → Descending (connections limit log)
      × (length (connections limit log) ≡ min limit (length (values log.by_ip)))
unfolding connections
connections-Descending limit log =
    let rows = values log.by_ip in
    (
      Descending-take limit (sort_rows rows) (Descending-sort_rows rows),
      omega (arith, length-take limit (sort_rows rows), length-sort_rows rows),
    )
