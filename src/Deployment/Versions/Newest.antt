-- ===== src/Deployment/Versions/Newest.antt =====
-- driver_max_cuda of backend/service/deployment_pipelines_env.py: the newest CUDA toolkit that a driver
-- runs.
use v_llm_dashboard.Prelude.{
  ℕ, zero, suc, ◌≡◌, refl, inl, inr, true, false, not, ◌&&◌, some, List, [], ◌∷◌, All, ltb, ◌==◌,
  nat_eq, arith, Bool-cases,
}
use mathlib.Core.Path.{subst}
use v_llm_dashboard.Prelude.Texts.{Text}
use v_llm_dashboard.Deployment.Versions.{
  cuda_min_driver, required_by, check_cuda_compat, key_ltb, cuda_ver_key, newest_of,
  driver_max_cuda,
}

key_ltb-asym : (xs ys : List ℕ) → key_ltb xs ys ≡ true → key_ltb ys xs ≡ false
key_ltb-asym [] [] h = absurd (ground arith)
key_ltb-asym [] (y ∷ ys) h = refl
key_ltb-asym (x ∷ xs) [] h = absurd (ground arith)
key_ltb-asym (x ∷ xs) (y ∷ ys) h = ground (arith, key_ltb-asym xs ys)

-- what is between two keys is above the one or below the other
key_ltb-between :
    (xs ys zs : List ℕ) → key_ltb xs ys ≡ false → key_ltb ys zs ≡ false → key_ltb xs zs ≡ false
key_ltb-between xs ys [] p q = ground arith
key_ltb-between xs [] (z ∷ zs) p q = absurd (ground arith)
key_ltb-between [] (y ∷ ys) (z ∷ zs) p q = absurd (ground arith)
key_ltb-between (x ∷ xs) (y ∷ ys) (z ∷ zs) p q = ground (arith, key_ltb-between xs ys zs)

-- `r` is at least as new as `v`
abbrev AtLeast : Text → Text → Type 0
AtLeast r v = key_ltb (cuda_ver_key r) (cuda_ver_key v) ≡ false

abbrev Covers : ℕ → Text → List (Text × ℕ) → Type 0
Covers d r table = All (λ e. ltb d e.1 ≡ false → AtLeast r e.0) table

key_ltb_irrefl : (xs : List ℕ) → key_ltb xs xs ≡ false
key_ltb_irrefl [] = refl
key_ltb_irrefl (x ∷ xs) = ground (arith, key_ltb_irrefl xs)

newest_of-Covers :
    (d : ℕ) (table : List (Text × ℕ)) (best : Text)
    → AtLeast (newest_of d table best) best × Covers d (newest_of d table best) table
unfolding newest_of
newest_of-Covers d [] best = (key_ltb_irrefl (cuda_ver_key best), tt)
newest_of-Covers d ((v, need) ∷ table) best =
    elim (Bool-cases (not (ltb d need) && key_ltb (cuda_ver_key best) (cuda_ver_key v))) [
      | inl newer ↦
          let (over, all) = newest_of-Covers d table v in
          let older : key_ltb (cuda_ver_key v) (cuda_ver_key best) ≡ false =
            key_ltb-asym (cuda_ver_key best) (cuda_ver_key v) (ground arith) in
          let step : newest_of d table v ≡ newest_of d ((v, need) ∷ table) best = rw newer refl in
          subst (λ r. AtLeast r best × Covers d r ((v, need) ∷ table)) step
            (
              key_ltb-between (cuda_ver_key (newest_of d table v)) (cuda_ver_key v)
                  (cuda_ver_key best) over older,
              (λ h. over, all),
            )
      | inr kept ↦
          let (over, all) = newest_of-Covers d table best in
          let step : newest_of d table best ≡ newest_of d ((v, need) ∷ table) best = rw kept refl in
          subst (λ r. AtLeast r best × Covers d r ((v, need) ∷ table)) step
            (
              over,
              (
                λ h.
                    key_ltb-between (cuda_ver_key (newest_of d table best)) (cuda_ver_key best)
                      (cuda_ver_key v) over (ground arith),
                all,
              ),
            )
    ]

abbrev Runs : ℕ → Text → Type 0
Runs d v = check_cuda_compat (some d) v ≡ true

newest_of-Runs :
    (d : ℕ) (table : List (Text × ℕ)) (best : Text)
    → All (λ e. ltb d e.1 ≡ false → Runs d e.0) table
    → Runs d best
    → Runs d (newest_of d table best)
unfolding newest_of
newest_of-Runs d [] best h r = r
newest_of-Runs d ((v, need) ∷ table) best (here, h) r =
    elim (Bool-cases (not (ltb d need) && key_ltb (cuda_ver_key best) (cuda_ver_key v))) [
      | inl newer ↦ rw newer (newest_of-Runs d table v h (here (ground arith)))
      | inr kept ↦ rw kept (newest_of-Runs d table best h r)
    ]

offered-Runs : (d : ℕ) → All (λ e. ltb d e.1 ≡ false → Runs d e.0) cuda_min_driver
unfolding check_cuda_compat required_by
offered-Runs d = (
  (λ h. rw h refl),
  (
    (λ h. rw h refl),
    (
      (λ h. rw h refl),
      (
        (λ h. rw h refl),
        (
          (λ h. rw h refl),
          ((λ h. rw h refl), ((λ h. rw h refl), ((λ h. rw h refl), ((λ h. rw h refl), tt)))),
        ),
      ),
    ),
  ),
)

-- and back, so that an offered version runs on the driver exactly where its minimum is met
met : (d : ℕ) → All (λ e. Runs d e.0 → ltb d e.1 ≡ false) cuda_min_driver
unfolding check_cuda_compat required_by
met d = (
  λ h. ground arith,
  (
    λ h. ground arith,
    (
      λ h. ground arith,
      (
        λ h. ground arith,
        (
          λ h. ground arith,
          (λ h. ground arith, (λ h. ground arith, (λ h. ground arith, (λ h. ground arith, tt)))),
        ),
      ),
    ),
  ),
)

All-covered :
    (d : ℕ) (r : Text) (table : List (Text × ℕ))
    → Covers d r table
    → All (λ e. Runs d e.0 → ltb d e.1 ≡ false) table
    → All (λ e. Runs d e.0 → AtLeast r e.0) table
All-covered d r [] c m = tt
All-covered d r (e ∷ table) (here, c) (runs, m) = (λ h. here (runs h), All-covered d r table c m)

from_zero : newest_of 0 cuda_min_driver [] ≡ driver_max_cuda (some 0)
unfolding driver_max_cuda newest_of cuda_ver_key
from_zero = refl

from_table : (d : ℕ) → newest_of d cuda_min_driver [] ≡ driver_max_cuda (some d)
unfolding driver_max_cuda
from_table zero = from_zero
from_table (suc d) = let e : (suc d == 0) ≡ false = ground arith in rw e refl

nothing-Runs : (d : ℕ) → Runs d []
unfolding check_cuda_compat required_by
nothing-Runs d = refl

-- For a driver whose version is known, the toolkit that `driver_max_cuda` names runs on it, and none
-- that is offered and runs on it is newer.
pub driver_max_cuda-newest :
    (d : ℕ)
    → (check_cuda_compat (some d) (driver_max_cuda (some d)) ≡ true)
      × All
          (λ e.
            check_cuda_compat (some d) e.0 ≡ true
            → key_ltb (cuda_ver_key (driver_max_cuda (some d))) (cuda_ver_key e.0) ≡ false)
          cuda_min_driver
driver_max_cuda-newest d =
    let best : Text = newest_of d cuda_min_driver [] in
    let (over, all) = newest_of-Covers d cuda_min_driver [] in
    subst (λ r. Runs d r × All (λ e. Runs d e.0 → AtLeast r e.0) cuda_min_driver) (from_table d)
      (
        newest_of-Runs d cuda_min_driver [] (offered-Runs d) (nothing-Runs d),
        All-covered d best cuda_min_driver all (met d),
      )
