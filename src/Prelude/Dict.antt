-- ===== src/Prelude/Dict.antt =====
-- Python's `dict`: entries in the order of first insertion, one for each key.
use Prim.Native.Nat.{suc, ◌≤◌, ◌<◌}
use mathlib.Core.Path.{◌≡◌, refl}
use mathlib.Core.Bool.{Bool, true}
use mathlib.Core.Option.{Option, none, some}
use mathlib.Core.List.{List, [], ◌∷◌, map}
use native.Mathlib.Omega.{arith}
use v_llm_dashboard.Prelude.Tests.{if◌then◌else◌, is_some}
use v_llm_dashboard.Prelude.Lists.{length}
use v_llm_dashboard.Prelude.Eq.{Eq, ◌==◌, ==_iff}

abbrev pub Dict {ℓ κ} : Type ℓ → Type κ → Type (ℓ ⊔ κ)
Dict K V = List (K × V)

abbrev pub keep {ℓ} : {A : Type ℓ} → (A → Bool) → Option A → Option A
keep p none = none
keep p (some a) = if p a then some a else none

module _ {ℓ κ} {K : Type ℓ} {V : Type κ} where
  -- list(d), list(d.values())
  abbrev pub keys : Dict K V → List K
  keys = map (λ e. e.0)

  abbrev pub values : Dict K V → List V
  values = map (λ e. e.1)

module _ {ℓ κ} {K : Type ℓ} {V : Type κ} ⦃e : Eq K⦄ where
  -- d.get(k)
  unfoldable pub get : K → Dict K V → Option V
  get k [] = none
  get k ((j, v) ∷ d) = if j == k then some v else get k d

  -- k in d
  abbrev pub has : K → Dict K V → Bool
  has k d = is_some (get k d)

  -- d[k] = v: an old key keeps its place, a new one goes last
  unfoldable pub set : K → V → Dict K V → Dict K V
  set k v [] = (k, v) ∷ []
  set k v ((j, w) ∷ d) = if j == k then (j, v) ∷ d else (j, w) ∷ set k v d

  -- del d[k], d.pop(k, None)
  unfoldable pub remove : K → Dict K V → Dict K V
  remove k [] = []
  remove k ((j, v) ∷ d) = if j == k then remove k d else (j, v) ∷ remove k d

  pub get-set :
      (k j : K) (v : V) (d : Dict K V) → get j (set k v d) ≡ (if k == j then some v else get j d)
  unfolding get set
  get-set k j v [] = refl
  get-set k j v ((i, w) ∷ d) = ground (arith, ==_iff k j, ==_iff i k, ==_iff i j, get-set k j v d)

  pub get-remove :
      (k j : K) (d : Dict K V) → get j (remove k d) ≡ (if k == j then none else get j d)
  unfolding get remove
  get-remove k j [] = ground arith
  get-remove k j ((i, w) ∷ d) = ground (arith, ==_iff k j, ==_iff i k, ==_iff i j, get-remove k j d)

  pub length-set :
      (k : K) (v : V) (d : Dict K V)
      → length (set k v d) ≡ (if has k d then length d else suc (length d))
  unfolding get set
  length-set k v [] = refl
  length-set k v ((i, w) ∷ d) = ground (arith, length-set k v d)

  pub length-remove-le : (k : K) (d : Dict K V) → length (remove k d) ≤ length d
  unfolding remove
  length-remove-le k [] = omega arith
  length-remove-le k ((i, w) ∷ d) = ground (arith, length-remove-le k d)

  pub length-remove : (k : K) (d : Dict K V) → has k d ≡ true → length (remove k d) < length d
  unfolding get remove
  length-remove k [] h = absurd (ground arith)
  length-remove k ((i, w) ∷ d) h = ground (arith, length-remove k d, length-remove-le k d)

  -- Every key stands once, as a `dict` guarantees.
  abbrev pub Unique : Dict K V → Type κ
  Unique [] = Unit
  Unique ((k, v) ∷ d) = (get k d ≡ none) × Unique d

  -- {k: v for k, v in d.items() if p v}
  unfoldable pub filter_values : (V → Bool) → Dict K V → Dict K V
  filter_values p [] = []
  filter_values p ((k, v) ∷ d) = if p v then (k, v) ∷ filter_values p d else filter_values p d

  get-filter_values-none :
      (p : V → Bool) (k : K) (d : Dict K V) → get k d ≡ none → get k (filter_values p d) ≡ none
  unfolding get filter_values
  get-filter_values-none p k [] h = refl
  get-filter_values-none p k ((j, v) ∷ d) h = ground (arith, get-filter_values-none p k d)

  pub get-filter_values :
      (p : V → Bool) (k : K) (d : Dict K V)
      → Unique d
      → get k (filter_values p d) ≡ keep p (get k d)
  unfolding get filter_values
  get-filter_values p k [] u = refl
  get-filter_values p k ((j, v) ∷ d) u =
      ground (arith, ==_iff j k, get-filter_values p k d u.1, get-filter_values-none p j d u.0)

  pub Unique-set : (k : K) (v : V) (d : Dict K V) → Unique d → Unique (set k v d)
  unfolding get set
  Unique-set k v [] u = (refl, tt)
  Unique-set k v ((j, w) ∷ d) u =
      ground (arith, get-set k j v d, ==_iff j k, ==_iff k j, Unique-set k v d u.1)

  pub Unique-remove : (k : K) (d : Dict K V) → Unique d → Unique (remove k d)
  unfolding get remove
  Unique-remove k [] u = tt
  Unique-remove k ((j, w) ∷ d) u = ground (arith, get-remove k j d, Unique-remove k d u.1)

  pub Unique-filter_values : (p : V → Bool) (d : Dict K V) → Unique d → Unique (filter_values p d)
  unfolding filter_values
  Unique-filter_values p [] u = tt
  Unique-filter_values p ((j, w) ∷ d) u =
      ground (arith, get-filter_values-none p j d u.0, Unique-filter_values p d u.1)

  pub length-filter_values-le :
      (p : V → Bool) (d : Dict K V) → length (filter_values p d) ≤ length d
  unfolding filter_values
  length-filter_values-le p [] = omega arith
  length-filter_values-le p ((j, w) ∷ d) = ground (arith, length-filter_values-le p d)
