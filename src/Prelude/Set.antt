-- ===== src/Prelude/Set.antt =====
-- Python's `set`, of which the program asks only for membership.
use mathlib.Core.Path.{◌≡◌, sym, ap}
use mathlib.Core.Bool.{Bool, true, false, ◌||◌}
use mathlib.Core.List.{List, [], ◌∷◌}
use native.Mathlib.Omega.{arith}
use v_llm_dashboard.Prelude.Tests.{if◌then◌else◌}
use v_llm_dashboard.Prelude.Eq.{Eq, ◌==◌, ==_iff}

module _ {ℓ} {A : Type ℓ} ⦃e : Eq A⦄ where
  -- a in s
  unfoldable pub contains : A → List A → Bool
  contains a [] = false
  contains a (x ∷ s) = x == a || contains a s

  -- s.discard(a)
  unfoldable pub discard : A → List A → List A
  discard a [] = []
  discard a (x ∷ s) = if x == a then discard a s else x ∷ discard a s

  -- s.add(a)
  unfoldable pub add : A → List A → List A
  unfolding contains
  add a s = if contains a s then s else a ∷ s

  pub contains-discard :
      (a b : A) (s : List A) → contains b (discard a s) ≡ (if a == b then false else contains b s)
  unfolding contains discard
  contains-discard a b [] = ground arith
  contains-discard a b (x ∷ s) =
      ground (arith, ==_iff a b, ==_iff x a, ==_iff x b, contains-discard a b s)

  contains_congr : (a b : A) (s : List A) → (a == b) ≡ true → contains b s ≡ contains a s
  contains_congr a b s h = ap (λ c. contains c s) (sym ((==_iff a b).0 h))

  pub contains-add :
      (a b : A) (s : List A) → contains b (add a s) ≡ (if a == b then true else contains b s)
  unfolding add
  contains-add a b s = ground (arith, contains_congr a b s)
