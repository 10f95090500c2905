-- ===== src/Prelude/Slices.antt =====
-- Slices of a list: what is left of it after a number of items, and its first items.
use Prim.Native.Nat.{ℕ, zero, suc, ◌+◌, ◌≤◌}
use mathlib.Core.Path.{◌≡◌, refl, sym, ap, ◌∙◌}
use mathlib.Core.List.{List, [], ◌∷◌, ◌++◌}
use native.Mathlib.Omega.{arith}
use v_llm_dashboard.Prelude.Lists.{length, drop, take}

module _ {ℓ} {A : Type ℓ} where
  pub drop-append : (n : ℕ) (xs ys : List A) → n ≤ length xs → drop n (xs ++ ys) ≡ drop n xs ++ ys
  drop-append zero xs ys h = refl
  drop-append (suc n) [] ys h = absurd (omega arith)
  drop-append (suc n) (x ∷ xs) ys h = drop-append n xs ys (omega arith)

  pub drop_nil : (n : ℕ) → drop {A = A} n [] ≡ []
  drop_nil zero = refl
  drop_nil (suc n) = refl

  pub drop-drop : (m n : ℕ) (xs : List A) → drop m (drop n xs) ≡ drop (n + m) xs
  drop-drop m zero xs = ap (λ k. drop k xs) (omega arith)
  drop-drop m (suc n) [] = drop_nil m ∙ sym (drop_nil (suc n + m))
  drop-drop m (suc n) (x ∷ xs) =
      let e : suc (n + m) ≡ suc n + m = omega arith in
      drop-drop m n xs ∙ ap (λ k. drop k (x ∷ xs)) e

  pub drop_end : (n : ℕ) (xs : List A) → length xs ≤ n → drop n xs ≡ []
  drop_end n [] h = drop_nil n
  drop_end zero (x ∷ xs) h = absurd (omega arith)
  drop_end (suc n) (x ∷ xs) h = drop_end n xs (omega arith)

  pub drop-take :
      (k n : ℕ) (xs : List A) → k ≤ n → n ≤ length xs → drop k (take n xs) ++ drop n xs ≡ drop k xs
  drop-take zero zero xs h l = refl
  drop-take zero (suc n) [] h l = absurd (omega arith)
  drop-take zero (suc n) (x ∷ xs) h l =
      ap (λ ys. x ∷ ys) (drop-take zero n xs (omega arith) (omega arith))
  drop-take (suc k) zero xs h l = absurd (omega arith)
  drop-take (suc k) (suc n) [] h l = absurd (omega arith)
  drop-take (suc k) (suc n) (x ∷ xs) h l = drop-take k n xs (omega arith) (omega arith)

  pub take-append : (n : ℕ) (xs ys : List A) → n ≤ length xs → take n (xs ++ ys) ≡ take n xs
  take-append zero xs ys h = refl
  take-append (suc n) [] ys h = absurd (omega arith)
  take-append (suc n) (x ∷ xs) ys h = ap (λ zs. x ∷ zs) (take-append n xs ys (omega arith))

  pub take_all : (n : ℕ) (xs : List A) → n ≡ length xs → take n xs ≡ xs
  take_all zero [] h = refl
  take_all zero (x ∷ xs) h = absurd (omega arith)
  take_all (suc n) [] h = absurd (omega arith)
  take_all (suc n) (x ∷ xs) h = ap (λ zs. x ∷ zs) (take_all n xs (omega arith))
