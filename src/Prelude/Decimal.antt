-- ===== src/Prelude/Decimal.antt =====
-- Decimal numbers as lists of code points: what `str` and the shell print, and what `int` reads.
use Prim.Native.Nat.{ℕ, zero, suc, ◌+◌, ◌-◌, ◌*◌, ◌/◌, ◌%◌, ◌<◌}
use mathlib.Core.Path.{◌≡◌, refl, ap, ◌∙◌}
use mathlib.Core.Bool.{true, false}
use mathlib.Core.List.{List, [], ◌∷◌, ◌++◌}
use mathlib.Core.Logic.{inl, inr}
use native.Mathlib.Omega.{arith}
use v_llm_dashboard.Prelude.Tests.{ltb, if◌then◌else◌, Bool-cases}
use v_llm_dashboard.Prelude.Regex.{is_digit}

-- the value of the digits behind `n`, and what follows them
unfoldable pub read_digits : ℕ → List ℕ → ℕ × List ℕ
read_digits n [] = (n, [])
read_digits n (c ∷ text) =
    let rest = read_digits (n * 10 + (c - 48)) text in if is_digit c then rest else (n, c ∷ text)

digits : ℕ → ℕ → List ℕ
digits zero n = []
digits (suc fuel) n =
    let front = digits fuel (n / 10) in
    if ltb n 10 then (48 + n) ∷ [] else front ++ (48 + n % 10) ∷ []

-- a number has fewer digits than it counts, and one more
unfoldable pub decimal : ℕ → List ℕ
unfolding digits
decimal n = digits (n + 1) n

append_snoc : (xs ys : List ℕ) (c : ℕ) → (xs ++ c ∷ []) ++ ys ≡ xs ++ c ∷ ys
append_snoc [] ys c = refl
append_snoc (x ∷ xs) ys c = ap (λ l. x ∷ l) (append_snoc xs ys c)

read-digit :
    (n d : ℕ) (text : List ℕ)
    → d < 10
    → read_digits n ((48 + d) ∷ text) ≡ read_digits (n * 10 + d) text
unfolding read_digits
read-digit n d text h =
    let e : (n * 10 + (48 + d - 48)) ≡ n * 10 + d = omega arith in
    let t : is_digit (48 + d) ≡ true = ground arith in rw (t, e) refl

read-digits :
    (fuel n : ℕ) (text : List ℕ)
    → n < fuel
    → read_digits 0 (digits fuel n ++ text) ≡ read_digits n text
unfolding digits
read-digits zero n text h = absurd (omega arith)
read-digits (suc fuel) n text h = elim (Bool-cases (ltb n 10)) [
  | inl small ↦
      let e : 0 * 10 + n ≡ n = omega arith in
      rw small (read-digit 0 n text (ground arith) ∙ ap (λ k. read_digits k text) e)
  | inr big ↦
      let le : n / 10 < fuel = ground arith in
      let e : n / 10 * 10 + n % 10 ≡ n = omega arith in
      rw big (
        ap (read_digits 0) (append_snoc (digits fuel (n / 10)) text (48 + n % 10))
        ∙ read-digits fuel (n / 10) ((48 + n % 10) ∷ text) le
        ∙ read-digit (n / 10) (n % 10) text (omega arith)
        ∙ ap (λ k. read_digits k text) e)
]

-- What is printed in front of a text that begins with no digit is read back.
pub read_digits-decimal :
    (n c : ℕ) (text : List ℕ)
    → is_digit c ≡ false
    → read_digits 0 (decimal n ++ c ∷ text) ≡ (n, c ∷ text)
unfolding decimal read_digits
read_digits-decimal n c text h = read-digits (n + 1) n (c ∷ text) (omega arith) ∙ rw h refl

digits_head :
    (fuel n : ℕ)
    → n < fuel
    → (c : ℕ) × (text : List ℕ) × (digits fuel n ≡ c ∷ text) × (is_digit c ≡ true)
unfolding digits
digits_head zero n h = absurd (omega arith)
digits_head (suc fuel) n h = elim (Bool-cases (ltb n 10)) [
  | inl small ↦ (48 + n, [], rw small refl, ground arith)
  | inr big ↦
      let le : n / 10 < fuel = ground arith in
      let (c, text, e, d) = digits_head fuel (n / 10) le in
      (c, text ++ (48 + n % 10) ∷ [], rw (big, e) refl, d)
]

-- What is printed begins with a digit.
pub decimal_head :
    (n : ℕ) → (c : ℕ) × (text : List ℕ) × (decimal n ≡ c ∷ text) × (is_digit c ≡ true)
unfolding decimal
decimal_head n = digits_head (n + 1) n (omega arith)
