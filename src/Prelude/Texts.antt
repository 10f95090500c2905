-- ===== src/Prelude/Texts.antt =====
-- Texts that the program builds from numbers, and texts as lists of code points.
use Prim.Native.Char.{code}
use mathlib.Core.Path.{◌≡◌}
use mathlib.Core.Logic.{◌↔◌}
use native.Mathlib.Omega.{arith}
use mathlib.Core.Bool.{Bool, true, false, ◌&&◌}
use mathlib.Core.List.{List, [], ◌∷◌}
use v_llm_dashboard.Prelude.Lists.{length, take}
use Prim.Native.Nat.{ℕ, zero, suc, ◌+◌, ◌/◌, ◌%◌}
use Prim.Native.String.{String, ◌++◌}
use v_llm_dashboard.Prelude.Tests.{ltb, if◌then◌else◌}
use v_llm_dashboard.Prelude.Eq.{Eq, ◌==◌, ==_iff, nat_eq}

infixr 65 ◌+text◌
abbrev pub ◌+text◌ : String → String → String
s +text t = s ++ t

abbrev digit_text : ℕ → String
digit_text d =
    if d == 0
    then "0"
    else if d == 1
    then "1"
    else if d == 2
    then "2"
    else if d == 3
    then "3"
    else if d == 4
    then "4"
    else if d == 5
    then "5"
    else if d == 6
    then "6"
    else if d == 7
    then "7"
    else if d == 8
    then "8"
    else "9"

show_digits : ℕ → ℕ → String
show_digits zero n = ""
show_digits (suc fuel) n =
    let front = show_digits fuel (n / 10) in
    if ltb n 10 then digit_text n else front ++ digit_text (n % 10)

-- str(n); a number has at most as many digits as it counts, and one more
unfoldable pub show_nat : ℕ → String
unfolding show_digits
show_nat n = show_digits (n + 1) n

-- the code points of a text
abbrev pub code_points : String → List ℕ
code_points String.[] = []
code_points (String.◌∷◌ letter text) = code letter ∷ code_points text

abbrev pub list_beq : List ℕ → List ℕ → Bool
list_beq [] [] = true
list_beq (x ∷ xs) (y ∷ ys) = x == y && list_beq xs ys
list_beq _ _ = false

-- s.startswith(t)
abbrev pub starts_with : List ℕ → List ℕ → Bool
starts_with s t = list_beq (take (length t) s) t

pub list_beq_iff : (s t : List ℕ) → (list_beq s t ≡ true) ↔ (s ≡ t)
list_beq_iff [] [] = ground arith
list_beq_iff [] (y ∷ t) = ground arith
list_beq_iff (x ∷ s) [] = ground arith
list_beq_iff (x ∷ s) (y ∷ t) = ground (arith, ==_iff x y, list_beq_iff s t)

-- texts as keys
abbrev pub Text : Type 0
Text = List ℕ

instance abbrev pub text_eq : Eq Text
text_eq = record { same = list_beq; same_iff = list_beq_iff }
