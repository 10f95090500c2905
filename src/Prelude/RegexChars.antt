-- ===== src/Prelude/RegexChars.antt =====
-- What a match of a pattern takes consists of the pattern's characters.
use Prim.Native.Nat.{ℕ, zero, suc}
use mathlib.Core.Path.{◌≡◌, refl, sym, ap, ◌∙◌, subst}
use mathlib.Core.Logic.{inl, inr}
use mathlib.Core.Bool.{Bool, true}
use mathlib.Core.List.{List, [], ◌∷◌, ◌++◌, append_assoc, append-nil}
use native.Mathlib.Omega.{arith}
use v_llm_dashboard.Prelude.Tests.{ltb, Bool-cases}
use v_llm_dashboard.Prelude.Lists.{All, length}
use v_llm_dashboard.Prelude.Eq.{◌==◌, nat_eq}
use v_llm_dashboard.Prelude.Regex.{
  Regex, Scan, concat_map, step_over, shorter, rounds, taken, take_group, matches, some_at_end,
  is_at_end, full_match,
}

module _ (q : ℕ → Bool) where
  -- every class of the pattern lies within `q`
  abbrev pub Within : Regex → Type 0
  Within (Regex.one_of p) = (c : ℕ) → p c ≡ true → q c ≡ true
  Within Regex.empty = Unit
  Within Regex.at_start = Unit
  Within (Regex.seq r s) = Within r × Within s
  Within (Regex.alt r s) = Within r × Within s
  Within (Regex.many r) = Within r
  Within (Regex.group n r) = Within r

  abbrev Chars : List ℕ → Type 0
  Chars = All (λ c. q c ≡ true)

  -- a position reached over characters within `q`
  Over : Scan → Scan → Type 0
  Over s t = (front : List ℕ) × (s.rest ≡ front ++ t.rest) × Chars front

  Chars-append : (xs ys : List ℕ) → Chars xs → Chars ys → Chars (xs ++ ys)
  Chars-append [] ys a b = b
  Chars-append (x ∷ xs) ys (h, a) b = (h, Chars-append xs ys a b)

  Over-refl : (s : Scan) → Over s s
  unfolding Over
  Over-refl s = ([], refl, tt)

  Over-trans : (s t u : Scan) → Over s t → Over t u → Over s u
  unfolding Over
  Over-trans s t u (f, e, a) (g, d, b) =
      (f ++ g, e ∙ ap (λ l. f ++ l) d ∙ sym (append_assoc f g u.rest), Chars-append f g a b)

  Each : Scan → List Scan → Type 0
  Each s = All (Over s)

  Each-append : (s : Scan) (xs ys : List Scan) → Each s xs → Each s ys → Each s (xs ++ ys)
  unfolding Each
  Each-append s [] ys a b = b
  Each-append s (x ∷ xs) ys (h, a) b = (h, Each-append s xs ys a b)

  Each-from : (s t : Scan) (xs : List Scan) → Over s t → Each t xs → Each s xs
  unfolding Each
  Each-from s t [] o a = tt
  Each-from s t (x ∷ xs) o (h, a) = (Over-trans s t x o h, Each-from s t xs o a)

  Each-concat_map :
      (f : Scan → List Scan) (s : Scan) (xs : List Scan)
      → ((t : Scan) → Each t (f t))
      → Each s xs
      → Each s (concat_map f xs)
  unfolding Each concat_map
  Each-concat_map f s [] h a = tt
  Each-concat_map f s (x ∷ xs) h (o, a) =
      Each-append s (f x) (concat_map f xs) (Each-from s x (f x) o (h x))
        (Each-concat_map f s xs h a)

  Each-shorter : (n : ℕ) (s : Scan) (xs : List Scan) → Each s xs → Each s (shorter n xs)
  unfolding Each shorter
  Each-shorter n s [] a = tt
  Each-shorter n s (x ∷ xs) (o, a) = elim (Bool-cases (ltb (length x.rest) n)) [
    | inl y ↦ rw y (o, Each-shorter n s xs a)
    | inr z ↦ rw z (Each-shorter n s xs a)
  ]

  Each-rounds :
      (fuel : ℕ) (f : Scan → List Scan) (s : Scan)
      → ((t : Scan) → Each t (f t))
      → Each s (rounds fuel f s)
  unfolding Each rounds
  Each-rounds zero f s h = (Over-refl s, tt)
  Each-rounds (suc fuel) f s h =
      let n : ℕ = length s.rest in
      Each-append s (concat_map (rounds fuel f) (shorter n (f s))) (s ∷ [])
        (Each-concat_map (rounds fuel f) s (shorter n (f s)) (λ t. Each-rounds fuel f t h)
          (Each-shorter n s (f s) (h s)))
        (Over-refl s, tt)

  Each-take_group :
      (n : ℕ) (before s : Scan) (xs : List Scan) → Each s xs → Each s (take_group n before xs)
  unfolding Each take_group taken Over
  Each-take_group n before s [] a = tt
  Each-take_group n before s (x ∷ xs) (o, a) = (o, Each-take_group n before s xs a)

  Each-step_over :
      (p : ℕ → Bool) (text : List ℕ) (s : Scan)
      → ((c : ℕ) → p c ≡ true → q c ≡ true)
      → s.rest ≡ text
      → Each s (step_over p text s)
  unfolding Each step_over Over
  Each-step_over p [] s h e = tt
  Each-step_over p (c ∷ text) s h e = elim (Bool-cases (p c)) [
    | inl y ↦ rw y (((c ∷ []), e, (h c y, tt)), tt)
    | inr z ↦ rw z tt
  ]

  Each-matches : (r : Regex) (s : Scan) → Within r → Each s (matches r s)
  unfolding matches Each Over
  Each-matches (Regex.one_of p) s w = Each-step_over p s.rest s w refl
  Each-matches Regex.empty s w = (Over-refl s, tt)
  Each-matches Regex.at_start s w = elim (Bool-cases s.is_first) [
    | inl y ↦ rw y (Over-refl s, tt)
    | inr z ↦ rw z tt
  ]
  Each-matches (Regex.seq r r') s (w, w') =
      Each-concat_map (matches r') s (matches r s) (λ t. Each-matches r' t w') (Each-matches r s w)
  Each-matches (Regex.alt r r') s (w, w') =
      Each-append s (matches r s) (matches r' s) (Each-matches r s w) (Each-matches r' s w')
  Each-matches (Regex.many r) s w =
      Each-rounds (length s.rest) (matches r) s (λ t. Each-matches r t w)
  Each-matches (Regex.group n r) s w = Each-take_group n s s (matches r s) (Each-matches r s w)

  Chars-at_end : (s t : Scan) → Over s t → is_at_end t ≡ true → Chars s.rest
  unfolding Over is_at_end
  Chars-at_end s t (front, e, a) h = at_nil t.rest e h
    where
      at_nil : (rest : List ℕ) → s.rest ≡ front ++ rest → (length rest == 0) ≡ true → Chars s.rest
      at_nil [] e h = let e' : s.rest ≡ front = e ∙ append-nil front in subst Chars (sym e') a
      at_nil (x ∷ rest) e h = absurd (ground arith)

  Chars-some_at_end : (s : Scan) (xs : List Scan) → Each s xs → some_at_end xs ≡ true → Chars s.rest
  unfolding Each some_at_end
  Chars-some_at_end s [] a h = absurd (ground arith)
  Chars-some_at_end s (x ∷ xs) (o, a) h = elim (Bool-cases (is_at_end x)) [
    | inl y ↦ Chars-at_end s x o y
    | inr z ↦ Chars-some_at_end s xs a (ground arith)
  ]

  -- A text that a pattern matches in full consists of the pattern's characters.
  pub full_match-Chars :
      (r : Regex) (text : List ℕ) → Within r → full_match r text ≡ true → All (λ c. q c ≡ true) text
  unfolding full_match
  full_match-Chars r text w h =
      let s : Scan = record { rest = text; is_first = true; groups = [] } in
      Chars-some_at_end s (matches r s) (Each-matches r s w) h
