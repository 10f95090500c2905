-- ===== src/Prelude/Segments.antt =====
-- The parts that str.split gives, and the text between two separators.
use v_llm_dashboard.Prelude.{
  ℕ, ◌≡◌, refl, ap, ◌∙◌, inl, inr, Bool, true, ◌||◌, List, [], ◌∷◌, ◌++◌, anyb, ◌==◌, ==_refl,
  nat_eq, arith, Bool-cases,
}
use v_llm_dashboard.Prelude.Texts.{Text, starts_with}
use v_llm_dashboard.Prelude.Words.{split_on, has_infix, onto_first}

abbrev IsCons : List Text → Type 0
IsCons parts = (part : Text) × (rest : List Text) × (parts ≡ part ∷ rest)

split_on-IsCons : (x : ℕ) (a : Text) → IsCons (split_on x a)
unfolding split_on
split_on-IsCons x [] = ([], [], refl)
split_on-IsCons x (c ∷ a) = elim (Bool-cases (c == x)) [
  | inl same ↦ rw same ([], split_on x a, refl)
  | inr other ↦ let (part, rest, e) = split_on-IsCons x a in rw (other, e) (c ∷ part, rest, refl)
]

onto_first-append :
    (c : ℕ) (parts more : List Text)
    → IsCons parts
    → onto_first c (parts ++ more) ≡ onto_first c parts ++ more
onto_first-append c parts more (part, rest, e) = rw e refl

pub split_on-append : (x : ℕ) (a b : Text) → split_on x (a ++ x ∷ b) ≡ split_on x a ++ split_on x b
unfolding split_on
split_on-append x [] b = rw (==_refl x) refl
split_on-append x (c ∷ a) b = elim (Bool-cases (c == x)) [
  | inl same ↦ rw same (ap (λ l. [] ∷ l) (split_on-append x a b))
  | inr other ↦ rw other (
      ap (onto_first c) (split_on-append x a b)
      ∙ onto_first-append c (split_on x a) (split_on x b) (split_on-IsCons x a))
]

starts_with_sound : (s t : Text) → starts_with s t ≡ true → (b : Text) × (s ≡ t ++ b)
starts_with_sound s [] h = (s, refl)
starts_with_sound [] (y ∷ t) h = absurd (ground arith)
starts_with_sound (x ∷ s) (y ∷ t) h =
    let head : x ≡ y = ground arith in
    let tail : starts_with s t ≡ true = ground arith in
    let (b, e) = starts_with_sound s t tail in (b, rw (head, e) refl)

pub has_infix_sound :
    (t s : Text) → has_infix t s ≡ true → (a : Text) × (b : Text) × (s ≡ a ++ t ++ b)
unfolding has_infix
has_infix_sound [] [] h = ([], [], refl)
has_infix_sound (y ∷ t) [] h = absurd (ground arith)
has_infix_sound t (c ∷ s) h = elim (Bool-cases (starts_with (c ∷ s) t)) [
  | inl front ↦ let (b, e) = starts_with_sound (c ∷ s) t front in ([], b, e)
  | inr behind ↦
      let h' : has_infix t s ≡ true = rw behind at h in
      let (a, b, e) = has_infix_sound t s h' in (c ∷ a, b, ap (λ l. c ∷ l) e)
]

pub anyb-append :
    {A : Type 0} → (p : A → Bool) (xs ys : List A) → anyb p (xs ++ ys) ≡ anyb p xs || anyb p ys
anyb-append p [] ys = refl
anyb-append p (x ∷ xs) ys = ground (arith, anyb-append p xs ys)
