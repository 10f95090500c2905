-- ===== src/Downloads/Progress.antt =====
-- backend/service/model_download_status.py: the bounds of the progress, and what a stall counts from.
use v_llm_dashboard.Prelude.{
  ℕ, ◌-◌, ◌*◌, ◌≤◌, ◌<◌, ◌≡◌, refl, ap, sym, ◌⊎◌, inl, inr, true, ◌&&◌, Option, none, some, List,
  [], ◌∷◌, ltb, leb, max, anyb, All, ◌==◌, ==_iff, nat_eq, arith, Bool-cases,
}
use mathlib.Core.Path.{subst}
use v_llm_dashboard.Prelude.Texts.{Text, text_eq}
use v_llm_dashboard.Downloads.{
  Fraction, at_most, at_least, by_elapsed, by_text, progress, Grown, note_growth,
}

abbrev pub Below : Fraction → Type 0
Below f = f.num ≤ 99 * f.den

at_most_99-Below : (f : Fraction) → Below (at_most 99 f)
at_most_99-Below f = elim (Bool-cases (leb (99 * f.den) f.num)) [
  | inl y ↦ rw y (omega arith)
  | inr z ↦ let lt : f.num < 99 * f.den = ground arith in rw z (omega arith)
]

at_most_95-Below : (f : Fraction) → Below (at_most 95 f)
at_most_95-Below f = elim (Bool-cases (leb (95 * f.den) f.num)) [
  | inl y ↦ rw y (omega arith)
  | inr z ↦ let lt : f.num < 95 * f.den = ground arith in rw z (omega arith)
]

by_elapsed-Below : (now mtime : ℕ) → Below (by_elapsed now mtime)
by_elapsed-Below now mtime =
    let f : Fraction = at_least 5 (record { num = max 1 (now - mtime) * 100; den = 1800 }) in
    elim (Bool-cases (ltb 0 mtime)) [
      | inl y ↦ rw y (at_most_95-Below f)
      | inr z ↦ rw z (omega arith)
    ]

by_text-Below : (o : Option Fraction) (now mtime : ℕ) → Below (by_text o now mtime)
by_text-Below none now mtime = by_elapsed-Below now mtime
by_text-Below (some f) now mtime = at_most_99-Below f

-- A download that still runs never shows more than 99 percent, whichever of the bytes, the text or
-- the elapsed time its progress is read from.
pub progress-Below :
    (total size : ℕ) (parsed : Option Fraction) (now mtime : ℕ)
    → Below (progress total size parsed now mtime)
unfolding progress
progress-Below total size parsed now mtime = elim (Bool-cases (ltb 0 total && ltb 0 size)) [
  | inl y ↦ rw y (at_most_99-Below (record { num = size * 100; den = total }))
  | inr z ↦ rw z (by_text-Below parsed now mtime)
]

-- polls of one process, each with the bytes on disk and the time
unfoldable pub note_all : Text → ℕ → List (ℕ × ℕ) → Grown → Grown
unfolding note_growth
note_all pid mtime [] g = g
note_all pid mtime ((size, now) ∷ polls) g =
    note_all pid mtime polls (note_growth pid size now mtime (some g)).0

-- an entry that holds the most bytes that the polls saw, and the time of a poll that saw them, or
-- the entry from before the polls
abbrev pub IsPeak : Grown → List (ℕ × ℕ) → Grown → Type 0
IsPeak old polls g =
    (old.size ≤ g.size)
    × All (λ p. p.0 ≤ g.size) polls
    × ((anyb (λ p. p.0 == g.size && p.1 == g.time) polls ≡ true) ⊎ (g ≡ old))

-- While one process runs, a stall counts from the poll at which its bytes last grew: the entry is
-- of a poll that saw as many bytes as any.
pub note_all-IsPeak :
    (pid : Text) (mtime : ℕ) (polls : List (ℕ × ℕ)) (g : Grown)
    → g.pid ≡ pid
    → IsPeak g polls (note_all pid mtime polls g)
unfolding note_all note_growth
note_all-IsPeak pid mtime [] g e = (omega arith, tt, inr refl)
note_all-IsPeak pid mtime ((size, now) ∷ polls) g e =
    let same : (pid == g.pid) ≡ true = (==_iff pid g.pid).1 (sym e) in
    let Peak : Grown → Type 0 = λ x. IsPeak g ((size, now) ∷ polls) (note_all pid mtime polls x) in
    elim (Bool-cases (ltb g.size size)) [
      | inl grew ↦
          let fresh : Grown = record { pid = pid; size = size; time = now } in
          let step : (note_growth pid size now mtime (some g)).0 ≡ fresh = rw (same, grew) refl in
          let (le, all, from) = note_all-IsPeak pid mtime polls fresh refl in
          let last : Grown = note_all pid mtime polls fresh in
          let more : g.size ≤ last.size = ground arith in
          subst Peak (sym step) (more, (le, all), inl (seen_first last from))
      | inr kept ↦
          let step : (note_growth pid size now mtime (some g)).0 ≡ g =
            elim (Bool-cases (ltb 0 size)) [
              | inl y ↦ rw (same, kept, y) refl
              | inr z ↦ rw (same, kept, z) refl
            ] in
          let (le, all, from) = note_all-IsPeak pid mtime polls g e in
          let last : Grown = note_all pid mtime polls g in
          let less : size ≤ last.size = ground arith in
          subst Peak (sym step) (le, (less, all), seen_later last from)
    ]
  where
    seen_first :
        (last : Grown)
        → (anyb (λ p. p.0 == last.size && p.1 == last.time) polls ≡ true)
          ⊎ (last ≡ record { pid = pid; size = size; time = now })
        → (anyb (λ p. p.0 == last.size && p.1 == last.time) ((size, now) ∷ polls) ≡ true)
    seen_first last (inl a) = ground arith
    seen_first last (inr q) =
        let s : last.size ≡ size = ap (λ x. x.size) q in
        let t : last.time ≡ now = ap (λ x. x.time) q in ground arith

    seen_later :
        (last : Grown)
        → (anyb (λ p. p.0 == last.size && p.1 == last.time) polls ≡ true) ⊎ (last ≡ g)
        → (anyb (λ p. p.0 == last.size && p.1 == last.time) ((size, now) ∷ polls) ≡ true)
          ⊎ (last ≡ g)
    seen_later last (inl a) = inl (ground arith)
    seen_later last (inr q) = inr q
