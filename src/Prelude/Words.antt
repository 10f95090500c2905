-- ===== src/Prelude/Words.antt =====
-- Python's methods of `str` on lists of code points, for ASCII texts.
use Prim.Native.Nat.{ℕ, ◌+◌}
use mathlib.Core.Bool.{Bool, true, false, ◌&&◌, ◌||◌}
use mathlib.Core.Option.{Option, none, some}
use mathlib.Core.List.{List, [], ◌∷◌}
use v_llm_dashboard.Prelude.Tests.{if◌then◌else◌, leb}
use v_llm_dashboard.Prelude.Eq.{◌==◌, nat_eq}
use v_llm_dashboard.Prelude.Texts.{Text, starts_with}
use v_llm_dashboard.Prelude.Regex.{is_upper, is_space}

abbrev pub is_empty_text : Text → Bool
is_empty_text [] = true
is_empty_text (c ∷ text) = false

-- s or t
abbrev pub or_text : Text → Text → Text
or_text [] t = t
or_text (c ∷ s) t = c ∷ s

-- s.lower()
abbrev pub lower : Text → Text
lower [] = []
lower (c ∷ text) = (if is_upper c then c + 32 else c) ∷ lower text

-- t in s
unfoldable pub has_infix : Text → Text → Bool
has_infix t [] = is_empty_text t
has_infix t (c ∷ s) = starts_with (c ∷ s) t || has_infix t s

unfoldable pub drop_spaces : Text → Text
drop_spaces [] = []
drop_spaces (c ∷ text) = let rest = drop_spaces text in if is_space c then rest else c ∷ text

-- s.rstrip()
unfoldable pub rstrip_spaces : Text → Text
rstrip_spaces [] = []
rstrip_spaces (c ∷ text) =
    let rest = rstrip_spaces text in if is_space c && is_empty_text rest then [] else c ∷ rest

-- s.strip()
abbrev pub strip_text : Text → Text
strip_text text = rstrip_spaces (drop_spaces text)

abbrev pub onto_first : ℕ → List Text → List Text
onto_first c [] = (c ∷ []) ∷ []
onto_first c (part ∷ parts) = (c ∷ part) ∷ parts

-- s.split(x) for one character
unfoldable pub split_on : ℕ → Text → List Text
split_on x [] = [] ∷ []
split_on x (c ∷ text) =
    let parts = split_on x text in if c == x then [] ∷ parts else onto_first c parts

-- s.partition(x) for one character: what stands before it, and what stands behind it where it is found
unfoldable pub partition : ℕ → Text → Text × Option Text
partition x [] = ([], none)
partition x (c ∷ text) =
    let (before, after) = partition x text in
    if c == x then ([], some text) else (c ∷ before, after)

-- the characters at which str.splitlines breaks; an empty line more or less changes nothing
abbrev is_line_break : ℕ → Bool
is_line_break c = (leb 10 c && leb c 13) || (leb 28 c && leb c 30)

abbrev pub as_newlines : Text → Text
as_newlines [] = []
as_newlines (c ∷ text) = (if is_line_break c then b'\n' else c) ∷ as_newlines text
