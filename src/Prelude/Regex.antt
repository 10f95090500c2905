-- ===== src/Prelude/Regex.antt =====
-- Python's `re`: patterns, and the ways to match one in the order in which a backtracking matcher
-- tries them. A text is a list of code points, and the classes are those of ASCII.
use Prim.Native.Nat.{ℕ, zero, suc, ◌-◌}
use mathlib.Core.Bool.{Bool, true, false, ◌&&◌, ◌||◌}
use mathlib.Core.Option.{Option, none, some}
use mathlib.Core.List.{List, [], ◌∷◌, ◌++◌}
use v_llm_dashboard.Prelude.Tests.{ltb, leb, if◌then◌else◌}
use v_llm_dashboard.Prelude.Lists.{length, take}
use v_llm_dashboard.Prelude.Eq.{◌==◌, nat_eq}
use v_llm_dashboard.Prelude.Dict.{Dict, get, set}

abbrev pub is_digit : ℕ → Bool
is_digit c = leb b'0' c && leb c b'9'

abbrev pub is_upper : ℕ → Bool
is_upper c = leb b'A' c && leb c b'Z'

abbrev pub is_letter : ℕ → Bool
is_letter c = is_upper c || (leb b'a' c && leb c b'z')

-- \w
abbrev pub is_word : ℕ → Bool
is_word c = is_letter c || is_digit c || c == b'_'

-- \s, str.isspace
abbrev pub is_space : ℕ → Bool
is_space c = (leb 9 c && leb c 13) || (leb 28 c && leb c 32)

pub data Regex : Type 0 where
  one_of : (ℕ → Bool) → Regex
  empty at_start : Regex
  seq alt : Regex → Regex → Regex
  many : Regex → Regex
  group : ℕ → Regex → Regex

-- a position in the text: what follows, and the groups matched so far
pub record Scan : Type 0 where
  pub rest : List ℕ
  pub is_first : Bool
  pub groups : Dict ℕ (List ℕ)

unfoldable pub concat_map : (Scan → List Scan) → List Scan → List Scan
concat_map f [] = []
concat_map f (s ∷ ss) = f s ++ concat_map f ss

unfoldable pub step_over : (ℕ → Bool) → List ℕ → Scan → List Scan
step_over p [] s = []
step_over p (c ∷ rest) s = if p c then record s { rest = rest; is_first = false } ∷ [] else []

-- a round of `*` has to take something
unfoldable pub shorter : ℕ → List Scan → List Scan
shorter n [] = []
shorter n (s ∷ ss) = if ltb (length s.rest) n then s ∷ shorter n ss else shorter n ss

unfoldable pub rounds : ℕ → (Scan → List Scan) → Scan → List Scan
rounds zero step s = s ∷ []
rounds (suc fuel) step s =
    concat_map (rounds fuel step) (shorter (length s.rest) (step s)) ++ s ∷ []

unfoldable pub taken : ℕ → Scan → Scan → Scan
taken n before s = record s {
  groups = set n (take (length before.rest - length s.rest) before.rest) s.groups;
}

unfoldable pub take_group : ℕ → Scan → List Scan → List Scan
take_group n before [] = []
take_group n before (s ∷ ss) = taken n before s ∷ take_group n before ss

-- every match from a position, the preferred one first; a repetition has as many rounds as
-- characters are left
unfoldable pub matches : Regex → Scan → List Scan
matches (one_of p) s = step_over p s.rest s
matches empty s = s ∷ []
matches at_start s = if s.is_first then s ∷ [] else []
matches (seq r q) s = concat_map (matches q) (matches r s)
matches (alt r q) s = matches r s ++ matches q s
matches (many r) s = rounds (length s.rest) (matches r) s
matches (group n r) s = take_group n s (matches r s)

first_of : List Scan → Option Scan
first_of [] = none
first_of (s ∷ ss) = some s

-- re.match
unfoldable pub match_prefix : Regex → List ℕ → Option Scan
unfolding step_over concat_map shorter rounds taken take_group matches first_of
match_prefix r text = first_of (matches r (record { rest = text; is_first = true; groups = [] }))

or_else : Option Scan → Option Scan → Option Scan
or_else none o = o
or_else (some s) o = some s

search_from : Regex → Bool → List ℕ → Option Scan
unfolding or_else matches first_of
search_from r is_first [] =
    first_of (matches r (record { rest = []; is_first = is_first; groups = [] }))
search_from r is_first (c ∷ text) =
    or_else (first_of (matches r (record { rest = c ∷ text; is_first = is_first; groups = [] })))
      (search_from r false text)

-- re.search
unfoldable pub search : Regex → List ℕ → Option Scan
unfolding step_over concat_map shorter rounds taken take_group matches first_of or_else search_from
search r text = search_from r true text

unfoldable pub is_at_end : Scan → Bool
is_at_end s = length s.rest == 0

unfoldable pub some_at_end : List Scan → Bool
some_at_end [] = false
some_at_end (s ∷ ss) = is_at_end s || some_at_end ss

-- re.fullmatch
unfoldable pub full_match : Regex → List ℕ → Bool
unfolding step_over concat_map shorter rounds taken take_group matches some_at_end is_at_end
full_match r text = some_at_end (matches r (record { rest = text; is_first = true; groups = [] }))

-- re.sub(r, "", text): `skip` counts the characters of a match that are still to be dropped
sub_from : Regex → ℕ → List ℕ → List ℕ
unfolding matches first_of
sub_from r skip [] = []
sub_from r (suc skip) (c ∷ text) = sub_from r skip text
sub_from r zero (c ∷ text) =
    elim (first_of (matches r (record { rest = c ∷ text; is_first = false; groups = [] }))) [
      | none ↦ c ∷ sub_from r zero text
      | some s ↦ sub_from r (length text - length s.rest) text
    ]

unfoldable pub erase : Regex → List ℕ → List ℕ
unfolding step_over concat_map shorter rounds taken take_group matches first_of sub_from
erase r text = sub_from r zero text

find_from : Regex → ℕ → Bool → List ℕ → List Scan
unfolding matches first_of
find_from r skip is_first [] = []
find_from r (suc skip) is_first (c ∷ text) = find_from r skip false text
find_from r zero is_first (c ∷ text) =
    elim (first_of (matches r (record { rest = c ∷ text; is_first = is_first; groups = [] }))) [
      | none ↦ find_from r zero false text
      | some s ↦ s ∷ find_from r (length text - length s.rest) false text
    ]

-- re.findall, of a pattern that matches no empty text
unfoldable pub find_all : Regex → List ℕ → List Scan
unfolding step_over concat_map shorter rounds taken take_group matches first_of find_from
find_all r text = find_from r zero true text

abbrev pub optional : Regex → Regex
optional r = alt r empty

-- r+
abbrev pub many1 : Regex → Regex
many1 r = seq r (many r)

abbrev pub lit : ℕ → Regex
lit c = one_of (λ x. x == c)

abbrev pub word : List ℕ → Regex
word [] = empty
word (c ∷ []) = lit c
word (c ∷ d ∷ text) = seq (lit c) (word (d ∷ text))

-- r{0,n} and r{n}
abbrev pub up_to : ℕ → Regex → Regex
up_to zero r = empty
up_to (suc n) r = optional (seq r (up_to n r))

abbrev pub times : ℕ → Regex → Regex
times zero r = empty
times (suc n) r = seq r (times n r)

-- m["name"], with the groups numbered
abbrev pub group_text : ℕ → Scan → List ℕ
group_text n s = elim (get n s.groups) [ none ↦ [] | some text ↦ text ]

-- patterns one after another
abbrev pub sequence : List Regex → Regex
sequence [] = empty
sequence (r ∷ []) = r
sequence (r ∷ q ∷ rs) = seq r (sequence (q ∷ rs))
