-- ===== src/Sync/Match.antt =====
-- Which served id belongs to a model: `_match_served_id` of backend/service/model_status_sync.py.
-- A text is walked as the list of its code points; `ids` is the set of served ids in the order in
-- which Python iterates it.
use v_llm_dashboard.Prelude.Texts.{code_points, list_beq}
use v_llm_dashboard.Schemas.{ModelInfo}
use v_llm_dashboard.Prelude.{
  ℕ, ◌-◌, String, ◌≡◌, refl, Bool, ◌&&◌, ◌||◌, Option, none, some, List, [], ◌∷◌, leb, length, drop,
  anyb, is_some, if◌then◌else◌, ◌==◌, string_eq, nat_eq,
}

-- path.split("/")[-1]: what follows the last slash, or the whole text
unfoldable pub last_segment : List ℕ → List ℕ
last_segment [] = []
last_segment (c ∷ s) =
    if anyb (λ x. x == b'/') (c ∷ s)
    then (if anyb (λ x. x == b'/') s then last_segment s else if c == b'/' then s else c ∷ s)
    else c ∷ s

-- s.replace(".", "_").replace("-", "_")
unfoldable pub normalized : List ℕ → List ℕ
normalized [] = []
normalized (c ∷ s) = (if c == b'.' || c == b'-' then b'_' else c) ∷ normalized s

-- s.endswith(t)
unfoldable pub ends_with : List ℕ → List ℕ → Bool
ends_with s t = leb (length t) (length s) && list_beq (drop (length s - length t) s) t

abbrev first_with : (String → Bool) → List String → Option String
first_with p [] = none
first_with p (i ∷ is) = if p i then some i else first_with p is

abbrev or_next : Option String → Option String → Option String
or_next none o = o
or_next (some i) o = some i

-- The steps in order: the path itself, the name, the normalised last segment, and for a long enough
-- segment a suffix either way.
unfoldable pub match_served_id : String → String → List String → Option String
unfolding last_segment normalized ends_with
match_served_id path name ids =
    let segment = last_segment (code_points path) in
    or_next (first_with (λ i. i == path) ids) (
      or_next (first_with (λ i. i == name) ids) (
        or_next (first_with (λ i. list_beq (normalized (code_points i)) (normalized segment)) ids) (
          if leb 6 (length segment)
          then first_with
              (λ i.
                ends_with (code_points path) (code_points i) || ends_with (code_points i) segment)
              ids
          else none)))

unfoldable pub match_model_name : ModelInfo → List String → Bool
unfolding match_served_id
match_model_name m ids = is_some (match_served_id m.path m.name ids)

last_segment_test : last_segment (code_points "/models/org/Qwen-7B") ≡ code_points "Qwen-7B"
unfolding last_segment
last_segment_test = refl

match_test : match_served_id "/models/Qwen.7-B" "x" ("a" ∷ "Qwen_7_B" ∷ []) ≡ some "Qwen_7_B"
unfolding match_served_id
match_test = refl
