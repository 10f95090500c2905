-- ===== src/Examples/Console.antt =====
-- A console session with output beyond its buffer's start, and the shared sessions.
use v_llm_dashboard.Prelude.{◌≡◌, refl, List, [], ◌∷◌, ◌++◌, arith, length, string_eq, nat_eq}
use v_llm_dashboard.Prelude.Dict.{get}
use v_llm_dashboard.Prelude.Set.{contains}
use v_llm_dashboard.Console.Buffer.{Text, ConsoleSession, Reader, read_output}
use v_llm_dashboard.Console.Buffer.Screen.{
  Holds, IsPiece, Event, wrote, polled, run, output, run-IsPiece, read_output-latest,
}
use v_llm_dashboard.Console.Manager.{session, creating, Manager, claim, attached}
use v_llm_dashboard.Console.Manager.Sharing.{InUse, claim-InUse}

abbrev stream : Text
stream = 7 ∷ 8 ∷ 9 ∷ []

-- the first character is already trimmed
abbrev trimmed : ConsoleSession
trimmed = record { buffer = 8 ∷ 9 ∷ []; base_offset = 1; total_written = 3 }

trimmed-Holds : Holds stream trimmed
trimmed-Holds = record { total = refl; base = omega arith; tail = refl; bounded = omega arith }

abbrev late : Reader
late = record { screen = []; read_position = 0 }

abbrev history : List Event
history = wrote (1 ∷ 2 ∷ []) ∷ polled ∷ wrote (3 ∷ []) ∷ polled ∷ []

run-IsPiece_example :
    Holds (stream ++ output history) (run history trimmed late).0
    × IsPiece (stream ++ output history) (run history trimmed late).1
run-IsPiece_example =
    run-IsPiece history stream trimmed late trimmed-Holds (0, omega arith, omega arith, refl)

read_output-latest_example : (read_output trimmed late).read_position ≡ length stream
read_output-latest_example = read_output-latest stream trimmed late trimmed-Holds

-- five sessions, the first one watched by a WebSocket
abbrev five : Manager
five = record {
  sessions =
      ("a", session 1)
      ∷ ("b", session 2)
      ∷ ("c", session 3)
      ∷ ("d", session 4)
      ∷ ("e", creating)
      ∷ [];
  alive = 1 ∷ 2 ∷ 3 ∷ 4 ∷ [];
  active_ws = (1, 1) ∷ [];
}

in_use : InUse "a" 1 five
unfolding get contains attached
in_use = record { kept = refl; runs = refl; watched = refl }

claim-InUse_example : InUse "a" 1 (claim "f" five).1
claim-InUse_example = claim-InUse "f" "a" 1 five in_use

abbrev watched : Manager
watched = record five { active_ws = (1, 1) ∷ (2, 1) ∷ (3, 2) ∷ (4, 1) ∷ [] }
