-- ===== src/Examples/Tickets.antt =====
-- The ticket store on a short history.
use v_llm_dashboard.Prelude.{◌+◌, ◌≤◌, List, [], ◌∷◌, arith, string_eq}
use v_llm_dashboard.Prelude.Dict.{get}
use v_llm_dashboard.Tickets.{seconds}
use v_llm_dashboard.Tickets.Store.{IsValid}
use v_llm_dashboard.Tickets.Trace.{Event, issuing, consuming, accepts, grants, single_use}

abbrev history : List Event
history =
    issuing 0 1 "a"
    ∷ consuming 5 "a"
    ∷ consuming 6 "a"
    ∷ issuing 7 8 "b"
    ∷ consuming (seconds 61) "b"
    ∷ []

IsValid-empty : IsValid []
IsValid-empty = record { bounded = omega arith; unique = tt }

single_use_example : accepts "a" history [] ≤ 0 + grants "a" history []
unfolding get
single_use_example = single_use "a" history [] IsValid-empty
