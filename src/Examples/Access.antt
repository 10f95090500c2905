-- ===== src/Examples/Access.antt =====
-- A client without the key, and a client that sends credentials.
use v_llm_dashboard.Prelude.{◌≡◌, refl, true, none, some, List, [], ◌∷◌, string_eq}
use v_llm_dashboard.Access.{Request, RequestLog, requires_auth, respond}
use v_llm_dashboard.Access.Notes.{
  ConnectionNotes, kept_notes, IsStored, Edit, set_to, cleared, edit, reload, reload-edit,
}
use v_llm_dashboard.Access.Guarded.{Turned, respond-guarded}

abbrev stranger : Request
stranger = record {
  method = "POST";
  path = "//api/v1/models";
  client = some "10.0.0.9";
  api_key = "guess";
  content_length = some 10;
  body = some (104 ∷ 105 ∷ []);
}

abbrev empty : RequestLog
empty = record { entries = []; by_ip = [] }

guarded_path : requires_auth stranger.path ≡ true
unfolding requires_auth
guarded_path = refl

respond-guarded_example :
    Turned "secret" stranger (respond "secret" (λ r. some 200) 5 stranger empty).0
    × (respond "secret" (λ r. some 200) 5 stranger empty
        ≡ respond "secret" (λ r. none) 5 stranger empty)
respond-guarded_example =
    respond-guarded "secret" (λ r. some 200) (λ r. none) 5 stranger empty refl guarded_path refl
      refl

abbrev notes : ConnectionNotes
notes = record {
  notes = ("10.0.0.9", 104 ∷ []) ∷ [];
  notes_file = some (("10.0.0.9", 104 ∷ []) ∷ []);
}

notes-IsStored : IsStored notes
unfolding kept_notes
notes-IsStored = record { texts = (refl, tt); stored = refl }

abbrev edits : List Edit
edits = set_to "10.0.0.7" (32 ∷ 105 ∷ 32 ∷ []) ∷ set_to "10.0.0.9" (32 ∷ []) ∷ cleared "none" ∷ []

reload-edit_example : (reload (edit edits notes)).notes ≡ (edit edits notes).notes
reload-edit_example = reload-edit edits notes notes-IsStored
