-- ===== src/Access/Notes.antt =====
-- backend/service/connection_notes.py: the notes on client addresses, which survive a restart in a
-- file that is replaced on every change. A note is the list of its code points.
use v_llm_dashboard.Prelude.{
  ℕ, ◌≡◌, refl, ap, inl, inr, String, Bool, true, false, ◌&&◌, ◌||◌, Option, none, some, List, [],
  ◌∷◌, All, leb, take, if◌then◌else◌, ◌==◌, string_eq, nat_eq, Bool-cases,
}
use v_llm_dashboard.Prelude.Dict.{Dict, set, remove, has}

abbrev pub Note : Type 0
Note = List ℕ

-- `notes_file` is what the file holds; none where there is none
pub record ConnectionNotes : Type 0 where
  pub notes : Dict String Note
  pub notes_file : Option (Dict String Note)

-- NOTE_MAX_LEN
abbrev pub note_max_len : ℕ
note_max_len = 200

-- str.isspace
abbrev is_space : ℕ → Bool
is_space c =
    (leb 9 c && leb c 13)
    || (leb 28 c && leb c 32)
    || c == 133
    || c == 160
    || c == 5760
    || (leb 8192 c && leb c 8202)
    || c == 8232
    || c == 8233
    || c == 8239
    || c == 8287
    || c == 12288

abbrev lstrip : Note → Note
lstrip [] = []
lstrip (c ∷ s) = let rest = lstrip s in if is_space c then rest else c ∷ s

abbrev all_space : Note → Bool
all_space [] = true
all_space (c ∷ s) = is_space c && all_space s

abbrev rstrip : Note → Note
rstrip [] = []
rstrip (c ∷ s) = let rest = rstrip s in if is_space c && all_space s then [] else c ∷ rest

-- note.strip()
unfoldable pub strip : Note → Note
strip s = rstrip (lstrip s)

abbrev pub is_empty : Note → Bool
is_empty [] = true
is_empty (c ∷ s) = false

-- the entries that `_load` keeps; `none` is a value that is no text
unfoldable pub kept_notes : Dict String (Option Note) → Dict String Note
kept_notes [] = []
kept_notes ((ip, none) ∷ d) = kept_notes d
kept_notes ((ip, some note) ∷ d) = if is_empty note then kept_notes d else (ip, note) ∷ kept_notes d

abbrev pub as_stored : Dict String Note → Dict String (Option Note)
as_stored [] = []
as_stored ((ip, note) ∷ d) = (ip, some note) ∷ as_stored d

abbrev pub loaded : Option (Dict String Note) → Dict String Note
loaded none = []
loaded (some d) = kept_notes (as_stored d)

-- `_save`
unfoldable pub save : ConnectionNotes → ConnectionNotes
save c = record c { notes_file = some c.notes }

-- `clear`
unfoldable pub clear_note : String → ConnectionNotes → ConnectionNotes
unfolding save
clear_note ip c = if has ip c.notes then save (record c { notes = remove ip c.notes }) else c

abbrev set_stripped : String → Note → ConnectionNotes → ConnectionNotes
set_stripped ip [] c = clear_note ip c
set_stripped ip (x ∷ note) c =
    save (record c { notes = set ip (take note_max_len (x ∷ note)) c.notes })

-- `set`
unfoldable pub set_note : String → Note → ConnectionNotes → ConnectionNotes
unfolding strip save clear_note
set_note ip note c = set_stripped ip (strip note) c

-- the start, or a restart, on a file
unfoldable pub reload : ConnectionNotes → ConnectionNotes
unfolding kept_notes
reload c = record c { notes = loaded c.notes_file }

-- Each note has a text, and the file holds the notes.
pub record IsStored (c : ConnectionNotes) : Type 0 where
  pub texts : All (λ e. is_empty e.1 ≡ false) c.notes
  pub stored : loaded c.notes_file ≡ c.notes

abbrev Texts : Dict String Note → Type 0
Texts d = All (λ e. is_empty e.1 ≡ false) d

kept_notes-all : (d : Dict String Note) → Texts d → kept_notes (as_stored d) ≡ d
unfolding kept_notes
kept_notes-all [] t = refl
kept_notes-all ((ip, note) ∷ d) t = rw t.0 (ap (λ x. (ip, note) ∷ x) (kept_notes-all d t.1))

save-IsStored : (c : ConnectionNotes) → Texts c.notes → IsStored (save c)
unfolding save
save-IsStored c t = record { texts = t; stored = kept_notes-all c.notes t }

Texts-remove : (ip : String) (d : Dict String Note) → Texts d → Texts (remove ip d)
unfolding remove
Texts-remove ip [] t = tt
Texts-remove ip ((j, note) ∷ d) t = elim (Bool-cases (j == ip)) [
  | inl same ↦ rw same (Texts-remove ip d t.1)
  | inr other ↦ rw other (t.0, Texts-remove ip d t.1)
]

Texts-set :
    (ip : String) (note : Note) (d : Dict String Note)
    → is_empty note ≡ false
    → Texts d
    → Texts (set ip note d)
unfolding set
Texts-set ip note [] e t = (e, tt)
Texts-set ip note ((j, old) ∷ d) e t = elim (Bool-cases (j == ip)) [
  | inl same ↦ rw same (e, t.1)
  | inr other ↦ rw other (t.0, Texts-set ip note d e t.1)
]

clear_note-IsStored : (ip : String) (c : ConnectionNotes) → IsStored c → IsStored (clear_note ip c)
unfolding clear_note
clear_note-IsStored ip c h = elim (Bool-cases (has ip c.notes)) [
  | inl there ↦
      rw there
        (save-IsStored (record c { notes = remove ip c.notes }) (Texts-remove ip c.notes h.texts))
  | inr gone ↦ rw gone h
]

set_stripped-IsStored :
    (ip : String) (note : Note) (c : ConnectionNotes)
    → IsStored c
    → IsStored (set_stripped ip note c)
set_stripped-IsStored ip [] c h = clear_note-IsStored ip c h
set_stripped-IsStored ip (x ∷ note) c h =
    save-IsStored (record c { notes = set ip (take note_max_len (x ∷ note)) c.notes })
      (Texts-set ip (take note_max_len (x ∷ note)) c.notes refl h.texts)

-- what the panel does to the notes
pub data Edit : Type 0 where
  set_to : String → Note → Edit
  cleared : String → Edit

unfoldable pub edit : List Edit → ConnectionNotes → ConnectionNotes
unfolding set_note clear_note
edit [] c = c
edit (set_to ip note ∷ es) c = edit es (set_note ip note c)
edit (cleared ip ∷ es) c = edit es (clear_note ip c)

edit-IsStored : (es : List Edit) (c : ConnectionNotes) → IsStored c → IsStored (edit es c)
unfolding edit set_note
edit-IsStored [] c h = h
edit-IsStored (set_to ip note ∷ es) c h =
    edit-IsStored es (set_note ip note c) (set_stripped-IsStored ip (strip note) c h)
edit-IsStored (cleared ip ∷ es) c h =
    edit-IsStored es (clear_note ip c) (clear_note-IsStored ip c h)

-- After any edits a restart brings back exactly the notes, if it did at the start and no note was
-- empty.
pub reload-edit :
    (es : List Edit) (c : ConnectionNotes)
    → IsStored c
    → (reload (edit es c)).notes ≡ (edit es c).notes
unfolding reload
reload-edit es c h = (edit-IsStored es c h).stored
