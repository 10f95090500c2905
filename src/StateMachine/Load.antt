-- ===== src/StateMachine/Load.antt =====
-- `_load_state`: what a new process takes from the state file that the last one left.
-- pydantic's validation of an entry is not in the source: an entry of the file comes sorted into
-- what the constructor ModelInfo(**data) accepts and what it refuses.
use v_llm_dashboard.Prelude.{
  ℕ, String, Bool, false, not, ◌&&◌, Option, none, some, List, [], ◌∷◌, ◌++◌, if◌then◌else◌, ◌==◌,
  string_eq,
}
use v_llm_dashboard.Prelude.Dict.{Dict, get, set}
use v_llm_dashboard.Schemas.{
  ModelStatus, running, stopped, failed, is_transient, ModelInfo, status_eq,
}
use v_llm_dashboard.StateMachine.{StateMachine, SavedState}

-- data.get(key, default) for a field that has to be a text
pub data RawText : Type 0 where
  absent malformed : RawText
  given : String → RawText

-- An entry of the file: a full record; an object that the constructor refuses, with the fields that
-- are read before and after, and the error; or no object at all.
pub data RawModel : Type 0 where
  full : ModelInfo → RawModel
  refused : Bool → Option ModelStatus → RawText → RawText → String → RawModel
  not_an_object : RawModel

pub data RawFile : Type 0 where
  missing unreadable : RawFile
  contents : Dict String RawModel → Option String → RawFile

abbrev or_default : RawText → String → Option String
or_default absent d = some d
or_default malformed d = none
or_default (given t) d = some t

abbrev transient_status : Option ModelStatus → Bool
transient_status none = false
transient_status (some st) = is_transient st

-- the entry as the loop has changed it before it builds the record
unfoldable pub coerced : ModelInfo → ModelInfo
coerced m = record m {
  status = if is_transient m.status then stopped else m.status;
  loading_since = if is_transient m.status then none else m.loading_since;
  download_progress = 0;
  error_message = "";
}

abbrev failed_model : String → Option String → Option String → ℕ → String → Option ModelInfo
failed_model model_id (some name) (some path) now e = some (record {
  id = model_id;
  name = name;
  path = path;
  status = failed;
  config = record { name = name; path = path; extra = [] };
  created_at = now;
  updated_at = now;
  download_progress = 0;
  error_message = e;
  size_bytes = 0;
  loading_since = none;
  last_started_at = none;
  locked = false;
  benchmark = none;
})
failed_model model_id _ _ now e = none

-- the record that one entry gives; `none` is an entry that is skipped
unfoldable pub restored : String → ℕ → RawModel → Option ModelInfo
unfolding coerced
restored model_id now (full m) = some (coerced m)
restored model_id now (refused locked st name path e) =
    failed_model model_id (or_default name model_id) (or_default path "") now e
restored model_id now not_an_object = none

-- whether the entry is noted as a locked model that was up
unfoldable pub was_locked_up : RawModel → Bool
was_locked_up (full m) = m.locked && is_transient m.status
was_locked_up (refused locked st name path e) = locked && transient_status st
was_locked_up not_an_object = false

abbrev put_restored : String → Option ModelInfo → Dict String ModelInfo → Dict String ModelInfo
put_restored model_id none d = d
put_restored model_id (some m) d = set model_id m d

-- the loop over the entries, with the models and the pending restarts so far
unfoldable pub load_models :
    ℕ
    → Dict String RawModel
    → Dict String ModelInfo
    → List String
    → Dict String ModelInfo × List String
load_models now [] models pending = (models, pending)
load_models now ((model_id, raw) ∷ rest) models pending =
    load_models now rest (put_restored model_id (restored model_id now raw) models)
      (if was_locked_up raw then pending ++ model_id ∷ [] else pending)

abbrev pub is_stale : Option ModelInfo → Bool
is_stale none = false
is_stale (some m) = not (m.status == running)

-- a current model that is known and not running is dropped
unfoldable pub loaded_current : Dict String ModelInfo → Option String → Option String
loaded_current models none = none
loaded_current models (some c) = if not (c == "") && is_stale (get c models) then none else some c

abbrev pub fresh : Option SavedState → StateMachine
fresh file = record {
  models = [];
  current_model_id = none;
  pending_locked_restarts = [];
  debounce_timer = none;
  dirty = false;
  save_failures = 0;
  live = [];
  next_timer = 0;
  timer_delay = 0;
  state_file = file;
}

-- StateMachine(state_file): `file` is what the file holds, `now` the clock.
unfoldable pub load_state : ℕ → Option SavedState → RawFile → StateMachine
unfolding load_models loaded_current
load_state now file missing = fresh file
load_state now file unreadable = fresh file
load_state now file (contents raw current) =
    let (models, pending) = load_models now raw [] [] in
    record (fresh file) {
      models = models;
      pending_locked_restarts = pending;
      current_model_id = loaded_current models current;
    }

-- The file that a flush writes, as the next process reads it.
unfoldable pub entries : Dict String ModelInfo → Dict String RawModel
entries [] = []
entries ((k, m) ∷ d) = (k, full m) ∷ entries d

unfoldable pub written : SavedState → RawFile
unfolding entries
written f = contents (entries f.models) f.current_model_id
