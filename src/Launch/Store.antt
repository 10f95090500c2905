-- ===== src/Launch/Store.antt =====
-- backend/config/model_launch_config.py: `ModelLaunchConfigManager`, over the files of its
-- directory. A write succeeds; the digest of a model's id and the content of a configuration are
-- parameters.
pub mod Kept
use v_llm_dashboard.Prelude.{
  ℕ, Bool, true, false, ◌||◌, Option, none, some, List, [], ◌∷◌, ◌++◌, if◌then◌else◌, ◌==◌, nat_eq,
}
use v_llm_dashboard.Prelude.Eq.{Eq}
use v_llm_dashboard.Prelude.Dict.{Dict, get, set, remove}
use v_llm_dashboard.Prelude.Texts.{Text, text_eq, code_points}

-- `_safe_id`
abbrev pub safe_id : Text → Text
safe_id [] = []
safe_id (c ∷ id) = (if c == b'/' || c == b'\\' then b'_' else c) ∷ safe_id id

-- `_get_config_path`
abbrev pub get_config_path : Text → Text
get_config_path id = safe_id id ++ code_points ".json"

-- a file that is no JSON, or the id and the rest of a stored configuration
pub data Stored (C : Type 0) : Type 0 where
  unreadable : Stored C
  stored : Option Text → C → Stored C

abbrev pub Files : Type 0 → Type 0
Files C = Dict Text (Stored C)

-- `_disambiguated_path`
abbrev pub disambiguated_path : (Text → Text) → Text → Text
disambiguated_path digest id = safe_id id ++ code_points "--" ++ digest id ++ code_points ".json"

module _ {C : Type 0} where
  -- a file that holds a configuration of another model
  abbrev pub is_foreign : Text → Option (Stored C) → Bool
  is_foreign id none = false
  is_foreign id (some unreadable) = false
  is_foreign id (some (stored none c)) = false
  is_foreign id (some (stored (some owner) c)) = if owner == id then false else true

  -- the configuration in a file, where the model may use it
  abbrev pub usable : Text → Option (Stored C) → Option C
  usable id none = none
  usable id (some unreadable) = none
  usable id (some (stored none c)) = some c
  usable id (some (stored (some owner) c)) = if owner == id then some c else none

  abbrev pub or_next : Option C → Option C → Option C
  or_next none o = o
  or_next (some c) o = some c

  abbrev pub drop_usable : Text → Files C → Option C → Files C
  drop_usable path files none = files
  drop_usable path files (some c) = remove path files

  abbrev pub delete_at : Text → Text → Files C → Files C
  delete_at id path files = drop_usable path files (usable id (get path files))

  module _ (digest : Text → Text) where
    -- the path that `_save_config_locked` writes to
    unfoldable pub save_path : Text → Files C → Text
    save_path id files =
        if is_foreign id (get (get_config_path id) files)
        then disambiguated_path digest id
        else get_config_path id

    -- `save_config`, of a configuration that sets no `_model_id` of its own
    unfoldable pub save_config : Text → C → Files C → Files C
    unfolding save_path
    save_config id config files = set (save_path id files) (stored (some id) config) files

    -- `load_config`
    unfoldable pub load_config : Text → Files C → Option C
    load_config id files =
        or_next (usable id (get (get_config_path id) files))
          (usable id (get (disambiguated_path digest id) files))

    -- `delete_config`
    unfoldable pub delete_config : Text → Files C → Files C
    delete_config id files =
        delete_at id (disambiguated_path digest id) (delete_at id (get_config_path id) files)
