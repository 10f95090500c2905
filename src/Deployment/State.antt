-- ===== src/Deployment/State.antt =====
-- backend/service/deployment_state.py: the persistent state of the deployments, a tree of JSON
-- objects that is merged over its defaults when it is read.
pub mod Merging
use v_llm_dashboard.Prelude.{
  ℕ, String, Bool, true, false, Option, none, some, List, [], ◌∷◌, ◌++◌, map, last_n, filterb,
  if◌then◌else◌, ◌==◌, string_eq,
}

-- A JSON value: an object, a list, or anything else, which the code only copies.
mutual
  pub data Value : Type 0 where
    scalar : String → Value
    array : Values → Value
    object : Fields → Value

  pub data Values : Type 0 where
    nil : Values
    cons : Value → Values → Values

  pub data Fields : Type 0 where
    empty : Fields
    field : String → Value → Fields → Fields

abbrev pub to_list : Values → List Value
to_list nil = []
to_list (cons v vs) = v ∷ to_list vs

abbrev pub from_list : List Value → Values
from_list [] = nil
from_list (v ∷ vs) = cons v (from_list vs)

abbrev pub keys : Fields → List String
keys empty = []
keys (field k v fs) = k ∷ keys fs

-- data.get(key)
unfoldable pub lookup : String → Fields → Option Value
lookup key empty = none
lookup key (field k v fs) = if k == key then some v else lookup key fs

-- obj[key] = value, for a key that is there; another key is left out
unfoldable pub assign : String → Value → Fields → Fields
assign key v empty = empty
assign key v (field k u fs) = if k == key then field k v fs else field k u (assign key v fs)

-- `_merge_default`, with the choice for one key
unfoldable mutual
  unfolding lookup

  pub merge_default : Fields → Fields → Fields
  merge_default empty stored = empty
  merge_default (field key dval rest) stored =
      field key (merge_value dval (lookup key stored)) (merge_default rest stored)

  pub merge_value : Value → Option Value → Value
  merge_value (object dfs) (some (object fs)) = object (merge_default dfs fs)
  merge_value (object dfs) (some (scalar s)) = scalar s
  merge_value (object dfs) (some (array vs)) = array vs
  merge_value (object dfs) none = object dfs
  merge_value (scalar d) (some v) = v
  merge_value (scalar d) none = scalar d
  merge_value (array ds) (some v) = v
  merge_value (array ds) none = array ds

-- `_default_state`
abbrev section : List (String × Value) → Value
section fs = object (go fs)
  where
    go : List (String × Value) → Fields
    go [] = empty
    go ((k, v) ∷ rest) = field k v (go rest)

abbrev blank : Value
blank = scalar "\"\""

abbrev pub default_state : Fields
default_state =
    field "mirrors" (section (("pypi", blank) ∷ ("hf", scalar "\"https://hf-mirror.com\"") ∷ [])) (
      field "selected"
        (section (
          ("driver", blank)
          ∷ ("cuda", blank)
          ∷ ("cuda_install_system", scalar "true")
          ∷ ("vllm_version", blank)
          ∷ ("vllm_runtime", scalar "\"builtin\"")
          ∷ []))
        (field "snapshots"
          (section (
            (
              "driver",
              section (
                  ("current_pkg", blank)
                  ∷ ("previous_pkg", blank)
                  ∷ ("previous_version", blank)
                  ∷ []),
            )
            ∷ ("cuda", section (("installed_version", blank) ∷ ("toolkit_path", blank) ∷ []))
            ∷ (
              "vllm",
              section (("version", blank) ∷ ("previous_version", blank) ∷ ("venv", blank) ∷ []),
            )
            ∷ []))
          (field "history" (array nil) empty)))

abbrev pub max_entries : ℕ
max_entries = 100

abbrev pub is_object : Value → Bool
is_object (object fs) = true
is_object _ = false

-- the history that is kept of a stored one
abbrev pub sound_history : Option Value → Value
sound_history (some (array vs)) =
    array (from_list (last_n max_entries (filterb is_object (to_list vs))))
sound_history _ = array nil

-- `_load`: the file is missing, unreadable, no object, or an object
pub data StateFile : Type 0 where
  missing unreadable : StateFile
  holds : Value → StateFile

unfoldable pub load : StateFile → Fields
unfolding merge_default assign lookup
load (holds (object fs)) =
    let merged = merge_default default_state fs in
    assign "history" (sound_history (lookup "history" merged)) merged
load _ = default_state

-- the loop over the given values: only known keys are set
unfoldable pub set_known : List (String × Value) → Fields → Fields
unfolding assign
set_known [] fs = fs
set_known ((k, v) ∷ kvs) fs = set_known kvs (assign k v fs)

abbrev pub in_object : (Fields → Fields) → Option Value → Option Value
in_object f (some (object fs)) = some (object (f fs))
in_object f o = o

abbrev pub put : String → Option Value → Fields → Fields
put key none fs = fs
put key (some v) fs = assign key v fs

-- `update_section`
unfoldable pub update_section : String → List (String × Value) → Fields → Fields
unfolding set_known lookup assign
update_section name kvs data_ = put name (in_object (set_known kvs) (lookup name data_)) data_

-- `set_snapshot`
unfoldable pub set_snapshot : String → List (String × Value) → Fields → Fields
unfolding update_section lookup assign
set_snapshot kind kvs data_ =
    put "snapshots" (in_object (update_section kind kvs) (lookup "snapshots" data_)) data_

abbrev pub append_entry : Value → Option Value → Option Value
append_entry entry (some (array vs)) =
    some (array (from_list (last_n max_entries (to_list vs ++ entry ∷ []))))
append_entry entry o = o

-- `push_history`
unfoldable pub push_history : Value → Fields → Fields
unfolding lookup assign
push_history entry data_ = put "history" (append_entry entry (lookup "history" data_)) data_
