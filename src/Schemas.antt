-- ===== src/Schemas.antt =====
-- backend/schemas/model.py: the model record that the dashboard keeps for each model.
-- A datetime is a whole number of microseconds. The floats of a record are only stored and copied,
-- apart from the zero that a load writes; they stand as scaled natural numbers.
use v_llm_dashboard.Prelude.{
  ℕ, String, ◌≡◌, ◌↔◌, Bool, true, false, Option, none, some, [], ◌∷◌, arith, if◌then◌else◌, ◌==◌,
  string_eq,
}
use v_llm_dashboard.Prelude.Dict.{Dict, get, set}
use v_llm_dashboard.Prelude.Eq.{Eq}

pub data ModelStatus : Type 0 where
  downloaded loading running stopped failed : ModelStatus

abbrev pub status_beq : ModelStatus → ModelStatus → Bool
status_beq downloaded downloaded = true
status_beq loading loading = true
status_beq running running = true
status_beq stopped stopped = true
status_beq failed failed = true
status_beq _ _ = false

pub status_beq_iff : (a b : ModelStatus) → (status_beq a b ≡ true) ↔ (a ≡ b)
status_beq_iff a b = ground arith

instance abbrev pub status_eq : Eq ModelStatus
status_eq = record { same = status_beq; same_iff = status_beq_iff }

-- _TRANSIENT_STATES of backend/controller/state_machine.py
abbrev pub is_transient : ModelStatus → Bool
is_transient running = true
is_transient loading = true
is_transient _ = false

-- A value of a launch configuration, as JSON has it; a number is kept as its text.
mutual
  pub data Json : Type 0 where
    null : Json
    boolean : Bool → Json
    number : String → Json
    text : String → Json
    array : Items → Json
    object : Fields → Json

  pub data Items : Type 0 where
    no_items : Items
    item : Json → Items → Items

  pub data Fields : Type 0 where
    no_fields : Fields
    field : String → Json → Fields → Fields

-- The class allows extra fields; they come after the declared ones when it is dumped.
pub record ModelConfig : Type 0 where
  pub name : String
  pub path : String
  pub extra : Dict String Json

pub record BenchmarkInfo : Type 0 where
  pub tokens_per_second : ℕ
  pub prompt_tokens : ℕ
  pub completion_tokens : ℕ
  pub elapsed_seconds : ℕ
  pub at : ℕ

pub record ModelInfo : Type 0 where
  pub id : String
  pub name : String
  pub path : String
  pub status : ModelStatus
  pub config : ModelConfig
  pub created_at : ℕ
  pub updated_at : ℕ
  pub download_progress : ℕ
  pub error_message : String
  pub size_bytes : ℕ
  pub loading_since : Option ℕ
  pub last_started_at : Option ℕ
  pub locked : Bool
  pub benchmark : Option BenchmarkInfo

-- a declared field that has to be a text
abbrev text_field : Option Json → Option String
text_field (some (text s)) = some s
text_field _ = none

abbrev without_fields : Dict String Json → Dict String Json
without_fields [] = []
without_fields ((k, v) ∷ d) =
    if k == "name"
    then without_fields d
    else if k == "path"
    then without_fields d
    else (k, v) ∷ without_fields d

abbrev config_of : Option String → Option String → Dict String Json → Option ModelConfig
config_of (some n) (some p) extra = some (record { name = n; path = p; extra = extra })
config_of _ _ extra = none

-- ModelConfig(**config): `none` is the validation error of a missing name or path, or one that is
-- not a text
unfoldable pub make_config : Dict String Json → Option ModelConfig
make_config d = config_of (text_field (get "name" d)) (text_field (get "path" d)) (without_fields d)

-- config.model_dump()
unfoldable pub dump_config : ModelConfig → Dict String Json
dump_config c = ("name", text c.name) ∷ ("path", text c.path) ∷ c.extra

-- d.update(e)
unfoldable pub update_dict : Dict String Json → Dict String Json → Dict String Json
update_dict d [] = d
update_dict d ((k, v) ∷ e) = update_dict (set k v d) e
