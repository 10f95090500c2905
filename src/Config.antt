-- ===== src/Config.antt =====
-- ConfigManager of backend/config/remote_client.py with backend/config/credentials.py: the settings of
-- the server in memory and on disk, the secrets encrypted. Fernet and the validation by pydantic are
-- parameters, and so are the settings that are no secrets. The permissions of the files are left out.
pub mod Kept
use v_llm_dashboard.Prelude.{
  Bool, true, false, not, ◌&&◌, Option, none, some, List, [], ◌∷◌, ◌++◌, drop, length,
  if◌then◌else◌,
}
use v_llm_dashboard.Prelude.Texts.{Text, code_points, starts_with}
use v_llm_dashboard.Prelude.Words.{is_empty_text}

-- _CRED_FIELDS, each None or a text, and the other settings
pub record Settings (R : Type 0) : Type 0 where
  pub ssh_password : Option Text
  pub bmc_password : Option Text
  pub api_key : Option Text
  pub hf_token : Option Text
  pub other : R

-- what pydantic says of the stored values: a config, errors at the host alone with the config that is
-- read without it, or other errors
pub data Validation (R : Type 0) : Type 0 where
  valid bad_host : Settings R → Validation R
  invalid : Validation R

-- server_config.json
pub data ConfigFile (R : Type 0) : Type 0 where
  absent unreadable : ConfigFile R
  holds : Settings R → ConfigFile R

-- cryptography's Fernet, with keys of type K
pub record Fernet (K : Type 0) : Type 0 where
  pub encrypt : K → Text → Text
  pub decrypt : K → Text → Option Text

-- `.secret_key` and the config file, beside the config in memory and the cached version of vLLM
pub record ConfigManager (K R : Type 0) : Type 0 where
  pub key_file : Option K
  pub config_file : ConfigFile R
  pub corrupt_file : Option (ConfigFile R)
  pub config : Settings R
  pub ssh_version : Option Text

-- how a save ends
pub data SaveOutcome : Type 0 where
  saved encryption_failed write_failed : SaveOutcome

abbrev pub prefix : Text
prefix = code_points "enc:"

or_cleared : Option Text → Text
or_cleared none = []
or_cleared (some text) = text

-- `_fernet`: the key of the file, or a fresh one
abbrev pub key_of : {K : Type 0} → K → Option K → K
key_of fresh none = fresh
key_of fresh (some key) = key

abbrev pub each_secret : {R : Type 0} → (Option Text → Option Text) → Settings R → Settings R
each_secret g c = record c {
  ssh_password = g c.ssh_password;
  bmc_password = g c.bmc_password;
  api_key = g c.api_key;
  hf_token = g c.hf_token;
}

module _ {K : Type 0} (f : Fernet K) where
  decrypted : Option K → Text → Text
  unfolding or_cleared
  decrypted none text = []
  decrypted (some key) text = or_cleared (f.decrypt key (drop (length prefix) text))

  -- `_migrate_legacy_encrypted`
  unfoldable pub migrate_legacy_encrypted : Option K → Text → Text
  unfolding decrypted or_cleared
  migrate_legacy_encrypted key text = if starts_with text prefix then decrypted key text else text

  abbrev pub reveal : Option K → Option Text → Option Text
  reveal key none = none
  reveal key (some text) = some (migrate_legacy_encrypted key text)

  -- `_encrypt_credential`
  unfoldable pub encrypt_credential : K → Text → Text
  encrypt_credential key text = prefix ++ f.encrypt key text

  -- a field that is empty stays as it is
  abbrev pub seal : K → Option Text → Option Text
  seal key none = none
  seal key (some text) = some (if is_empty_text text then text else encrypt_credential key text)

module _ {K R : Type 0} (f : Fernet K) where
  -- `_save_config`, of the config in memory: the manager, and whether nothing was raised
  unfoldable pub save_config : K → SaveOutcome → ConfigManager K R → ConfigManager K R × Bool
  save_config fresh encryption_failed m = (m, false)
  save_config fresh write_failed m = (record m { key_file = some (key_of fresh m.key_file) }, false)
  save_config fresh saved m =
      let key = key_of fresh m.key_file in
      (
        record m { key_file = some key; config_file = holds (each_secret (seal f key) m.config) },
        true,
      )

  abbrev pub kept_or_back : Settings R → ConfigManager K R × Bool → ConfigManager K R
  kept_or_back previous (m, true) = record m { ssh_version = none }
  kept_or_back previous (m, false) = record m { config = previous }

  -- `update_config`
  unfoldable pub update_config :
      K → SaveOutcome → Settings R → ConfigManager K R → ConfigManager K R
  unfolding save_config
  update_config fresh outcome config m =
      kept_or_back m.config (save_config fresh outcome (record m { config = config }))

  -- `merge_config`, of the candidate that the assignments make, none where one of them is refused
  unfoldable pub merge_config :
      K → SaveOutcome → Option (Settings R) → ConfigManager K R → ConfigManager K R
  unfolding update_config
  merge_config fresh outcome none m = m
  merge_config fresh outcome (some candidate) m = update_config fresh outcome candidate m

module _ {K R : Type 0} (f : Fernet K) (validate : Settings R → Validation R)
    (default : Settings R) where
  -- `_quarantine_corrupt`
  abbrev pub quarantine_corrupt : ConfigManager K R → ConfigManager K R
  quarantine_corrupt m = record m {
    config_file = absent;
    corrupt_file = some m.config_file;
    config = default;
  }

  abbrev pub by_validation : Validation R → ConfigManager K R → ConfigManager K R
  by_validation (valid c) m = record m { config = c }
  by_validation (bad_host c) m = record m { config = c }
  by_validation invalid m = quarantine_corrupt m

  abbrev pub by_file : ConfigFile R → ConfigManager K R → ConfigManager K R
  by_file absent m = record m { config = default }
  by_file unreadable m = quarantine_corrupt m
  by_file (holds stored) m = by_validation (validate (each_secret (reveal f m.key_file) stored)) m

  -- `_load_config`, at a start of the program
  unfoldable pub load_config : ConfigManager K R → ConfigManager K R
  load_config m = by_file m.config_file (record m { ssh_version = none })
