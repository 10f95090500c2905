-- ===== src/Examples/Config.antt =====
-- Settings that are saved, that a failed save gives back, and that a start of the program loads.
use v_llm_dashboard.Prelude.{
  ℕ, ◌≡◌, refl, Option, none, some, List, [], ◌∷◌, if◌then◌else◌, ◌==◌, nat_eq, arith,
}
use v_llm_dashboard.Prelude.Texts.{Text, code_points}
use v_llm_dashboard.Config.{
  Settings, Validation, valid, absent, Fernet, ConfigManager, saved, encryption_failed,
  write_failed, load_config,
}
use v_llm_dashboard.Config.Kept.{Change, updating, merging, restarting, run, load_config-run}

abbrev opened : ℕ → Text → Option Text
opened key [] = none
opened key (c ∷ text) = if c == key then some text else none

abbrev shifted : Fernet ℕ
shifted = record { encrypt = λ key text. key ∷ text; decrypt = opened }

shifted_opens : (key : ℕ) (text : Text) → shifted.decrypt key (shifted.encrypt key text) ≡ some text
shifted_opens key text = ground arith

abbrev settings : Option Text → ℕ → Settings ℕ
settings password port = record {
  ssh_password = password;
  bmc_password = none;
  api_key = some [];
  hf_token = none;
  other = port;
}

abbrev accepts : Settings ℕ → Validation ℕ
accepts c = valid c

abbrev first : ConfigManager ℕ ℕ
first = record {
  key_file = none;
  config_file = absent;
  corrupt_file = none;
  config = settings none 22;
  ssh_version = none;
}

abbrev changes : List (Change ℕ)
changes =
    updating saved (settings (some (code_points "enc:secret")) 22)
    ∷ merging write_failed (some (settings none 2222))
    ∷ restarting
    ∷ updating encryption_failed (settings none 23)
    ∷ merging saved none
    ∷ []

load_config-run_example :
    ((load_config shifted accepts
        (settings none 22)
        (run shifted accepts (settings none 22) 7 changes first)).config
      ≡ (run shifted accepts (settings none 22) 7 changes first).config)
    × ((load_config shifted accepts
          (settings none 22)
          (run shifted accepts (settings none 22) 7 changes first)).config_file
        ≡ (run shifted accepts (settings none 22) 7 changes first).config_file)
load_config-run_example =
    load_config-run shifted accepts (settings none 22) 7 shifted_opens changes first
      (refl, (refl, (tt, (refl, (tt, tt))))) refl refl
