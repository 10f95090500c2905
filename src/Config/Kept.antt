-- ===== src/Config/Kept.antt =====
-- ConfigManager of backend/config/remote_client.py: the settings in memory and those on disk.
use v_llm_dashboard.Prelude.{◌≡◌, refl, sym, ap, Option, none, some, List, [], ◌∷◌, All}
use mathlib.Core.Path.{subst}
use v_llm_dashboard.Prelude.Texts.{Text}
use v_llm_dashboard.Config.{
  Settings, Validation, valid, absent, holds, Fernet, ConfigManager, SaveOutcome, saved,
  encryption_failed, write_failed, migrate_legacy_encrypted, reveal, encrypt_credential, seal,
  key_of, each_secret, save_config, update_config, merge_config, load_config,
}

-- what happens to the settings: an update, a merge of some fields, or a start of the program
pub data Change (R : Type 0) : Type 0 where
  updating : SaveOutcome → Settings R → Change R
  merging : SaveOutcome → Option (Settings R) → Change R
  restarting : Change R

module _ {K R : Type 0} (f : Fernet K) (validate : Settings R → Validation R) (default : Settings R)
    (fresh : K) where
  abbrev pub change : Change R → ConfigManager K R → ConfigManager K R
  change (updating outcome c) m = update_config f fresh outcome c m
  change (merging outcome c) m = merge_config f fresh outcome c m
  change restarting m = load_config f validate default m

  unfoldable pub run : List (Change R) → ConfigManager K R → ConfigManager K R
  run [] m = m
  run (x ∷ xs) m = run xs (change x m)

  -- every config that enters is one that pydantic accepts as it stands
  abbrev pub Accepted : Change R → Type 0
  Accepted (updating outcome c) = validate c ≡ valid c
  Accepted (merging outcome none) = Unit
  Accepted (merging outcome (some c)) = validate c ≡ valid c
  Accepted restarting = Unit

  -- the file is missing and the config is the default, or the file holds it with sealed secrets
  data Kept (m : ConfigManager K R) : Type 0 where
    unsaved : m.config_file ≡ absent → m.config ≡ default → Kept m
    stored :
        (key : K)
        → m.key_file ≡ some key
        → m.config_file ≡ holds (each_secret (seal f key) m.config)
        → validate m.config ≡ valid m.config
        → Kept m

  module _ (opens : (key : K) (text : Text) → f.decrypt key (f.encrypt key text) ≡ some text) where
    reveal-seal : (key : K) (o : Option Text) → reveal f (some key) (seal f key o) ≡ o
    unfolding migrate_legacy_encrypted encrypt_credential
    reveal-seal key none = refl
    reveal-seal key (some []) = refl
    reveal-seal key (some (c ∷ text)) = rw (opens key (c ∷ text)) refl

    each_secret-sealed :
        (key : K) (c : Settings R)
        → each_secret (reveal f (some key)) (each_secret (seal f key) c) ≡ c
    each_secret-sealed key c =
        rw
          (
            reveal-seal key c.ssh_password,
            reveal-seal key c.bmc_password,
            reveal-seal key c.api_key,
            reveal-seal key c.hf_token,
          )
          refl

    load_config-Kept :
        (m : ConfigManager K R)
        → Kept m
        → load_config f validate default m ≡ record m { ssh_version = none }
    unfolding load_config
    load_config-Kept m (unsaved a d) = rw (a, d) refl
    load_config-Kept m (stored key k h v) = rw (h, k, each_secret-sealed key m.config, v) refl

    save-Kept :
        (outcome : SaveOutcome) (c : Settings R) (m : ConfigManager K R)
        → validate c ≡ valid c
        → Kept m
        → Kept (update_config f fresh outcome c m)
    unfolding update_config save_config
    save-Kept encryption_failed c m v k = k
    save-Kept write_failed c m v (unsaved a d) = unsaved a d
    save-Kept write_failed c m v (stored key k h w) = stored key (ap some (ap (key_of fresh) k)) h w
    save-Kept saved c m v k = stored (key_of fresh m.key_file) refl refl v

    change-Kept : (x : Change R) (m : ConfigManager K R) → Accepted x → Kept m → Kept (change x m)
    unfolding merge_config
    change-Kept (updating outcome c) m v k = save-Kept outcome c m v k
    change-Kept (merging outcome none) m v k = k
    change-Kept (merging outcome (some c)) m v k = save-Kept outcome c m v k
    change-Kept restarting m v k = subst Kept (sym (load_config-Kept m k)) (forget k)
      where
        forget : Kept m → Kept (record m { ssh_version = none })
        forget (unsaved a d) = unsaved a d
        forget (stored key p h w) = stored key p h w

    run-Kept :
        (xs : List (Change R)) (m : ConfigManager K R) → All Accepted xs → Kept m → Kept (run xs m)
    unfolding run
    run-Kept [] m vs k = k
    run-Kept (x ∷ xs) m (v, vs) k = run-Kept xs (change x m) vs (change-Kept x m v k)

    -- Whatever updates, merges and starts of the program there were, and whichever saves failed at
    -- the encryption or at the write, a start of the program loads the config that is in memory and
    -- moves no file away, if there was no file at first, what Fernet encrypts it decrypts again, and
    -- every config that came in is one that pydantic accepts as it stands.
    pub load_config-run :
        (xs : List (Change R)) (m : ConfigManager K R)
        → All Accepted xs
        → m.config_file ≡ absent
        → m.config ≡ default
        → ((load_config f validate default (run xs m)).config ≡ (run xs m).config)
          × ((load_config f validate default (run xs m)).config_file ≡ (run xs m).config_file)
    load_config-run xs m vs a d =
        let same : load_config f validate default (run xs m)
            ≡ record (run xs m) { ssh_version = none } =
          load_config-Kept (run xs m) (run-Kept xs m vs (unsaved a d)) in
        (ap (λ n. n.config) same, ap (λ n. n.config_file) same)
