-- ===== src/Launch/Store/Kept.antt =====
-- backend/config/model_launch_config.py: what the stored configurations are for.
use v_llm_dashboard.Prelude.{
  ◌+◌, ◌≡◌, ◌≢◌, refl, sym, ap, ◌∙◌, inl, inr, true, false, Option, none, some, ◌++◌, length,
  length-append, arith, ◌==◌, ==_iff, ==_refl, nat_eq, Bool-cases, Option-cases,
}
use v_llm_dashboard.Prelude.Dict.{get, get-set, get-remove}
use v_llm_dashboard.Prelude.Texts.{Text, text_eq, code_points}
use v_llm_dashboard.Launch.Store.{
  safe_id, get_config_path, Stored, unreadable, stored, Files, disambiguated_path, is_foreign,
  usable, delete_at, save_path, save_config, load_config, delete_config,
}

differ : (x y : Text) → x ≢ y → (x == y) ≡ false
differ x y h = elim (Bool-cases (x == y)) [ inl e ↦ absurd (h ((==_iff x y).0 e)) | inr e ↦ e ]

-- the two paths of a model differ in length
paths_differ :
    (digest : Text → Text) (id : Text) → get_config_path id ≢ disambiguated_path digest id
paths_differ digest id e =
    let s : Text = safe_id id in
    let a : length (s ++ code_points ".json") ≡ length s + 5 =
      length-append s (code_points ".json") in
    let b : length (s ++ code_points "--" ++ digest id ++ code_points ".json")
        ≡ length s + 2 + length (digest id) + 5 =
      length-append (s ++ code_points "--" ++ digest id) (code_points ".json")
      ∙ ap (λ n. n + 5)
          (length-append (s ++ code_points "--") (digest id)
            ∙ ap (λ n. n + length (digest id)) (length-append s (code_points "--"))) in
    omega (arith, ap length e)

module _ {C : Type 0} (digest : Text → Text) where
  usable_own : (id : Text) (c : C) → usable id (some (stored (some id) c)) ≡ some c
  usable_own id c = let e : (id == id) ≡ true = ==_refl id in rw e refl

  usable_foreign : (id : Text) (o : Option (Stored C)) → is_foreign id o ≡ true → usable id o ≡ none
  usable_foreign id none h = refl
  usable_foreign id (some unreadable) h = refl
  usable_foreign id (some (stored none c)) h = absurd (ground arith)
  usable_foreign id (some (stored (some owner) c)) h = ground arith

  -- A saved configuration is the one that is loaded, whatever files there were, also where another
  -- model of the same file name had saved one.
  pub load_config-save_config :
      (id : Text) (c : C) (files : Files C)
      → load_config digest id (save_config digest id c files) ≡ some c
  unfolding load_config save_config save_path
  load_config-save_config id c files =
      let base : Text = get_config_path id in
      let other : Text = disambiguated_path digest id in
      let ne : (other == base) ≡ false = differ other base (λ e. paths_differ digest id (sym e)) in
      let own : (other == other) ≡ true = ==_refl other in
      let own' : (base == base) ≡ true = ==_refl base in
      elim (Bool-cases (is_foreign id (get base files))) [
        | inl foreign ↦
            rw
              (
                foreign,
                get-set other base (stored (some id) c) files,
                ne,
                get-set other other (stored (some id) c) files,
                own,
                usable_foreign id (get base files) foreign,
                usable_own id c,
              )
              refl
        | inr free ↦
            rw (free, get-set base base (stored (some id) c) files, own', usable_own id c) refl
      ]

  usable-delete_at :
      (id path : Text) (files : Files C) → usable id (get path (delete_at id path files)) ≡ none
  usable-delete_at id path files =
      let own : (path == path) ≡ true = ==_refl path in
      elim (Option-cases (usable id (get path files))) [
        | inl gone ↦ rw (gone, gone) refl
        | inr (c, e) ↦ rw (e, get-remove path path files, own) refl
      ]

  get-delete_at :
      (id path q : Text) (files : Files C)
      → (path == q) ≡ false
      → get q (delete_at id path files) ≡ get q files
  get-delete_at id path q files ne = elim (Option-cases (usable id (get path files))) [
    | inl gone ↦ rw gone refl
    | inr (c, e) ↦ rw (e, get-remove path q files, ne) refl
  ]

  -- A deleted configuration is not loaded any more, whichever of the two files it stood in.
  pub load_config-delete_config :
      (id : Text) (files : Files C) → load_config digest id (delete_config digest id files) ≡ none
  unfolding load_config delete_config
  load_config-delete_config id files =
      let base : Text = get_config_path id in
      let other : Text = disambiguated_path digest id in
      let first : Files C = delete_at id base files in
      let ne : (other == base) ≡ false = differ other base (λ e. paths_differ digest id (sym e)) in
      let at_base : usable id (get base (delete_at id other first)) ≡ none =
        ap (usable id) (get-delete_at id other base first ne) ∙ usable-delete_at id base files in
      rw (at_base, usable-delete_at id other first) refl

  -- a readable file names its owner
  abbrev pub Owned : Option (Stored C) → Type 0
  Owned none = Unit
  Owned (some unreadable) = Unit
  Owned (some (stored none c)) = true ≡ false
  Owned (some (stored (some owner) c)) = Unit

  usable_other :
      (id m : Text) (o : Option (Stored C))
      → (id == m) ≡ false
      → Owned o
      → is_foreign id o ≡ false
      → usable m o ≡ none
  usable_other id m none ne w f = refl
  usable_other id m (some unreadable) ne w f = refl
  usable_other id m (some (stored none c)) ne w f = absurd (ground arith)
  usable_other id m (some (stored (some owner) c)) ne w f =
      ground (arith, ==_iff owner id, ==_iff owner m, ==_iff id m)

  -- Saving one model's configuration leaves what another model loads alone, also where their file
  -- names are the same, as long as the file of that name names its owner and no two digests make
  -- the paths meet.
  pub load_config-save_config_other :
      (id m : Text) (c : C) (files : Files C)
      → id ≢ m
      → Owned (get (get_config_path id) files)
      → disambiguated_path digest id ≢ get_config_path m
      → disambiguated_path digest id ≢ disambiguated_path digest m
      → get_config_path id ≢ disambiguated_path digest m
      → load_config digest m (save_config digest id c files) ≡ load_config digest m files
  unfolding load_config save_config save_path
  load_config-save_config_other id m c files apart owned d1 d2 d3 =
      let base : Text = get_config_path id in
      let other : Text = disambiguated_path digest id in
      let bm : Text = get_config_path m in
      let om : Text = disambiguated_path digest m in
      let ne : (id == m) ≡ false = differ id m apart in
      let n1 : (other == bm) ≡ false = differ other bm d1 in
      let n2 : (other == om) ≡ false = differ other om d2 in
      let n3 : (base == om) ≡ false = differ base om d3 in
      let new : Stored C = stored (some id) c in
      elim (Bool-cases (is_foreign id (get base files))) [
        | inl foreign ↦
            rw (foreign, get-set other bm new files, n1, get-set other om new files, n2) refl
        | inr free ↦ elim (Bool-cases (base == bm)) [
          | inr far ↦ rw (free, get-set base bm new files, far, get-set base om new files, n3) refl
          | inl same ↦
              let e : base ≡ bm = (==_iff base bm).0 same in
              let before : usable m (get bm files) ≡ none =
                ap (λ p. usable m (get p files)) (sym e)
                ∙ usable_other id m (get base files) ne owned free in
              let after : usable m (some new) ≡ none = rw ne refl in
              rw
                (
                  free,
                  get-set base bm new files,
                  same,
                  get-set base om new files,
                  n3,
                  before,
                  after,
                )
                refl
        ]
      ]
