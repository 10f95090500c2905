-- ===== src/Launch/Serving.antt =====
-- backend/config/model_launch_config.py: `resolve_launch_api` asks the models that are serving.
use v_llm_dashboard.Prelude.{
  ◌≡◌, refl, inl, inr, String, Bool, true, false, not, ◌&&◌, ◌||◌, Option, none, some, List, [],
  ◌∷◌, ◌++◌, anyb, All, ◌==◌, ==_refl, string_eq, arith, Bool-cases,
}
use v_llm_dashboard.Prelude.Set.{contains}
use v_llm_dashboard.Launch.Api.{
  ServedModel, is_serving, is_loading, is_running, add_models, current_of, or_any,
  launch_candidates,
}

-- the id of a model that is serving
abbrev pub serves : List ServedModel → String → Bool
serves models id = anyb (λ m. m.id == id && is_serving m) models

abbrev pub Serving : List ServedModel → List String → Type 0
Serving models = All (λ id. serves models id ≡ true)

abbrev Known : List ServedModel → List ServedModel → Type 0
Known all = All (λ m. is_serving m ≡ true → serves all m.id ≡ true)

Known-more : (x : ServedModel) (all ms : List ServedModel) → Known all ms → Known (x ∷ all) ms
Known-more x all [] k = tt
Known-more x all (m ∷ ms) (h, k) =
    ((λ s. let e : serves all m.id ≡ true = h s in ground arith), Known-more x all ms k)

Known-all : (ms : List ServedModel) → Known ms ms
Known-all [] = tt
Known-all (x ∷ ms) = (
  (λ s. let e : (x.id == x.id) ≡ true = ==_refl x.id in ground arith),
  Known-more x ms ms (Known-all ms),
)

Serving-append :
    (all : List ServedModel) (xs ys : List String)
    → Serving all xs
    → Serving all ys
    → Serving all (xs ++ ys)
Serving-append all [] ys a b = b
Serving-append all (x ∷ xs) ys (h, a) b = (h, Serving-append all xs ys a b)

Serving-add_models :
    (all : List ServedModel) (p : ServedModel → Bool) (ms : List ServedModel) (c : List String)
    → ((m : ServedModel) → p m ≡ true → is_serving m ≡ true)
    → Known all ms
    → Serving all c
    → Serving all (add_models p ms c)
unfolding add_models
Serving-add_models all p [] c w k s = s
Serving-add_models all p (m ∷ ms) c w (h, k) s = elim (Bool-cases (not (contains m.id c) && p m)) [
  | inl y ↦
      let yes_p : p m ≡ true = ground arith in
      rw y (
        Serving-add_models all p ms (c ++ m.id ∷ []) w k
          (Serving-append all c (m.id ∷ []) s (h (w m yes_p), tt)))
  | inr z ↦ rw z (Serving-add_models all p ms c w k s)
]

abbrev nonempty : List String → Bool
nonempty [] = false
nonempty (x ∷ xs) = true

nonempty-snoc : (xs : List String) (x : String) → nonempty (xs ++ x ∷ []) ≡ true
nonempty-snoc [] x = refl
nonempty-snoc (y ∷ xs) x = refl

nonempty-keep :
    (p : ServedModel → Bool) (ms : List ServedModel) (c : List String)
    → nonempty c ≡ true
    → nonempty (add_models p ms c) ≡ true
unfolding add_models
nonempty-keep p [] c h = h
nonempty-keep p (m ∷ ms) c h = elim (Bool-cases (not (contains m.id c) && p m)) [
  | inl y ↦ rw y (nonempty-keep p ms (c ++ m.id ∷ []) (nonempty-snoc c m.id))
  | inr z ↦ rw z (nonempty-keep p ms c h)
]

nonempty-contains : (x : String) (c : List String) → contains x c ≡ true → nonempty c ≡ true
unfolding contains
nonempty-contains x [] h = absurd (ground arith)
nonempty-contains x (y ∷ c) h = refl

nonempty-add_models :
    (p : ServedModel → Bool) (ms : List ServedModel) (c : List String)
    → anyb p ms ≡ true
    → nonempty (add_models p ms c) ≡ true
unfolding add_models
nonempty-add_models p [] c h = absurd (ground arith)
nonempty-add_models p (m ∷ ms) c h = elim (Bool-cases (not (contains m.id c) && p m)) [
  | inl y ↦ rw y (nonempty-keep p ms (c ++ m.id ∷ []) (nonempty-snoc c m.id))
  | inr z ↦ elim (Bool-cases (p m)) [
    | inl own ↦
        let in_c : contains m.id c ≡ true = ground arith in
        rw z (nonempty-keep p ms c (nonempty-contains m.id c in_c))
    | inr other ↦ rw z (nonempty-add_models p ms c (ground arith))
  ]
]

any_kind :
    (ms : List ServedModel)
    → anyb is_serving ms ≡ true
    → (anyb (λ m. is_loading m.status) ms || anyb (λ m. is_running m.status) ms) ≡ true
any_kind [] h = absurd (ground arith)
any_kind (m ∷ ms) h = ground (arith, any_kind ms)

or_any_kept :
    (current : Option String) (models : List ServedModel) (c : List String)
    → nonempty c ≡ true
    → or_any current models c ≡ c
or_any_kept current models [] h = absurd (ground arith)
or_any_kept current models (x ∷ c) h = refl

current-Serving :
    (current : Option String) (models : List ServedModel)
    → Serving models (current_of current models)
current-Serving none models = tt
current-Serving (some id) models = elim (Bool-cases (serves models id)) [
  | inl y ↦ rw y (y, tt)
  | inr z ↦ rw z tt
]

-- While some model is loading or running, every model whose launch configuration is asked is one
-- of those: the id of a model that has stopped is never asked, although it is still the current
-- one.
pub launch_candidates-Serving :
    (current : Option String) (models : List ServedModel)
    → anyb is_serving models ≡ true
    → Serving models (launch_candidates current models)
unfolding launch_candidates
launch_candidates-Serving current models h =
    let p : ServedModel → Bool = λ m. is_loading m.status in
    let q : ServedModel → Bool = λ m. is_running m.status in
    let own : List String = current_of current models in
    let first : List String = add_models p models own in
    let both : List String = add_models q models first in
    let known : Known models models = Known-all models in
    let one : nonempty both ≡ true = elim (Bool-cases (anyb p models)) [
      | inl y ↦ nonempty-keep q models first (nonempty-add_models p models own y)
      | inr z ↦
          let y : anyb q models ≡ true = ground (arith, any_kind models h) in
          nonempty-add_models q models first y
    ] in
    let good : Serving models both =
      Serving-add_models models q models first (λ m e. ground arith) known
        (Serving-add_models models p models own (λ m e. ground arith) known
          (current-Serving current models)) in
    rw (or_any_kept current models both one) good
