-- ===== src/Deployment/Forgotten.antt =====
-- Which record the bound on the stored tasks drops after a restart.
use v_llm_dashboard.Prelude.{
  ℕ, ◌+◌, ◌-◌, ◌≡◌, refl, sym, ap, ◌∙◌, inl, inr, String, false, none, some, List, [], ◌∷◌, ◌++◌,
  map, last_n, drop, length, length-append, ◌==◌, string_eq, arith, Bool-cases,
}
use mathlib.Core.List.{append-nil, append_assoc}
use v_llm_dashboard.Prelude.Dict.{Dict, get, set, values, get-set}
use v_llm_dashboard.Deployment.Tasks.{
  Task, TaskManager, max_tasks, persist_locked, create, new_task, HistoryEntry,
}
use v_llm_dashboard.Deployment.Recovery.{recovered, recover_each, reversed, recover}

abbrev pub entries_of : ℕ → List Task → Dict String Task
entries_of now ts = map (λ t. (t.id, recovered now t)) ts

set-append :
    (k : String) (v : Task) (d : Dict String Task) → get k d ≡ none → set k v d ≡ d ++ (k, v) ∷ []
unfolding get set
set-append k v [] e = refl
set-append k v ((j, u) ∷ d) e = elim (Bool-cases (j == k)) [
  | inl same ↦ absurd (ground arith)
  | inr other ↦ rw other (ap (λ x. (j, u) ∷ x) (set-append k v d (ground arith)))
]

-- no id of the list is in the dictionary
abbrev Fresh : List Task → Dict String Task → Type 0
Fresh [] d = Unit
Fresh (t ∷ ts) d = (get t.id d ≡ none) × Fresh ts d

abbrev pub ApartFrom : String → List Task → Type 0
ApartFrom k [] = Unit
ApartFrom k (t ∷ ts) = ((k == t.id) ≡ false) × ApartFrom k ts

-- the ids of the list differ
abbrev pub Distinct : List Task → Type 0
Distinct [] = Unit
Distinct (t ∷ ts) = ApartFrom t.id ts × Distinct ts

Fresh-set :
    (ts : List Task) (k : String) (v : Task) (d : Dict String Task)
    → ApartFrom k ts
    → Fresh ts d
    → Fresh ts (set k v d)
Fresh-set [] k v d a f = tt
Fresh-set (t ∷ ts) k v d a f = (get-set k t.id v d ∙ rw a.0 f.0, Fresh-set ts k v d a.1 f.1)

recover_each-Distinct :
    (now : ℕ) (ts : List Task) (d : Dict String Task)
    → Distinct ts
    → Fresh ts d
    → recover_each now (map some ts) d ≡ d ++ entries_of now ts
unfolding recover_each
recover_each-Distinct now [] d u f = sym (append-nil d)
recover_each-Distinct now (t ∷ ts) d u f =
    recover_each-Distinct now ts (set t.id (recovered now t) d) u.1
      (Fresh-set ts t.id (recovered now t) d u.0 f.1)
    ∙ (ap (λ x. x ++ entries_of now ts) (set-append t.id (recovered now t) d f.0)
        ∙ append_assoc d ((t.id, recovered now t) ∷ []) (entries_of now ts))

Fresh-nil : (ts : List Task) → Fresh ts []
unfolding get
Fresh-nil [] = tt
Fresh-nil (t ∷ ts) = (refl, Fresh-nil ts)

map-append : {A B : Type 0} (f : A → B) (xs ys : List A) → map f (xs ++ ys) ≡ map f xs ++ map f ys
map-append f [] ys = refl
map-append f (x ∷ xs) ys = ap (λ zs. f x ∷ zs) (map-append f xs ys)

map-reversed : {A B : Type 0} (f : A → B) (xs : List A) → reversed (map f xs) ≡ map f (reversed xs)
map-reversed f [] = refl
map-reversed f (x ∷ xs) =
    ap (λ ys. ys ++ f x ∷ []) (map-reversed f xs) ∙ sym (map-append f (reversed xs) (x ∷ []))

reversed-append : {A : Type 0} (xs : List A) (y : A) → reversed (xs ++ y ∷ []) ≡ y ∷ reversed xs
reversed-append [] y = refl
reversed-append (x ∷ xs) y = ap (λ ys. ys ++ x ∷ []) (reversed-append xs y)

length-reversed : {A : Type 0} (xs : List A) → length (reversed xs) ≡ length xs
length-reversed [] = refl
length-reversed (x ∷ xs) = omega (arith, length-append (reversed xs) (x ∷ []), length-reversed xs)

length-map : {A B : Type 0} (f : A → B) (xs : List A) → length (map f xs) ≡ length xs
length-map f [] = refl
length-map f (x ∷ xs) = omega (arith, length-map f xs)

values-entries : (now : ℕ) (ts : List Task) → values (entries_of now ts) ≡ map (recovered now) ts
values-entries now [] = refl
values-entries now (t ∷ ts) = ap (λ xs. recovered now t ∷ xs) (values-entries now ts)

-- the last n of a list that is no longer, or longer by one
last_n-all : {A : Type 0} (n : ℕ) (xs : List A) → length xs ≡ n → last_n n xs ≡ xs
last_n-all n xs e =
    let zero_off : length xs - n ≡ 0 = omega (arith, e) in ap (λ k. drop k xs) zero_off

last_n-tail : {A : Type 0} (n : ℕ) (x : A) (xs : List A) → length xs ≡ n → last_n n (x ∷ xs) ≡ xs
last_n-tail n x xs e =
    let one_off : length (x ∷ xs) - n ≡ 1 = omega (arith, e) in ap (λ k. drop k (x ∷ xs)) one_off

recover-tasks :
    (now : ℕ) (ts : List Task) (h : List HistoryEntry)
    → Distinct (reversed ts)
    → length ts ≡ max_tasks
    → (recover now (map some ts) h).tasks ≡ entries_of now (reversed ts)
unfolding recover persist_locked
recover-tasks now ts h u e =
    ap (λ xs. recover_each now (reversed xs) [])
      (last_n-all max_tasks (map some ts) (length-map some ts ∙ e))
    ∙ (ap (λ xs. recover_each now xs []) (map-reversed some ts)
        ∙ recover_each-Distinct now (reversed ts) [] u (Fresh-nil (reversed ts)))

-- A restart reverses the order of the tasks, so that with a full file the next creation drops the
-- record of the newest task of the file and keeps the oldest one.
pub recover-forgets_newest :
    (now later : ℕ) (older : List Task) (newest : Task) (h : List HistoryEntry)
    (id kind title : String) (steps : List String) (n : TaskManager)
    → Distinct (newest ∷ reversed older)
    → length older + 1 ≡ max_tasks
    → get id (recover now (map some (older ++ newest ∷ [])) h).tasks ≡ none
    → create id kind title steps later (recover now (map some (older ++ newest ∷ [])) h) ≡ some n
    → n.tasks_file ≡ map (recovered now) (reversed older) ++ new_task id kind title steps later ∷ []
unfolding create persist_locked
recover-forgets_newest now later older newest h id kind title steps n u e free ok =
    let m = recover now (map some (older ++ newest ∷ [])) h in
    let back : reversed (older ++ newest ∷ []) ≡ newest ∷ reversed older =
      reversed-append older newest in
    let held : m.tasks ≡ entries_of now (newest ∷ reversed older) =
      recover-tasks now (older ++ newest ∷ []) h (rw back u)
        (omega (arith, e, length-append older (newest ∷ [])))
      ∙ ap (entries_of now) back in
    let stored : n.tasks_file
        ≡ last_n max_tasks (values (set id (new_task id kind title steps later) m.tasks)) =
      ground arith in
    let added = new_task id kind title steps later in
    let all = entries_of now (newest ∷ reversed older) in
    let appended : set id added all ≡ all ++ (id, added) ∷ [] =
      set-append id added all (ap (get id) (sym held) ∙ free) in
    stored
    ∙ (ap (λ d. last_n max_tasks (values (set id added d))) held
        ∙ (ap (λ d. last_n max_tasks (values d)) appended
            ∙ (ap (last_n max_tasks) (
                  map-append (λ x. x.1) all ((id, added) ∷ [])
                  ∙ ap (λ xs. xs ++ added ∷ []) (values-entries now (newest ∷ reversed older)))
                ∙ last_n-tail max_tasks (recovered now newest)
                    (map (recovered now) (reversed older) ++ added ∷ [])
                    (omega (
                      arith,
                      e,
                      length-append (map (recovered now) (reversed older)) (added ∷ []),
                      length-map (recovered now) (reversed older),
                      length-reversed older,
                    )))))
