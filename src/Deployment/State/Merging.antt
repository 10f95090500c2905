-- ===== src/Deployment/State/Merging.antt =====
-- The state keeps the shape of its defaults, whatever the file holds and whatever is set.
use v_llm_dashboard.Prelude.{
  ◌-◌, ◌≤◌, ◌≡◌, ◌≢◌, refl, sym, ap, ◌∙◌, inl, inr, String, Option, none, some, List, [], ◌∷◌, ◌++◌,
  last_n, filterb, length, length-drop, if◌then◌else◌, ◌==◌, ==_iff, string_eq, arith, Bool-cases,
}
use v_llm_dashboard.StateMachine.Ops.{map_option}
use v_llm_dashboard.Deployment.State.{
  Value, Values, Fields, scalar, array, object, nil, empty, field, to_list, from_list, keys, lookup,
  assign, merge_default, merge_value, default_state, max_entries, is_object, sound_history,
  StateFile, missing, unreadable, holds, load, set_known, in_object, put, update_section,
  set_snapshot, push_history,
}

-- A merge keeps the keys of the defaults and their order, and adds none.
keys-merge_default : (d fs : Fields) → keys (merge_default d fs) ≡ keys d
unfolding merge_default
keys-merge_default empty fs = refl
keys-merge_default (field k v d) fs = ap (λ ks. k ∷ ks) (keys-merge_default d fs)

-- The merge chooses key by key: a key of the defaults gets its stored value, merged in turn where
-- both are objects, or else its default; a key that the defaults lack is dropped.
pub lookup-merge_default :
    (k : String) (d fs : Fields)
    → lookup k (merge_default d fs)
      ≡ map_option (λ dval. merge_value dval (lookup k fs)) (lookup k d)
unfolding merge_default lookup
lookup-merge_default k empty fs = refl
lookup-merge_default k (field j v d) fs = elim (Bool-cases (j == k)) [
  | inl same ↦ rw same (ap (λ x. some (merge_value v (lookup x fs))) ((==_iff j k).0 same))
  | inr other ↦ rw other (lookup-merge_default k d fs)
]

keys-assign : (k : String) (v : Value) (fs : Fields) → keys (assign k v fs) ≡ keys fs
unfolding assign
keys-assign k v empty = refl
keys-assign k v (field j u fs) = elim (Bool-cases (j == k)) [
  | inl same ↦ rw same refl
  | inr other ↦ rw other (ap (λ ks. j ∷ ks) (keys-assign k v fs))
]

keys-put : (k : String) (o : Option Value) (fs : Fields) → keys (put k o fs) ≡ keys fs
keys-put k none fs = refl
keys-put k (some v) fs = keys-assign k v fs

lookup-assign :
    (k j : String) (v u : Value) (fs : Fields)
    → lookup k fs ≡ some u
    → lookup j (assign k v fs) ≡ (if k == j then some v else lookup j fs)
unfolding lookup assign
lookup-assign k j v u empty e = absurd (ground arith)
lookup-assign k j v u (field i x fs) e =
    ground (arith, ==_iff k j, ==_iff i k, ==_iff i j, lookup-assign k j v u fs)

length-from_list : (vs : List Value) → length (to_list (from_list vs)) ≡ length vs
length-from_list [] = refl
length-from_list (v ∷ vs) = omega (arith, length-from_list vs)

length-last : (vs : List Value) → length (last_n max_entries vs) ≤ max_entries
length-last vs = omega (arith, length-drop (length vs - max_entries) vs)

-- the history is a list within its bound
abbrev pub HistoryIsBounded : Fields → Type 0
HistoryIsBounded fs =
    (vs : Values) × (lookup "history" fs ≡ some (array vs)) × (length (to_list vs) ≤ max_entries)

abbrev pub IsSound : Fields → Type 0
IsSound fs = (keys fs ≡ keys default_state) × HistoryIsBounded fs

sound_history-length :
    (o : Option Value)
    → (vs : Values) × (sound_history o ≡ array vs) × (length (to_list vs) ≤ max_entries)
sound_history-length none = (nil, refl, omega arith)
sound_history-length (some (scalar s)) = (nil, refl, omega arith)
sound_history-length (some (object fs)) = (nil, refl, omega arith)
sound_history-length (some (array vs)) =
    let kept = filterb (λ v. is_object v) (to_list vs) in
    (
      from_list (last_n max_entries kept),
      refl,
      omega (arith, length-from_list (last_n max_entries kept), length-last kept),
    )

-- Whatever the file holds, the loaded state has the top-level keys of the defaults, and a history
-- that is a list within its bound.
pub load-IsSound : (f : StateFile) → IsSound (load f)
unfolding load lookup
load-IsSound missing = (refl, (nil, refl, omega arith))
load-IsSound unreadable = (refl, (nil, refl, omega arith))
load-IsSound (holds (scalar s)) = (refl, (nil, refl, omega arith))
load-IsSound (holds (array vs)) = (refl, (nil, refl, omega arith))
load-IsSound (holds (object fs)) =
    let merged = merge_default default_state fs in
    let (vs, e, b) = sound_history-length (lookup "history" merged) in
    let there : lookup "history" merged ≡ some (merge_value (array nil) (lookup "history" fs)) =
      lookup-merge_default "history" default_state fs in
    (
      keys-assign "history" (sound_history (lookup "history" merged)) merged
          ∙ keys-merge_default default_state fs,
      (
        vs,
        lookup-assign "history" "history" (sound_history (lookup "history" merged)) _ merged there
            ∙ ap some e,
        b,
      ),
    )

-- to set a key to the value it has changes no lookup
same-assign :
    (k j : String) (u : Value) (fs : Fields)
    → lookup k fs ≡ some u
    → lookup j (assign k u fs) ≡ lookup j fs
same-assign k j u fs e = elim (Bool-cases (k == j)) [
  | inl same ↦
      lookup-assign k j u u fs e
      ∙ rw same (sym (ap (λ x. lookup x fs) (sym ((==_iff k j).0 same)) ∙ e))
  | inr other ↦ lookup-assign k j u u fs e ∙ rw other refl
]

HistoryIsBounded-put :
    (name : String) (f : Fields → Fields) (fs : Fields) (o : Option Value)
    → lookup name fs ≡ o
    → HistoryIsBounded fs
    → HistoryIsBounded (put name (in_object f o) fs)
HistoryIsBounded-put name f fs none e h = h
HistoryIsBounded-put name f fs (some (scalar s)) e (vs, p, b) =
    (vs, same-assign name "history" (scalar s) fs e ∙ p, b)
HistoryIsBounded-put name f fs (some (array ws)) e (vs, p, b) =
    (vs, same-assign name "history" (array ws) fs e ∙ p, b)
HistoryIsBounded-put name f fs (some (object g)) e (vs, p, b) =
    elim (Bool-cases (name == "history")) [
      | inl same ↦
          absurd (unlike (sym e ∙ (ap (λ x. lookup x fs) ((==_iff name "history").0 same) ∙ p)))
      | inr other ↦
          (vs, lookup-assign name "history" (object (f g)) (object g) fs e ∙ rw other p, b)
    ]
  where
    unlike : some (object g) ≢ some (array vs)
    unlike q = absurd (ground arith)

-- Setting values of a section or of a snapshot, and recording an event, keep the top-level keys and
-- the bounded history.
pub update_section-IsSound :
    (name : String) (kvs : List (String × Value)) (fs : Fields)
    → IsSound fs
    → IsSound (update_section name kvs fs)
unfolding update_section
update_section-IsSound name kvs fs (k, h) = (
  keys-put name (in_object (set_known kvs) (lookup name fs)) fs ∙ k,
  HistoryIsBounded-put name (set_known kvs) fs (lookup name fs) refl h,
)

set_snapshot-IsSound :
    (kind : String) (kvs : List (String × Value)) (fs : Fields)
    → IsSound fs
    → IsSound (set_snapshot kind kvs fs)
unfolding set_snapshot
set_snapshot-IsSound kind kvs fs (k, h) = (
  keys-put "snapshots" (in_object (update_section kind kvs) (lookup "snapshots" fs)) fs ∙ k,
  HistoryIsBounded-put "snapshots" (update_section kind kvs) fs (lookup "snapshots" fs) refl h,
)

push_history-IsSound : (entry : Value) (fs : Fields) → IsSound fs → IsSound (push_history entry fs)
unfolding push_history
push_history-IsSound entry fs (k, (vs, p, b)) =
    let kept = last_n max_entries (to_list vs ++ entry ∷ []) in
    rw p (
      keys-assign "history" (array (from_list kept)) fs ∙ k,
      (
        from_list kept,
        lookup-assign "history" "history" (array (from_list kept)) (array vs) fs p,
        omega (arith, length-from_list kept, length-last (to_list vs ++ entry ∷ [])),
      ),
    )

-- the writes of the pipelines
pub data Write : Type 0 where
  section_set snapshot_set : String → List (String × Value) → Write
  pushed : Value → Write

unfoldable pub write : Write → Fields → Fields
unfolding update_section set_snapshot push_history
write (section_set name kvs) fs = update_section name kvs fs
write (snapshot_set kind kvs) fs = set_snapshot kind kvs fs
write (pushed entry) fs = push_history entry fs

unfoldable pub writes : List Write → Fields → Fields
unfolding write
writes [] fs = fs
writes (w ∷ ws) fs = writes ws (write w fs)

writes-IsSound : (ws : List Write) (fs : Fields) → IsSound fs → IsSound (writes ws fs)
unfolding writes write
writes-IsSound [] fs h = h
writes-IsSound (section_set name kvs ∷ ws) fs h =
    writes-IsSound ws (update_section name kvs fs) (update_section-IsSound name kvs fs h)
writes-IsSound (snapshot_set kind kvs ∷ ws) fs h =
    writes-IsSound ws (set_snapshot kind kvs fs) (set_snapshot-IsSound kind kvs fs h)
writes-IsSound (pushed entry ∷ ws) fs h =
    writes-IsSound ws (push_history entry fs) (push_history-IsSound entry fs h)

-- From any file, and after any writes, the state has the top-level keys of the defaults, and a
-- history that is a list within its bound.
pub load-writes-IsSound : (f : StateFile) (ws : List Write) → IsSound (writes ws (load f))
load-writes-IsSound f ws = writes-IsSound ws (load f) (load-IsSound f)
