-- ===== src/Downloads/Inflight.antt =====
-- backend/service/model_download_status.py: two requests for the status of one download, as far as
-- the lock, the event, the table of running queries and the table of last results go. The first
-- request owns the query; the second found its entry only on its second look, inside the lock. A
-- result is a number.
use v_llm_dashboard.Prelude.{ℕ, ◌≡◌, refl, sym, ◌∙◌, Bool, true, false, Option, some, arith}

-- The owner computes, waits for the lock with its result, waits for the lock to take its entry out
-- of the table, is about to set the event, or has set it.
pub data Owner : Type 0 where
  computing : Owner
  storing : ℕ → Owner
  popping setting finished : Owner

-- The second request waits for the event, inside the lock, or has its answer: what the wait returned,
-- false after 30 seconds, and the last result that it read, none where there is none.
pub data Follower : Type 0 where
  waiting_locked : Follower
  answered : Bool → Option ℕ → Follower

-- `last` is the entry of `_dl_status_last`
pub record Query : Type 0 where
  pub owner : Owner
  pub follower : Follower
  pub event : Bool
  pub last : Option ℕ

abbrev pub holds : Follower → Bool
holds waiting_locked = true
holds (answered woken result) = false

abbrev pub is_locked : Query → Bool
is_locked q = holds q.follower

-- whether the entry of the owner is in the table of running queries
abbrev pub is_listed : Owner → Bool
is_listed computing = true
is_listed (storing result) = true
is_listed popping = true
is_listed setting = false
is_listed finished = false

-- `get_download_status`: the second request entered the lock, found the entry, and waits there
abbrev pub racing_query : Owner → Option ℕ → Query
racing_query owner last = record {
  owner = owner;
  follower = waiting_locked;
  event = false;
  last = last;
}

-- the steps of the two threads; the second reads the last result before it leaves the lock
pub data Next : Query → Query → Type 0 where
  computed :
      {q : Query}
      → (result : ℕ) → q.owner ≡ computing
      → Next q (record q { owner = storing result })
  raised : {q : Query} → q.owner ≡ computing → Next q (record q { owner = popping })
  stored :
      {q : Query}
      → (result : ℕ) → q.owner ≡ storing result
      → is_locked q ≡ false
      → Next q (record q { owner = popping; last = some result })
  popped :
      {q : Query} → q.owner ≡ popping → is_locked q ≡ false → Next q (record q { owner = setting })
  event_set : {q : Query} → q.owner ≡ setting → Next q (record q { owner = finished; event = true })
  woken :
      {q : Query}
      → q.follower ≡ waiting_locked
      → q.event ≡ true
      → Next q (record q { follower = answered true q.last })
  timed_out :
      {q : Query}
      → q.follower ≡ waiting_locked
      → Next q (record q { follower = answered false q.last })

pub data Steps : Query → Query → Type 0 where
  here : {q : Query} → Steps q q
  then_step : {q r s : Query} → Steps q r → Next r s → Steps q s

-- While the second request waits, the entry stays, the event is unset and the last result is the one
-- it found; an answer came after the whole wait and is that result.
abbrev StuckWith : Option ℕ → Follower → Owner → Bool → Option ℕ → Type 0
StuckWith found waiting_locked owner event last =
    (is_listed owner ≡ true) × (event ≡ false) × (last ≡ found)
StuckWith found (answered awake result) owner event last = (awake ≡ false) × (result ≡ found)

abbrev Stuck : Option ℕ → Query → Type 0
Stuck found q = StuckWith found q.follower q.owner q.event q.last

-- a step of the owner that keeps its entry, outside the lock
kept :
    (found : Option ℕ) (f : Follower) (o p : Owner) (event : Bool) (last : Option ℕ)
    → is_listed p ≡ true
    → StuckWith found f o event last
    → StuckWith found f p event last
kept found waiting_locked o p event last l h = (l, h.1, h.2)
kept found (answered awake result) o p event last l h = h

-- a step that needs the lock
unlocked :
    (found : Option ℕ) (f : Follower) (o p : Owner) (event : Bool) (last next : Option ℕ)
    → holds f ≡ false
    → StuckWith found f o event last
    → StuckWith found f p event next
unlocked found waiting_locked o p event last next l h = absurd (ground arith)
unlocked found (answered awake result) o p event last next l h = h

unlisted :
    (found : Option ℕ) (f : Follower) (o : Owner) (event : Bool) (last : Option ℕ)
    → o ≡ setting
    → StuckWith found f o event last
    → StuckWith found f finished true last
unlisted found waiting_locked o event last e h =
    let bad : is_listed setting ≡ true = rw e at (h.0) in absurd (ground arith)
unlisted found (answered awake result) o event last e h = h

never_woken :
    (found : Option ℕ) (f : Follower) (o : Owner) (event : Bool) (last : Option ℕ)
    → f ≡ waiting_locked
    → event ≡ true
    → StuckWith found f o event last
    → (true ≡ false) × (last ≡ found)
never_woken found waiting_locked o event last w e h = (sym e ∙ h.1, h.2)
never_woken found (answered awake result) o event last w e h = absurd (ground arith)

read_late :
    (found : Option ℕ) (f : Follower) (o : Owner) (event : Bool) (last : Option ℕ)
    → f ≡ waiting_locked
    → StuckWith found f o event last
    → (false ≡ false) × (last ≡ found)
read_late found waiting_locked o event last w h = (refl, h.2)
read_late found (answered awake result) o event last w h = absurd (ground arith)

Stuck-Next : (found : Option ℕ) {q r : Query} → Next q r → Stuck found q → Stuck found r
Stuck-Next found (computed {q} result o) h =
    kept found q.follower q.owner (storing result) q.event q.last refl h
Stuck-Next found (raised {q} o) h = kept found q.follower q.owner popping q.event q.last refl h
Stuck-Next found (stored {q} result o l) h =
    unlocked found q.follower q.owner popping q.event q.last (some result) l h
Stuck-Next found (popped {q} o l) h =
    unlocked found q.follower q.owner setting q.event q.last q.last l h
Stuck-Next found (event_set {q} o) h = unlisted found q.follower q.owner q.event q.last o h
Stuck-Next found (woken {q} f e) h = never_woken found q.follower q.owner q.event q.last f e h
Stuck-Next found (timed_out {q} f) h = read_late found q.follower q.owner q.event q.last f h

Stuck-steps : (found : Option ℕ) {q r : Query} → Steps q r → Stuck found q → Stuck found r
Stuck-steps found here h = h
Stuck-steps found (then_step steps next) h = Stuck-Next found next (Stuck-steps found steps h)

-- From the race on, whatever the owner had done when its entry was found, the second request waits
-- until its 30 seconds are over, and its answer is the last result that it found when it entered the
-- lock: so long it keeps the owner from storing a result and from setting the event.
pub racing-stuck :
    (owner : Owner) (last : Option ℕ) (q : Query) (awake : Bool) (result : Option ℕ)
    → is_listed owner ≡ true
    → Steps (racing_query owner last) q
    → q.follower ≡ answered awake result
    → (awake ≡ false) × (result ≡ last)
racing-stuck owner last q awake result l steps e =
    let h : Stuck last q = Stuck-steps last steps (l, refl, refl) in
    let h' : StuckWith last (answered awake result) q.owner q.event q.last = rw e at h in h'
