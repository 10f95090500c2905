-- ===== src/Console/Manager.antt =====
-- backend/console/session_manager.py: the shared console sessions. A session is a number; the
-- manager's dictionary maps a key to a session or to the mark of a creation in flight. get_or_create
-- is cut where it gives up the lock: `claim`, and `install` after the connection was made.
pub mod Capacity
pub mod Sharing
use v_llm_dashboard.Prelude.{
  ℕ, ◌+◌, ◌-◌, String, Bool, true, false, not, ◌&&◌, ◌||◌, Option, none, some, List, [], ◌∷◌, ltb,
  leb, length, if◌then◌else◌, ◌==◌, string_eq, nat_eq,
}
use v_llm_dashboard.Prelude.Dict.{Dict, get, set, remove}
use v_llm_dashboard.Prelude.Set.{contains, add, discard}

-- an entry of `_sessions`; `creating` is the mark _CREATING
pub data Slot : Type 0 where
  creating : Slot
  session : ℕ → Slot

-- `alive` holds the sessions whose reader runs, and `active_ws` the number of WebSockets attached
-- to a session.
pub record Manager : Type 0 where
  pub sessions : Dict String Slot
  pub alive : List ℕ
  pub active_ws : Dict ℕ ℕ

-- _MAX_SESSIONS
abbrev pub max_sessions : ℕ
max_sessions = 5

abbrev pub or_zero : Option ℕ → ℕ
or_zero none = 0
or_zero (some n) = n

unfoldable pub attached : ℕ → Manager → ℕ
attached s m = or_zero (get s m.active_ws)

-- session.close()
unfoldable pub close : ℕ → Manager → Manager
close s m = record m { alive = discard s m.alive }

abbrev pub is_stale : List ℕ → Slot → Bool
is_stale alive creating = false
is_stale alive (session s) = not (contains s alive)

unfoldable pub live_slots : List ℕ → Dict String Slot → Dict String Slot
live_slots alive [] = []
live_slots alive ((k, v) ∷ d) =
    if is_stale alive v then live_slots alive d else (k, v) ∷ live_slots alive d

-- `_purge_stale`: the sessions it closes are dead already
unfoldable pub purge_stale : Manager → Manager
unfolding live_slots
purge_stale m = record m { sessions = live_slots m.alive m.sessions }

-- whether an entry may be evicted
unfoldable pub is_evictable : Manager → Slot → Bool
unfolding attached
is_evictable m creating = false
is_evictable m (session s) = not (ltb 0 (attached s m))

abbrev pub slot_session : Slot → Option ℕ
slot_session creating = none
slot_session (session s) = some s

-- the loop of `_evict_one_locked`: the entries without the first evictable one, and its session
unfoldable pub without_first :
    (Slot → Bool) → Dict String Slot → Option (Dict String Slot × Option ℕ)
without_first p [] = none
without_first p ((k, v) ∷ d) =
    let rest = without_first p d in
    if p v
    then some (d, slot_session v)
    else elim rest [ none ↦ none | some (d', s) ↦ some ((k, v) ∷ d', s) ]

abbrev close_if : Option ℕ → Manager → Manager
close_if none m = m
close_if (some s) m = close s m

-- `_evict_one_locked`
unfoldable pub evict_one_locked : Manager → Option Manager
unfolding without_first is_evictable close
evict_one_locked m = elim (without_first (is_evictable m) m.sessions) [
  | none ↦ none
  | some (d, s) ↦ some (record (close_if s m) { sessions = d })
]

-- attach and detach
unfoldable pub attach : ℕ → Manager → Manager
unfolding attached
attach s m = record m { active_ws = set s (attached s m + 1) m.active_ws }

unfoldable pub detach : ℕ → Manager → Manager
unfolding attached
detach s m = record m { active_ws = set s (attached s m - 1) m.active_ws }

-- what the first locked part of get_or_create answers
pub data Claim : Type 0 where
  found : ℕ → Claim
  in_flight full claimed : Claim

abbrev mark : String → Manager → Manager
mark key m = record m { sessions = set key creating m.sessions }

abbrev make_room : String → Option Manager → Manager → Claim × Manager
make_room key none m = (full, m)
make_room key (some m') m = (claimed, mark key m')

abbrev claim_new : String → Manager → Claim × Manager
claim_new key m =
    if leb max_sessions (length m.sessions)
    then make_room key (evict_one_locked m) m
    else (claimed, mark key m)

abbrev claim_slot : Option Slot → String → Manager → Claim × Manager
claim_slot none key m = claim_new key m
claim_slot (some creating) key m = (in_flight, m)
claim_slot (some (session s)) key m = if contains s m.alive then (found s, m) else claim_new key m

-- one turn of the loop of get_or_create, up to the connection
unfoldable pub claim : String → Manager → Claim × Manager
unfolding purge_stale evict_one_locked
claim key m = let m' = purge_stale m in claim_slot (get key m'.sessions) key m'

abbrev install_at : Option Slot → String → Option ℕ → Manager → Option ℕ × Manager
install_at (some creating) key (some s) m =
    (some s, record m { sessions = set key (session s) m.sessions })
install_at (some creating) key none m = (none, record m { sessions = remove key m.sessions })
install_at slot key made m = (none, close_if made m)

-- get_or_create after the connection: `made` is the new session, if there is one
unfoldable pub install : String → Option ℕ → Manager → Option ℕ × Manager
unfolding close
install key made m = install_at (get key m.sessions) key made m

-- the session whose reader starts, and the one whose reader ends
unfoldable pub opened : ℕ → Manager → Manager
opened s m = record m { alive = add s m.alive }

-- `get_session`
unfoldable pub get_session : String → Manager → Option ℕ
get_session key m = elim (get key m.sessions) [
  | none ↦ none
  | some v ↦ elim (slot_session v) [
    | none ↦ none
    | some s ↦ if contains s m.alive then some s else none
  ]
]

-- `active_session_count`
unfoldable pub active_session_count : Dict String Slot → ℕ
active_session_count [] = 0
active_session_count ((k, creating) ∷ d) = active_session_count d
active_session_count ((k, session s) ∷ d) = active_session_count d + 1
