-- ===== src/Probe.antt =====
-- backend/executor/remote/net_probe.py: the checksum of an ICMP echo and the tracker of failed
-- pings. Its child modules are ssh_probe.py, power_ops.py and their properties.
pub mod Ssh
pub mod Bmc
pub mod Power
pub mod Lights
use v_llm_dashboard.Prelude.{
  ℕ, ◌+◌, ◌-◌, ◌*◌, ◌/◌, ◌%◌, ◌^◌, String, Bool, Option, none, some, List, [], ◌∷◌, leb,
  if◌then◌else◌, ◌==◌, string_eq, nat_eq,
}
use v_llm_dashboard.Prelude.Dict.{Dict, get, set, remove}

abbrev pub word_size : ℕ
word_size = 2 ^ 16

-- the words of `struct.unpack("!nH", data)`, behind a zero byte where the length is odd
unfoldable pub words_of : List ℕ → List ℕ
words_of [] = []
words_of (a ∷ []) = a * 256 ∷ []
words_of (a ∷ b ∷ bytes) = (a * 256 + b) ∷ words_of bytes

unfoldable pub sum_words : List ℕ → ℕ
sum_words [] = 0
sum_words (w ∷ ws) = w + sum_words ws

-- the two folds and the complement
unfoldable pub fold_sum : ℕ → ℕ
fold_sum total =
    let once = total / word_size + total % word_size in
    word_size - 1 - (once + once / word_size) % word_size

-- `_checksum`
unfoldable pub checksum : List ℕ → ℕ
unfolding words_of sum_words fold_sum
checksum bytes = fold_sum (sum_words (words_of bytes))

-- struct.pack("!H", w)
abbrev pub pack_word : ℕ → List ℕ
pack_word w = w / 256 ∷ w % 256 ∷ []

-- _seq, and the packet that `icmp_ping` sends: the type 8, the code 0, the checksum, the ident 0,
-- the sequence number and eight bytes of payload
unfoldable pub next_seq : ℕ → ℕ
next_seq seq = (seq + 1) % word_size

abbrev pub echo_with : ℕ → ℕ → List ℕ → List ℕ
echo_with cks seq payload = 8 ∷ 0 ∷ cks / 256 ∷ cks % 256 ∷ 0 ∷ 0 ∷ seq / 256 ∷ seq % 256 ∷ payload

unfoldable pub echo_packet : ℕ → List ℕ → List ℕ
unfolding checksum
echo_packet seq payload = echo_with (checksum (echo_with 0 seq payload)) seq payload

-- DOWN_STRIKES
abbrev pub down_strikes : ℕ
down_strikes = 2

pub data NetState : Type 0 where
  up degraded down : NetState

-- a round-trip time is a number of microseconds
pub record PingTracker : Type 0 where
  pub streak : Dict String ℕ
  pub rtt : Dict String ℕ

abbrev pub streak_of : Option ℕ → ℕ
streak_of none = 0
streak_of (some n) = n

unfoldable pub next_streak : Option ℕ → Option ℕ → ℕ
next_streak (some rtt) old = 0
next_streak none old = streak_of old + 1

abbrev put_rtt : String → Option ℕ → Dict String ℕ → Dict String ℕ
put_rtt host none d = d
put_rtt host (some rtt) d = set host rtt d

abbrev pub state_of : ℕ → NetState
state_of n = if n == 0 then up else if leb down_strikes n then down else degraded

-- `PingTracker.record`
unfoldable pub record_ping : String → Option ℕ → PingTracker → PingTracker × (NetState × Option ℕ)
unfolding next_streak
record_ping host rtt t =
    let n = next_streak rtt (get host t.streak) in
    let rtts = put_rtt host rtt t.rtt in
    (record { streak = set host n t.streak; rtt = rtts }, (state_of n, get host rtts))

-- `PingTracker.reset`
unfoldable pub reset_ping : String → PingTracker → PingTracker
reset_ping host t = record { streak = remove host t.streak; rtt = remove host t.rtt }

-- a sequence of pings, each of some host
unfoldable pub record_pings : List (String × Option ℕ) → PingTracker → PingTracker
unfolding record_ping
record_pings [] t = t
record_pings ((host, rtt) ∷ pings) t = record_pings pings (record_ping host rtt t).0

-- the light that a ping gives behind others
unfoldable pub light_after : List (String × Option ℕ) → String → Option ℕ → PingTracker → NetState
unfolding record_ping record_pings
light_after pings host rtt t = (record_ping host rtt (record_pings pings t)).1.0
