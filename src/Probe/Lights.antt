-- ===== src/Probe/Lights.antt =====
-- backend/executor/remote/net_probe.py: the checksum of the packet, and the meaning of the light.
use v_llm_dashboard.Prelude.{
  ℕ, ◌+◌, ◌*◌, ◌≤◌, ◌<◌, ◌≡◌, refl, String, true, false, Option, none, some, List, [], ◌∷◌, ◌++◌,
  All, ap, ◌∙◌, sym, inl, inr, Bool-cases, arith, if◌then◌else◌, ◌==◌, ==_iff, string_eq, nat_eq,
}
use v_llm_dashboard.Prelude.Dict.{Dict, get, set, get-set}
use v_llm_dashboard.Probe.{
  word_size, words_of, sum_words, fold_sum, checksum, echo_with, echo_packet, PingTracker,
  next_streak, streak_of, state_of, record_ping, record_pings, light_after,
}

fold_sum_lem : (total : ℕ) → total ≤ 7 * 65535 → fold_sum (total + fold_sum total) ≡ 0
unfolding fold_sum
fold_sum_lem total h = omega arith

-- A packet with eight bytes of payload sums to zero, as its receiver checks.
pub checksum-echo_packet :
    (seq a b c d e f g h : ℕ)
    → seq < word_size
    → All (λ x. x < 256) (a ∷ b ∷ c ∷ d ∷ e ∷ f ∷ g ∷ h ∷ [])
    → checksum (echo_packet seq (a ∷ b ∷ c ∷ d ∷ e ∷ f ∷ g ∷ h ∷ [])) ≡ 0
unfolding checksum words_of sum_words echo_packet
checksum-echo_packet seq a b c d e f g h hs hp =
    let payload : List ℕ = a ∷ b ∷ c ∷ d ∷ e ∷ f ∷ g ∷ h ∷ [] in
    let total : ℕ = sum_words (words_of (echo_with 0 seq payload)) in
    let small : total ≤ 7 * 65535 = omega arith in
    let sum : sum_words (words_of (echo_packet seq payload)) ≡ total + fold_sum total =
      omega arith in
    ap fold_sum sum ∙ fold_sum_lem total small

-- the failed pings of a host since its last success, behind `n` of them
unfoldable pub failures : String → List (String × Option ℕ) → ℕ → ℕ
failures host [] n = n
failures host ((h, none) ∷ pings) n =
    let more = failures host pings (n + 1) in
    let same = failures host pings n in if h == host then more else same
failures host ((h, some rtt) ∷ pings) n =
    let again = failures host pings 0 in
    let same = failures host pings n in if h == host then again else same

failures_own :
    (host h : String) (rtt : Option ℕ) (old : Option ℕ) (pings : List (String × Option ℕ))
    → (h == host) ≡ true
    → failures host ((h, rtt) ∷ pings) (streak_of old) ≡ failures host pings (next_streak rtt old)
unfolding failures next_streak
failures_own host h none old pings e = rw e refl
failures_own host h (some rtt) old pings e = rw e refl

failures_other :
    (host h : String) (rtt : Option ℕ) (n : ℕ) (pings : List (String × Option ℕ))
    → (h == host) ≡ false
    → failures host ((h, rtt) ∷ pings) n ≡ failures host pings n
unfolding failures
failures_other host h none n pings e = rw e refl
failures_other host h (some rtt) n pings e = rw e refl

get-set_own :
    (h host : String) (n : ℕ) (d : Dict String ℕ)
    → (h == host) ≡ true
    → get host (set h n d) ≡ some n
get-set_own h host n d e = get-set h host n d ∙ ap (λ b. if b then some n else get host d) e

get-set_other :
    (h host : String) (n : ℕ) (d : Dict String ℕ)
    → (h == host) ≡ false
    → get host (set h n d) ≡ get host d
get-set_other h host n d e = get-set h host n d ∙ ap (λ b. if b then some n else get host d) e

streak-record_pings :
    (host : String) (pings : List (String × Option ℕ)) (t : PingTracker)
    → streak_of (get host (record_pings pings t).streak)
      ≡ failures host pings (streak_of (get host t.streak))
unfolding record_pings record_ping failures
streak-record_pings host [] t = refl
streak-record_pings host ((h, rtt) ∷ pings) t =
    let n : ℕ = next_streak rtt (get h t.streak) in
    let later : PingTracker = (record_ping h rtt t).0 in
    let rest = streak-record_pings host pings later in
    elim (Bool-cases (h == host)) [
      | inl own ↦
          let same : get h t.streak ≡ get host t.streak =
            ap (λ k. get k t.streak) ((==_iff h host).0 own) in
          rest
          ∙ ap (λ o. failures host pings (streak_of o)) (get-set_own h host n t.streak own)
          ∙ ap (λ o. failures host pings (next_streak rtt o)) same
          ∙ sym (failures_own host h rtt (get host t.streak) pings own)
      | inr other ↦
          rest
          ∙ ap (λ o. failures host pings (streak_of o)) (get-set_other h host n t.streak other)
          ∙ sym (failures_other host h rtt (streak_of (get host t.streak)) pings other)
    ]

failures-append :
    (host : String) (n : ℕ) (pings more : List (String × Option ℕ))
    → failures host (pings ++ more) n ≡ failures host more (failures host pings n)
unfolding failures
failures-append host n [] more = refl
failures-append host n ((h, none) ∷ pings) more =
    ground (arith, failures-append host (n + 1) pings more, failures-append host n pings more)
failures-append host n ((h, some rtt) ∷ pings) more =
    ground (arith, failures-append host 0 pings more, failures-append host n pings more)

-- Behind any pings of any hosts a host's light is up where its last ping came back, degraded where
-- only the last one failed, and down where the last two did.
pub light_after-lem :
    (pings : List (String × Option ℕ)) (host : String) (rtt : Option ℕ) (t : PingTracker)
    → light_after pings host rtt t
      ≡ state_of (failures host (pings ++ (host, rtt) ∷ []) (streak_of (get host t.streak)))
unfolding light_after record_ping failures
light_after-lem pings host rtt t =
    let own : (host == host) ≡ true = (==_iff host host).1 refl in
    let before = streak-record_pings host pings t in
    let n : ℕ = streak_of (get host t.streak) in
    ap state_of (
      sym (failures_own host host rtt (get host (record_pings pings t).streak) [] own)
      ∙ ap (failures host ((host, rtt) ∷ [])) before
      ∙ sym (failures-append host n pings ((host, rtt) ∷ [])))
