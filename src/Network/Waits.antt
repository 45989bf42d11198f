-- ===== src/Network/Waits.antt =====
-- How long a peer waits before it is dialled again (core/network/src/peer_manager/retry.rs).
use muta.Prelude.{
  Bool, Bool-cases, arith, false, if◌then◌else◌, inl, inr, leb, ltb, ltb→le, nat_beq_iff, nat_eq,
  refl, suc, true, zero, ℕ, ◌%◌, ◌&&◌, ◌+◌, ◌-◌, ◌<◌, ◌==◌, ◌||◌, ◌≡◌, ◌≤◌,
}
use muta.Network.Retry.{
  Retry, backoff, eta, inc, inc_until, max_retry_interval, repeated_connection_timeout, saturate,
}
use muta.Protocol.{u64_mod}

-- The rounds that the loop of a short session can need from a count on.
abbrev rounds : ℕ → ℕ
rounds count = if ltb count 63 then 5 - count else 261 - count

-- The wait after one more failure is long enough, or fewer rounds are needed then.
abbrev shortens : ℕ → Bool
shortens count =
    leb repeated_connection_timeout (backoff (saturate 255 (count + 1)))
    || ltb (rounds ((count + 1) % 256)) (rounds count)

all_shorten : ℕ → Bool
unfolding backoff
all_shorten zero = true
all_shorten (suc n) = shortens n && all_shorten n

all_256 : all_shorten 256 ≡ true
unfolding all_shorten backoff
all_256 = refl

all_shorten-below : (n count : ℕ) → all_shorten n ≡ true → count < n → shortens count ≡ true
unfolding all_shorten
all_shorten-below zero count h less = let no : ⊥ = omega (arith, less) in elim no [ ]
all_shorten-below (suc n) count h less = elim (Bool-cases (count == n)) [
  | inl e ↦ ground (arith, h, (nat_beq_iff count n).0 e)
  | inr e ↦ ground (arith, all_shorten-below n count, h, less, e)
]

inc_until-stops :
    (fuel now : ℕ) (r : Retry)
    → ltb (eta now r) repeated_connection_timeout ≡ false
    → inc_until fuel now r ≡ r
unfolding inc_until
inc_until-stops zero now r h = refl
inc_until-stops (suc fuel) now r h = ground (arith, h)

backoff-le : (count : ℕ) → backoff count ≤ max_retry_interval
unfolding backoff
backoff-le count = ground arith

saturated_wait :
    (now wait : ℕ)
    → wait ≤ max_retry_interval
    → now + max_retry_interval < u64_mod
    → saturate (u64_mod - 1) (now + wait) - now ≡ wait
saturated_wait now wait few small = ground arith

eta-inc :
    (now : ℕ) (r : Retry)
    → now + max_retry_interval < u64_mod
    → eta now (inc now r) ≡ backoff (saturate 255 (r.count + 1))
unfolding eta inc
eta-inc now r small =
    saturated_wait now (backoff (saturate 255 (r.count + 1)))
      (backoff-le (saturate 255 (r.count + 1))) small

inc_until-step :
    (fuel now : ℕ) (r : Retry)
    → ltb (eta now r) repeated_connection_timeout ≡ true
    → inc_until (suc fuel) now r ≡ inc_until fuel now (inc now r)
unfolding inc_until
inc_until-step fuel now r h = ground (arith, h)

inc_until-zero : (now : ℕ) (r : Retry) → inc_until zero now r ≡ r
unfolding inc_until
inc_until-zero now r = refl

inc-count : (now : ℕ) (r : Retry) → (inc now r).count ≡ (r.count + 1) % 256
unfolding inc
inc-count now r = refl

fewer_rounds :
    (wait x y fuel : ℕ)
    → (leb repeated_connection_timeout wait || ltb x y) ≡ true
    → ltb wait repeated_connection_timeout ≡ true
    → y < suc fuel
    → x < fuel
fewer_rounds wait x y fuel h short enough = ground arith

inc_until-enough :
    (fuel now : ℕ) (r : Retry)
    → r.count < 256
    → now + max_retry_interval < u64_mod
    → rounds r.count < fuel
    → repeated_connection_timeout ≤ eta now (inc_until fuel now r)
inc_until-enough zero now r byte small enough = omega (arith, enough)
inc_until-enough (suc fuel) now r byte small enough =
    let more : shortens r.count ≡ true = all_shorten-below 256 r.count all_256 byte in
    let c = inc-count now r in
    let wait = eta-inc now r small in
    elim (Bool-cases (ltb (eta now r) repeated_connection_timeout)) [
      | inr e ↦ rw (inc_until-stops (suc fuel) now r e) (ltb→le (eta now r) 30 e)
      | inl e ↦
          rw (inc_until-step fuel now r e)
            (elim (Bool-cases (ltb (eta now (inc now r)) repeated_connection_timeout)) [
              | inr k ↦
                  rw (inc_until-stops fuel now (inc now r) k) (ltb→le (eta now (inc now r)) 30 k)
              | inl k ↦ inc_until-enough fuel now (inc now r) (omega (arith, c)) small (
                  rw c (
                    fewer_rounds (backoff (saturate 255 (r.count + 1)))
                      (rounds ((r.count + 1) % 256)) (rounds r.count) fuel more (rw (← wait) k)
                      enough))
            ])
    ]

rounds-less : (count : ℕ) → count < 256 → rounds count < 256
rounds-less count byte = ground arith

-- A round waits no longer than the cap.
inc_until-capped :
    (fuel now : ℕ) (r : Retry)
    → now + max_retry_interval < u64_mod
    → eta now r ≤ max_retry_interval
    → eta now (inc_until fuel now r) ≤ max_retry_interval
inc_until-capped zero now r small few = rw (inc_until-zero now r) few
inc_until-capped (suc fuel) now r small few =
    elim (Bool-cases (ltb (eta now r) repeated_connection_timeout)) [
      | inr e ↦ rw (inc_until-stops (suc fuel) now r e) few
      | inl e ↦ rw (inc_until-step fuel now r e) (
          inc_until-capped fuel now (inc now r) small
            (rw (eta-inc now r small) (backoff-le (saturate 255 (r.count + 1)))))
    ]

-- From every count of failures the loop after a short session ends: 256 rounds are enough for a wait
-- of at least thirty seconds, and a wait that was at most 512 seconds is at most 512 seconds then. The
-- time is at least 512 seconds before the last that a `u64` holds, and stays the same.
pub inc_until-waits :
    (now : ℕ) (r : Retry)
    → r.count < 256
    → now + max_retry_interval < u64_mod
    → eta now r ≤ max_retry_interval
    → (repeated_connection_timeout ≤ eta now (inc_until 256 now r))
      × (eta now (inc_until 256 now r) ≤ max_retry_interval)
inc_until-waits now r byte small few = (
  inc_until-enough 256 now r byte small (rounds-less r.count byte),
  inc_until-capped 256 now r small few,
)
