-- ===== src/Network/Retry.antt =====
-- When a peer may be dialled again (core/network/src/peer_manager/retry.rs). A release build wraps
-- where `pow` overflows.
use muta.Prelude.{Bool, false, if◌then◌else◌, ltb, suc, true, zero, ℕ, ◌%◌, ◌+◌, ◌-◌, ◌^◌}
use muta.Protocol.{u64_mod}

abbrev pub backoff_base : ℕ
backoff_base = 2

abbrev pub max_retry_interval : ℕ
max_retry_interval = 512

abbrev pub max_retry_count : ℕ
max_retry_count = 30

abbrev pub repeated_connection_timeout : ℕ
repeated_connection_timeout = 30

pub record Retry : Type 0 where
  pub max : ℕ
  pub count : ℕ
  pub next_attempt_at : ℕ

unfoldable pub new_retry : ℕ → Retry
new_retry max = record { max = max; count = 0; next_attempt_at = 0 }

abbrev pub saturate : ℕ → ℕ → ℕ
saturate top n = if ltb top n then top else n

-- The seconds to wait once `count` attempts have failed.
unfoldable pub backoff : ℕ → ℕ
backoff count = saturate max_retry_interval ((backoff_base ^ count) % u64_mod)

-- `count` is an atomic `u8` that wraps; the exponent is the old count plus one, at most 255.
unfoldable pub inc : ℕ → Retry → Retry
unfolding backoff
inc now r = record r {
  count = (r.count + 1) % 256;
  next_attempt_at = saturate (u64_mod - 1) (now + backoff (saturate 255 (r.count + 1)));
}

unfoldable pub eta : ℕ → Retry → ℕ
eta now r = r.next_attempt_at - now

unfoldable pub reset : Retry → Retry
reset r = record r { count = 0 }

unfoldable pub ready : ℕ → Retry → Bool
ready now r = ltb r.next_attempt_at now

unfoldable pub run_out : Retry → Bool
run_out r = ltb r.max r.count

-- `while retry.eta() < REPEATED_CONNECTION_TIMEOUT { retry.inc() }`, at one time.
unfoldable pub inc_until : ℕ → ℕ → Retry → Retry
unfolding eta inc
inc_until zero now r = r
inc_until (suc fuel) now r = elim (ltb (eta now r) repeated_connection_timeout) [
  | true ↦ inc_until fuel now (inc now r)
  | false ↦ r
]
