-- ===== src/Transfer/Backoff.antt =====
-- Retry delays (`retry_delay_ms`, `checked_add_ms` of crates/myvault-transfer/src/lib.rs).
use native.Mathlib.Nat.{mod-lt, one-le-pow, pow-le-pow_right}
use my_vault.Base.{ℕ, ◌+◌, ◌-◌, ◌*◌, ◌/◌, ◌%◌, ◌^◌, ◌≤◌, ◌<◌, min, max, arith, ltb, if◌then◌else◌}
use my_vault.Base.Results.{Result, ok, err}
use my_vault.Transfer.Intent.{Error}

abbrev pub base_backoff_ms : ℕ
base_backoff_ms = 1000

abbrev pub max_backoff_ms : ℕ
max_backoff_ms = 15 * 60 * 1000

abbrev pub u64_max : ℕ
u64_max = 2 ^ 64 - 1

abbrev pub saturating_mul : ℕ → ℕ → ℕ
saturating_mul a b = min (a * b) u64_max

abbrev pub saturating_add : ℕ → ℕ → ℕ
saturating_add a b = min (a + b) u64_max

-- `Uuid::as_bytes` is big-endian.
unfoldable pub uuid_byte : ℕ → ℕ → ℕ
uuid_byte id i = id / 2 ^ (8 * (15 - i)) % 256

-- `u64::from_le_bytes` of the first eight bytes
unfoldable pub seed : ℕ → ℕ
unfolding uuid_byte
seed id =
    uuid_byte id 0
    + 2 ^ 8 * uuid_byte id 1
    + 2 ^ 16 * uuid_byte id 2
    + 2 ^ 24 * uuid_byte id 3
    + 2 ^ 32 * uuid_byte id 4
    + 2 ^ 40 * uuid_byte id 5
    + 2 ^ 48 * uuid_byte id 6
    + 2 ^ 56 * uuid_byte id 7

unfoldable pub retry_delay_ms : ℕ → ℕ → ℕ
retry_delay_ms operation_id attempt =
    let shift = min attempt 9 in
    let exponential = saturating_mul base_backoff_ms (2 ^ shift) in
    let capped = min exponential max_backoff_ms in
    let jitter_bound = max (capped / 4) 1 in
    min (saturating_add capped (seed operation_id % jitter_bound)) max_backoff_ms

unfoldable pub checked_add_ms : ℕ → ℕ → Result ℕ Error
checked_add_ms now_unix_ms delay_ms =
    if ltb u64_max (now_unix_ms + delay_ms)
    then err Error.timestamp_overflow
    else ok (now_unix_ms + delay_ms)

-- The doubling part of the delay at each attempt.
abbrev pub exponential_ms : ℕ → ℕ
exponential_ms attempt = 1000 * 2 ^ min attempt 9

pow_bounds : (k : ℕ) → k ≤ 9 → (1 ≤ 2 ^ k) × (2 ^ k ≤ 512)
pow_bounds k h = (one-le-pow k 2 (omega arith), pow-le-pow_right (omega arith) h)

-- The two ends for a doubling part `1000 * p` and a jitter `r`.
jitter_bounds :
    (p r : ℕ) (one : 1 ≤ p) (top : p ≤ 512)
    → let capped = min (saturating_mul base_backoff_ms p) max_backoff_ms in
      r < max (capped / 4) 1
      → let delay = min (saturating_add capped r) max_backoff_ms in
        (1000 * p ≤ delay)
        × (4 * delay < 5 * (1000 * p))
        × (base_backoff_ms ≤ delay)
        × (delay < 640000)
jitter_bounds p r one top h = omega arith

-- The delay of attempt `a` lies between 1000 * 2 ^ min(a, 9) ms and a quarter above it, the upper
-- end excluded. So it is at least BASE_BACKOFF_MS and stays below 640 s, under MAX_BACKOFF_MS.
pub retry_delay_bounds :
    (operation_id attempt : ℕ)
    → (exponential_ms attempt ≤ retry_delay_ms operation_id attempt)
      × (4 * retry_delay_ms operation_id attempt < 5 * exponential_ms attempt)
      × (base_backoff_ms ≤ retry_delay_ms operation_id attempt)
      × (retry_delay_ms operation_id attempt < 640000)
unfolding retry_delay_ms
retry_delay_bounds operation_id attempt =
    let (low, high) = pow_bounds (min attempt 9) (omega arith) in
    jitter_bounds (2 ^ min attempt 9) _ low high (mod-lt _ (omega arith))
