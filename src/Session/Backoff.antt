-- ===== src/Session/Backoff.antt =====
-- `RetryConfig` of src/session.rs. A `Duration` is its number of nanoseconds. The arithmetic of
-- `f64` is a parameter.
use temporal_nbd.Prelude.{
  ℕ, ◌+◌, ◌-◌, ◌*◌, ◌^◌, Bool, Option, none, some, leb, min, max, if◌then◌else◌, u64_max,
}

-- The numbers 0, 1, 0.001 and 0.2 and the operations of `f64` that the jitter uses, and the conversions of `Duration`.
pub record Floats : Type 1 where
  pub F64 : Type 0
  pub zero_f64 : F64
  pub one_f64 : F64
  pub milli_f64 : F64
  pub fifth_f64 : F64
  pub add_f64 : F64 → F64 → F64
  pub sub_f64 : F64 → F64 → F64
  pub mul_f64 : F64 → F64 → F64
  pub max_f64 : F64 → F64 → F64
  pub le_f64 : F64 → F64 → Bool
  pub as_secs_f64 : ℕ → F64
  pub from_secs_f64 : F64 → ℕ

-- `Duration::MAX`: the seconds of 64 bits and the nanoseconds below one more.
abbrev pub duration_max : ℕ
duration_max = u64_max * 1_000_000_000 + 999_999_999

-- `Duration::checked_mul`
abbrev pub duration_checked_mul : ℕ → ℕ → Option ℕ
duration_checked_mul d n = if leb (d * n) duration_max then some (d * n) else none

abbrev pub unwrap_or : Option ℕ → ℕ → ℕ
unwrap_or (some d) other = d
unwrap_or none other = other

module _ (F : Floats) where
  pub record RetryConfig : Type 0 where
    pub max_attempts : ℕ
    pub initial_backoff : ℕ
    pub max_backoff : ℕ
    pub jitter_ratio : F.F64

  -- `RetryConfig::default`
  abbrev pub default_retry_config : RetryConfig
  default_retry_config = record {
    max_attempts = 5;
    initial_backoff = 150_000_000;
    max_backoff = 2_000_000_000;
    jitter_ratio = F.fifth_f64;
  }

module _ {F : Floats} where
  abbrev pub capped_attempts : RetryConfig F → ℕ
  capped_attempts config = max config.max_attempts 1

  -- The delay before the jitter, `capped`.
  unfoldable pub capped_delay : RetryConfig F → ℕ → ℕ
  capped_delay config attempt =
      let shift = min (attempt - 1) 12 in
      let multiplier = 2 ^ shift in
      let exponential =
        unwrap_or (duration_checked_mul config.initial_backoff multiplier) config.max_backoff in
      min exponential config.max_backoff

  -- With the thread's generator in the state `s`: `gen_range low high s` is the number drawn and
  -- the state after it.
  unfoldable pub delay_for_attempt :
      {S : Type 0} → (F.F64 → F.F64 → S → F.F64 × S) → RetryConfig F → ℕ → S → ℕ × S
  unfolding capped_delay
  delay_for_attempt gen_range config attempt s =
      let capped = capped_delay config attempt in
      let low = F.max_f64 (F.sub_f64 F.one_f64 config.jitter_ratio) F.zero_f64 in
      let high = F.add_f64 F.one_f64 config.jitter_ratio in
      let (jitter, s') = gen_range low high s in
      if F.le_f64 config.jitter_ratio F.zero_f64
      then (capped, s)
      else (F.from_secs_f64 (F.max_f64 (F.mul_f64 (F.as_secs_f64 capped) jitter) F.milli_f64), s')
