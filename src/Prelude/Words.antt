-- ===== src/Prelude/Words.antt =====
-- Unsigned machine integers as native numbers with the source's checked operations. `usize` is
-- the 64-bit one of the hosts that can attach a device.
use Prim.Native.Nat.{ℕ, ◌+◌, ◌*◌, ◌%◌, min}
use mathlib.Core.Bool.{Bool}
use mathlib.Core.Option.{Option, none, some}
use temporal_nbd.Prelude.Tests.{leb, ◌==◌, if◌then◌else◌}

abbrev pub u32_max : ℕ
u32_max = 4_294_967_295

abbrev pub u64_max : ℕ
u64_max = 18_446_744_073_709_551_615

abbrev pub usize_max : ℕ
usize_max = u64_max

-- `u32::try_from` on a wider value.
abbrev pub to_u32 : ℕ → Option ℕ
to_u32 a = if leb a u32_max then some a else none

-- `u64::checked_add`
abbrev pub checked_add : ℕ → ℕ → Option ℕ
checked_add a b = if leb (a + b) u64_max then some (a + b) else none

-- `usize::checked_mul`
abbrev pub checked_mul : ℕ → ℕ → Option ℕ
checked_mul a b = if leb (a * b) usize_max then some (a * b) else none

-- `u64::saturating_add`
abbrev pub saturating_add : ℕ → ℕ → ℕ
saturating_add a b = min (a + b) u64_max

-- `is_multiple_of`: only zero is a multiple of zero, as `n % 0` is `n`.
abbrev pub is_multiple_of : ℕ → ℕ → Bool
is_multiple_of a b = a % b == 0

-- A signed number.
pub data ℤ : Type 0 where
  pos : ℕ → ℤ
  negsuc : ℕ → ℤ
