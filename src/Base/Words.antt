-- ===== src/Base/Words.antt =====
-- Machine words and single bits. `|= 1 << i` and `&= ~(1 << i)` on an unsigned word.
use Prim.Native.Nat.{ℕ, ◌+◌, ◌-◌, ◌/◌, ◌%◌, ◌^◌}
use mathlib.Core.Bool.{Bool}
use nvme_snsd.Base.Tests.{◌==◌, if◌then◌else◌}

abbrev pub u8 : ℕ → ℕ
u8 n = n % 256

abbrev pub u16 : ℕ → ℕ
u16 n = n % 65536

abbrev pub u32 : ℕ → ℕ
u32 n = n % 4294967296

abbrev pub u64 : ℕ → ℕ
u64 n = n % 2 ^ 64

-- `word & (1 << i)`.
abbrev pub test_bit : ℕ → ℕ → Bool
test_bit word i = word / 2 ^ i % 2 == 1

-- `word | (1 << i)`.
abbrev pub or_bit : ℕ → ℕ → ℕ
or_bit word i = if test_bit word i then word else word + 2 ^ i

-- `word & ~(1 << i)`.
abbrev pub clear_bit : ℕ → ℕ → ℕ
clear_bit word i = if test_bit word i then word - 2 ^ i else word
