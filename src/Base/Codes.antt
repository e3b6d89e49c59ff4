-- ===== src/Base/Codes.antt =====
-- Return codes: 0, or one of the negative error numbers that the code returns.
use Prim.Native.Nat.{ℕ}
use mathlib.Core.Bool.{Bool, true, false}

pub data Errno : Type 0 where
  eperm enoent eio enxio eagain enomem eacces efault enodev einval erange : Errno
  -- A plain `-1`.
  eminus1 : Errno
  -- Any other negative number, -(n + 1).
  other : ℕ → Errno

pub data Status : Type 0 where
  success : Status
  failure : Errno → Status

abbrev pub is_success : Status → Bool
is_success success = true
is_success (failure e) = false
