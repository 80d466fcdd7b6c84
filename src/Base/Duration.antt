-- ===== src/Base/Duration.antt =====
-- `time.Duration`: signed 64-bit numbers of nanoseconds, as integers with the wrap-around written out.
-- `negsuc n` is -(n + 1).
use Prim.Native.Nat.{ℕ, ◌+◌, ◌-◌, ◌*◌, ◌^◌}
use mathlib.Core.Bool.{Bool, true, false}
use lan_nickname.Base.Tests.{ltb, if◌then◌else◌, ◌==◌}

pub data ℤ : Type 0 where
  pos : ℕ → ℤ
  negsuc : ℕ → ℤ

abbrev pub second : ℕ
second = 1_000_000_000

abbrev pub int_lt : ℤ → ℤ → Bool
int_lt (pos a) (pos b) = ltb a b
int_lt (pos a) (negsuc b) = false
int_lt (negsuc a) (pos b) = true
int_lt (negsuc a) (negsuc b) = ltb b a

abbrev pub is_zero : ℤ → Bool
is_zero (pos n) = n == 0
is_zero (negsuc n) = false

-- `d * 2` on an int64.
abbrev pub double : ℤ → ℤ
double (pos n) = if ltb (2 * n) (2 ^ 63) then pos (2 * n) else negsuc (2 ^ 64 - 2 * n - 1)
double (negsuc n) =
    if ltb (2 * n + 1) (2 ^ 63) then negsuc (2 * n + 1) else pos (2 ^ 64 - (2 * n + 2))
