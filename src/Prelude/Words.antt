-- ===== src/Prelude/Words.antt =====
-- Rust's fixed-width unsigned integers: a value is a native number below the type's bound.
use Prim.Native.Nat.{ℕ, ◌+◌, ◌*◌, ◌%◌, min}
use mathlib.Core.Option.{Option, none, some}
use safenet.Prelude.Tests.{ltb, if◌then◌else◌}

abbrev pub u16_max : ℕ
u16_max = 65535

abbrev pub u64_max : ℕ
u64_max = 18446744073709551615

-- `as u16`
abbrev pub as_u16 : ℕ → ℕ
as_u16 n = n % 65536

-- `u16::try_from(n).ok()`
abbrev pub try_u16 : ℕ → Option ℕ
try_u16 n = if ltb u16_max n then none else some n

-- `x += 1` on a `u64`, which wraps in a release build
abbrev pub wrapping_inc : ℕ → ℕ
wrapping_inc n = (n + 1) % 18446744073709551616

-- `u64::saturating_add`, `u64::saturating_mul`, `u64::checked_add`
abbrev pub saturating_add : ℕ → ℕ → ℕ
saturating_add a b = min (a + b) u64_max

abbrev pub saturating_mul : ℕ → ℕ → ℕ
saturating_mul a b = min (a * b) u64_max

abbrev pub checked_add : ℕ → ℕ → Option ℕ
checked_add a b = if ltb u64_max (a + b) then none else some (a + b)
