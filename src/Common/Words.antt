-- ===== src/Common/Words.antt =====
-- Machine integers as numbers: the checked operations and conversions of `u16`, `u32`, `u64` and
-- `usize` (64 bits).
use Prim.Native.Nat.{ℕ, ◌+◌, ◌-◌, ◌^◌}
use mathlib.Core.Bool.{Bool, ◌&&◌, ◌||◌}
use mathlib.Core.Option.{Option, none, some}
use rust_factory.Common.Tests.{ltb, leb, if◌then◌else◌}

abbrev pub usize_bits : ℕ
usize_bits = 64

-- `uN::try_from(n)`
abbrev pub try_from : ℕ → ℕ → Option ℕ
try_from bits n = if ltb n (2 ^ bits) then some n else none

abbrev pub checked_add : ℕ → ℕ → ℕ → Option ℕ
checked_add bits a b = if ltb (a + b) (2 ^ bits) then some (a + b) else none

abbrev pub checked_sub : ℕ → ℕ → Option ℕ
checked_sub a b = if leb b a then some (a - b) else none

-- `u8::is_ascii_lowercase` and its siblings
abbrev pub is_ascii_lowercase : ℕ → Bool
is_ascii_lowercase c = leb b'a' c && leb c b'z'

abbrev pub is_ascii_uppercase : ℕ → Bool
is_ascii_uppercase c = leb b'A' c && leb c b'Z'

abbrev pub is_ascii_digit : ℕ → Bool
is_ascii_digit c = leb b'0' c && leb c b'9'

abbrev pub is_ascii_alphanumeric : ℕ → Bool
is_ascii_alphanumeric c = is_ascii_lowercase c || is_ascii_uppercase c || is_ascii_digit c
