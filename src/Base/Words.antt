-- ===== src/Base/Words.antt =====
-- Unsigned machine words of Rust: the bounds, and the checked and saturating operations.
use Prim.Native.Nat.{ℕ, ◌+◌, min}
use mathlib.Core.Option.{Option, none, some}
use textbook_lens.Base.Tests.{leb, if◌then◌else◌}

abbrev pub u32_max : ℕ
u32_max = 4294967295

abbrev pub u64_max : ℕ
u64_max = 18446744073709551615

-- `usize` of the 64-bit Windows target.
abbrev pub usize_max : ℕ
usize_max = 18446744073709551615

-- `a.checked_add(b)` of the word type with the given largest value.
abbrev pub checked_add : ℕ → ℕ → ℕ → Option ℕ
checked_add bound a b = if leb (a + b) bound then some (a + b) else none

-- `a.saturating_add(b)`
abbrev pub saturating_add : ℕ → ℕ → ℕ → ℕ
saturating_add bound a b = min (a + b) bound
