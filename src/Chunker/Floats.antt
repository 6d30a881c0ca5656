-- ===== src/Chunker/Floats.antt =====
-- The floating-point operations that src-tauri/src/retrieval/chunker.rs uses, as a parameter.
use textbook_lens.Base.{ℕ, ◌+◌, ◌*◌, ◌/◌, ◌≤◌, Bool, true, min, max, arith}

-- `f64`: `of_usize n` is `n as f64`; `round`, `floor` and `ceil` include the `as usize` behind them;
-- the last four fields are the literals 0.0, 0.90, 0.05 and 0.15.
pub record Float64 : Type 1 where
  pub F : Type 0
  pub of_usize : ℕ → F
  pub mul : F → F → F
  pub round : F → ℕ
  pub floor : F → ℕ
  pub ceil : F → ℕ
  pub is_finite : F → Bool
  pub clamp : F → F → F → F
  pub none_at_all : F
  pub nine_tenths : F
  pub five_hundredths : F
  pub fifteen_hundredths : F

-- What the chunker relies on: 15 % of a count, rounded up, is at least one for a count of one, and
-- at most a fifth of any count and one; 5 % of one, rounded down, is nothing.
pub record FloatLaws (f : Float64) : Type 0 where
  pub fifteen_above : (n : ℕ) → f.ceil (f.mul (f.of_usize n) f.fifteen_hundredths) ≤ n / 5 + 1
  pub fifteen_of_one : 1 ≤ f.ceil (f.mul (f.of_usize 1) f.fifteen_hundredths)
  pub five_of_one : f.floor (f.mul (f.of_usize 1) f.five_hundredths) ≤ 1

-- Exact decimals with two places, which meet the laws.
abbrev pub decimals : Float64
decimals = record {
  F = ℕ;
  of_usize = λ n. n * 100;
  mul = λ a b. a * b / 100;
  round = λ a. (a + 50) / 100;
  floor = λ a. a / 100;
  ceil = λ a. (a + 99) / 100;
  is_finite = λ _. true;
  clamp = λ a lo hi. max lo (min a hi);
  none_at_all = 0;
  nine_tenths = 90;
  five_hundredths = 5;
  fifteen_hundredths = 15;
}

pub decimals-FloatLaws : FloatLaws decimals
decimals-FloatLaws = record {
  fifteen_above = λ n. omega arith;
  fifteen_of_one = omega arith;
  five_of_one = omega arith;
}
