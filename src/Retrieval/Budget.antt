-- ===== src/Retrieval/Budget.antt =====
-- The budget of src-tauri/src/retrieval/budget.rs. Tokens are u32 or u64 with their saturating
-- operations; a text is its code points.
use textbook_lens.Base.{
  ℕ, ◌-◌, ◌/◌, min, max, ◌&&◌, List, [], ◌∷◌, ltb, leb, if◌then◌else◌, length, u32_max, u64_max,
  saturating_add, Result, ok, err,
}
use textbook_lens.Errors.{AppErrorCode, context_too_large}

-- `ContextMode` of src-tauri/src/domain/settings.rs.
pub data ContextMode : Type 0 where
  standard long : ContextMode

abbrev pub standard_context_cap : ℕ
standard_context_cap = 32000

abbrev pub long_context_cap : ℕ
long_context_cap = 128000

abbrev pub minimum_output_reserve : ℕ
minimum_output_reserve = 4096

abbrev pub protocol_reserve_tokens : ℕ
protocol_reserve_tokens = 512

pub record InputBudget : Type 0 where
  pub effective_window : ℕ
  pub output_reserve : ℕ
  pub protocol_reserve : ℕ
  pub usable_input : ℕ

abbrev pub mode_cap : ContextMode → ℕ
mode_cap standard = standard_context_cap
mode_cap long = long_context_cap

abbrev pub output_reserve_for : ℕ → ℕ → ℕ
output_reserve_for window requested =
    if ltb window 8192 && leb requested (window / 4)
    then requested
    else max requested minimum_output_reserve

-- `InputBudget::new`
unfoldable pub new_budget : ℕ → ContextMode → ℕ → InputBudget
new_budget model_context_tokens context_mode requested_output_tokens =
    let window = min model_context_tokens (mode_cap context_mode) in
    let reserve = output_reserve_for window requested_output_tokens in
    record {
      effective_window = window;
      output_reserve = reserve;
      protocol_reserve = protocol_reserve_tokens;
      usable_input = (window - reserve) - protocol_reserve_tokens;
    }

unfoldable pub total_reserve : InputBudget → ℕ
total_reserve b = saturating_add u32_max b.output_reserve b.protocol_reserve

unfoldable pub require_fits : InputBudget → ℕ → Result AppErrorCode ℕ
require_fits b conservative_tokens =
    if ltb b.usable_input conservative_tokens
    then err context_too_large
    else if leb conservative_tokens u32_max
    then ok conservative_tokens
    else err context_too_large

unfoldable pub conservative_token_count : List ℕ → ℕ
conservative_token_count value = min (length value) u64_max

-- The `fold` of `conservative_rendered_count`.
unfoldable pub conservative_rendered_count : List (List ℕ) → ℕ → ℕ
conservative_rendered_count [] total = total
conservative_rendered_count (part ∷ parts) total =
    conservative_rendered_count parts (saturating_add u64_max total (conservative_token_count part))
