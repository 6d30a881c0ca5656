-- ===== src/Retrieval/Room.antt =====
-- What the budget of src-tauri/src/retrieval/budget.rs lets through has room in the model's window.
use textbook_lens.Base.{
  ℕ, ◌+◌, ◌≤◌, ◌<◌, ◌≡◌, ◌↔◌, min, List, [], ◌∷◌, arith, ok, u64_max, saturating_add, length,
}
use textbook_lens.Retrieval.Budget.{
  ContextMode, standard, long, mode_cap, new_budget, total_reserve, require_fits,
  conservative_token_count, conservative_rendered_count,
}

-- The code points of all parts.
abbrev pub code_points : List (List ℕ) → ℕ
code_points [] = 0
code_points (part ∷ parts) = length part + code_points parts

rendered_count_lem :
    (parts : List (List ℕ)) (total : ℕ)
    → total ≤ u64_max
    → conservative_rendered_count parts total ≡ min (total + code_points parts) u64_max
unfolding conservative_rendered_count conservative_token_count
rendered_count_lem [] total h = omega (arith, h)
rendered_count_lem (part ∷ parts) total h =
    ground
      (arith, rendered_count_lem parts (saturating_add u64_max total (min (length part) u64_max)))

-- A prompt of at least one token fits if and only if its tokens, which are its code points with those
-- of the framing, leave the reserves for the answer and the protocol free in the model's window and
-- under the cap of the mode; no prompt fits by an overflow of the counts.
pub require_fits_iff :
    (model_context_tokens requested framing : ℕ) (mode : ContextMode) (parts : List (List ℕ))
    → framing ≤ u64_max
    → 0 < framing + code_points parts
    → let b = new_budget model_context_tokens mode requested in
      let n = framing + code_points parts in
      (require_fits b (conservative_rendered_count parts framing) ≡ ok n)
      ↔ ((n + total_reserve b ≤ model_context_tokens) × (n + total_reserve b ≤ mode_cap mode))
unfolding new_budget total_reserve require_fits
require_fits_iff model_context_tokens requested framing standard parts h some_token =
    rw (rendered_count_lem parts framing h) (ground arith)
require_fits_iff model_context_tokens requested framing long parts h some_token =
    rw (rendered_count_lem parts framing h) (ground arith)
