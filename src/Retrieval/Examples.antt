-- ===== src/Retrieval/Examples.antt =====
-- A prompt of the budget: two code points and one token of framing, for a model of 8192 tokens.
use textbook_lens.Base.{◌+◌, ◌≤◌, ◌≡◌, refl, ◌↔◌, [], ◌∷◌, arith, ok}
use textbook_lens.Retrieval.Budget.{
  standard, mode_cap, new_budget, total_reserve, require_fits, conservative_rendered_count,
}
use textbook_lens.Retrieval.Room.{require_fits_iff}

-- A small model keeps the output that was asked for, a larger one at least 4096 tokens.
small_budget : (new_budget 8000 standard 1000).usable_input ≡ 6488
unfolding new_budget
small_budget = refl

large_budget : (new_budget 200000 standard 1000).usable_input ≡ 27392
unfolding new_budget
large_budget = refl

require_fits_iff_example :
    (require_fits
        (new_budget 8192 standard 100)
        (conservative_rendered_count ((b'H' ∷ b'i' ∷ []) ∷ []) 1)
      ≡ ok 3)
    ↔ ((3 + total_reserve (new_budget 8192 standard 100) ≤ 8192)
        × (3 + total_reserve (new_budget 8192 standard 100) ≤ mode_cap standard))
require_fits_iff_example =
    require_fits_iff 8192 100 1 standard ((b'H' ∷ b'i' ∷ []) ∷ []) (omega arith) (omega arith)
