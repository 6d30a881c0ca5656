-- ===== src/Validator/Examples.antt =====
-- A table of two rows: a wide cell above two narrow ones.
use textbook_lens.Base.{ℕ, ◌%◌, ◌≡◌, refl, false, List, [], ◌∷◌, All}
use textbook_lens.Validator.Texts.{
  latex_is_malformed, latex_from, required_bounded_text, is_unbounded, is_suspicious,
}
use textbook_lens.Validator.Tables.{
  UntrustedTableCell, IndexTableCellDto, occupy_columns, occupy_rows, is_misplaced, place_cells,
  validate_table_cells,
}
use textbook_lens.Validator.Groups.{Grouped, unescaped, dollars_of, latex_is_malformed-Grouped}
use textbook_lens.Validator.Grids.{SameCells, IsInGrid, IsDisjoint, validate_table_cells-IsDisjoint}

abbrev cell_at : ℕ → ℕ → ℕ → UntrustedTableCell
cell_at row column width = record {
  row = row;
  column = column;
  row_span = 1;
  column_span = width;
  text = b'x' ∷ [];
}

abbrev wide_and_narrow : List UntrustedTableCell
wide_and_narrow = cell_at 0 0 2 ∷ cell_at 1 0 1 ∷ cell_at 1 1 1 ∷ []

abbrev validated_at : ℕ → ℕ → ℕ → IndexTableCellDto
validated_at row column width = record {
  row = row;
  column = column;
  row_span = 1;
  column_span = width;
  text = b'x' ∷ [];
}

abbrev validated : List IndexTableCellDto
validated = validated_at 0 0 2 ∷ validated_at 1 0 1 ∷ validated_at 1 1 1 ∷ []

validate_table_cells-IsDisjoint_example :
    SameCells wide_and_narrow validated × All IsInGrid validated × IsDisjoint validated
unfolding validate_table_cells place_cells is_misplaced occupy_rows occupy_columns
    required_bounded_text is_unbounded is_suspicious
validate_table_cells-IsDisjoint_example =
    validate_table_cells-IsDisjoint wide_and_narrow validated refl

-- A fraction in dollar signs.
abbrev fraction : List ℕ
fraction = b'$' ∷ b'\\' ∷ b'f' ∷ b'{' ∷ b'a' ∷ b'}' ∷ b'{' ∷ b'b' ∷ b'\\' ∷ b'}' ∷ b'}' ∷ b'$' ∷ []

latex_is_malformed-Grouped_example :
    Grouped (unescaped false fraction) × (dollars_of (unescaped false fraction) % 2 ≡ 0)
unfolding latex_is_malformed latex_from
latex_is_malformed-Grouped_example = latex_is_malformed-Grouped fraction refl
