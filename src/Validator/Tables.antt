-- ===== src/Validator/Tables.antt =====
-- `validate_table_cells` of src-tauri/src/indexing/validator.rs.
use textbook_lens.Base.{
  ℕ, zero, suc, ◌+◌, ◌*◌, Bool, true, false, not, ◌&&◌, ◌||◌, Option, none, some, List, [], ◌∷◌,
  ltb, ◌==◌, if◌then◌else◌, any, is_empty, length, checked_add, u32_max, Result, ok, err,
}
use textbook_lens.Validator.Texts.{PageValidationFailure, invalid_table, required_bounded_text}

-- A cell as the model sent it, and one that was validated.
pub record UntrustedTableCell : Type 0 where
  pub row : ℕ
  pub column : ℕ
  pub row_span : ℕ
  pub column_span : ℕ
  pub text : List ℕ

pub record IndexTableCellDto : Type 0 where
  pub row : ℕ
  pub column : ℕ
  pub row_span : ℕ
  pub column_span : ℕ
  pub text : List ℕ

abbrev pub max_table_cells : ℕ
max_table_cells = 4096

abbrev pub max_table_axis : ℕ
max_table_axis = 512

abbrev pub max_cell_code_points : ℕ
max_cell_code_points = 16384

abbrev pub max_cell_bytes : ℕ
max_cell_bytes = max_cell_code_points * 4

-- Whether the set `occupied` has the place.
abbrev pub is_occupied : ℕ → ℕ → List (ℕ × ℕ) → Bool
is_occupied row column [] = false
is_occupied row column (p ∷ ps) = p.0 == row && p.1 == column || is_occupied row column ps

-- `occupied.insert((row, column))`
abbrev pub insert_place : ℕ → ℕ → List (ℕ × ℕ) → List (ℕ × ℕ)
insert_place row column occupied =
    if is_occupied row column occupied then occupied else (row, column) ∷ occupied

-- The inner loop, over `n` columns from `column`: the set, and whether a place was taken already.
unfoldable pub occupy_columns : ℕ → ℕ → ℕ → List (ℕ × ℕ) → List (ℕ × ℕ) × Bool
occupy_columns row column zero occupied = (occupied, false)
occupy_columns row column (suc n) occupied =
    let rest = occupy_columns row (column + 1) n (insert_place row column occupied) in
    (rest.0, is_occupied row column occupied || rest.1)

-- The outer loop, over `n` rows from `row`.
unfoldable pub occupy_rows : ℕ → ℕ → ℕ → ℕ → List (ℕ × ℕ) → List (ℕ × ℕ) × Bool
occupy_rows row column zero width occupied = (occupied, false)
occupy_rows row column (suc n) width occupied =
    let first = occupy_columns row column width occupied in
    let rest = occupy_rows (row + 1) column n width first.0 in (rest.0, first.1 || rest.1)

-- `end.is_none_or(|end| end > MAX_TABLE_AXIS)`
abbrev pub beyond_axis : Option ℕ → Bool
beyond_axis none = true
beyond_axis (some last) = ltb max_table_axis last

unfoldable pub is_misplaced : UntrustedTableCell → Bool
is_misplaced cell =
    cell.row_span == 0
    || cell.column_span == 0
    || beyond_axis (checked_add u32_max cell.row cell.row_span)
    || beyond_axis (checked_add u32_max cell.column cell.column_span)

-- The loop over the cells, which ends in an error or returns the validated cells, and whether a place
-- was taken twice.
unfoldable pub place_cells :
    List UntrustedTableCell
    → List (ℕ × ℕ)
    → Result PageValidationFailure (List IndexTableCellDto × Bool)
place_cells [] occupied = ok ([], false)
place_cells (cell ∷ cells) occupied =
    let placed = occupy_rows cell.row cell.column cell.row_span cell.column_span occupied in
    let rest = place_cells cells placed.0 in
    elim (required_bounded_text cell.text max_cell_code_points max_cell_bytes) [
      | err e ↦ err invalid_table
      | ok text ↦ if is_misplaced cell then err invalid_table else elim rest [
        | err e ↦ err e
        | ok (result, malformed) ↦ ok (
          record {
            row = cell.row;
            column = cell.column;
            row_span = cell.row_span;
            column_span = cell.column_span;
            text = text;
          }
              ∷ result,
          placed.1 || malformed,
        )
      ]
    ]

-- The cells, and whether the table wants a review.
unfoldable pub validate_table_cells :
    Option (List UntrustedTableCell)
    → Result PageValidationFailure (Option (List IndexTableCellDto) × Bool)
validate_table_cells none = ok (none, false)
validate_table_cells (some cells) =
    if is_empty cells || ltb max_table_cells (length cells)
    then err invalid_table
    else elim (place_cells cells []) [
      | err e ↦ err e
      | ok (result, malformed) ↦ ok (
        some result,
        malformed
            || not (any (λ cell. cell.row == 0) result)
            || not (any (λ cell. cell.column == 0) result),
      )
    ]
