-- ===== src/Validator/Grids.antt =====
-- What src-tauri/src/indexing/validator.rs accepts as a table lies in the grid without overlap.
use textbook_lens.Base.{
  ℕ, zero, refl, suc, ◌+◌, ◌≤◌, ◌<◌, ◌≡◌, inl, inr, Bool, true, false, ◌&&◌, ◌||◌, some, List, [],
  ◌∷◌, arith, All, ok, Bool-cases, ◌==◌,
}
use textbook_lens.Validator.Texts.{required_bounded_text}
use textbook_lens.Validator.Tables.{
  UntrustedTableCell, IndexTableCellDto, is_occupied, insert_place, occupy_columns, occupy_rows,
  is_misplaced, place_cells, validate_table_cells, max_table_axis,
}

abbrev pub InBlock : ℕ → ℕ → ℕ → ℕ → ℕ → ℕ → Type 0
InBlock row column height width r c =
    (row ≤ r) × (r < row + height) × (column ≤ c) × (c < column + width)

same_place :
    (row column r c : ℕ) (occupied : List (ℕ × ℕ))
    → row ≡ r
    → column ≡ c
    → is_occupied r c occupied ≡ is_occupied row column occupied
same_place row column r c occupied e f = rw (e, f)

insert_lem :
    (row column r c : ℕ) (occupied : List (ℕ × ℕ))
    → is_occupied r c (insert_place row column occupied)
      ≡ (row == r && column == c || is_occupied r c occupied)
insert_lem row column r c occupied = elim (Bool-cases (is_occupied row column occupied)) [
  | inl h ↦ rw h (ground (arith, h, same_place row column r c occupied))
  | inr h ↦ rw h
]

-- A block that is placed without a clash was free, and is taken afterwards with all that was.
abbrev pub IsPlaced : List (ℕ × ℕ) → List (ℕ × ℕ) → ℕ → ℕ → ℕ → ℕ → Type 0
IsPlaced before after row column height width =
    (r c : ℕ)
    → (InBlock row column height width r c
        → (is_occupied r c before ≡ false) × (is_occupied r c after ≡ true))
      × (is_occupied r c before ≡ true → is_occupied r c after ≡ true)

columns-IsPlaced :
    (row column n : ℕ) (occupied : List (ℕ × ℕ))
    → (occupy_columns row column n occupied).1 ≡ false
    → IsPlaced occupied (occupy_columns row column n occupied).0 row column 1 n
unfolding occupy_columns
columns-IsPlaced row column zero occupied e r c = ground arith
columns-IsPlaced row column (suc n) occupied e r c =
    let rest =
      columns-IsPlaced row (column + 1) n (insert_place row column occupied) (ground (arith, e)) r
        c in
    ground (arith, e, rest, insert_lem row column r c occupied, same_place row column r c occupied)

rows-IsPlaced :
    (row column n width : ℕ) (occupied : List (ℕ × ℕ))
    → (occupy_rows row column n width occupied).1 ≡ false
    → IsPlaced occupied (occupy_rows row column n width occupied).0 row column n width
unfolding occupy_rows
rows-IsPlaced row column zero width occupied e r c = ground arith
rows-IsPlaced row column (suc n) width occupied e r c =
    let first = columns-IsPlaced row column width occupied (ground (arith, e)) r c in
    let rest =
      rows-IsPlaced (row + 1) column n width (occupy_columns row column width occupied).0
        (ground (arith, e)) r c in
    ground (arith, first, rest)

-- The cell covers the place.
abbrev pub Covers : IndexTableCellDto → ℕ → ℕ → Type 0
Covers cell = InBlock cell.row cell.column cell.row_span cell.column_span

abbrev pub IsDisjoint : List IndexTableCellDto → Type 0
IsDisjoint [] = Unit
IsDisjoint (cell ∷ cells) =
    All (λ other. (r c : ℕ) → Covers cell r c → ¬ Covers other r c) cells × IsDisjoint cells

-- No cell covers a place that is taken.
abbrev AreFree : List (ℕ × ℕ) → List IndexTableCellDto → Type 0
AreFree occupied = All (λ cell. (r c : ℕ) → Covers cell r c → is_occupied r c occupied ≡ false)

abbrev pub IsInGrid : IndexTableCellDto → Type 0
IsInGrid cell =
    (0 < cell.row_span)
    × (0 < cell.column_span)
    × (cell.row + cell.row_span ≤ max_table_axis)
    × (cell.column + cell.column_span ≤ max_table_axis)

free_before :
    (before after : List (ℕ × ℕ)) (cells : List IndexTableCellDto)
    → ((r c : ℕ) → is_occupied r c before ≡ true → is_occupied r c after ≡ true)
    → AreFree after cells
    → AreFree before cells
free_before before after [] grows h = tt
free_before before after (cell ∷ cells) grows h =
    (λ r c q. ground (arith, grows r c, h.0 r c q), free_before before after cells grows h.1)

free_disjoint :
    (cell : IndexTableCellDto) (after : List (ℕ × ℕ)) (cells : List IndexTableCellDto)
    → ((r c : ℕ) → Covers cell r c → is_occupied r c after ≡ true)
    → AreFree after cells
    → All (λ other. (r c : ℕ) → Covers cell r c → ¬ Covers other r c) cells
free_disjoint cell after [] taken h = tt
free_disjoint cell after (other ∷ cells) taken h =
    (λ r c q q'. ground (arith, taken r c q, h.0 r c q'), free_disjoint cell after cells taken h.1)

-- Each validated cell has the place, the spans and the text of the cell that was sent.
abbrev pub SameCells : List UntrustedTableCell → List IndexTableCellDto → Type 0
SameCells [] [] = Unit
SameCells [] (d ∷ ds) = ⊥
SameCells (cell ∷ cells) [] = ⊥
SameCells (cell ∷ cells) (d ∷ ds) =
    (d.row ≡ cell.row)
    × (d.column ≡ cell.column)
    × (d.row_span ≡ cell.row_span)
    × (d.column_span ≡ cell.column_span)
    × (d.text ≡ cell.text)
    × SameCells cells ds

abbrev block_of : UntrustedTableCell → List (ℕ × ℕ) → List (ℕ × ℕ) × Bool
block_of cell occupied = occupy_rows cell.row cell.column cell.row_span cell.column_span occupied

abbrev copied : UntrustedTableCell → IndexTableCellDto
copied cell = record {
  row = cell.row;
  column = cell.column;
  row_span = cell.row_span;
  column_span = cell.column_span;
  text = cell.text;
}

placed_none :
    (occupied : List (ℕ × ℕ)) (d : IndexTableCellDto) (ds : List IndexTableCellDto)
    → ¬ (place_cells [] occupied ≡ ok (d ∷ ds, false))
unfolding place_cells
placed_none occupied d ds e = ground arith

placed_more :
    (cell : UntrustedTableCell) (cells : List UntrustedTableCell) (occupied : List (ℕ × ℕ))
    → ¬ (place_cells (cell ∷ cells) occupied ≡ ok ([], false))
unfolding place_cells
placed_more cell cells occupied e = ground arith

placed_first :
    (cell : UntrustedTableCell) (cells : List UntrustedTableCell) (occupied : List (ℕ × ℕ))
    (d : IndexTableCellDto) (ds : List IndexTableCellDto)
    → place_cells (cell ∷ cells) occupied ≡ ok (d ∷ ds, false)
    → (is_misplaced cell ≡ false)
      × ((block_of cell occupied).1 ≡ false)
      × (place_cells cells (block_of cell occupied).0 ≡ ok (ds, false))
      × (d ≡ copied cell)
unfolding place_cells required_bounded_text
placed_first cell cells occupied d ds e = ground arith

in_grid : (cell : UntrustedTableCell) → is_misplaced cell ≡ false → IsInGrid (copied cell)
unfolding is_misplaced
in_grid cell e = ground arith

place_cells_lem :
    (cells : List UntrustedTableCell) (out : List IndexTableCellDto) (occupied : List (ℕ × ℕ))
    → place_cells cells occupied ≡ ok (out, false)
    → SameCells cells out × All IsInGrid out × AreFree occupied out × IsDisjoint out
place_cells_lem [] [] occupied e = (tt, tt, tt, tt)
place_cells_lem [] (d ∷ ds) occupied e = absurd (placed_none occupied d ds e)
place_cells_lem (cell ∷ cells) [] occupied e = absurd (placed_more cell cells occupied e)
place_cells_lem (cell ∷ cells) (d ∷ ds) occupied e =
    let (fits, clear, e', same) = placed_first cell cells occupied d ds e in
    let block = rows-IsPlaced cell.row cell.column cell.row_span cell.column_span occupied clear in
    let (kept, grid, free, apart) = place_cells_lem cells ds (block_of cell occupied).0 e' in
    rw same (
      (refl, refl, refl, refl, refl, kept),
      (in_grid cell fits, grid),
      (
        λ r c q. ((block r c).0 q).0,
        free_before occupied (block_of cell occupied).0 ds (λ r c. (block r c).1) free,
      ),
      (
        free_disjoint (copied cell) (block_of cell occupied).0 ds (λ r c q. ((block r c).0 q).1)
            free,
        apart,
      ),
    )

accepted_cells :
    (cells : List UntrustedTableCell) (out : List IndexTableCellDto)
    → validate_table_cells (some cells) ≡ ok (some out, false)
    → place_cells cells [] ≡ ok (out, false)
unfolding validate_table_cells
accepted_cells cells out e = ground arith

-- A table that is accepted without a review has the cells that the model sent, in their order and
-- with their places, spans and texts; each of them covers at least one place and lies in the grid of
-- 512 by 512, and no two of them cover the same place.
pub validate_table_cells-IsDisjoint :
    (cells : List UntrustedTableCell) (out : List IndexTableCellDto)
    → validate_table_cells (some cells) ≡ ok (some out, false)
    → SameCells cells out × All IsInGrid out × IsDisjoint out
validate_table_cells-IsDisjoint cells out e =
    let (same, grid, free, apart) = place_cells_lem cells out [] (accepted_cells cells out e) in
    (same, grid, apart)
