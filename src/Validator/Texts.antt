-- ===== src/Validator/Texts.antt =====
-- The checks of texts and formulas in src-tauri/src/indexing/validator.rs. A text is a list of code
-- points; what `trim`, `is_control` and `len` say of them is written out from the Unicode tables.
use textbook_lens.Base.{
  is_white_space, is_control, byte_length, ℕ, ◌+◌, ◌-◌, ◌*◌, ◌%◌, Bool, true, false, not, ◌&&◌,
  ◌||◌, Option, none, some, List, [], ◌∷◌, ltb, leb, ◌==◌, if◌then◌else◌, all, any, keep, length,
  Result, ok, err, usize_max, min,
}

pub data PageValidationFailure : Type 0 where
  no_visible_content too_many_blocks invalid_ordinal invalid_text : PageValidationFailure
  invalid_latex invalid_table invalid_bounds invalid_kind_content : PageValidationFailure

abbrev pub max_latex_code_points : ℕ
max_latex_code_points = 16384

abbrev pub max_latex_bytes : ℕ
max_latex_bytes = max_latex_code_points * 4

-- The first guard of `required_bounded_text` and of `required_bounded_latex`.
unfoldable pub is_unbounded : List ℕ → ℕ → ℕ → Bool
is_unbounded value max_code_points max_bytes =
    all is_white_space value
    || ltb max_bytes (byte_length value)
    || ltb max_code_points (length value)
    || any (λ c. c == 0 || c == b'\r') value
    || any (λ c. is_control c && not (c == b'\n' || c == b'\t')) value

-- More than a twentieth of a text of twenty code points is the replacement character.
unfoldable pub is_suspicious : List ℕ → Bool
is_suspicious value =
    let suspicious = length (keep (λ c. c == 65533) value) in
    leb 20 (length value) && ltb (length value) (min (suspicious * 20) usize_max)

unfoldable pub required_bounded_text : List ℕ → ℕ → ℕ → Result PageValidationFailure (List ℕ)
required_bounded_text value max_code_points max_bytes =
    if is_unbounded value max_code_points max_bytes
    then err invalid_text
    else if is_suspicious value
    then err invalid_text
    else ok value

unfoldable pub optional_bounded_text :
    List ℕ → ℕ → ℕ → Result PageValidationFailure (Option (List ℕ))
optional_bounded_text value max_code_points max_bytes =
    if all is_white_space value
    then ok none
    else elim (required_bounded_text value max_code_points max_bytes) [
      | ok text ↦ ok (some text)
      | err e ↦ err e
    ]

unfoldable pub required_bounded_latex : List ℕ → Result PageValidationFailure (List ℕ)
required_bounded_latex value =
    if is_unbounded value max_latex_code_points max_latex_bytes then err invalid_latex else ok value

-- The loop of `latex_is_malformed` from here on. The depth is never negative: the loop ends there.
-- A formula has at most 16,384 code points, so neither counter reaches its bound.
unfoldable pub latex_from : List ℕ → ℕ → Bool → ℕ → Bool
latex_from [] depth escaped dollars = escaped || not (depth == 0) || not (dollars % 2 == 0)
latex_from (c ∷ cs) depth escaped dollars =
    let next = latex_from cs in
    if escaped
    then next depth false dollars
    else if c == b'\\'
    then next depth true dollars
    else if c == b'{'
    then next (depth + 1) false dollars
    else if c == b'}'
    then (if depth == 0 then true else next (depth - 1) false dollars)
    else if c == b'$'
    then next depth false (dollars + 1)
    else next depth false dollars

unfoldable pub latex_is_malformed : List ℕ → Bool
latex_is_malformed value = latex_from value 0 false 0
