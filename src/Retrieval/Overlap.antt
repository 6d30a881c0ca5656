-- ===== src/Retrieval/Overlap.antt =====
-- When two candidates of src-tauri/src/retrieval/context.rs count as the same passage.
use textbook_lens.Base.{
  ℕ, ◌+◌, ◌*◌, ◌/◌, min, Bool, false, ◌&&◌, ◌||◌, Option, none, some, List, [], ◌∷◌, ◌++◌, leb, ltb,
  ◌==◌, if◌then◌else◌, is_empty, length, take, any, is_white_space, usize_max, u32_max,
}
use textbook_lens.Retrieval.Candidates.{
  DocumentLocator, pdf, epub, docx, ContextCandidate, source_order, same_text,
}

unfoldable pub locators_overlap : DocumentLocator → DocumentLocator → Bool
locators_overlap (pdf start end rects) (pdf start' end' rects') = leb start end' && leb start' end
locators_overlap (epub cfi section) (epub cfi' section') = section == section' && same_text cfi cfi'
locators_overlap (docx start offset end offset') (docx start' offset'' end' offset''') =
    start == start' || start == end' || end == start' || end == end'
locators_overlap _ _ = false

-- The `match` on the locators, with the labels for two candidates that have none.
abbrev pub locators_agree : Option DocumentLocator → Option DocumentLocator → List ℕ → List ℕ → Bool
locators_agree (some left) (some right) label label' = locators_overlap left right
locators_agree none none label label' = same_text label label'
locators_agree _ _ label label' = false

unfoldable pub same_provenance_scope : ContextCandidate → ContextCandidate → Bool
same_provenance_scope left right =
    source_order left.source == source_order right.source
    && same_text left.provenance_key right.provenance_key
    && locators_agree left.locator right.locator left.locator_label right.locator_label

-- `split_whitespace`, with the word that is being read, and `join(" ")`.
abbrev pub split_whitespace : List ℕ → List ℕ → List (List ℕ)
split_whitespace word [] = if is_empty word then [] else word ∷ []
split_whitespace word (c ∷ cs) =
    let next = split_whitespace [] cs in
    let longer = split_whitespace (word ++ c ∷ []) cs in
    if is_white_space c then (if is_empty word then next else word ∷ next) else longer

abbrev pub join : List (List ℕ) → List ℕ
join [] = []
join (word ∷ []) = word
join (word ∷ w ∷ words) = word ++ b' ' ∷ join (w ∷ words)

unfoldable pub canonical_comparison_text : List ℕ → List ℕ
canonical_comparison_text value = join (split_whitespace [] value)

abbrev pub shingle_width : ℕ
shingle_width = 5

-- `windows(WIDTH)`
abbrev pub windows : List ℕ → List (List ℕ)
windows [] = []
windows (c ∷ cs) =
    let rest = windows cs in
    if ltb (length (c ∷ cs)) shingle_width then [] else take shingle_width (c ∷ cs) ∷ rest

-- A set of texts, as a list without repetition.
abbrev pub to_set : List (List ℕ) → List (List ℕ)
to_set [] = []
to_set (x ∷ xs) = let rest = to_set xs in if any (same_text x) rest then rest else x ∷ rest

unfoldable pub scalar_shingles : List ℕ → List (List ℕ)
scalar_shingles value = to_set (windows value)

abbrev pub intersection_count : List (List ℕ) → List (List ℕ) → ℕ
intersection_count [] ys = 0
intersection_count (x ∷ xs) ys = (if any (same_text x) ys then 1 else 0) + intersection_count xs ys

abbrev pub starts_with : List ℕ → List ℕ → Bool
starts_with prefix value = same_text (take (length prefix) value) prefix

-- `retained.contains(&candidate)`
abbrev pub contains : List ℕ → List ℕ → Bool
contains candidate [] = is_empty candidate
contains candidate (c ∷ cs) = starts_with candidate (c ∷ cs) || contains candidate cs

-- The share of the shingles, in percent; `unwrap_or` where it is no u32.
abbrev pub overlap_share : List (List ℕ) → List (List ℕ) → ℕ
overlap_share candidate retained =
    let percent = min (intersection_count candidate retained * 100) usize_max / length candidate in
    if leb percent u32_max then percent else 100

unfoldable pub overlap_percent : List ℕ → List ℕ → ℕ
overlap_percent candidate_text retained_text =
    let candidate = canonical_comparison_text candidate_text in
    let retained = canonical_comparison_text retained_text in
    let shingles = scalar_shingles candidate in
    if is_empty candidate || is_empty retained
    then 0
    else if same_text candidate retained
    then 100
    else if is_empty shingles
    then (if contains candidate retained then 100 else 0)
    else overlap_share shingles (scalar_shingles retained)

-- The test of `deduplicate_candidates`.
unfoldable pub is_duplicate_of : ContextCandidate → ContextCandidate → Bool
is_duplicate_of prior candidate =
    same_provenance_scope prior candidate
    && (same_text prior.stable_id candidate.stable_id
        || leb 80 (overlap_percent candidate.text prior.text))
