-- ===== src/Retrieval/Citations.antt =====
-- The citations of src-tauri/src/retrieval/citations.rs, and `Citation::new` of
-- src-tauri/src/domain/conversation.rs.
use textbook_lens.Base.{
  ℕ, zero, suc, ◌+◌, ◌-◌, ◌*◌, ◌/◌, ◌%◌, Bool, true, false, not, ◌&&◌, ◌||◌, Option, none, some,
  List, [], ◌∷◌, ◌++◌, leb, ltb, ◌==◌, if◌then◌else◌, is_empty, length, drop, all, any,
  is_white_space, is_control, u32_max, checked_add, Result, ok, err,
}
use textbook_lens.Errors.{AppErrorCode, invalid_input, context_too_large}
use textbook_lens.Retrieval.Candidates.{
  ContentSource, CitationReviewStatus, DocumentLocator, CitationSeed, Citation, ContextSegment,
}
use textbook_lens.Retrieval.Overlap.{starts_with}

abbrev is_label_control : ℕ → Bool
is_label_control c = is_control c && not (c == b'\t')

-- The test of the label, in `CitationSeed::new` and in `Citation::new`.
abbrev pub label_is_invalid : List ℕ → Bool
label_is_invalid label =
    all is_white_space label || ltb 256 (length label) || any is_label_control label

abbrev pub review_status_matches_source : ContentSource → CitationReviewStatus → Bool
review_status_matches_source ContentSource.local_text CitationReviewStatus.not_required = true
review_status_matches_source ContentSource.ai_transcribed CitationReviewStatus.indexed = true
review_status_matches_source ContentSource.ai_transcribed CitationReviewStatus.needs_review = true
review_status_matches_source ContentSource.user_corrected CitationReviewStatus.user_corrected = true
review_status_matches_source _ _ = false

abbrev pub is_ai_description : ContentSource → Bool
is_ai_description ContentSource.ai_description = true
is_ai_description _ = false

-- `CitationSeed::new`
unfoldable pub new_seed :
    ℕ
    → Option ℕ
    → DocumentLocator
    → List ℕ
    → ContentSource
    → CitationReviewStatus
    → Result AppErrorCode CitationSeed
new_seed book_id section_id locator label source review_status =
    if is_ai_description source || label_is_invalid label
    then err invalid_input
    else if not (review_status_matches_source source review_status)
    then err invalid_input
    else ok (record {
      book_id = book_id;
      section_id = section_id;
      locator = locator;
      label = label;
      source = source;
      review_status = review_status;
    })

-- The decimal digits of a number below 10 ^ `places`.
abbrev pub decimal : ℕ → ℕ → List ℕ
decimal zero n = []
decimal (suc places) n =
    let front = decimal places (n / 10) in
    if ltb n 10 then (b'0' + n) ∷ [] else front ++ (b'0' + n % 10) ∷ []

abbrev pub citation_prefix : List ℕ
citation_prefix = b'T' ∷ b'L' ∷ b'-' ∷ b'C' ∷ []

-- An ordinal is a u32, which has ten digits at most.
unfoldable pub request_local_citation_id : ℕ → Result AppErrorCode (List ℕ)
request_local_citation_id ordinal =
    if ordinal == 0 then err invalid_input else ok (citation_prefix ++ decimal 10 ordinal)

abbrev pub is_digit : ℕ → Bool
is_digit b = leb b'0' b && leb b b'9'

-- The value of digits, behind a number that is read already.
abbrev pub parse_from : ℕ → List ℕ → ℕ
parse_from n [] = n
parse_from n (b ∷ bs) = parse_from (n * 10 + (b - b'0')) bs

unfoldable pub is_request_local_citation_id : List ℕ → Bool
is_request_local_citation_id value =
    let suffix = drop (length citation_prefix) value in
    starts_with citation_prefix value
    && not (starts_with (b'0' ∷ []) suffix)
    && not (is_empty suffix)
    && all is_digit suffix
    && leb (parse_from 0 suffix) u32_max

-- `Citation::new`, for the fields of a seed.
unfoldable pub new_citation : List ℕ → CitationSeed → Option Citation
new_citation id seed =
    if not (is_request_local_citation_id id)
      || label_is_invalid seed.label
      || is_ai_description seed.source
      || not (review_status_matches_source seed.source seed.review_status)
    then none
    else some (record {
      id = id;
      label = seed.label;
      book_id = seed.book_id;
      section_id = seed.section_id;
      locator = seed.locator;
      source = seed.source;
      review_status = seed.review_status;
      quoteable = true;
    })

abbrev pub or_invalid : Option Citation → Result AppErrorCode Citation
or_invalid none = err invalid_input
or_invalid (some c) = ok c

abbrev pub finalize_as : CitationSeed → Result AppErrorCode (List ℕ) → Result AppErrorCode Citation
finalize_as seed (err e) = err e
finalize_as seed (ok id) = or_invalid (new_citation id seed)

-- `CitationSeed::finalize`
unfoldable pub finalize : CitationSeed → ℕ → Result AppErrorCode Citation
finalize seed ordinal = finalize_as seed (request_local_citation_id ordinal)

-- The ordinal behind `n` citations.
abbrev pub next_ordinal : ℕ → Result AppErrorCode ℕ
next_ordinal n = elim (checked_add u32_max n 1) [ none ↦ err context_too_large | some o ↦ ok o ]

abbrev pub add_cited :
    ContextSegment
    → Citation
    → Result AppErrorCode (List ContextSegment × List Citation)
    → Result AppErrorCode (List ContextSegment × List Citation)
add_cited s c (err e) = err e
add_cited s c (ok (segments, citations)) =
    ok (record s { citation = some c } ∷ segments, c ∷ citations)

abbrev pub add_plain :
    ContextSegment
    → Result AppErrorCode (List ContextSegment × List Citation)
    → Result AppErrorCode (List ContextSegment × List Citation)
add_plain s (err e) = err e
add_plain s (ok (segments, citations)) = ok (record s { citation = none } ∷ segments, citations)

-- The loop of `assign_request_local_citations`, with the citations so far counted.
abbrev pub assign_from :
    ℕ → List ContextSegment → Result AppErrorCode (List ContextSegment × List Citation)
assign_from n [] = ok ([], [])
assign_from n (s ∷ ss) =
    let plain = assign_from n ss in
    let cited = assign_from (n + 1) ss in
    elim s.citation_seed [
      | none ↦ add_plain s plain
      | some seed ↦ elim (next_ordinal n) [
        | err e ↦ err e
        | ok ordinal ↦ elim (finalize seed ordinal) [ err e ↦ err e | ok c ↦ add_cited s c cited ]
      ]
    ]

unfoldable pub assign_request_local_citations :
    List ContextSegment → Result AppErrorCode (List ContextSegment × List Citation)
assign_request_local_citations segments = assign_from 0 segments
