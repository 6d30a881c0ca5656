-- ===== src/Retrieval/Validation.antt =====
-- `validate_candidate_values` of src-tauri/src/retrieval/context.rs.
use textbook_lens.Base.{
  ℕ, Bool, true, false, not, ◌&&◌, ◌||◌, Option, none, some, List, [], ◌∷◌, ◌==◌, is_empty, is_some,
  any, all, is_white_space, is_control,
}
use textbook_lens.Retrieval.Candidates.{
  ContextSourceKind, ContextSource, ContentSource, DocumentLocator, pdf, epub, docx, extracted_text,
  CitationSeed, ContextCandidate, source_order, same_text,
}

abbrev pub history_placeholder_text : List ℕ
history_placeholder_text =
    b'[' ∷ b'E' ∷ b'a' ∷ b'r' ∷ b'l' ∷ b'i' ∷ b'e' ∷ b'r' ∷ b' ' ∷ b's' ∷ b'a' ∷ b'm' ∷ b'e' ∷ b'-'
    ∷ b'c' ∷ b'o' ∷ b'n' ∷ b'v' ∷ b'e' ∷ b'r' ∷ b's' ∷ b'a' ∷ b't' ∷ b'i' ∷ b'o' ∷ b'n' ∷ b' '
    ∷ b'h' ∷ b'i' ∷ b's' ∷ b't' ∷ b'o' ∷ b'r' ∷ b'y' ∷ b' ' ∷ b'o' ∷ b'm' ∷ b'i' ∷ b't' ∷ b't'
    ∷ b'e' ∷ b'd' ∷ b';' ∷ b' ' ∷ b'n' ∷ b'o' ∷ b' ' ∷ b'g' ∷ b'e' ∷ b'n' ∷ b'e' ∷ b'r' ∷ b'a'
    ∷ b't' ∷ b'e' ∷ b'd' ∷ b' ' ∷ b's' ∷ b'u' ∷ b'm' ∷ b'm' ∷ b'a' ∷ b'r' ∷ b'y' ∷ b' ' ∷ b'i'
    ∷ b's' ∷ b' ' ∷ b'a' ∷ b'v' ∷ b'a' ∷ b'i' ∷ b'l' ∷ b'a' ∷ b'b' ∷ b'l' ∷ b'e' ∷ b' ' ∷ b'i'
    ∷ b'n' ∷ b' ' ∷ b't' ∷ b'h' ∷ b'i' ∷ b's' ∷ b' ' ∷ b'r' ∷ b'e' ∷ b'q' ∷ b'u' ∷ b'e' ∷ b's'
    ∷ b't' ∷ b'.' ∷ b']' ∷ []

abbrev is_disallowed : ℕ → Bool
is_disallowed c = is_control c && not (c == b'\n') && not (c == b'\t')

abbrev pub contains_disallowed_control : List ℕ → Bool
contains_disallowed_control = any is_disallowed

abbrev pub is_history : ContextSourceKind → Bool
is_history ContextSourceKind.history_summary = true
is_history _ = false

abbrev pub is_directory : ContextSourceKind → Bool
is_directory ContextSourceKind.directory = true
is_directory _ = false

abbrev pub is_search : ContextSourceKind → Bool
is_search ContextSourceKind.textbook_search = true
is_search _ = false

-- The derived equality of locators.
abbrev pub same_locator : DocumentLocator → DocumentLocator → Bool
same_locator (pdf a b rects) (pdf a' b' rects') = a == a' && b == b' && same_text rects rects'
same_locator (epub cfi a) (epub cfi' a') = same_text cfi cfi' && a == a'
same_locator (docx a b c d) (docx a' b' c' d') = a == a' && b == b' && c == c' && d == d'
same_locator (extracted_text a b c d f) (extracted_text a' b' c' d' f') =
    a == a' && b == b' && c == c' && d == d' && same_text f f'
same_locator _ _ = false

abbrev has_locator : Option DocumentLocator → DocumentLocator → Bool
has_locator none l = false
has_locator (some l') l = same_locator l' l

-- `content_source` of src-tauri/src/learning/source.rs is this source.
abbrev pub has_content_source : ContextSource → ContentSource → Bool
has_content_source ContextSource.local_text ContentSource.local_text = true
has_content_source ContextSource.ai_transcribed ContentSource.ai_transcribed = true
has_content_source ContextSource.ai_description ContentSource.ai_description = true
has_content_source ContextSource.user_corrected ContentSource.user_corrected = true
has_content_source _ _ = false

-- The sources that are never cited.
abbrev pub is_never_cited : ContextSource → Bool
is_never_cited ContextSource.user_note = true
is_never_cited ContextSource.history_summary = true
is_never_cited ContextSource.ai_description = true
is_never_cited ContextSource.directory = true
is_never_cited _ = false

abbrev is_source : ContextSource → ContextSource → Bool
is_source s s' = source_order s == source_order s'

abbrev seed_is_wrong : ℕ → ContextCandidate → Option CitationSeed → Bool
seed_is_wrong book c none = false
seed_is_wrong book c (some seed) =
    not (seed.book_id == book)
    || not (has_locator c.locator seed.locator)
    || not (has_content_source c.source seed.source)

-- The body of the loop of `validate_candidate_values`.
abbrev pub candidate_is_invalid : ℕ → ContextCandidate → Bool
candidate_is_invalid book c =
    not (c.book_id == book)
    || all is_white_space c.stable_id
    || is_empty c.text
    || all is_white_space c.locator_label
    || all is_white_space c.provenance_key
    || contains_disallowed_control c.text
    || contains_disallowed_control c.locator_label
    || is_history c.source_kind
      && (not (is_source c.source ContextSource.history_summary)
          || not (same_text c.text history_placeholder_text))
    || is_directory c.source_kind
      && (not (is_source c.source ContextSource.directory)
          || is_some c.locator
          || is_some c.citation_seed)
    || is_source c.source ContextSource.directory && not (is_directory c.source_kind)
    || is_never_cited c.source && is_some c.citation_seed
    || seed_is_wrong book c c.citation_seed

unfoldable pub validate_candidate_values : ℕ → List ContextCandidate → Bool
validate_candidate_values book candidates = not (any (candidate_is_invalid book) candidates)
