-- ===== src/Retrieval/Ordinals.antt =====
-- The identifiers of src-tauri/src/retrieval/citations.rs pass the test of
-- src-tauri/src/domain/conversation.rs, so a seed that was checked always gives a citation.
use textbook_lens.Base.{
  ℕ, zero, suc, ◌+◌, ◌-◌, ◌*◌, ◌/◌, ◌%◌, ◌≤◌, ◌<◌, ◌≡◌, refl, ◌∙◌, ap, subst, inl, inr, Bool, true,
  false, not, ◌&&◌, Option, none, some, List, [], ◌∷◌, ◌++◌, arith, ltb, le→leb, ◌==◌,
  if◌then◌else◌, is_empty, all, length, u32_max, checked_add, All, Bool-cases, Option-cases, Result,
  ok, err, is_ok, is_some,
}
use textbook_lens.Errors.{AppErrorCode, invalid_input}
use textbook_lens.Retrieval.Candidates.{CitationSeed, Citation, ContextSegment}
use textbook_lens.Retrieval.Overlap.{starts_with}
use textbook_lens.Retrieval.Citations.{
  decimal, is_digit, parse_from, citation_prefix, is_request_local_citation_id,
  request_local_citation_id, new_citation, finalize, finalize_as, or_invalid, label_is_invalid,
  is_ai_description, review_status_matches_source, add_plain, add_cited, next_ordinal, assign_from,
}

-- 10 ^ places
abbrev bound : ℕ → ℕ
bound zero = 1
bound (suc places) = 10 * bound places

parse_from-append :
    (m : ℕ) (bs : List ℕ) (b : ℕ) → parse_from m (bs ++ b ∷ []) ≡ parse_from m bs * 10 + (b - b'0')
parse_from-append m [] b = refl
parse_from-append m (x ∷ bs) b = parse_from-append (m * 10 + (x - b'0')) bs b

all-append :
    (bs : List ℕ) (b : ℕ)
    → all is_digit bs ≡ true
    → is_digit b ≡ true
    → all is_digit (bs ++ b ∷ []) ≡ true
all-append [] b h k = ground arith
all-append (x ∷ bs) b h k = ground (arith, all-append bs b)

-- What the digits of a positive number are.
abbrev IsNumeral : ℕ → List ℕ → Type 0
IsNumeral n bs =
    (parse_from 0 bs ≡ n)
    × (all is_digit bs ≡ true)
    × (is_empty bs ≡ false)
    × (starts_with (b'0' ∷ []) bs ≡ false)

append-IsNumeral :
    (n : ℕ) (bs : List ℕ) (d : ℕ)
    → IsNumeral n bs
    → d < 10
    → IsNumeral (n * 10 + d) (bs ++ (b'0' + d) ∷ [])
append-IsNumeral n [] d h lt = cc
append-IsNumeral n (x ∷ bs) d h lt = (
  omega (arith, parse_from-append (0 + (x - b'0')) bs (b'0' + d), h.0),
  ground (arith, h.1, all-append bs (b'0' + d)),
  refl,
  h.3,
)

decimal-IsNumeral : (places n : ℕ) → 0 < n → n < bound places → IsNumeral n (decimal places n)
decimal-IsNumeral zero n pos lt = absurd (omega (arith, pos, lt))
decimal-IsNumeral (suc places) n pos lt = elim (Bool-cases (ltb n 10)) [
  | inl small ↦ rw small (omega arith, ground (arith, small), refl, ground (arith, pos))
  | inr large ↦ rw large (
      subst (λ k. IsNumeral k (decimal places (n / 10) ++ (b'0' + n % 10) ∷ [])) (omega arith)
        (append-IsNumeral (n / 10) (decimal places (n / 10)) (n % 10)
          (decimal-IsNumeral places (n / 10) (ground (arith, large)) (omega (arith, lt)))
          (omega arith)))
]

numeral_passes :
    (n : ℕ) (bs : List ℕ)
    → IsNumeral n bs
    → n ≤ u32_max
    → is_request_local_citation_id (citation_prefix ++ bs) ≡ true
unfolding is_request_local_citation_id
numeral_passes n bs h le = rw (h.3, h.2, h.1, h.0, le→leb n u32_max le) refl

unless_zero : (n : ℕ) (id : List ℕ) → 0 < n → (if n == 0 then err invalid_input else ok id) ≡ ok id
unless_zero n id pos = ground arith

request_local_citation_id-ok :
    (n : ℕ) → 0 < n → request_local_citation_id n ≡ ok (citation_prefix ++ decimal 10 n)
unfolding request_local_citation_id
request_local_citation_id-ok n pos = unless_zero n (citation_prefix ++ decimal 10 n) pos

-- What `CitationSeed::new` checks.
abbrev pub is_checked_seed : Option CitationSeed → Bool
is_checked_seed none = true
is_checked_seed (some seed) =
    not (label_is_invalid seed.label)
    && not (is_ai_description seed.source)
    && review_status_matches_source seed.source seed.review_status

new_citation-ok :
    (seed : CitationSeed) (n : ℕ) (bs : List ℕ)
    → is_checked_seed (some seed) ≡ true
    → IsNumeral n bs
    → n ≤ u32_max
    → is_some (new_citation (citation_prefix ++ bs) seed) ≡ true
unfolding new_citation
new_citation-ok seed n bs h numeral le = rw (numeral_passes n bs numeral le) (ground (arith, h))

pub finalize-ok :
    (seed : CitationSeed) (n : ℕ)
    → is_checked_seed (some seed) ≡ true
    → 0 < n
    → n ≤ u32_max
    → (c : Citation) × (finalize seed n ≡ ok c)
unfolding finalize
finalize-ok seed n h pos le =
    elim (Option-cases (new_citation (citation_prefix ++ decimal 10 n) seed)) [
      | inl e ↦ absurd (
          ground (
            arith,
            e,
            new_citation-ok seed n (decimal 10 n) h (decimal-IsNumeral 10 n pos (omega (arith, le)))
                le,
          ))
      | inr (c, e) ↦
          (c, ap (finalize_as seed) (request_local_citation_id-ok n pos) ∙ ap or_invalid e)
    ]

-- The seeds of these segments were checked.
abbrev pub SeedsChecked : List ContextSegment → Type 0
SeedsChecked = All (λ s. is_checked_seed s.citation_seed ≡ true)

add_plain-ok :
    (s : ContextSegment) (r : Result AppErrorCode (List ContextSegment × List Citation))
    → is_ok r ≡ true
    → is_ok (add_plain s r) ≡ true
add_plain-ok s (ok (segments, citations)) h = refl
add_plain-ok s (err e) h = h

add_cited-ok :
    (s : ContextSegment) (c : Citation)
    (r : Result AppErrorCode (List ContextSegment × List Citation))
    → is_ok r ≡ true
    → is_ok (add_cited s c r) ≡ true
add_cited-ok s c (ok (segments, citations)) h = refl
add_cited-ok s c (err e) h = h

next_ordinal-ok : (n : ℕ) → n < u32_max → next_ordinal n ≡ ok (n + 1)
next_ordinal-ok n lt = rw (fits n lt, next_ordinal) refl
  where
    fits : (k : ℕ) → k < u32_max → checked_add u32_max k 1 ≡ some (k + 1)
    fits k h = ground arith

pub assign_from-ok :
    (n : ℕ) (ss : List ContextSegment)
    → SeedsChecked ss
    → n + length ss ≤ u32_max
    → is_ok (assign_from n ss) ≡ true
assign_from-ok n [] a le = refl
assign_from-ok n (s ∷ ss) a le = elim (Option-cases s.citation_seed) [
  | inl e ↦ rw e (add_plain-ok s (assign_from n ss) (assign_from-ok n ss a.1 (omega (arith, le))))
  | inr (seed, e) ↦
      let (c, q) = finalize-ok seed (n + 1) (rw e at a.0) (omega arith) (omega (arith, le)) in
      rw (e, next_ordinal-ok n (omega (arith, le)), q)
        (add_cited-ok s c (assign_from (n + 1) ss)
          (assign_from-ok (n + 1) ss a.1 (omega (arith, le))))
]
