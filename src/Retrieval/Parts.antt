-- ===== src/Retrieval/Parts.antt =====
-- Parts of the candidates of src-tauri/src/retrieval/context.rs: how many there are, and that their seeds
-- were checked.
use textbook_lens.Base.{
  ℕ, zero, suc, ◌+◌, ◌≤◌, ◌≡◌, refl, ap, inl, inr, true, List, [], ◌∷◌, ◌++◌, map, arith, length,
  length-append, take, drop, All, u32_max, sort_by, insert_by, sort_by-All, Bool-cases, is_ok,
}
use textbook_lens.Retrieval.Candidates.{ContextCandidate, is_before_candidate}
use textbook_lens.Retrieval.Citations.{assign_request_local_citations}
use textbook_lens.Retrieval.Packing.{
  to_segment, finalize_segments, retain_from, deduplicate_candidates,
}
use textbook_lens.Retrieval.Ordinals.{SeedsChecked, is_checked_seed, assign_from-ok}
use textbook_lens.Retrieval.Duplicates.{retain_from-All, has_duplicate}

-- The seeds of these candidates were checked.
abbrev pub CandidatesChecked : List ContextCandidate → Type 0
CandidatesChecked = All (λ c. is_checked_seed c.citation_seed ≡ true)

pub map-to_segment-SeedsChecked :
    (cs : List ContextCandidate) → CandidatesChecked cs → SeedsChecked (map to_segment cs)
map-to_segment-SeedsChecked [] a = tt
map-to_segment-SeedsChecked (c ∷ cs) a = (a.0, map-to_segment-SeedsChecked cs a.1)

pub map-to_segment-length : (cs : List ContextCandidate) → length (map to_segment cs) ≡ length cs
map-to_segment-length [] = refl
map-to_segment-length (c ∷ cs) = ap suc (map-to_segment-length cs)

pub finalize_segments-ok :
    (cs : List ContextCandidate)
    → CandidatesChecked cs
    → length cs ≤ u32_max
    → is_ok (finalize_segments cs) ≡ true
unfolding finalize_segments assign_request_local_citations
finalize_segments-ok cs a le =
    assign_from-ok 0 (map to_segment cs) (map-to_segment-SeedsChecked cs a)
      (omega (arith, le, map-to_segment-length cs))

pub take-All :
    (P : ContextCandidate → Type 0) (n : ℕ) (cs : List ContextCandidate)
    → All P cs
    → All P (take n cs)
take-All P zero cs a = tt
take-All P (suc n) [] a = tt
take-All P (suc n) (c ∷ cs) a = (a.0, take-All P n cs a.1)

pub drop-All :
    (P : ContextCandidate → Type 0) (n : ℕ) (cs : List ContextCandidate)
    → All P cs
    → All P (drop n cs)
drop-All P zero cs a = a
drop-All P (suc n) [] a = tt
drop-All P (suc n) (c ∷ cs) a = drop-All P n cs a.1

pub append-All :
    (P : ContextCandidate → Type 0) (front back : List ContextCandidate)
    → All P front
    → All P back
    → All P (front ++ back)
append-All P [] back a b = b
append-All P (c ∷ front) back a b = (a.0, append-All P front back a.1 b)

pub append_nil : (cs : List ContextCandidate) → cs ++ [] ≡ cs
append_nil [] = refl
append_nil (c ∷ cs) = ap (λ rest. c ∷ rest) (append_nil cs)

pub insert-length :
    (c : ContextCandidate) (cs : List ContextCandidate)
    → length (insert_by is_before_candidate c cs) ≡ suc (length cs)
insert-length c [] = refl
insert-length c (d ∷ cs) = elim (Bool-cases (is_before_candidate c d)) [
  | inl first ↦ rw first refl
  | inr later ↦ rw later (omega (arith, insert-length c cs))
]

pub sort-length : (cs : List ContextCandidate) → length (sort_by is_before_candidate cs) ≡ length cs
sort-length [] = refl
sort-length (c ∷ cs) =
    omega (arith, insert-length c (sort_by is_before_candidate cs), sort-length cs)

pub retain_from-length :
    (retained cs : List ContextCandidate)
    → length (retain_from retained cs) ≤ length retained + length cs
retain_from-length retained [] = omega arith
retain_from-length retained (c ∷ cs) = elim (Bool-cases (has_duplicate retained c)) [
  | inl old ↦ rw old (omega (arith, retain_from-length retained cs))
  | inr new ↦
      rw new
        (omega (arith, retain_from-length (retained ++ c ∷ []) cs, length-append retained (c ∷ [])))
]

pub deduplicate-length :
    (cs : List ContextCandidate) → length (deduplicate_candidates cs) ≤ length cs
unfolding deduplicate_candidates
deduplicate-length cs =
    omega (arith, retain_from-length [] (sort_by is_before_candidate cs), sort-length cs)

pub deduplicate-CandidatesChecked :
    (cs : List ContextCandidate)
    → CandidatesChecked cs
    → CandidatesChecked (deduplicate_candidates cs)
unfolding deduplicate_candidates
deduplicate-CandidatesChecked cs a =
    retain_from-All _ [] (sort_by is_before_candidate cs) tt
      (sort_by-All is_before_candidate _ cs a)
