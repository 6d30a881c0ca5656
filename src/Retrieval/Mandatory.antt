-- ===== src/Retrieval/Mandatory.antt =====
-- The mandatory candidate of src-tauri/src/retrieval/context.rs stands first, whatever the others are.
use textbook_lens.Base.{
  ◌<◌, ◌≡◌, refl, ◌∙◌, ◌⊎◌, inl, inr, true, false, List, [], ◌∷◌, ◌++◌, arith, any, sort_by,
  insert_by, Bool-cases,
}
use textbook_lens.Retrieval.Candidates.{
  ContextCandidate, is_mandatory, is_before_candidate, compare_candidates,
}
use textbook_lens.Retrieval.Overlap.{is_duplicate_of}
use textbook_lens.Retrieval.Packing.{
  retain_from, deduplicate_candidates, leading_mandatory, mandatory_count,
}

before_others :
    (c d : ContextCandidate)
    → is_mandatory c.source_kind ≡ true
    → is_mandatory d.source_kind ≡ false
    → (is_before_candidate c d ≡ true) × (is_before_candidate d c ≡ false)
unfolding is_before_candidate compare_candidates
before_others c d h k = rw (h, k) (refl, refl)

-- A mandatory candidate is in front, or there is none.
abbrev IsSettled : List ContextCandidate → Type 0
IsSettled cs = (0 < leading_mandatory cs) ⊎ (mandatory_count cs ≡ 0)

insert_count :
    (c : ContextCandidate) (cs : List ContextCandidate)
    → mandatory_count (insert_by is_before_candidate c cs) ≡ mandatory_count (c ∷ cs)
insert_count c [] = refl
insert_count c (d ∷ cs) = elim (Bool-cases (is_before_candidate c d)) [
  | inl first ↦ rw first refl
  | inr later ↦ rw later (omega (arith, insert_count c cs))
]

sort_count :
    (cs : List ContextCandidate)
    → mandatory_count (sort_by is_before_candidate cs) ≡ mandatory_count cs
sort_count [] = refl
sort_count (c ∷ cs) = omega (arith, insert_count c (sort_by is_before_candidate cs), sort_count cs)

insert_mandatory :
    (c d : ContextCandidate) (cs : List ContextCandidate)
    → is_mandatory d.source_kind ≡ true
    → 0 < leading_mandatory (insert_by is_before_candidate c (d ∷ cs))
insert_mandatory c d cs h = elim (Bool-cases (is_mandatory c.source_kind)) [
  | inl both ↦ ground (arith, h, both)
  | inr free ↦ rw (before_others d c h free).1 (ground (arith, h))
]

none_yet :
    (c d : ContextCandidate) (cs : List ContextCandidate)
    → is_mandatory c.source_kind ≡ false
    → is_mandatory d.source_kind ≡ false
    → IsSettled (d ∷ cs)
    → mandatory_count (c ∷ d ∷ cs) ≡ 0
none_yet c d cs free may h = ground arith

insert-IsSettled :
    (c : ContextCandidate) (cs : List ContextCandidate)
    → IsSettled cs
    → IsSettled (insert_by is_before_candidate c cs)
insert-IsSettled c [] h = ground arith
insert-IsSettled c (d ∷ cs) h = elim (Bool-cases (is_mandatory d.source_kind)) [
  | inl must ↦ inl (insert_mandatory c d cs must)
  | inr may ↦ elim (Bool-cases (is_mandatory c.source_kind)) [
    | inl must ↦ inl (rw (before_others c d must may).0 (ground (arith, must)))
    | inr free ↦ inr (insert_count c (d ∷ cs) ∙ none_yet c d cs free may h)
  ]
]

sort-IsSettled : (cs : List ContextCandidate) → IsSettled (sort_by is_before_candidate cs)
sort-IsSettled [] = inr refl
sort-IsSettled (c ∷ cs) = insert-IsSettled c (sort_by is_before_candidate cs) (sort-IsSettled cs)

longer_leads :
    (retained : List ContextCandidate) (c : ContextCandidate)
    → 0 < leading_mandatory retained
    → 0 < leading_mandatory (retained ++ c ∷ [])
longer_leads [] c h = absurd (omega (arith, h))
longer_leads (x ∷ xs) c h = ground (arith, h)

retain_leads :
    (retained cs : List ContextCandidate)
    → 0 < leading_mandatory retained
    → 0 < leading_mandatory (retain_from retained cs)
retain_leads retained [] h = h
retain_leads retained (c ∷ cs) h =
    elim (Bool-cases (any (λ prior. is_duplicate_of prior c) retained)) [
      | inl old ↦ rw old (retain_leads retained cs h)
      | inr new ↦ rw new (retain_leads (retained ++ c ∷ []) cs (longer_leads retained c h))
    ]

retain_settled :
    (cs : List ContextCandidate)
    → 0 < leading_mandatory cs
    → 0 < leading_mandatory (retain_from [] cs)
retain_settled [] h = absurd (omega (arith, h))
retain_settled (c ∷ cs) h = retain_leads (c ∷ []) cs (ground (arith, h))

pub deduplicate_leads :
    (candidates : List ContextCandidate)
    → mandatory_count candidates ≡ 1
    → 0 < leading_mandatory (deduplicate_candidates candidates)
unfolding deduplicate_candidates
deduplicate_leads candidates one = elim (sort-IsSettled candidates) [
  | inl leads ↦ retain_settled (sort_by is_before_candidate candidates) leads
  | inr missing ↦ absurd (omega (arith, one, missing, sort_count candidates))
]
