-- ===== src/Retrieval/Success.antt =====
-- When the packing of src-tauri/src/retrieval/context.rs succeeds.
use textbook_lens.Base.{
  ℕ, zero, suc, ◌-◌, ◌≤◌, ◌<◌, ◌≡◌, refl, sym, subst, ◌≢◌, inl, inr, true, false, Option, none,
  some, List, ◌++◌, arith, le→leb, ◌==◌, length, length-append, length-take, length-drop, take,
  drop, u32_max, Result, ok, err, Result-cases, is_ok,
}
use textbook_lens.Errors.{AppErrorCode, context_too_large}
use textbook_lens.Retrieval.Budget.{InputBudget, require_fits}
use textbook_lens.Retrieval.Candidates.{ContextCandidate, ContextSegment, PackedContext}
use textbook_lens.Retrieval.Packing.{
  finalize_segments, try_candidates, try_retained, or_next, pack_down, pack_required, pack_context,
  deduplicate_candidates, leading_mandatory, mandatory_count,
}
use textbook_lens.Retrieval.Validation.{validate_candidate_values}
use textbook_lens.Retrieval.Prefixes.{IsTooLarge, Means, try_retained-Means}
use textbook_lens.Retrieval.Mandatory.{deduplicate_leads}
use textbook_lens.Retrieval.Parts.{
  CandidatesChecked, finalize_segments-ok, take-All, drop-All, append-All, append_nil,
  deduplicate-length, deduplicate-CandidatesChecked,
}

ok-ne-err : {A : Type 0} (r : Result AppErrorCode A) (e : AppErrorCode) → is_ok r ≡ true → r ≢ err e
ok-ne-err (ok a) e h q = cc
ok-ne-err (err x) e h q = cc

module _ (estimate : List ContextSegment → Result AppErrorCode ℕ) (budget : InputBudget)
    (narrow : budget.usable_input ≤ u32_max)
    (answers : (segments : List ContextSegment) → is_ok (estimate segments) ≡ true) (original : ℕ)
    (countable : original ≤ u32_max) where
  refused_lt :
      (tokens : ℕ) (e : AppErrorCode)
      → budget.usable_input ≤ u32_max
      → require_fits budget tokens ≡ err e
      → budget.usable_input < tokens
  unfolding require_fits
  refused_lt tokens e le h = ground arith

  try_retained-ok :
      (cs : List ContextCandidate)
      → is_ok (finalize_segments cs) ≡ true
      → is_ok (try_retained estimate budget original cs) ≡ true
  unfolding try_candidates
  try_retained-ok cs fine = elim (Result-cases (finalize_segments cs)) [
    | inr (e, q) ↦ absurd (ok-ne-err (finalize_segments cs) e fine q)
    | inl ((segments, citations), q) ↦ elim (Result-cases (estimate segments)) [
      | inr (e, q') ↦ absurd (ok-ne-err (estimate segments) e (answers segments) q')
      | inl (tokens, q') ↦ elim (Result-cases (require_fits budget tokens)) [
        | inr (e, r) ↦ rw (q, q', r, is_ok) refl
        | inl (n, r) ↦
            rw (q, q', r, le→leb (original - length cs) u32_max (omega (arith, countable)), is_ok)
              refl
      ]
    ]
  ]

  first_turn :
      (cs : List ContextCandidate) (r : Result AppErrorCode (Option PackedContext))
      → is_ok r ≡ true
      → Means estimate budget original cs r
      → ¬ (IsTooLarge estimate budget cs)
      → is_ok (or_next r (err context_too_large)) ≡ true
  first_turn cs (err e) h m fits = h
  first_turn cs (ok none) h m fits = absurd (fits m)
  first_turn cs (ok (some p)) h m fits = refl

  next_turn :
      (r : Result AppErrorCode (Option PackedContext)) (next : Result AppErrorCode PackedContext)
      → is_ok r ≡ true
      → is_ok next ≡ true
      → is_ok (or_next r next) ≡ true
  next_turn (err e) next h k = h
  next_turn (ok none) next h k = k
  next_turn (ok (some p)) next h k = refl

  module _ (required optional : List ContextCandidate)
      (fine : (k : ℕ) → is_ok (finalize_segments (required ++ take k optional)) ≡ true)
      (fits : ¬ (IsTooLarge estimate budget (required ++ take 0 optional))) where
    pack_down-ok :
        (extra : ℕ) → is_ok (pack_down estimate budget original required optional extra) ≡ true
    pack_down-ok zero =
        first_turn (required ++ take 0 optional)
          (try_retained estimate budget original (required ++ take 0 optional))
          (try_retained-ok (required ++ take 0 optional) (fine 0))
          (try_retained-Means estimate budget narrow original (required ++ take 0 optional)) fits
    pack_down-ok (suc extra) =
        next_turn (try_retained estimate budget original (required ++ take (suc extra) optional))
          (pack_down estimate budget original required optional extra)
          (try_retained-ok (required ++ take (suc extra) optional) (fine (suc extra)))
          (pack_down-ok extra)

    pack_required-ok : is_ok (pack_required estimate budget original required optional) ≡ true
    pack_required-ok = elim (Result-cases (finalize_segments required)) [
      | inr (e, q) ↦ absurd (
          ok-ne-err (finalize_segments required) e
            (subst (λ cs. is_ok (finalize_segments cs) ≡ true) (append_nil required) (fine 0)) q)
      | inl ((segments, citations), q) ↦ elim (Result-cases (estimate segments)) [
        | inr (e, q') ↦ absurd (ok-ne-err (estimate segments) e (answers segments) q')
        | inl (tokens, q') ↦ elim (Result-cases (require_fits budget tokens)) [
          | inr (e, r) ↦ absurd (
              subst (λ cs. ¬ (IsTooLarge estimate budget cs)) (append_nil required) fits
                (segments, (citations, (tokens, (q, q'), refused_lt tokens e narrow r))))
          | inl (n, r) ↦ rw (q, q', r, pack_required) (pack_down-ok (length optional))
        ]
      ]
    ]

parts-le :
    (m k : ℕ) (cs : List ContextCandidate)
    → length cs ≤ u32_max
    → length (take m cs ++ take k (drop m cs)) ≤ u32_max
parts-le m k cs le = omega (
  arith,
  le,
  length-append (take m cs) (take k (drop m cs)),
  length-take m cs,
  length-take k (drop m cs),
  length-drop m cs,
)

-- Packing for a selection succeeds when the candidates are valid, one of them is mandatory, the seeds
-- of the citations were checked, the estimator answers, and the context of the mandatory candidate
-- alone is not too large. The counts are u32.
pub pack_context-succeeds :
    (estimate : List ContextSegment → Result AppErrorCode ℕ) (budget : InputBudget) (book_id : ℕ)
    (candidates : List ContextCandidate)
    → budget.usable_input ≤ u32_max
    → length candidates ≤ u32_max
    → ((segments : List ContextSegment) → is_ok (estimate segments) ≡ true)
    → validate_candidate_values book_id candidates ≡ true
    → mandatory_count candidates ≡ 1
    → CandidatesChecked candidates
    → ¬ (
        IsTooLarge estimate budget (
          take
            (leading_mandatory (deduplicate_candidates candidates))
            (deduplicate_candidates candidates)))
    → is_ok (pack_context estimate book_id budget candidates) ≡ true
unfolding pack_context
pack_context-succeeds estimate budget book_id candidates narrow countable answers good one checked
      fits =
    let ordered = deduplicate_candidates candidates in
    let m = leading_mandatory ordered in
    let kept = deduplicate-CandidatesChecked candidates checked in
    let leads = deduplicate_leads candidates one in
    let some_mandatory : (m == 0) ≡ false = ground (arith, leads) in
    let exactly_one : (mandatory_count candidates == 1) ≡ true = ground (arith, one) in
    rw (good, exactly_one, some_mandatory)
      (pack_required-ok estimate budget narrow answers (length candidates) countable
        (take m ordered) (drop m ordered)
        (λ k.
          finalize_segments-ok (take m ordered ++ take k (drop m ordered))
            (append-All _ (take m ordered) (take k (drop m ordered)) (take-All _ m ordered kept)
              (take-All _ k (drop m ordered) (drop-All _ m ordered kept)))
            (parts-le m k ordered (omega (arith, countable, deduplicate-length candidates))))
        (subst (λ cs. ¬ (IsTooLarge estimate budget cs)) (sym (append_nil (take m ordered))) fits))
