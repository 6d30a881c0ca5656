-- ===== src/Retrieval/Prefixes.antt =====
-- What the loop of src-tauri/src/retrieval/context.rs packs.
use textbook_lens.Base.{
  ℕ, zero, suc, ◌-◌, ◌≤◌, ◌<◌, ◌≡◌, refl, ◌≢◌, ◌⊎◌, inl, inr, Option, none, some, List, ◌++◌, arith,
  leb, ltb, ltb→lt, le→leb, length, take, u32_max, Result, ok, err, Result-cases, Bool-cases,
  ok_cancel, sym, subst,
}
use textbook_lens.Errors.{AppErrorCode, context_too_large}
use textbook_lens.Retrieval.Budget.{InputBudget, require_fits}
use textbook_lens.Retrieval.Candidates.{ContextCandidate, ContextSegment, Citation, PackedContext}
use textbook_lens.Retrieval.Packing.{
  finalize_segments, try_candidates, try_retained, or_next, pack_down, pack_required,
}

le-cases : (k n : ℕ) → k ≤ suc n → (k ≤ n) ⊎ (k ≡ suc n)
le-cases k n h = ground arith

pub err-ne-ok : (e : AppErrorCode) (p : PackedContext) → err e ≢ ok p
err-ne-ok e p h = cc

module _ (estimate : List ContextSegment → Result AppErrorCode ℕ) (budget : InputBudget) where
  -- The context of these candidates has this size.
  abbrev HasSize : List ContextCandidate → List ContextSegment → List Citation → ℕ → Type 0
  HasSize cs segments citations tokens =
      (finalize_segments cs ≡ ok (segments, citations)) × (estimate segments ≡ ok tokens)

  abbrev pub IsTooLarge : List ContextCandidate → Type 0
  IsTooLarge cs =
      (segments : List ContextSegment) × ((citations : List Citation) × ((tokens : ℕ) × HasSize cs
            segments citations tokens
          × (budget.usable_input < tokens)))

  -- The packed context is that of these candidates, and fits.
  abbrev pub IsContextOf : ℕ → List ContextCandidate → PackedContext → Type 0
  IsContextOf original cs p =
      HasSize cs p.segments p.citations p.estimated_input_tokens
      × (p.estimated_input_tokens ≤ budget.usable_input)
      × (p.omitted_segment_count ≡ original - length cs)

  -- What one turn says of its candidates.
  abbrev pub Means : ℕ → List ContextCandidate → Result AppErrorCode (Option PackedContext) → Type 0
  Means original cs (ok (some p)) = IsContextOf original cs p
  Means original cs (ok none) = IsTooLarge cs
  Means original cs (err e) = Unit

  -- The most candidates that fit: with any more the context is too large.
  abbrev pub IsLongest :
      ℕ → List ContextCandidate → List ContextCandidate → ℕ → PackedContext → Type 0
  IsLongest original required optional most p =
      (n : ℕ) × (n ≤ most)
      × IsContextOf original (required ++ take n optional) p
      × ((k : ℕ) → n < k → k ≤ most → IsTooLarge (required ++ take k optional))

  module _ (narrow : budget.usable_input ≤ u32_max) where
    pub try_retained-Means :
        (original : ℕ) (cs : List ContextCandidate)
        → Means original cs (try_retained estimate budget original cs)
    unfolding try_candidates require_fits
    try_retained-Means original cs = elim (Result-cases (finalize_segments cs)) [
      | inr (e, q) ↦ rw (q, Means) tt
      | inl ((segments, citations), q) ↦ elim (Result-cases (estimate segments)) [
        | inr (e, q') ↦ rw (q, q', Means) tt
        | inl (tokens, q') ↦ elim (Bool-cases (ltb budget.usable_input tokens)) [
          | inl big ↦
              rw (q, q', big, Means)
                (segments, (citations, (tokens, (q, q'), ltb→lt budget.usable_input tokens big)))
          | inr fits ↦ elim (Bool-cases (leb (original - length cs) u32_max)) [
            | inl few ↦
                rw (q, q', fits, le→leb tokens u32_max (ground (arith, fits, narrow)), few, Means)
                  ((q, q'), ground (arith, fits), refl)
            | inr many ↦
                rw (q, q', fits, le→leb tokens u32_max (ground (arith, fits, narrow)), many, Means)
                  tt
          ]
        ]
      ]
    ]

    turn :
        (original : ℕ) (cs : List ContextCandidate) (p : PackedContext)
        (r : Result AppErrorCode (Option PackedContext)) (next : Result AppErrorCode PackedContext)
        → Means original cs r
        → or_next r next ≡ ok p
        → IsContextOf original cs p ⊎ IsTooLarge cs × (next ≡ ok p)
    turn original cs p (ok (some p')) next m h =
        inl (subst (IsContextOf original cs) (ok_cancel (ok p') p' p refl h) m)
    turn original cs p (ok none) next m h = inr (m, h)
    turn original cs p (err e) next m h = cc

    turn_of :
        (original : ℕ) (cs : List ContextCandidate) (p : PackedContext)
        (next : Result AppErrorCode PackedContext)
        → or_next (try_retained estimate budget original cs) next ≡ ok p
        → IsContextOf original cs p ⊎ IsTooLarge cs × (next ≡ ok p)
    turn_of original cs p next h =
        turn original cs p (try_retained estimate budget original cs) next
          (try_retained-Means original cs) h

    longer :
        (cs : ℕ → List ContextCandidate) (n extra : ℕ)
        → ((k : ℕ) → n < k → k ≤ extra → IsTooLarge (cs k))
        → IsTooLarge (cs (suc extra))
        → (k : ℕ) → n < k
        → k ≤ suc extra
        → IsTooLarge (cs k)
    longer cs n extra all last k lt le = elim (le-cases k extra le) [
      | inl below ↦ all k lt below
      | inr same ↦ subst (λ j. IsTooLarge (cs j)) (sym same) last
    ]

    pack_down-IsLongest :
        (original : ℕ) (required optional : List ContextCandidate) (extra : ℕ) (p : PackedContext)
        → pack_down estimate budget original required optional extra ≡ ok p
        → IsLongest original required optional extra p
    pack_down-IsLongest original required optional zero p h =
        elim (turn_of original (required ++ take 0 optional) p (err context_too_large) h) [
          | inl fits ↦ (0, omega arith, fits, λ k lt le. absurd (omega (arith, lt, le)))
          | inr (big, over) ↦ cc
        ]
    pack_down-IsLongest original required optional (suc extra) p h =
        elim (turn_of original (required ++ take (suc extra) optional) p
          (pack_down estimate budget original required optional extra) h) [
            | inl fits ↦ (suc extra, omega arith, fits, λ k lt le. absurd (omega (arith, lt, le)))
            | inr (big, next) ↦
                let (n, le, fits, all) =
                  pack_down-IsLongest original required optional extra p next in
                (
                  n,
                  omega (arith, le),
                  fits,
                  longer (λ k. required ++ take k optional) n extra all big,
                )
          ]

    pub pack_required-IsLongest :
        (original : ℕ) (required optional : List ContextCandidate) (p : PackedContext)
        → pack_required estimate budget original required optional ≡ ok p
        → IsLongest original required optional (length optional) p
    pack_required-IsLongest original required optional p h =
        elim (Result-cases (finalize_segments required)) [
          | inr (e, q) ↦ absurd (err-ne-ok e p (rw (q, pack_required) at h))
          | inl ((segments, citations), q) ↦ elim (Result-cases (estimate segments)) [
            | inr (e, q') ↦ absurd (err-ne-ok e p (rw (q, q', pack_required) at h))
            | inl (tokens, q') ↦ elim (Result-cases (require_fits budget tokens)) [
              | inr (e, r) ↦ absurd (err-ne-ok e p (rw (q, q', r, pack_required) at h))
              | inl (n, r) ↦
                  pack_down-IsLongest original required optional (length optional) p
                    (rw (q, q', r, pack_required) at h)
            ]
          ]
        ]
