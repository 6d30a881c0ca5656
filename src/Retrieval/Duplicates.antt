-- ===== src/Retrieval/Duplicates.antt =====
-- What `deduplicate_candidates` of src-tauri/src/retrieval/context.rs keeps.
use textbook_lens.Base.{
  ◌≡◌, sym, subst, ◌⊎◌, inl, inr, Bool, true, false, List, [], ◌∷◌, ◌++◌, arith, any, All, Memb,
  All-from_Memb, sort_by, sort_by-All, sort_by-Memb, Bool-cases,
}
use textbook_lens.Retrieval.Candidates.{ContextCandidate, is_before_candidate}
use textbook_lens.Retrieval.Overlap.{is_duplicate_of}
use textbook_lens.Retrieval.Packing.{retain_from, deduplicate_candidates}

-- No candidate is a duplicate of an earlier one.
abbrev pub IsReduced : List ContextCandidate → Type 0
IsReduced [] = Unit
IsReduced (c ∷ cs) = All (λ later. is_duplicate_of c later ≡ false) cs × IsReduced cs

abbrev pub has_duplicate : List ContextCandidate → ContextCandidate → Bool
has_duplicate retained c = any (λ prior. is_duplicate_of prior c) retained

-- The candidate is kept, or is a duplicate of one that is.
abbrev pub IsCovered : List ContextCandidate → ContextCandidate → Type 0
IsCovered kept c = Memb c kept ⊎ (has_duplicate kept c ≡ true)

append_one-All :
    (P : ContextCandidate → Type 0) (ys : List ContextCandidate) (y : ContextCandidate)
    → P y
    → All P ys
    → All P (ys ++ y ∷ [])
append_one-All P [] y p a = (p, tt)
append_one-All P (z ∷ zs) y p a = (a.0, append_one-All P zs y p a.1)

append_one-IsReduced :
    (retained : List ContextCandidate) (c : ContextCandidate)
    → has_duplicate retained c ≡ false
    → IsReduced retained
    → IsReduced (retained ++ c ∷ [])
append_one-IsReduced [] c h r = (tt, tt)
append_one-IsReduced (x ∷ xs) c h r = (
  append_one-All (λ later. is_duplicate_of x later ≡ false) xs c (ground arith) r.0,
  append_one-IsReduced xs c (ground arith) r.1,
)

append_one-has_duplicate :
    (retained : List ContextCandidate) (x c : ContextCandidate)
    → has_duplicate retained c ≡ true
    → has_duplicate (retained ++ x ∷ []) c ≡ true
append_one-has_duplicate [] x c h = cc
append_one-has_duplicate (y ∷ ys) x c h = ground (arith, append_one-has_duplicate ys x c)

append_one-Memb :
    (retained : List ContextCandidate) (x c : ContextCandidate)
    → Memb c retained ⊎ (c ≡ x)
    → Memb c (retained ++ x ∷ [])
append_one-Memb [] x c (inl m) = absurd m
append_one-Memb [] x c (inr e) = inl e
append_one-Memb (y ∷ ys) x c (inl (inl e)) = inl e
append_one-Memb (y ∷ ys) x c (inl (inr m)) = inr (append_one-Memb ys x c (inl m))
append_one-Memb (y ∷ ys) x c (inr e) = inr (append_one-Memb ys x c (inr e))

append_one-IsCovered :
    (retained : List ContextCandidate) (x c : ContextCandidate)
    → IsCovered retained c
    → IsCovered (retained ++ x ∷ []) c
append_one-IsCovered retained x c (inl m) = inl (append_one-Memb retained x c (inl m))
append_one-IsCovered retained x c (inr h) = inr (append_one-has_duplicate retained x c h)

retain_from-IsReduced :
    (retained cs : List ContextCandidate) → IsReduced retained → IsReduced (retain_from retained cs)
retain_from-IsReduced retained [] r = r
retain_from-IsReduced retained (c ∷ cs) r = elim (Bool-cases (has_duplicate retained c)) [
  | inl old ↦ rw old (retain_from-IsReduced retained cs r)
  | inr new ↦
      rw new (retain_from-IsReduced (retained ++ c ∷ []) cs (append_one-IsReduced retained c new r))
]

pub retain_from-All :
    (P : ContextCandidate → Type 0) (retained cs : List ContextCandidate)
    → All P retained
    → All P cs
    → All P (retain_from retained cs)
retain_from-All P retained [] a b = a
retain_from-All P retained (c ∷ cs) a b = elim (Bool-cases (has_duplicate retained c)) [
  | inl old ↦ rw old (retain_from-All P retained cs a b.1)
  | inr new ↦
      rw new (retain_from-All P (retained ++ c ∷ []) cs (append_one-All P retained c b.0 a) b.1)
]

retain_from-IsCovered :
    (retained cs : List ContextCandidate) (c : ContextCandidate)
    → IsCovered retained c ⊎ Memb c cs
    → IsCovered (retain_from retained cs) c
retain_from-IsCovered retained [] c (inl h) = h
retain_from-IsCovered retained [] c (inr m) = absurd m
retain_from-IsCovered retained (x ∷ cs) c h = elim (Bool-cases (has_duplicate retained x)) [
  | inl old ↦ rw old (
      retain_from-IsCovered retained cs c (elim h [
        | inl v ↦ inl v
        | inr (inl e) ↦ inl (inr (subst (λ y. has_duplicate retained y ≡ true) (sym e) old))
        | inr (inr m) ↦ inr m
      ]))
  | inr new ↦ rw new (
      retain_from-IsCovered (retained ++ x ∷ []) cs c (elim h [
        | inl v ↦ inl (append_one-IsCovered retained x c v)
        | inr (inl e) ↦ inl (inl (append_one-Memb retained x c (inr e)))
        | inr (inr m) ↦ inr m
      ]))
]

self_Memb : (cs : List ContextCandidate) → All (λ c. Memb c cs) cs
self_Memb cs = All-from_Memb (λ c. Memb c cs) cs λ c m. m

-- What remains without duplicates comes from the candidates, has no candidate that is a duplicate of
-- an earlier one, and each candidate remains or is a duplicate of one that does.
pub deduplicate_candidates-IsReduced :
    (candidates : List ContextCandidate)
    → let kept = deduplicate_candidates candidates in
      IsReduced kept × All (λ c. Memb c candidates) kept × All (IsCovered kept) candidates
unfolding deduplicate_candidates
deduplicate_candidates-IsReduced candidates = (
  retain_from-IsReduced [] (sort_by is_before_candidate candidates) tt,
  retain_from-All (λ c. Memb c candidates) [] (sort_by is_before_candidate candidates) tt
      (sort_by-All is_before_candidate (λ c. Memb c candidates) candidates (self_Memb candidates)),
  All-from_Memb _ candidates λ c m.
      retain_from-IsCovered [] (sort_by is_before_candidate candidates) c
        (inr (sort_by-Memb is_before_candidate c candidates m)),
)
