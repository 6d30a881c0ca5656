-- ===== src/Chunker/Boundaries.antt =====
-- `closest_boundary` of src-tauri/src/retrieval/chunker.rs: the safe boundary that it picks.
use textbook_lens.Base.{
  ℕ, ◌≤◌, ◌<◌, ◌≡◌, refl, ◌⊎◌, inl, inr, ◌&&◌, Option, none, some, List, [], ◌∷◌, arith, leb, All,
  usize_max, Bool-cases, Memb, if◌then◌else◌,
}
use textbook_lens.Chunker.Defs.{abs_diff, is_closer, closest_from, closest_boundary, unwrap_or}

-- At least as near to `desired`, and behind it on a tie.
abbrev pub Beats : ℕ → ℕ → ℕ → Type 0
Beats desired b x =
    (abs_diff b desired < abs_diff x desired)
    ⊎ ((abs_diff b desired ≡ abs_diff x desired) × (x ≤ b))

abbrev pub InRange : ℕ → ℕ → ℕ → Type 0
InRange lower upper x = (lower ≤ x) × (x ≤ upper)

-- The pick from these boundaries: none if no boundary is in range, else one in range that beats
-- every boundary in range.
abbrev pub IsClosest : ℕ → ℕ → ℕ → List ℕ → Option ℕ → Type 0
IsClosest desired lower upper bs none = All (λ x. ¬ InRange lower upper x) bs
IsClosest desired lower upper bs (some b) =
    Memb b bs × InRange lower upper b × All (λ x. InRange lower upper x → Beats desired b x) bs

Beats-trans : (desired a b c : ℕ) → Beats desired a b → Beats desired b c → Beats desired a c
Beats-trans desired a b c p q = omega arith

-- What the fold returns once it has a best candidate.
abbrev Improves : ℕ → ℕ → ℕ → ℕ → List ℕ → Option ℕ → Type 0
Improves desired lower upper a bs none = ⊥
Improves desired lower upper a bs (some b) =
    ((b ≡ a) ⊎ Memb b bs)
    × InRange lower upper b
    × Beats desired b a
    × All (λ x. InRange lower upper x → Beats desired b x) bs

improve_taken :
    (desired lower upper a x : ℕ) (bs : List ℕ) (r : Option ℕ)
    → Beats desired x a
    → Improves desired lower upper x bs r
    → Improves desired lower upper a (x ∷ bs) r
improve_taken desired lower upper a x bs none p v = v
improve_taken desired lower upper a x bs (some b) p v =
    (inr v.0, v.1, Beats-trans desired b x a v.2 p, ((λ _. v.2), v.3))

improve_kept :
    (desired lower upper a x : ℕ) (bs : List ℕ) (r : Option ℕ)
    → (InRange lower upper x → Beats desired a x)
    → Improves desired lower upper a bs r
    → Improves desired lower upper a (x ∷ bs) r
improve_kept desired lower upper a x bs none p v = v
improve_kept desired lower upper a x bs (some b) p v = (
  (elim v.0 [ inl e ↦ inl e | inr m ↦ inr (inr m) ]),
  v.1,
  v.2,
  ((λ r. Beats-trans desired b a x v.2 (p r)), v.3),
)

closest_from-Improves :
    (desired lower upper a : ℕ) (bs : List ℕ)
    → InRange lower upper a
    → a ≤ usize_max
    → All (λ x. x ≤ usize_max) bs
    → Improves desired lower upper a bs (closest_from desired lower upper (some a) bs)
closest_from-Improves desired lower upper a [] r h hs = (inl refl, r, inr (refl, omega arith), tt)
closest_from-Improves desired lower upper a (x ∷ bs) r h hs =
    elim (Bool-cases ((leb lower x && leb x upper) && is_closer desired x a)) [
      | inl taken ↦ rw taken (
          improve_taken desired lower upper a x bs (closest_from desired lower upper (some x) bs)
            (ground arith)
            (closest_from-Improves desired lower upper x bs (ground arith) hs.0 hs.1))
      | inr kept ↦ rw kept (
          improve_kept desired lower upper a x bs (closest_from desired lower upper (some a) bs)
            (λ q. ground arith) (closest_from-Improves desired lower upper a bs r h hs.1))
    ]

start_taken :
    (desired lower upper x : ℕ) (bs : List ℕ) (r : Option ℕ)
    → Improves desired lower upper x bs r
    → IsClosest desired lower upper (x ∷ bs) r
start_taken desired lower upper x bs none v = absurd v
start_taken desired lower upper x bs (some b) v = (v.0, v.1, ((λ _. v.2), v.3))

start_kept :
    (desired lower upper x : ℕ) (bs : List ℕ) (r : Option ℕ)
    → (¬ InRange lower upper x)
    → IsClosest desired lower upper bs r
    → IsClosest desired lower upper (x ∷ bs) r
start_kept desired lower upper x bs none p v = (p, v)
start_kept desired lower upper x bs (some b) p v = (inr v.0, v.1, ((λ r. absurd (p r)), v.2))

closest_from-IsClosest :
    (desired lower upper : ℕ) (bs : List ℕ)
    → All (λ x. x ≤ usize_max) bs
    → IsClosest desired lower upper bs (closest_from desired lower upper none bs)
closest_from-IsClosest desired lower upper [] hs = tt
closest_from-IsClosest desired lower upper (x ∷ bs) hs =
    elim (Bool-cases (leb lower x && leb x upper)) [
      | inl inside ↦ rw inside (
          start_taken desired lower upper x bs _
            (closest_from-Improves desired lower upper x bs (ground arith) hs.0 hs.1))
      | inr outside ↦ rw outside (
          start_kept desired lower upper x bs _ (λ r. ground arith)
            (closest_from-IsClosest desired lower upper bs hs.1))
    ]

-- `closest_boundary` is right on every list of boundaries: it returns nothing only if none of them
-- lies in the range, and else one of them that lies in the range and is nearer to `desired` than
-- each other one there, or as near and not in front of it.
pub closest_boundary-IsClosest :
    (boundaries : List ℕ) (desired lower upper : ℕ)
    → All (λ x. x ≤ usize_max) boundaries
    → IsClosest desired lower upper boundaries (closest_boundary boundaries desired lower upper)
unfolding closest_boundary
closest_boundary-IsClosest boundaries desired lower upper hs =
    closest_from-IsClosest desired lower upper boundaries hs

abbrev pub RangeOf : ℕ → ℕ → Option ℕ → Type 0
RangeOf lower upper none = Unit
RangeOf lower upper (some b) = InRange lower upper b

closest_from-RangeOf :
    (desired lower upper : ℕ) (best : Option ℕ) (bs : List ℕ)
    → RangeOf lower upper best
    → RangeOf lower upper (closest_from desired lower upper best bs)
closest_from-RangeOf desired lower upper best [] r = r
closest_from-RangeOf desired lower upper none (b ∷ bs) r =
    closest_from-RangeOf desired lower upper (if leb lower b && leb b upper then some b else none)
      bs
      (elim (Bool-cases (leb lower b && leb b upper)) [
        | inl inside ↦ rw inside (ground arith)
        | inr outside ↦ rw outside tt
      ])
closest_from-RangeOf desired lower upper (some x) (b ∷ bs) r =
    let test = (leb lower b && leb b upper) && is_closer desired b x in
    closest_from-RangeOf desired lower upper (if test then some b else some x) bs
      (elim (Bool-cases test) [ inl taken ↦ rw taken (ground arith) | inr kept ↦ rw kept r ])

pub closest_boundary-RangeOf :
    (boundaries : List ℕ) (desired lower upper : ℕ)
    → RangeOf lower upper (closest_boundary boundaries desired lower upper)
unfolding closest_boundary
closest_boundary-RangeOf boundaries desired lower upper =
    closest_from-RangeOf desired lower upper none boundaries tt

-- The boundary picked, or the default, lies between bounds that both meet.
pub unwrap_or-range :
    (o : Option ℕ) (lower upper d low high : ℕ)
    → RangeOf lower upper o
    → (low ≤ lower) × (upper ≤ high)
    → (low ≤ d) × (d ≤ high)
    → (low ≤ unwrap_or o d) × (unwrap_or o d ≤ high)
unwrap_or-range none lower upper d low high r b h = h
unwrap_or-range (some x) lower upper d low high r b h = omega arith
