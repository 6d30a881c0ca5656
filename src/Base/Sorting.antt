-- ===== src/Base/Sorting.antt =====
-- `sort_by` of Rust's slices, which is stable, with the order as a Boolean test `a <= b`.
use mathlib.Core.Path.{◌≡◌}
use mathlib.Core.Logic.{◌⊎◌, inl, inr}
use mathlib.Core.Bool.{Bool}
use mathlib.Core.List.{List, [], ◌∷◌}
use textbook_lens.Base.Tests.{if◌then◌else◌, Bool-cases}
use textbook_lens.Base.Lists.{All, Memb}

module _ {A : Type 0} (before : A → A → Bool) where
  abbrev pub insert_by : A → List A → List A
  insert_by x [] = x ∷ []
  insert_by x (y ∷ ys) = let rest = insert_by x ys in if before x y then x ∷ y ∷ ys else y ∷ rest

  abbrev pub sort_by : List A → List A
  sort_by [] = []
  sort_by (x ∷ xs) = insert_by x (sort_by xs)

  pub insert_by-All :
      (P : A → Type 0) (x : A) (ys : List A) → P x → All P ys → All P (insert_by x ys)
  insert_by-All P x [] h a = (h, tt)
  insert_by-All P x (y ∷ ys) h a = elim (Bool-cases (before x y)) [
    | inl first ↦ rw first (h, a)
    | inr later ↦ rw later (a.0, insert_by-All P x ys h a.1)
  ]

  pub sort_by-All : (P : A → Type 0) (xs : List A) → All P xs → All P (sort_by xs)
  sort_by-All P [] a = tt
  sort_by-All P (x ∷ xs) a = insert_by-All P x (sort_by xs) a.0 (sort_by-All P xs a.1)

  pub insert_by-Memb : (z x : A) (ys : List A) → (z ≡ x) ⊎ Memb z ys → Memb z (insert_by x ys)
  insert_by-Memb z x [] h = h
  insert_by-Memb z x (y ∷ ys) h = elim (Bool-cases (before x y)) [
    | inl first ↦ rw first h
    | inr later ↦ rw later (elim h [
      | inl e ↦ inr (insert_by-Memb z x ys (inl e))
      | inr (inl e) ↦ inl e
      | inr (inr m) ↦ inr (insert_by-Memb z x ys (inr m))
    ])
  ]

  pub sort_by-Memb : (z : A) (xs : List A) → Memb z xs → Memb z (sort_by xs)
  sort_by-Memb z [] m = absurd m
  sort_by-Memb z (x ∷ xs) (inl e) = insert_by-Memb z x (sort_by xs) (inl e)
  sort_by-Memb z (x ∷ xs) (inr m) = insert_by-Memb z x (sort_by xs) (inr (sort_by-Memb z xs m))
