-- ===== src/Validator/Groups.antt =====
-- What `latex_is_malformed` of src-tauri/src/indexing/validator.rs lets pass has balanced groups.
use textbook_lens.Base.{
  ℕ, zero, suc, ◌+◌, ◌-◌, ◌<◌, ◌%◌, ◌⊎◌, ◌≡◌, refl, ◌≢◌, sym, subst, ap, ◌∙◌, Bool, true, false,
  List, [], ◌∷◌, ◌++◌, arith, ◌==◌, if◌then◌else◌, inl, inr,
}
use textbook_lens.Validator.Texts.{latex_from, latex_is_malformed}

-- The code points behind which no backslash takes effect, without the escaped ones; a backslash
-- at the end stays.
abbrev pub unescaped : Bool → List ℕ → List ℕ
unescaped escaped [] = if escaped then b'\\' ∷ [] else []
unescaped escaped (c ∷ cs) =
    let after = unescaped true cs in
    let rest = unescaped false cs in
    if escaped then rest else if c == b'\\' then after else c ∷ rest

-- Groups: each opening brace has its closing brace, and nothing else closes.
pub data Grouped : List ℕ → Type 0 where
  empty : Grouped []
  plain : (c : ℕ) (cs : List ℕ) → c ≢ b'{' → c ≢ b'}' → c ≢ b'\\' → Grouped cs → Grouped (c ∷ cs)
  group :
      (inner rest : List ℕ)
      → Grouped inner
      → Grouped rest
      → Grouped (b'{' ∷ (inner ++ (b'}' ∷ rest)))

-- The text closes this many groups that are open, and is grouped otherwise.
abbrev Closes : ℕ → List ℕ → Type 0
Closes zero cs = Grouped cs
Closes (suc n) cs =
    (inner : List ℕ) × (rest : List ℕ) × Grouped inner
    × (cs ≡ inner ++ (b'}' ∷ rest))
    × Closes n rest

Closes-plain :
    (n c : ℕ) (cs : List ℕ) → c ≢ b'{' → c ≢ b'}' → c ≢ b'\\' → Closes n cs → Closes n (c ∷ cs)
Closes-plain zero c cs p q r h = plain c cs p q r h
Closes-plain (suc n) c cs p q r (inner, rest, g, e, h) =
    (c ∷ inner, rest, plain c inner p q r g, ap (λ x. c ∷ x) e, h)

append_assoc : (xs ys zs : List ℕ) → (xs ++ ys) ++ zs ≡ xs ++ (ys ++ zs)
append_assoc [] ys zs = refl
append_assoc (x ∷ xs) ys zs = ap (λ l. x ∷ l) (append_assoc xs ys zs)

Closes-group :
    (n : ℕ) (inner rest : List ℕ)
    → Grouped inner
    → Closes n rest
    → Closes n (b'{' ∷ (inner ++ (b'}' ∷ rest)))
Closes-group zero inner rest g h = group inner rest g h
Closes-group (suc n) inner rest g (inner', rest', g', e, h) = (
  b'{' ∷ (inner ++ (b'}' ∷ inner')),
  rest',
  group inner inner' g g',
  ap (λ x. b'{' ∷ (inner ++ (b'}' ∷ x))) e
      ∙ sym (ap (λ x. b'{' ∷ x) (append_assoc inner (b'}' ∷ inner') (b'}' ∷ rest'))),
  h,
)

Closes-open : (n : ℕ) (cs : List ℕ) → Closes (suc n) cs → Closes n (b'{' ∷ cs)
Closes-open n cs (inner, rest, g, e, h) =
    subst (λ x. Closes n (b'{' ∷ x)) (sym e) (Closes-group n inner rest g h)

-- What the loop does at a code point that is not escaped.
latex_from-cases :
    (c : ℕ) (cs : List ℕ) (depth dollars : ℕ)
    → latex_from (c ∷ cs) depth false dollars ≡ false
    → (c ≡ b'\\') × (latex_from cs depth true dollars ≡ false)
      ⊎ (c ≡ b'{') × (latex_from cs (depth + 1) false dollars ≡ false)
      ⊎ (c ≡ b'}') × (0 < depth) × (latex_from cs (depth - 1) false dollars ≡ false)
      ⊎ (c ≡ b'$') × (latex_from cs depth false (dollars + 1) ≡ false)
      ⊎ (c ≢ b'\\')
        × (c ≢ b'{')
        × (c ≢ b'}')
        × (c ≢ b'$')
        × (latex_from cs depth false dollars ≡ false)
unfolding latex_from
latex_from-cases c cs depth dollars e = ground arith

Closes-close : (n : ℕ) (cs : List ℕ) → 0 < n → Closes (n - 1) cs → Closes n (b'}' ∷ cs)
Closes-close zero cs h k = absurd (omega arith)
Closes-close (suc n) cs h k = ([], cs, empty, refl, subst (λ m. Closes m cs) (omega arith) k)

unescaped-escape : (c : ℕ) (cs : List ℕ) → c ≡ b'\\' → unescaped false (c ∷ cs) ≡ unescaped true cs
unescaped-escape c cs e = rw e

unescaped-cons :
    (c : ℕ) (cs : List ℕ) → c ≢ b'\\' → unescaped false (c ∷ cs) ≡ c ∷ unescaped false cs
unescaped-cons c cs h = ground arith

latex_from-Closes :
    (cs : List ℕ) (depth : ℕ) (escaped : Bool) (dollars : ℕ)
    → latex_from cs depth escaped dollars ≡ false
    → Closes depth (unescaped escaped cs)
unfolding latex_from
latex_from-Closes [] zero false dollars e = empty
latex_from-Closes [] zero true dollars e = cc
latex_from-Closes [] (suc d) escaped dollars e = absurd (ground (arith, e))
latex_from-Closes (c ∷ cs) depth true dollars e = latex_from-Closes cs depth false dollars e
latex_from-Closes (c ∷ cs) depth false dollars e = elim (latex_from-cases c cs depth dollars e) [
  | inl (is, k) ↦ rw (unescaped-escape c cs is) (latex_from-Closes cs depth true dollars k)
  | inr (inl (is, k)) ↦
      rw (unescaped-cons c cs (λ q. omega arith), is)
        (Closes-open depth (unescaped false cs) (
          subst (λ m. Closes m (unescaped false cs)) {y = suc depth} (omega arith)
            (latex_from-Closes cs (depth + 1) false dollars k)))
  | inr (inr (inl (is, some_open, k))) ↦
      rw (unescaped-cons c cs (λ q. omega arith), is)
        (Closes-close depth (unescaped false cs) some_open
          (latex_from-Closes cs (depth - 1) false dollars k))
  | inr (inr (inr (inl (is, k)))) ↦ rw (unescaped-cons c cs (λ q. omega arith)) (
      Closes-plain depth c (unescaped false cs) (λ q. omega arith) (λ q. omega arith)
        (λ q. omega arith) (latex_from-Closes cs depth false (dollars + 1) k))
  | inr (inr (inr (inr (not_escape, not_open, not_close, not_dollar, k)))) ↦
      rw (unescaped-cons c cs not_escape) (
        Closes-plain depth c (unescaped false cs) not_open not_close not_escape
          (latex_from-Closes cs depth false dollars k))
]

abbrev pub dollars_of : List ℕ → ℕ
dollars_of [] = 0
dollars_of (c ∷ cs) = (if c == b'$' then 1 else 0) + dollars_of cs

latex_from-dollars_of :
    (cs : List ℕ) (depth : ℕ) (escaped : Bool) (dollars : ℕ)
    → latex_from cs depth escaped dollars ≡ false
    → (dollars + dollars_of (unescaped escaped cs)) % 2 ≡ 0
unfolding latex_from
latex_from-dollars_of [] depth false dollars e = ground (arith, e)
latex_from-dollars_of [] depth true dollars e = cc
latex_from-dollars_of (c ∷ cs) depth true dollars e = latex_from-dollars_of cs depth false dollars e
latex_from-dollars_of (c ∷ cs) depth false dollars e =
    elim (latex_from-cases c cs depth dollars e) [
      | inl (is, k) ↦ rw (unescaped-escape c cs is) (latex_from-dollars_of cs depth true dollars k)
      | inr (inl (is, k)) ↦
          rw (unescaped-cons c cs (λ q. omega arith), is)
            (omega (arith, latex_from-dollars_of cs (depth + 1) false dollars k))
      | inr (inr (inl (is, some_open, k))) ↦
          rw (unescaped-cons c cs (λ q. omega arith), is)
            (omega (arith, latex_from-dollars_of cs (depth - 1) false dollars k))
      | inr (inr (inr (inl (is, k)))) ↦
          rw (unescaped-cons c cs (λ q. omega arith), is)
            (omega (arith, latex_from-dollars_of cs depth false (dollars + 1) k))
      | inr (inr (inr (inr (not_escape, not_open, not_close, not_dollar, k)))) ↦
          rw (unescaped-cons c cs not_escape)
            (ground (arith, not_dollar, latex_from-dollars_of cs depth false dollars k))
    ]

-- A formula that passes, read without the characters behind a backslash, has balanced groups and an
-- even number of dollar signs.
pub latex_is_malformed-Grouped :
    (value : List ℕ)
    → latex_is_malformed value ≡ false
    → Grouped (unescaped false value) × (dollars_of (unescaped false value) % 2 ≡ 0)
unfolding latex_is_malformed
latex_is_malformed-Grouped value e =
    (latex_from-Closes value 0 false 0 e, omega (arith, latex_from-dollars_of value 0 false 0 e))
