-- ===== src/Chunker/Sections.antt =====
-- The sections that src-tauri/src/retrieval/chunker.rs gathers, against a description of them that
-- knows no index: in the order of their first blocks, with the texts of all their blocks.
use textbook_lens.Base.{
  ℕ, zero, suc, ◌≤◌, ◌≡◌, refl, inl, inr, sym, ◌∙◌, Bool, true, false, not, List, [], ◌∷◌, ◌++◌,
  arith, ◌==◌, if◌then◌else◌, length, is_empty, keep, All, Bool-cases, ap, subst,
}
use mathlib.Core.List.{append_assoc, append-nil}
use textbook_lens.Chunker.Defs.{
  ChunkBlock, SectionText, new_section, push_code_point, push_text, push_block,
}
use textbook_lens.Chunker.Book.{gather, empty_gathered}
use textbook_lens.Chunker.Gather.{with_text, put, put_each, push_block-id, gather-put_each}

-- The blocks of a section, and the other blocks.
abbrev pub of_section : ℕ → List ChunkBlock → List ChunkBlock
of_section id = keep (λ b. b.section_id == id)

abbrev pub without_section : ℕ → List ChunkBlock → List ChunkBlock
without_section id = keep (λ b. not (b.section_id == id))

-- The texts of the blocks, with a line feed between each two.
abbrev pub behind : List ChunkBlock → List ℕ
behind [] = []
behind (b ∷ bs) = b'\n' ∷ b.text ++ behind bs

abbrev pub joined : List ChunkBlock → List ℕ
joined [] = []
joined (b ∷ bs) = b.text ++ behind bs

abbrev pub StartsWith : ℕ → List ChunkBlock → Type 0
StartsWith id [] = ⊥
StartsWith id (b ∷ bs) = b.section_id ≡ id

-- The sections of the blocks: the first is the section of the first block and has the texts of all
-- blocks of that section, in their order; the rest are the sections of the other blocks.
abbrev pub AreSections : List ChunkBlock → List SectionText → Type 0
AreSections blocks [] = blocks ≡ []
AreSections blocks (s ∷ ss) =
    StartsWith s.section_id blocks
    × (s.code_points ≡ joined (of_section s.section_id blocks))
    × AreSections (without_section s.section_id blocks) ss

push_each : List ChunkBlock → SectionText → SectionText
push_each [] s = s
push_each (b ∷ bs) s = push_each bs (push_block s b)

-- The first section takes its blocks, and the other sections the others.
put_each-cons :
    (bs : List ChunkBlock) (s : SectionText) (ss : List SectionText)
    → put_each bs (s ∷ ss)
      ≡ push_each (of_section s.section_id bs) s ∷ put_each (without_section s.section_id bs) ss
unfolding put_each push_each put
put_each-cons [] s ss = refl
put_each-cons (b ∷ bs) s ss = elim (Bool-cases (s.section_id == b.section_id)) [
  | inl same ↦
      let mine : (b.section_id == s.section_id) ≡ true = ground arith in
      rw (same, mine)
        (put_each-cons bs (push_block s b) ss
          ∙ ap
              (λ id.
                push_each (of_section id bs) (push_block s b) ∷ put_each (without_section id bs) ss)
              (push_block-id s b))
  | inr other ↦
      let yours : (b.section_id == s.section_id) ≡ false = ground arith in
      rw (other, yours) (put_each-cons bs s (put b ss))
]

push_each-id : (bs : List ChunkBlock) (s : SectionText) → (push_each bs s).section_id ≡ s.section_id
unfolding push_each
push_each-id [] s = refl
push_each-id (b ∷ bs) s = push_each-id bs (push_block s b) ∙ push_block-id s b

push_text-text :
    (cs : List ℕ) (s : SectionText) → (push_text cs s).code_points ≡ s.code_points ++ cs
unfolding push_text push_code_point
push_text-text [] s = sym (append-nil _)
push_text-text (c ∷ cs) s =
    push_text-text cs (push_code_point c s) ∙ append_assoc s.code_points (c ∷ []) cs

push_block-text :
    (s : SectionText) (b : ChunkBlock)
    → (push_block s b).code_points
      ≡ (if is_empty s.code_points then b.text else s.code_points ++ b'\n' ∷ b.text)
unfolding push_block
push_block-text s b = elim (Bool-cases (is_empty s.code_points)) [
  | inl fresh ↦
      let nothing : s.code_points ≡ [] = ground arith in
      rw fresh (push_text-text b.text s ∙ ap (λ t. t ++ b.text) nothing)
  | inr more ↦ rw more (
      push_text-text b.text (record s { code_points = s.code_points ++ b'\n' ∷ [] })
      ∙ append_assoc s.code_points (b'\n' ∷ []) b.text)
]

is_empty-append : (xs ys : List ℕ) → is_empty xs ≡ false → is_empty (xs ++ ys) ≡ false
is_empty-append [] ys h = cc
is_empty-append (x ∷ xs) ys h = refl

push_each-text :
    (bs : List ChunkBlock) (s : SectionText)
    → is_empty s.code_points ≡ false
    → All (λ b. is_empty b.text ≡ false) bs
    → (push_each bs s).code_points ≡ s.code_points ++ behind bs
unfolding push_each
push_each-text [] s full a = sym (append-nil _)
push_each-text (b ∷ bs) s full a =
    let grown : (push_block s b).code_points ≡ s.code_points ++ b'\n' ∷ b.text =
      push_block-text s b ∙ rw full refl in
    push_each-text bs (push_block s b) (rw grown (is_empty-append s.code_points _ full)) a.1
    ∙ ap (λ t. t ++ behind bs) grown
    ∙ append_assoc s.code_points (b'\n' ∷ b.text) (behind bs)

keep-All :
    (P : ChunkBlock → Type 0) (p : ChunkBlock → Bool) (bs : List ChunkBlock)
    → All P bs
    → All P (keep p bs)
keep-All P p [] a = tt
keep-All P p (b ∷ bs) a = elim (Bool-cases (p b)) [
  | inl kept ↦ rw kept (a.0, keep-All P p bs a.1)
  | inr lost ↦ rw lost (keep-All P p bs a.1)
]

keep-length : (p : ChunkBlock → Bool) (bs : List ChunkBlock) → length (keep p bs) ≤ length bs
keep-length p [] = omega arith
keep-length p (b ∷ bs) = elim (Bool-cases (p b)) [
  | inl kept ↦ rw kept (omega (arith, keep-length p bs))
  | inr lost ↦ rw lost (omega (arith, keep-length p bs))
]

with_text-All : (bs : List ChunkBlock) → All (λ b. is_empty b.text ≡ false) (with_text bs)
with_text-All [] = tt
with_text-All (b ∷ bs) = elim (Bool-cases (is_empty b.text)) [
  | inl blank ↦ rw blank (with_text-All bs)
  | inr full ↦ rw full (full, with_text-All bs)
]

first-text :
    (b : ChunkBlock) (bs : List ChunkBlock)
    → is_empty b.text ≡ false
    → All (λ b. is_empty b.text ≡ false) bs
    → (push_each bs (push_block (new_section b.section_id) b)).code_points ≡ b.text ++ behind bs
first-text b bs full a =
    let s = push_block (new_section b.section_id) b in
    let text : s.code_points ≡ b.text = push_block-text (new_section b.section_id) b in
    push_each-text bs s (rw text full) a ∙ ap (λ t. t ++ behind bs) text

joined_first :
    (b : ChunkBlock) (bs : List ChunkBlock) (id : ℕ)
    → b.section_id ≡ id
    → b.text ++ behind (of_section b.section_id bs) ≡ joined (of_section id (b ∷ bs))
joined_first b bs id e =
    let key : (b.section_id == id) ≡ true = ground arith in
    rw key (ap (λ i. b.text ++ behind (of_section i bs)) e)

without_first :
    (b : ChunkBlock) (bs : List ChunkBlock) (id : ℕ)
    → b.section_id ≡ id
    → without_section b.section_id bs ≡ without_section id (b ∷ bs)
without_first b bs id e =
    let key : (b.section_id == id) ≡ true = ground arith in
    rw key (ap (λ i. without_section i bs) e)

put_each-AreSections :
    (n : ℕ) (bs : List ChunkBlock)
    → length bs ≤ n
    → All (λ b. is_empty b.text ≡ false) bs
    → AreSections bs (put_each bs [])
unfolding put_each put
put_each-AreSections n [] h a = refl
put_each-AreSections zero (b ∷ bs) h a = absurd (omega (arith, h))
put_each-AreSections (suc n) (b ∷ bs) h a =
    let s = push_block (new_section b.section_id) b in
    let id : s.section_id ≡ b.section_id = push_block-id (new_section b.section_id) b in
    let mine = of_section b.section_id bs in
    let rest = without_section b.section_id bs in
    let split : put_each bs (s ∷ []) ≡ push_each mine s ∷ put_each rest [] =
      put_each-cons bs s []
      ∙ ap (λ i. push_each (of_section i bs) s ∷ put_each (without_section i bs) []) id in
    let same : b.section_id ≡ (push_each mine s).section_id = sym (push_each-id mine s ∙ id) in
    subst (AreSections (b ∷ bs)) (sym split) (
      same,
      first-text b mine a.0 (keep-All _ (λ c. c.section_id == b.section_id) bs a.1)
          ∙ joined_first b bs (push_each mine s).section_id same,
      subst (λ l. AreSections l (put_each rest []))
          (without_first b bs (push_each mine s).section_id same)
          (put_each-AreSections n rest
            (omega (arith, h, keep-length (λ c. not (c.section_id == b.section_id)) bs))
            (keep-All _ (λ c. not (c.section_id == b.section_id)) bs a.1)),
    )

-- The gathered sections are the sections of the blocks that have some text.
pub gather-AreSections :
    (blocks : List ChunkBlock)
    → AreSections (with_text blocks) (gather blocks empty_gathered).sections
gather-AreSections blocks =
    subst (AreSections (with_text blocks))
      (sym (gather-put_each blocks empty_gathered (λ id. refl)))
      (put_each-AreSections (length (with_text blocks)) (with_text blocks) (omega arith)
        (with_text-All blocks))
