-- ===== src/Chunker/Gather.antt =====
-- How src-tauri/src/retrieval/chunker.rs gathers the blocks of a book into sections: each block with
-- some text goes to the section with its key, whatever the map of indexes holds.
use textbook_lens.Base.{
  ℕ, suc, ◌≡◌, refl, inl, inr, sym, ◌∙◌, not, Option, none, some, List, [], ◌∷◌, ◌++◌, arith, ◌==◌,
  if◌then◌else◌, length, is_empty, keep, Bool-cases, Option-cases, ap,
}
use mathlib.Core.Option
use textbook_lens.Chunker.Defs.{
  ChunkBlock, SectionText, new_section, push_code_point, push_text, push_block,
}
use textbook_lens.Chunker.Book.{Gathered, index_of, push_at, push_known, gather}

abbrev pub with_text : List ChunkBlock → List ChunkBlock
with_text = keep (λ b. not (is_empty b.text))

-- A block goes to the section with its key.
unfoldable pub put : ChunkBlock → List SectionText → List SectionText
put b [] = push_block (new_section b.section_id) b ∷ []
put b (s ∷ ss) = if s.section_id == b.section_id then push_block s b ∷ ss else s ∷ put b ss

unfoldable pub put_each : List ChunkBlock → List SectionText → List SectionText
put_each [] ss = ss
put_each (b ∷ bs) ss = put_each bs (put b ss)

abbrev position : ℕ → List SectionText → Option ℕ
position id [] = none
position id (s ∷ ss) =
    let rest = position id ss in if s.section_id == id then some 0 else Option.map suc rest

push_text-id : (cs : List ℕ) (s : SectionText) → (push_text cs s).section_id ≡ s.section_id
unfolding push_text push_code_point
push_text-id [] s = refl
push_text-id (c ∷ cs) s = push_text-id cs (push_code_point c s)

pub push_block-id : (s : SectionText) (b : ChunkBlock) → (push_block s b).section_id ≡ s.section_id
unfolding push_block
push_block-id s b = elim (Bool-cases (is_empty s.code_points)) [
  | inl fresh ↦ rw fresh (push_text-id b.text s)
  | inr more ↦
      rw more (push_text-id b.text (record s { code_points = s.code_points ++ b'\n' ∷ [] }))
]

push_at-put :
    (b : ChunkBlock) (ss : List SectionText) (i : ℕ)
    → position b.section_id ss ≡ some i
    → push_at i b ss ≡ put b ss
unfolding put
push_at-put b [] i e = cc
push_at-put b (s ∷ ss) i e = elim (Bool-cases (s.section_id == b.section_id)) [
  | inl same ↦ (let zeroth : i ≡ 0 = ground (arith, e, same) in rw (zeroth, same))
  | inr other ↦ elim (Option-cases (position b.section_id ss)) [
    | inl gone ↦ ground (arith, e, other, gone)
    | inr (j, found) ↦
        (let next : i ≡ suc j = ground (arith, e, other, found) in
          rw (next, other) (ap (λ t. s ∷ t) (push_at-put b ss j found)))
  ]
]

push_new-put :
    (b : ChunkBlock) (ss : List SectionText)
    → position b.section_id ss ≡ none
    → push_at (length ss) b (ss ++ new_section b.section_id ∷ []) ≡ put b ss
unfolding put
push_new-put b [] e = refl
push_new-put b (s ∷ ss) e = elim (Bool-cases (s.section_id == b.section_id)) [
  | inl same ↦ ground (arith, e, same)
  | inr other ↦ elim (Option-cases (position b.section_id ss)) [
    | inl gone ↦ rw other (ap (λ t. s ∷ t) (push_new-put b ss gone))
    | inr (j, found) ↦ ground (arith, e, other, found)
  ]
]

position-put_known :
    (b : ChunkBlock) (ss : List SectionText) (id i : ℕ)
    → position b.section_id ss ≡ some i
    → position id (put b ss) ≡ position id ss
unfolding put
position-put_known b [] id i e = cc
position-put_known b (s ∷ ss) id i e = elim (Bool-cases (s.section_id == b.section_id)) [
  | inl same ↦ rw (same, push_block-id s b) refl
  | inr other ↦ elim (Option-cases (position b.section_id ss)) [
    | inl gone ↦ ground (arith, e, other, gone)
    | inr (j, found) ↦ rw (other, position-put_known b ss id j found) refl
  ]
]

position-put_new :
    (b : ChunkBlock) (ss : List SectionText) (id : ℕ)
    → position b.section_id ss ≡ none
    → position id (put b ss) ≡ (if b.section_id == id then some (length ss) else position id ss)
unfolding put
position-put_new b [] id e = rw (push_block-id (new_section b.section_id) b) refl
position-put_new b (s ∷ ss) id e = elim (Bool-cases (s.section_id == b.section_id)) [
  | inl same ↦ ground (arith, e, same)
  | inr other ↦ elim (Option-cases (position b.section_id ss)) [
    | inr (j, found) ↦ ground (arith, e, other, found)
    | inl gone ↦
        rw (other, position-put_new b ss id gone)
          (elim (Bool-cases (b.section_id == id)) [
            | inl mine ↦ ground (arith, mine, other)
            | inr yours ↦ rw yours refl
          ])
  ]
]

-- The map of indexes says where each section is.
abbrev pub Indexed : Gathered → Type 0
Indexed g = (id : ℕ) → index_of id g.section_indexes ≡ position id g.sections

push_known-put :
    (b : ChunkBlock) (g : Gathered) (o : Option ℕ)
    → Indexed g
    → position b.section_id g.sections ≡ o
    → ((push_known o b g).sections ≡ put b g.sections) × Indexed (push_known o b g)
push_known-put b g none ix e = (
  push_new-put b g.sections e,
  λ id. rw (push_new-put b g.sections e, position-put_new b g.sections id e, ix id) refl,
)
push_known-put b g (some i) ix e = (
  push_at-put b g.sections i e,
  λ id. rw (push_at-put b g.sections i e, position-put_known b g.sections id i e, ix id) refl,
)

pub gather-put_each :
    (bs : List ChunkBlock) (g : Gathered)
    → Indexed g
    → (gather bs g).sections ≡ put_each (with_text bs) g.sections
unfolding gather put_each
gather-put_each [] g ix = refl
gather-put_each (b ∷ bs) g ix = elim (Bool-cases (is_empty b.text)) [
  | inl blank ↦ rw (blank, gather) (gather-put_each bs g ix)
  | inr full ↦
      let (same, ix') =
        push_known-put b g (index_of b.section_id g.section_indexes) ix (sym (ix b.section_id)) in
      rw (full, gather)
        (gather-put_each bs (push_known (index_of b.section_id g.section_indexes) b g) ix'
          ∙ ap (put_each (with_text bs)) same)
]
