-- ===== src/Learning/Invariant.antt =====
-- The conversations of src-tauri/src/learning/registry.rs: the map of the active ones is the map of the
-- requests that run.
use textbook_lens.Base.{
  ℕ, ◌≡◌, ◌≢◌, ◌↔◌, inl, inr, true, false, none, some, List, [], ◌∷◌, arith, ◌==◌, All, is_some,
  Bool-cases, Option-cases, sym, subst, ◌∙◌, ap, some_cancel, leb, zero, suc,
}
use textbook_lens.Learning.Entry.{RegistryEntry, context_conversation_id, Stepped, stays, ends}
use textbook_lens.Learning.Registry.{
  RegistryState, find_entry, set_entry, remove_entry, release_conversation, forget, forget_each,
  expired, gc_locked, terminal_count, oldest, trim_from, trim_terminal_entries, store, on_entry,
  max_retained_terminal_requests,
}
use textbook_lens.Learning.Sound.{IsSound, Keeps}
use textbook_lens.Learning.Lookups.{
  find_entry-id, find_entry-All, set_entry_self, set_entry-other, set_entry-All, remove_entry_self,
  remove_entry-other, remove_entry-All, release_conversation-some, release_conversation-keeps,
  release_conversation-none,
}

-- The request runs, for this conversation.
abbrev pub Runs : List RegistryEntry → ℕ → ℕ → Type 0
Runs es r c =
    (e : RegistryEntry) × (find_entry r es ≡ some e)
    × (is_some e.terminal_at ≡ false)
    × (context_conversation_id e.target ≡ some c)

pub record Inv (s : RegistryState) : Type 0 where
  pub backed : (c r : ℕ) → s.active_conversations c ≡ some r → Runs s.entries r c
  pub registered : (c r : ℕ) → Runs s.entries r c → s.active_conversations c ≡ some r
  pub apart : (c : ℕ) → s.deleting_conversations c ≡ true → s.active_conversations c ≡ none
  pub sound : All IsSound s.entries

forgotten :
    (id r : ℕ) (s : RegistryState) (e : RegistryEntry)
    → r ≡ id
    → find_entry r (remove_entry id s.entries) ≡ some e
    → ⊥
forgotten id r s e same found =
    let gone =
      subst (λ k. find_entry k (remove_entry id s.entries) ≡ none) (sym same)
        (remove_entry_self id s.entries) in
    cc

pub forget-Inv : (id : ℕ) (s : RegistryState) → Inv s → Inv (forget id s)
unfolding forget
forget-Inv id s v =
    let base = record s { entries = remove_entry id s.entries } in
    record {
      backed = λ c r h.
          let (was, other) = release_conversation-some id c r base h in
          let (e, found, runs, conversation) = v.backed c r was in
          (e, remove_entry-other id r s.entries other ∙ found, runs, conversation);
      registered = λ c r k.
          let (e, found, runs, conversation) = k in
          let other : r ≢ id = λ same. absurd (forgotten id r s e same found) in
          release_conversation-keeps id c r base
            (v.registered c r
              (e, sym (remove_entry-other id r s.entries other) ∙ found, runs, conversation))
            other;
      apart = λ c h. release_conversation-none id c base (v.apart c h);
      sound = remove_entry-All IsSound id s.entries v.sound;
    }

-- An entry takes the place of the one with its key.
module _ (id : ℕ) (e e' : RegistryEntry) (es : List RegistryEntry)
    (found : find_entry id es ≡ some e) (same_id : e'.request_id ≡ e.request_id)
    (same_target : e'.target ≡ e.target) where
  key : e'.request_id ≡ id
  key = same_id ∙ find_entry-id id es found

  Runs-other : (r c : ℕ) → r ≢ id → Runs es r c → Runs (set_entry id e' es) r c
  Runs-other r c other (x, at, runs, conversation) =
      (x, set_entry-other id r e' es key other ∙ at, runs, conversation)

  Runs-other_back : (r c : ℕ) → r ≢ id → Runs (set_entry id e' es) r c → Runs es r c
  Runs-other_back r c other (x, at, runs, conversation) =
      (x, sym (set_entry-other id r e' es key other) ∙ at, runs, conversation)

  Runs-self :
      (c : ℕ)
      → is_some e'.terminal_at ≡ is_some e.terminal_at
      → Runs es id c
      → Runs (set_entry id e' es) id c
  Runs-self c same_end (x, at, runs, conversation) =
      let same = some_cancel x e (sym at ∙ found) in
      (
        e',
        set_entry_self id e' es key found,
        same_end ∙ ap (λ k. is_some k.terminal_at) (sym same) ∙ runs,
        ap context_conversation_id same_target
            ∙ ap (λ k. context_conversation_id k.target) (sym same)
            ∙ conversation,
      )

  -- What runs under the key afterwards is the new entry.
  self_entry :
      (c : ℕ)
      → Runs (set_entry id e' es) id c
      → (is_some e'.terminal_at ≡ false) × (context_conversation_id e.target ≡ some c)
  self_entry c (x, at, runs, conversation) =
      let same = some_cancel x e' (sym at ∙ set_entry_self id e' es key found) in
      (
        ap (λ k. is_some k.terminal_at) (sym same) ∙ runs,
        ap context_conversation_id (sym same_target)
            ∙ ap (λ k. context_conversation_id k.target) (sym same)
            ∙ conversation,
      )

  Runs-iff :
      (r c : ℕ)
      → is_some e'.terminal_at ≡ is_some e.terminal_at
      → Runs es r c ↔ Runs (set_entry id e' es) r c
  Runs-iff r c same_end = elim (Bool-cases (r == id)) [
    | inl hit ↦
        let same : r ≡ id = ground arith in
        subst (λ k. Runs es k c ↔ Runs (set_entry id e' es) k c) (sym same)
          (
            Runs-self c same_end,
            λ k. (e, found, sym same_end ∙ (self_entry c k).0, (self_entry c k).1),
          )
    | inr miss ↦
        let other : r ≢ id = λ q. ground arith in (Runs-other r c other, Runs-other_back r c other)
  ]

-- A change of one entry that runs on, or has ended before.
pub set_entry-Inv :
    (id : ℕ) (e e' : RegistryEntry) (s : RegistryState)
    → find_entry id s.entries ≡ some e
    → e'.request_id ≡ e.request_id
    → e'.target ≡ e.target
    → IsSound e'
    → is_some e'.terminal_at ≡ is_some e.terminal_at
    → Inv s
    → Inv (record s { entries = set_entry id e' s.entries })
set_entry-Inv id e e' s found same_id same_target sound same_end v =
    let iff = λ (r c : ℕ). Runs-iff id e e' s.entries found same_id same_target r c same_end in
    record {
      backed = λ c r h. (iff r c).0 (v.backed c r h);
      registered = λ c r k. v.registered c r ((iff r c).1 k);
      apart = v.apart;
      sound = set_entry-All IsSound id e' s.entries v.sound sound;
    }

over_runs : (e : RegistryEntry) → is_some e.terminal_at ≡ true → is_some e.terminal_at ≡ false → ⊥
over_runs e p q = cc

-- A request that ends lets go of its conversation.
pub ended-Inv :
    (id : ℕ) (e e' : RegistryEntry) (s : RegistryState)
    → find_entry id s.entries ≡ some e
    → e'.request_id ≡ e.request_id
    → e'.target ≡ e.target
    → IsSound e'
    → is_some e'.terminal_at ≡ true
    → Inv s
    → Inv (release_conversation id (record s { entries = set_entry id e' s.entries }))
unfolding release_conversation
ended-Inv id e e' s found same_id same_target sound over v =
    let base = record s { entries = set_entry id e' s.entries } in
    record {
      backed = λ c r h.
          let (was, other) = release_conversation-some id c r base h in
          Runs-other id e e' s.entries found same_id same_target r c other (v.backed c r was);
      registered = λ c r k.
          let other : r ≢ id = λ same.
            over_runs e' over
              (self_entry id e e' s.entries found same_id same_target c
                (subst (λ q. Runs base.entries q c) same k)).0 in
          release_conversation-keeps id c r base
            (v.registered c r
              (Runs-other_back id e e' s.entries found same_id same_target r c other k))
            other;
      apart = λ c h. release_conversation-none id c base (v.apart c h);
      sound = set_entry-All IsSound id e' s.entries v.sound sound;
    }

pub forget_each-Inv : (ids : List ℕ) (s : RegistryState) → Inv s → Inv (forget_each ids s)
forget_each-Inv [] s v = v
forget_each-Inv (id ∷ ids) s v = forget_each-Inv ids (forget id s) (forget-Inv id s v)

pub gc_locked-Inv : (now : ℕ) (s : RegistryState) → Inv s → Inv (gc_locked now s)
unfolding gc_locked
gc_locked-Inv now s v = forget_each-Inv (expired now s.entries) s v

trim_from-Inv : (fuel : ℕ) (s : RegistryState) → Inv s → Inv (trim_from fuel s)
unfolding trim_from
trim_from-Inv zero s v = v
trim_from-Inv (suc fuel) s v =
    elim (Bool-cases (leb (terminal_count s.entries) max_retained_terminal_requests)) [
      | inl few ↦ rw few v
      | inr many ↦ rw many (elim (Option-cases (oldest s.entries)) [
        | inl e ↦ rw e v
        | inr ((at, id), e) ↦ rw e (trim_from-Inv fuel (forget id s) (forget-Inv id s v))
      ])
    ]

pub store-Inv :
    {A : Type 0} (id : ℕ) (e : RegistryEntry) (s : RegistryState) (step : Stepped A)
    → find_entry id s.entries ≡ some e
    → Keeps e step
    → Inv s
    → Inv (store id s step).0
unfolding store trim_terminal_entries
store-Inv id e s (stays e' r) found k v = set_entry-Inv id e e' s found k.1 k.2 k.0 k.3 v
store-Inv id e s (ends e' r) found k v =
    trim_from-Inv _ _ (ended-Inv id e e' s found k.1 k.2 k.0 k.3 v)

pub on_entry-Inv :
    {A : Type 0} (id : ℕ) (step : RegistryEntry → Stepped A) (s : RegistryState)
    → ((e : RegistryEntry) → find_entry id s.entries ≡ some e → IsSound e → Keeps e (step e))
    → Inv s
    → Inv (on_entry id step s).0
unfolding on_entry
on_entry-Inv id step s keeps v = elim (Option-cases (find_entry id s.entries)) [
  | inl e ↦ rw (e, on_entry) v
  | inr (e, found) ↦
      rw (found, on_entry)
        (store-Inv id e s (step e) found
          (keeps e found (find_entry-All IsSound id s.entries v.sound found)) v)
]
