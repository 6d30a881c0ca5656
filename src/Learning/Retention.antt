-- ===== src/Learning/Retention.antt =====
-- How long src-tauri/src/learning/registry.rs keeps requests that have ended.
use textbook_lens.Base.{
  ℕ, zero, suc, ◌≤◌, ◌<◌, ◌≡◌, refl, ◌⊎◌, inl, inr, true, Option, none, some, List, [], ◌∷◌, arith,
  is_some, Bool-cases, Option-cases, leb, leb→le, length, subst,
}
use textbook_lens.Learning.Entry.{RegistryEntry}
use textbook_lens.Learning.Registry.{
  RegistryState, remove_entry, terminal_count, oldest, earlier, is_before, forget,
  release_conversation, trim_from, trim_terminal_entries, max_retained_terminal_requests,
}

-- An entry with this key has ended.
abbrev HasEnded : ℕ → List RegistryEntry → Type 0
HasEnded id [] = ⊥
HasEnded id (e ∷ es) = (e.request_id ≡ id) × (is_some e.terminal_at ≡ true) ⊎ HasEnded id es

remove_entry-le :
    (id : ℕ) (es : List RegistryEntry) → terminal_count (remove_entry id es) ≤ terminal_count es
remove_entry-le id [] = omega arith
remove_entry-le id (e ∷ es) = ground (arith, remove_entry-le id es)

remove_entry-lt :
    (id : ℕ) (es : List RegistryEntry)
    → HasEnded id es
    → terminal_count (remove_entry id es) < terminal_count es
remove_entry-lt id [] h = absurd h
remove_entry-lt id (e ∷ es) (inl h) = ground (arith, remove_entry-le id es)
remove_entry-lt id (e ∷ es) (inr h) = ground (arith, remove_entry-lt id es h)

-- The oldest is one that has ended, and there is one if any has.
abbrev IsOldestOf : List RegistryEntry → Option (ℕ × ℕ) → Type 0
IsOldestOf es none = terminal_count es ≡ 0
IsOldestOf es (some (at, id)) = HasEnded id es

earlier-cases :
    (at : Option ℕ) (id : ℕ) (best : Option (ℕ × ℕ))
    → ((at ≡ none) × (earlier at id best ≡ best))
      ⊎ ((is_some at ≡ true) × (earlier at id best ≡ best) × (is_some best ≡ true))
      ⊎ ((is_some at ≡ true) × ((t : ℕ) × (earlier at id best ≡ some (t, id))))
earlier-cases none id best = inl (refl, refl)
earlier-cases (some t) id none = inr (inr (refl, (t, refl)))
earlier-cases (some t) id (some k) = elim (Bool-cases (is_before k (t, id))) [
  | inl h ↦ rw h (inr (inl (refl, refl, refl)))
  | inr h ↦ rw h (inr (inr (refl, (t, refl))))
]

IsOldestOf-cons_old :
    (e : RegistryEntry) (es : List RegistryEntry) (best : Option (ℕ × ℕ))
    → (e.terminal_at ≡ none) ⊎ (is_some best ≡ true)
    → IsOldestOf es best
    → IsOldestOf (e ∷ es) best
IsOldestOf-cons_old e es none (inl h) o = rw h (omega (arith, o))
IsOldestOf-cons_old e es none (inr h) o = cc
IsOldestOf-cons_old e es (some k) h o = inr o

oldest-IsOldestOf : (es : List RegistryEntry) → IsOldestOf es (oldest es)
oldest-IsOldestOf [] = refl
oldest-IsOldestOf (e ∷ es) = elim (earlier-cases e.terminal_at e.request_id (oldest es)) [
  | inl (none_yet, same) ↦
      rw same (IsOldestOf-cons_old e es (oldest es) (inl none_yet) (oldest-IsOldestOf es))
  | inr (inl (over, same, some_best)) ↦
      rw same (IsOldestOf-cons_old e es (oldest es) (inr some_best) (oldest-IsOldestOf es))
  | inr (inr (over, (t, same))) ↦ rw same (inl (refl, over))
]

nothing_ended : (s : RegistryState) → oldest s.entries ≡ none → terminal_count s.entries ≡ 0
nothing_ended s e = subst (IsOldestOf s.entries) e (oldest-IsOldestOf s.entries)

forget-lt :
    (at id : ℕ) (s : RegistryState)
    → oldest s.entries ≡ some (at, id)
    → terminal_count (forget id s).entries < terminal_count s.entries
unfolding forget release_conversation
forget-lt at id s e =
    remove_entry-lt id s.entries (subst (IsOldestOf s.entries) e (oldest-IsOldestOf s.entries))

trim_from-le :
    (fuel : ℕ) (s : RegistryState)
    → terminal_count s.entries ≤ fuel
    → terminal_count (trim_from fuel s).entries ≤ max_retained_terminal_requests
unfolding trim_from
trim_from-le zero s h = omega arith
trim_from-le (suc fuel) s h =
    elim (Bool-cases (leb (terminal_count s.entries) max_retained_terminal_requests)) [
      | inl few ↦ rw few (leb→le _ _ few)
      | inr many ↦ rw many (elim (Option-cases (oldest s.entries)) [
        | inl e ↦ rw e (omega (arith, nothing_ended s e))
        | inr ((at, id), e) ↦
            rw e (trim_from-le fuel (forget id s) (omega (arith, h, forget-lt at id s e)))
      ])
    ]

terminal_count-le : (es : List RegistryEntry) → terminal_count es ≤ length es
terminal_count-le [] = omega arith
terminal_count-le (e ∷ es) = ground (arith, terminal_count-le es)

-- Trimming ends, and keeps at most 64 requests that have ended, however many there were.
pub trim_terminal_entries-le :
    (s : RegistryState)
    → terminal_count (trim_terminal_entries s).entries ≤ max_retained_terminal_requests
unfolding trim_terminal_entries
trim_terminal_entries-le s = trim_from-le (length s.entries) s (terminal_count-le s.entries)
