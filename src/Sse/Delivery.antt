-- ===== src/Sse/Delivery.antt =====
-- What a client of `decode_sse` of src-tauri/src/ai/stream.rs sees: the shape of the stream.
use textbook_lens.Base.{
  ◌<◌, ◌≡◌, refl, ◌≢◌, ◌⊎◌, inl, inr, Bool, true, false, List, [], ◌∷◌, map, arith, length, ltb,
  All, Result, ok, err, Bool-cases,
}
use textbook_lens.Sse.Scanner.{max_sse_data_bytes}
use textbook_lens.Sse.Decoder.{
  UnifiedStreamEvent, text_delta, usage, completed, AiErrorKind, SseEvent, Item, NextEvent, parsed,
  Input, DecodeState, fresh, is_completion, completion_count, ends_completed, Turn, finished, emits,
  continues, accept, take_mapped, receive, pop_or_wait, turn, run,
}

-- An item after which nothing follows: an error, or the completion.
abbrev pub is_final : Item → Bool
is_final (ok e) = is_completion e
is_final (err e) = true

-- A stream that has returned `None` (`end`) or may go on: plain items, then at most one final item,
-- which is the last; it has returned `None` only behind a final item.
abbrev pub IsStream : List Item → Bool → Type 0
IsStream [] end = end ≡ false
IsStream (x ∷ xs) end = elim (is_final x) [ true ↦ xs ≡ [] | false ↦ IsStream xs end ]

-- What may still come when the mapper has reported completion: plain items and the completion.
abbrev IsClosing : List Item → Type 0
IsClosing [] = ⊥
IsClosing (x ∷ []) = x ≡ ok completed
IsClosing (x ∷ y ∷ r) = (is_final x ≡ false) × IsClosing (y ∷ r)

closing_ne : (xs : List Item) → IsClosing xs → xs ≢ []
closing_ne [] h e = h
closing_ne (x ∷ xs) h e = cc

abbrev IsOpen : List Item → Type 0
IsOpen = All (λ x. is_final x ≡ false)

-- A decoder that has not yielded a final item.
abbrev IsLive : {M : Type 0} → DecodeState M → Type 0
IsLive s =
    (s.terminal ≡ false)
    × ((s.is_completed ≡ false) × IsOpen s.pending ⊎ (s.is_completed ≡ true) × IsClosing s.pending)

-- A decoder that has yielded one.
abbrev IsOver : {M : Type 0} → DecodeState M → Type 0
IsOver s = (s.terminal ≡ true) ⊎ ((s.is_completed ≡ true) × (s.pending ≡ []))

IsOpen-batch : (es : List UnifiedStreamEvent) → completion_count es ≡ 0 → IsOpen (map ok es)
IsOpen-batch [] h = tt
IsOpen-batch (text_delta t ∷ es) h = (refl, IsOpen-batch es h)
IsOpen-batch (usage a b ∷ es) h = (refl, IsOpen-batch es h)
IsOpen-batch (completed ∷ es) h = absurd (omega arith)

IsClosing-batch :
    (es : List UnifiedStreamEvent)
    → completion_count es ≡ 1
    → ends_completed es ≡ true
    → IsClosing (map ok es)
IsClosing-batch [] h e = cc
IsClosing-batch (text_delta t ∷ []) h e = cc
IsClosing-batch (usage a b ∷ []) h e = cc
IsClosing-batch (completed ∷ []) h e = refl
IsClosing-batch (text_delta t ∷ f ∷ es) h e = (refl, IsClosing-batch (f ∷ es) h e)
IsClosing-batch (usage a b ∷ f ∷ es) h e = (refl, IsClosing-batch (f ∷ es) h e)
IsClosing-batch (completed ∷ f ∷ es) h e = absurd (omega (arith, count_of_ends (f ∷ es) e))
  where
    count_of_ends :
        (es : List UnifiedStreamEvent) → ends_completed es ≡ true → 0 < completion_count es
    count_of_ends [] e = cc
    count_of_ends (text_delta t ∷ []) e = cc
    count_of_ends (usage a b ∷ []) e = cc
    count_of_ends (completed ∷ []) e = omega arith
    count_of_ends (text_delta t ∷ f ∷ es) e = count_of_ends (f ∷ es) e
    count_of_ends (usage a b ∷ f ∷ es) e = count_of_ends (f ∷ es) e
    count_of_ends (completed ∷ f ∷ es) e = omega arith

module _ {M : Type 0} where
  -- What a turn of a live decoder leads to.
  abbrev Leads : Turn M → Type 0
  Leads (finished s) = ⊥
  Leads (emits x s) = (is_final x ≡ true) × IsOver s ⊎ (is_final x ≡ false) × IsLive s
  Leads (continues s) = IsLive s

  accept-Leads :
      (s : DecodeState M) (es : List UnifiedStreamEvent)
      → s.terminal ≡ false
      → s.is_completed ≡ false
      → s.pending ≡ []
      → Leads (accept s es)
  unfolding accept
  accept-Leads s es t c p = ground (arith, IsOpen-batch es, IsClosing-batch es)

  take_mapped-Leads :
      (map_event : M → SseEvent → M × Result AiErrorKind (List UnifiedStreamEvent))
      (s : DecodeState M) (r : M × Result AiErrorKind (List UnifiedStreamEvent))
      → s.terminal ≡ false
      → s.is_completed ≡ false
      → s.pending ≡ []
      → Leads (take_mapped map_event s r)
  unfolding take_mapped
  take_mapped-Leads map_event s (m, err e) t c p = inl (refl, inl refl)
  take_mapped-Leads map_event s (m, ok es) t c p = accept-Leads (record s { mapper = m }) es t c p

module _ {M : Type 0}
    (map_event : M → SseEvent → M × Result AiErrorKind (List UnifiedStreamEvent)) where
  receive-Leads :
      (next : NextEvent) (s : DecodeState M)
      → s.terminal ≡ false
      → s.is_completed ≡ false
      → s.pending ≡ []
      → Leads (receive map_event next s)
  unfolding receive
  receive-Leads (parsed ev) s t c p =
      elim (Bool-cases (ltb max_sse_data_bytes (length ev.payload))) [
        | inl large ↦ rw large (inl (refl, inl refl))
        | inr small ↦ rw small (take_mapped-Leads map_event s (map_event s.mapper ev) t c p)
      ]
  receive-Leads _ s t c p = inl (refl, inl refl)

  pop-Leads :
      (next : NextEvent) (s : DecodeState M) (items : List Item)
      → s.pending ≡ items
      → IsLive s
      → Leads (pop_or_wait map_event next s items)
  unfolding pop_or_wait
  pop-Leads next s [] p v = ground (arith, receive-Leads next s, closing_ne s.pending)
  pop-Leads next s (x ∷ []) p v = ground arith
  pop-Leads next s (x ∷ y ∷ r) p v = ground arith

  turn-Leads : (i : Input) (s : DecodeState M) → IsLive s → Leads (turn map_event i s)
  unfolding turn
  turn-Leads i s v = elim v.1 [
    | inl c ↦ ground (arith, pop-Leads i.outcome s s.pending refl v)
    | inr c ↦ ground (arith, pop-Leads i.outcome s s.pending refl v, closing_ne s.pending c.1)
  ]

  over_run : (is : List Input) (s : DecodeState M) → IsOver s → (run map_event is s).0 ≡ []
  unfolding run turn
  over_run [] s o = refl
  over_run (i ∷ is) s o = ground arith

  live_turn :
      (i : Input) (is : List Input) (s : DecodeState M) (t : Turn M)
      → turn map_event i s ≡ t
      → Leads t
      → ((s' : DecodeState M)
          → IsLive s'
          → IsStream (run map_event is s').0 (run map_event is s').1)
      → IsStream (run map_event (i ∷ is) s).0 (run map_event (i ∷ is) s).1
  unfolding run
  live_turn i is s (finished s') e l rest = absurd l
  live_turn i is s (emits x s') e (inl (f, o)) rest =
      rw (e, run) (rw (f, IsStream) (over_run is s' o))
  live_turn i is s (emits x s') e (inr (f, v)) rest = rw (e, run) (rw (f, IsStream) (rest s' v))
  live_turn i is s (continues s') e v rest = rw (e, run) (rest s' v)

  live_run :
      (is : List Input) (s : DecodeState M)
      → IsLive s
      → IsStream (run map_event is s).0 (run map_event is s).1
  unfolding run
  live_run [] s v = refl
  live_run (i ∷ is) s v =
      live_turn i is s (turn map_event i s) refl (turn-Leads i s v) (live_run is)

  -- Whatever the provider, the clock and the token do, a decoded stream is plain items, then at most
  -- one error or completion, behind which nothing comes; and it never ends without one of the two.
  pub run-IsStream :
      (is : List Input) (m : M)
      → IsStream (run map_event is (fresh m)).0 (run map_event is (fresh m)).1
  run-IsStream is m = live_run is (fresh m) (refl, inl (refl, tt))
