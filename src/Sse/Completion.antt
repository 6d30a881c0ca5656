-- ===== src/Sse/Completion.antt =====
-- A completed answer and a cancelled one, for a client of `decode_sse` of
-- src-tauri/src/ai/stream.rs.
use textbook_lens.Base.{
  suc, ◌≤◌, ◌<◌, ◌≡◌, refl, ◌≢◌, ◌⊎◌, true, false, List, [], ◌∷◌, map, ap, arith, length, All,
  Result, ok, err,
}
use textbook_lens.Sse.Scanner.{max_sse_data_bytes}
use textbook_lens.Sse.Decoder.{
  UnifiedStreamEvent, AiErrorKind, cancelled, SseEvent, Item, parsed, Input, DecodeState, fresh,
  completion_count, ends_completed, continues, accept, take_mapped, receive, pop_or_wait, turn, run,
}

module _ {M : Type 0}
    (map_event : M → SseEvent → M × Result AiErrorKind (List UnifiedStreamEvent)) where
  drain :
      (is : List Input) (s : DecodeState M) (items : List Item)
      → s.terminal ≡ false
      → s.is_completed ≡ true
      → s.pending ≡ items
      → All (λ i. i.is_cancelled ≡ false) is
      → length items < length is
      → run map_event is s ≡ (items, true)
  unfolding run turn pop_or_wait
  drain [] s items t c p q h = absurd (omega arith)
  drain (i ∷ is) s [] t c p q h = ground arith
  drain (i ∷ is) s (x ∷ xs) t c p q h =
      ground (arith, drain is (record s { pending = xs }) xs t c refl q.1)

  length-ok : (es : List UnifiedStreamEvent) → length {A = Item} (map ok es) ≡ length es
  length-ok [] = refl
  length-ok (e ∷ es) = ap suc (length-ok es)

  -- The state behind a batch that completes the answer.
  abbrev closed : M → List UnifiedStreamEvent → DecodeState M
  closed m es = record (fresh m) { source = false; is_completed = true; pending = map ok es }

  take_last :
      (m : M) (r : M × Result AiErrorKind (List UnifiedStreamEvent)) (es : List UnifiedStreamEvent)
      → r.1 ≡ ok es
      → completion_count es ≡ 1
      → ends_completed es ≡ true
      → take_mapped map_event (fresh m) r ≡ continues (closed r.0 es)
  unfolding take_mapped accept
  take_last m (m', ok fs) es e one last = ground arith
  take_last m (m', err x) es e one last = cc

  -- An answer that the mapper completes is delivered whole: if the first event is within the size
  -- limit and is mapped to a batch whose last entry is its only completion, then the stream is
  -- exactly this batch in order and ends, provided that nobody cancels meanwhile and that there are
  -- enough turns.
  pub completed_batch_delivered :
      (i : Input) (is : List Input) (m : M) (ev : SseEvent) (es : List UnifiedStreamEvent)
      → i.outcome ≡ parsed ev
      → length ev.payload ≤ max_sse_data_bytes
      → (map_event m ev).1 ≡ ok es
      → completion_count es ≡ 1
      → ends_completed es ≡ true
      → All (λ i. i.is_cancelled ≡ false) (i ∷ is)
      → length es < length is
      → run map_event (i ∷ is) (fresh m) ≡ (map ok es, true)
  unfolding run
  completed_batch_delivered i is m ev es o small r one last q h =
      let first : turn map_event i (fresh m) ≡ continues (closed (map_event m ev).0 es) =
        unfold turn pop_or_wait receive in
        ground (arith, take_last m (map_event m ev) es r one last) in
      rw (first, run)
        (drain is (closed (map_event m ev).0 es) (map ok es) refl refl refl q.1
          (omega (arith, length-ok es)))

  -- Cancellation wins: at a turn that sees the token cancelled, a stream that has not ended drops
  -- all that is pending, yields the cancellation and nothing more.
  pub cancellation_wins :
      (i : Input) (is : List Input) (s : DecodeState M)
      → s.terminal ≡ false
      → (s.is_completed ≡ false) ⊎ (s.pending ≢ [])
      → i.is_cancelled ≡ true
      → (run map_event (i ∷ is) s).0 ≡ err cancelled ∷ []
  unfolding run turn
  cancellation_wins i [] s t p c = ground arith
  cancellation_wins i (j ∷ is) s t p c = ground arith
