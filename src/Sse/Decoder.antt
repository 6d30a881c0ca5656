-- ===== src/Sse/Decoder.antt =====
-- src-tauri/src/ai/stream.rs: `decode_sse`. The mapper of a provider is a parameter, and what the
-- event parser, the clock and the token report is an input: each turn of the loop reads whether the
-- token is cancelled, and waits for one outcome unless it returns first.
use textbook_lens.Base.{
  ℕ, ◌+◌, Bool, true, false, not, ◌&&◌, ◌||◌, Option, List, [], ◌∷◌, ◌++◌, map, ltb, ◌==◌,
  if◌then◌else◌, length, is_empty, Result, ok, err,
}
use textbook_lens.Sse.Scanner.{max_sse_data_bytes}

-- src-tauri/src/domain/provider.rs; texts are their bytes.
pub data UnifiedStreamEvent : Type 0 where
  text_delta : List ℕ → UnifiedStreamEvent
  usage : Option ℕ → Option ℕ → UnifiedStreamEvent
  completed : UnifiedStreamEvent

-- src-tauri/src/ai/error.rs
pub data AiErrorKind : Type 0 where
  invalid_input network_offline invalid_api_key model_not_found : AiErrorKind
  provider_permission_denied provider_region_restricted rate_limited : AiErrorKind
  insufficient_quota context_too_large provider_refused : AiErrorKind
  provider_unavailable cancelled : AiErrorKind

-- `AiError::malformed_event`
abbrev pub malformed_event : AiErrorKind
malformed_event = provider_unavailable

-- `AiError::unexpected_eof`
abbrev pub unexpected_eof : AiErrorKind
unexpected_eof = provider_unavailable

pub record SseEvent : Type 0 where
  pub event_type : List ℕ
  pub payload : List ℕ

abbrev pub Item : Type 0
Item = Result AiErrorKind UnifiedStreamEvent

-- `NextEvent`, with the result of the parser taken apart.
pub data NextEvent : Type 0 where
  stopped timed_out ended unreadable : NextEvent
  parsed : SseEvent → NextEvent

-- What a turn of the loop reads of its surroundings.
pub record Input : Type 0 where
  pub is_cancelled : Bool
  pub outcome : NextEvent

-- `source` says whether the source is still there.
pub record DecodeState (M : Type 0) : Type 0 where
  pub source : Bool
  pub mapper : M
  pub pending : List Item
  pub is_completed : Bool
  pub terminal : Bool

abbrev pub fresh : {M : Type 0} → M → DecodeState M
fresh m = record { source = true; mapper = m; pending = []; is_completed = false; terminal = false }

abbrev pub is_completion : UnifiedStreamEvent → Bool
is_completion completed = true
is_completion _ = false

-- `completion_count`
abbrev pub completion_count : List UnifiedStreamEvent → ℕ
completion_count [] = 0
completion_count (e ∷ es) =
    let rest = completion_count es in if is_completion e then rest + 1 else rest

-- `matches!(mapped.last(), Some(Completed))`
abbrev pub ends_completed : List UnifiedStreamEvent → Bool
ends_completed [] = false
ends_completed (e ∷ []) = is_completion e
ends_completed (e ∷ f ∷ es) = ends_completed (f ∷ es)

-- A turn of the loop returns `None`, returns an item, or goes round again.
pub data Turn (M : Type 0) : Type 0 where
  finished : DecodeState M → Turn M
  emits : Item → DecodeState M → Turn M
  continues : DecodeState M → Turn M

-- Drop the source and return an error.
abbrev pub fails : {M : Type 0} → AiErrorKind → DecodeState M → Turn M
fails e s = emits (err e) (record s { source = false; terminal = true })

-- The events that the mapper made of one parsed event.
unfoldable pub accept : {M : Type 0} → DecodeState M → List UnifiedStreamEvent → Turn M
accept s mapped =
    let count = completion_count mapped in
    let done = count == 1 && ends_completed mapped in
    if ltb 1 count || (count == 1 && not done)
    then fails malformed_event s
    else continues (record s {
      is_completed = s.is_completed || done;
      source = s.source && not done;
      pending = s.pending ++ map ok mapped;
    })

module _ {M : Type 0}
    (map_event : M → SseEvent → M × Result AiErrorKind (List UnifiedStreamEvent)) where
  -- The rest of the turn once the mapper has run.
  unfoldable pub take_mapped :
      DecodeState M → M × Result AiErrorKind (List UnifiedStreamEvent) → Turn M
  take_mapped s (m, err e) = fails e (record s { mapper = m })
  take_mapped s (m, ok mapped) = accept (record s { mapper = m }) mapped

  unfoldable pub receive : NextEvent → DecodeState M → Turn M
  receive stopped s = fails cancelled s
  receive timed_out s = fails provider_unavailable s
  receive ended s = fails unexpected_eof s
  receive unreadable s = fails malformed_event s
  receive (parsed event) s =
      if ltb max_sse_data_bytes (length event.payload)
      then fails provider_unavailable s
      else take_mapped s (map_event s.mapper event)

  -- `state.pending.pop_front()`, and the wait for an event where nothing is pending.
  unfoldable pub pop_or_wait : NextEvent → DecodeState M → List Item → Turn M
  pop_or_wait next s (item ∷ rest) = emits item (record s { pending = rest })
  pop_or_wait next s [] = receive next s

  unfoldable pub turn : Input → DecodeState M → Turn M
  turn i s =
      if s.terminal || (s.is_completed && is_empty s.pending)
      then finished (record s { source = false })
      else if i.is_cancelled
      then emits (err cancelled) (record s { pending = []; source = false; terminal = true })
      else pop_or_wait i.outcome s s.pending

  -- The items that the stream yields over these turns, and whether it has returned `None`.
  unfoldable pub run : List Input → DecodeState M → List Item × Bool
  run [] s = ([], false)
  run (i ∷ is) s = elim (turn i s) [
    | finished s' ↦ ([], true)
    | emits item s' ↦ (let (items, end) = run is s' in (item ∷ items, end))
    | continues s' ↦ run is s'
  ]
