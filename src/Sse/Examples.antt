-- ===== src/Sse/Examples.antt =====
-- Runs of the reader and of the decoder on short streams.
use textbook_lens.Base.{
  ℕ, ◌<◌, ◌≡◌, refl, inl, true, false, List, [], ◌∷◌, ◌++◌, arith, Result, ok, err, map, length,
  leb, all, ◌&&◌, if◌then◌else◌,
}
use textbook_lens.Sse.Scanner.{
  BoundedSseSource, ScanError, data_too_large, new_source, scan_chunk, scan_byte, scan_plain,
  push_byte, finish_line, value_bytes, count_value, grown,
}
use textbook_lens.Sse.Bounds.{IsBounded, scan_chunk-IsBounded}
use textbook_lens.Sse.Format.{data_buffer}
use textbook_lens.Sse.Lines.{IsPlain, unlines, buffered, between, scan_counts_buffer}
use textbook_lens.Sse.Decoder.{
  UnifiedStreamEvent, text_delta, completed, AiErrorKind, cancelled, SseEvent, Input, stopped,
  ended, parsed, fresh, run,
}
use textbook_lens.Sse.Delivery.{IsStream, run-IsStream}
use textbook_lens.Sse.Completion.{completed_batch_delivered, cancellation_wins}

-- `data:ab` and a line feed.
abbrev data_ab : List ℕ
data_ab = b'd' ∷ b'a' ∷ b't' ∷ b'a' ∷ b':' ∷ b'a' ∷ b'b' ∷ []

abbrev from_ok : Result ScanError BoundedSseSource → BoundedSseSource
from_ok (ok t) = t
from_ok (err e) = new_source 0

abbrev scanned : BoundedSseSource
scanned = from_ok (scan_chunk (new_source 3) (data_ab ++ (b'\n' ∷ [])))

scanned_count : scanned.event_data_bytes ≡ 2
unfolding scan_chunk scan_byte scan_plain push_byte finish_line value_bytes count_value grown
scanned_count = refl

scan_chunk-IsBounded_example : IsBounded scanned × (scanned.max_data_bytes ≡ 3)
unfolding scan_chunk scan_byte scan_plain push_byte finish_line value_bytes count_value grown
scan_chunk-IsBounded_example =
    scan_chunk-IsBounded (new_source 3) (data_ab ++ (b'\n' ∷ [])) {t = scanned}
      (record { short_line = omega arith; short_event = omega arith }) refl

IsPlain-byte : (b : ℕ) → 13 < b → IsPlain b
IsPlain-byte b h = (λ e. omega arith, λ e. omega arith)

scan_counts_buffer_example : scan_chunk (new_source 1) (unlines (data_ab ∷ [])) ≡ (
    if all (λ l. leb (length l) 7) (data_ab ∷ []) && leb (buffered (data_buffer (data_ab ∷ []))) 1
    then ok (between 1 (data_buffer (data_ab ∷ [])))
    else err data_too_large)
scan_counts_buffer_example =
    scan_counts_buffer 1 (data_ab ∷ []) (omega arith)
      (
        (
          λ e. cc,
          (
            IsPlain-byte _ (omega arith),
            (
              IsPlain-byte _ (omega arith),
              (
                IsPlain-byte _ (omega arith),
                (
                  IsPlain-byte _ (omega arith),
                  (
                    IsPlain-byte _ (omega arith),
                    (IsPlain-byte _ (omega arith), (IsPlain-byte _ (omega arith), tt)),
                  ),
                ),
              ),
            ),
          ),
        ),
        tt,
      )
      refl

-- A mapper of text that ends the answer at an event without a payload.
abbrev text_mapper : Unit {0} → SseEvent → Unit {0} × Result AiErrorKind (List UnifiedStreamEvent)
text_mapper m ev = (m, ok (text_delta ev.payload ∷ completed ∷ []))

abbrev event_ab : SseEvent
event_ab = record { event_type = []; payload = b'a' ∷ b'b' ∷ [] }

abbrev arrives : Input
arrives = record { is_cancelled = false; outcome = parsed event_ab }

abbrev quiet : Input
quiet = record { is_cancelled = false; outcome = ended }

abbrev stop : Input
stop = record { is_cancelled = true; outcome = stopped }

run-IsStream_example :
    IsStream
      (run text_mapper (arrives ∷ stop ∷ quiet ∷ []) (fresh tt)).0
      (run text_mapper (arrives ∷ stop ∷ quiet ∷ []) (fresh tt)).1
run-IsStream_example = run-IsStream text_mapper (arrives ∷ stop ∷ quiet ∷ []) tt

completed_batch_delivered_example :
    run text_mapper (arrives ∷ quiet ∷ quiet ∷ quiet ∷ []) (fresh tt)
    ≡ (map ok (text_delta (b'a' ∷ b'b' ∷ []) ∷ completed ∷ []), true)
completed_batch_delivered_example =
    completed_batch_delivered text_mapper arrives (quiet ∷ quiet ∷ quiet ∷ []) tt event_ab
      (text_delta (b'a' ∷ b'b' ∷ []) ∷ completed ∷ []) refl (omega arith) refl refl refl
      (refl, (refl, (refl, (refl, tt)))) (omega arith)

cancellation_wins_example : (run text_mapper (stop ∷ quiet ∷ []) (fresh tt)).0 ≡ err cancelled ∷ []
cancellation_wins_example =
    cancellation_wins text_mapper stop (quiet ∷ []) (fresh tt) refl (inl refl) refl
