-- ===== src/Sse/Bounds.antt =====
-- The memory bound of the scanner of src-tauri/src/ai/stream.rs, and its independence of how the
-- network cuts the bytes into chunks.
use textbook_lens.Base.{
  ℕ, ◌+◌, ◌≤◌, ◌≡◌, inl, inr, false, List, [], ◌∷◌, arith, length, length-append, ok, ◌>>=◌,
  Result-cases, ◌∙◌,
}
use textbook_lens.Sse.Scanner.{
  BoundedSseSource, count_value, finish_line, push_byte, scan_plain, scan_byte, scan_chunk,
}

-- The scanner stores no more than one line and counts no more than one event.
pub record IsBounded (s : BoundedSseSource) : Type 0 where
  pub short_line : length s.line ≤ s.max_data_bytes + 6
  pub short_event : s.event_data_bytes ≤ s.max_data_bytes

finish_line-IsBounded :
    (s : BoundedSseSource) (line : List ℕ) {t : BoundedSseSource}
    → IsBounded s
    → finish_line s line ≡ ok t
    → IsBounded t × (t.max_data_bytes ≡ s.max_data_bytes)
unfolding finish_line count_value
finish_line-IsBounded s [] v e = ground arith
finish_line-IsBounded s (b ∷ bs) v e = ground arith

push_byte-IsBounded :
    (s : BoundedSseSource) (byte : ℕ) {t : BoundedSseSource}
    → IsBounded s
    → push_byte s byte ≡ ok t
    → IsBounded t × (t.max_data_bytes ≡ s.max_data_bytes)
unfolding push_byte
push_byte-IsBounded s byte v e = ground (arith, length-append s.line (byte ∷ []))

scan_plain-IsBounded :
    (s : BoundedSseSource) (byte : ℕ) {t : BoundedSseSource}
    → IsBounded s
    → scan_plain s byte ≡ ok t
    → IsBounded t × (t.max_data_bytes ≡ s.max_data_bytes)
unfolding scan_plain
scan_plain-IsBounded s byte {t} v e = elim (Result-cases (finish_line s s.line)) [
  | inl (u, f) ↦
      let (w, same) = finish_line-IsBounded s s.line v f in
      ground (arith, w, same, f, push_byte-IsBounded s byte {t = t} v)
  | inr (x, f) ↦ ground (arith, f, push_byte-IsBounded s byte {t = t} v)
]

scan_byte-IsBounded :
    (s : BoundedSseSource) (byte : ℕ) {t : BoundedSseSource}
    → IsBounded s
    → scan_byte s byte ≡ ok t
    → IsBounded t × (t.max_data_bytes ≡ s.max_data_bytes)
unfolding scan_byte
scan_byte-IsBounded s byte {t} v e =
    ground (arith, scan_plain-IsBounded (record s { skip_lf_after_cr = false }) byte {t = t})

-- A chunk is accepted only if its first byte is, and then the rest of it.
accepted_first :
    (s : BoundedSseSource) (byte : ℕ) (chunk : List ℕ) {t : BoundedSseSource}
    → scan_chunk s (byte ∷ chunk) ≡ ok t
    → (u : BoundedSseSource) × (scan_byte s byte ≡ ok u) × (scan_chunk u chunk ≡ ok t)
unfolding scan_chunk
accepted_first s byte chunk e = elim (Result-cases (scan_byte s byte)) [
  | inl (u, fine) ↦ (u, fine, rw (fine, ◌>>=◌) at e)
  | inr (f, bad) ↦ (let clash = rw (bad, ◌>>=◌) at e in cc)
]

-- However long the stream, after any chunk that is accepted the scanner holds at most six bytes
-- more than the limit, has counted at most the limit for the current event, and keeps its limit.
pub scan_chunk-IsBounded :
    (s : BoundedSseSource) (chunk : List ℕ) {t : BoundedSseSource}
    → IsBounded s
    → scan_chunk s chunk ≡ ok t
    → IsBounded t × (t.max_data_bytes ≡ s.max_data_bytes)
unfolding scan_chunk
scan_chunk-IsBounded s [] v e = ground arith
scan_chunk-IsBounded s (byte ∷ chunk) {t} v e =
    let (u, first, rest) = accepted_first s byte chunk e in
    let (w, same) = scan_byte-IsBounded s byte v first in
    let (w', same') = scan_chunk-IsBounded u chunk w rest in (w', same' ∙ same)
