-- ===== src/Sse/Lines.antt =====
-- The scanner of src-tauri/src/ai/stream.rs against the data buffer of the event-stream format:
-- what a conforming parser above it would have to store for one event.
use textbook_lens.Base.{
  ℕ, ◌+◌, ◌≤◌, ◌≡◌, refl, ◌≢◌, inl, inr, Bool, true, false, ◌&&◌, Option, none, some, List, [], ◌∷◌,
  ◌++◌, arith, length, length-append, leb, le→leb, leb→le, if◌then◌else◌, all, All, ok, err, ◌>>=◌,
  usize_max, Bool-cases, ◌∙◌,
}
use mathlib.Core.List.{append_assoc, append-nil}
use textbook_lens.Sse.Format.{
  without_space, field_value, append_value, data_buffer_from, data_buffer, begins_with_bom,
  without_bom-same,
}
use textbook_lens.Sse.Scanner.{
  BoundedSseSource, data_too_large, new_source, strip_space, value_bytes, grown, count_value,
  finish_line, push_byte, scan_plain, scan_byte, scan_chunk,
}

abbrev pub buffered : Option (List ℕ) → ℕ
buffered none = 0
buffered (some b) = length b

abbrev is_buffered : Option (List ℕ) → Bool
is_buffered none = false
is_buffered (some b) = true

-- The lines as they are sent.
abbrev pub unlines : List (List ℕ) → List ℕ
unlines [] = []
unlines (l ∷ ls) = l ++ (b'\n' ∷ unlines ls)

-- A byte that ends no line.
abbrev pub IsPlain : ℕ → Type 0
IsPlain b = (b ≢ b'\n') × (b ≢ b'\r')

abbrev pub IsLine : List ℕ → Type 0
IsLine l = (l ≢ []) × All IsPlain l

-- The source between two lines of an event with this buffer.
abbrev pub between : ℕ → Option (List ℕ) → BoundedSseSource
between bound buffer = record (new_source bound) {
  event_data_bytes = buffered buffer;
  saw_data_field = is_buffered buffer;
}

push_plain :
    (bound : ℕ) (buffer : Option (List ℕ)) (pre : List ℕ) (b : ℕ)
    → bound + 6 ≤ usize_max
    → IsPlain b
    → scan_byte (record (between bound buffer) { line = pre }) b ≡ (
        if leb (length pre + 1) (bound + 6)
        then ok (record (between bound buffer) { line = pre ++ b ∷ [] })
        else err data_too_large)
unfolding scan_byte scan_plain push_byte
push_plain bound buffer pre b fits p = ground (arith, length-append pre (b ∷ []))

push_line :
    (bound : ℕ) (buffer : Option (List ℕ)) (pre l rest : List ℕ)
    → bound + 6 ≤ usize_max
    → length pre ≤ bound + 6
    → All IsPlain l
    → scan_chunk (record (between bound buffer) { line = pre }) (l ++ rest) ≡ (
        if leb (length pre + length l) (bound + 6)
        then scan_chunk (record (between bound buffer) { line = pre ++ l }) rest
        else err data_too_large)
unfolding scan_chunk
push_line bound buffer pre [] rest fits h p =
    rw (append-nil, le→leb (length pre + 0) (bound + 6) (omega arith))
push_line bound buffer pre (b ∷ l) rest fits h p =
    elim (Bool-cases (leb (length pre + 1) (bound + 6))) [
      | inl short ↦
          rw (push_plain bound buffer pre b fits p.0, short, ◌>>=◌)
            (push_line bound buffer (pre ++ b ∷ []) l rest fits
                (ground (arith, length-append pre (b ∷ []))) p.1
              ∙ rw (append_assoc pre (b ∷ []) l) (ground (arith, length-append pre (b ∷ []))))
      | inr long ↦ rw (push_plain bound buffer pre b fits p.0, long, ◌>>=◌) (ground arith)
    ]

strip_space-eq : (l : List ℕ) → strip_space l ≡ without_space l
strip_space-eq [] = refl
strip_space-eq (b ∷ l) = ground arith

value_bytes-eq :
    (l : List ℕ) → value_bytes l ≡ elim (field_value l) [ none ↦ none | some v ↦ some (length v) ]
unfolding value_bytes
value_bytes-eq [] = ground arith
value_bytes-eq (a ∷ []) = ground arith
value_bytes-eq (a ∷ b ∷ []) = ground arith
value_bytes-eq (a ∷ b ∷ c ∷ []) = ground arith
value_bytes-eq (a ∷ b ∷ c ∷ d ∷ []) = ground arith
value_bytes-eq (a ∷ b ∷ c ∷ d ∷ e ∷ l) = ground (arith, strip_space-eq l)

count_value_lem :
    (bound : ℕ) (buffer : Option (List ℕ)) (l : List ℕ) (value : Option (List ℕ))
    → bound + 6 ≤ usize_max
    → buffered buffer ≤ bound
    → let next = append_value buffer value in
      count_value
        (record (between bound buffer) { line = l })
        (elim value [ none ↦ none | some v ↦ some (length v) ])
      ≡ (if leb (buffered next) bound then ok (between bound next) else err data_too_large)
unfolding count_value grown
count_value_lem bound buffer l none fits h = ground arith
count_value_lem bound none l (some v) fits h = ground arith
count_value_lem bound (some b) l (some v) fits h = ground (arith, length-append b (b'\n' ∷ v))

finish_data :
    (bound : ℕ) (buffer : Option (List ℕ)) (l : List ℕ)
    → bound + 6 ≤ usize_max
    → buffered buffer ≤ bound
    → l ≢ []
    → let next = append_value buffer (field_value l) in
      finish_line (record (between bound buffer) { line = l }) l
      ≡ (if leb (buffered next) bound then ok (between bound next) else err data_too_large)
unfolding finish_line
finish_data bound buffer [] fits h p = absurd (p refl)
finish_data bound buffer (b ∷ l) fits h p =
    rw (value_bytes-eq (b ∷ l)) (count_value_lem bound buffer (b ∷ l) (field_value (b ∷ l)) fits h)

-- A full line from its first byte to its line feed.
scan_line :
    (bound : ℕ) (buffer : Option (List ℕ)) (l rest : List ℕ)
    → bound + 6 ≤ usize_max
    → buffered buffer ≤ bound
    → IsLine l
    → let next = append_value buffer (field_value l) in
      scan_chunk (between bound buffer) (l ++ (b'\n' ∷ rest)) ≡ (
        if leb (length l) (bound + 6) && leb (buffered next) bound
        then scan_chunk (between bound next) rest
        else err data_too_large)
unfolding scan_chunk scan_byte scan_plain
scan_line bound buffer l rest fits h p =
    push_line bound buffer [] l (b'\n' ∷ rest) fits (omega arith) p.1
    ∙ ground (arith, finish_data bound buffer l fits h p.0)

append_value_mono :
    (buffer value : Option (List ℕ)) → buffered buffer ≤ buffered (append_value buffer value)
append_value_mono buffer none = ground arith
append_value_mono none (some v) = omega arith
append_value_mono (some b) (some v) = omega (arith, length-append b (b'\n' ∷ v))

-- A buffer never shrinks.
buffered_mono :
    (buffer : Option (List ℕ)) (ls : List (List ℕ))
    → buffered buffer ≤ buffered (data_buffer_from buffer ls)
buffered_mono buffer [] = omega arith
buffered_mono buffer (l ∷ ls) = omega (
  arith,
  append_value_mono buffer (field_value l),
  buffered_mono (append_value buffer (field_value l)) ls,
)

scan_lines_from :
    (bound : ℕ) (buffer : Option (List ℕ)) (ls : List (List ℕ))
    → bound + 6 ≤ usize_max
    → buffered buffer ≤ bound
    → All IsLine ls
    → let final = data_buffer_from buffer ls in
      scan_chunk (between bound buffer) (unlines ls) ≡ (
        if all (λ l. leb (length l) (bound + 6)) ls && leb (buffered final) bound
        then ok (between bound final)
        else err data_too_large)
unfolding scan_chunk
scan_lines_from bound buffer [] fits h p = rw (le→leb (buffered buffer) bound h)
scan_lines_from bound buffer (l ∷ ls) fits h p =
    let next = append_value buffer (field_value l) in
    elim (Bool-cases (leb (buffered next) bound)) [
      | inl small ↦
          scan_line bound buffer l (unlines ls) fits h p.0
          ∙ ground (arith, scan_lines_from bound next ls fits (leb→le _ _ small) p.1)
      | inr large ↦
          scan_line bound buffer l (unlines ls) fits h p.0 ∙ ground (arith, buffered_mono next ls)
    ]

-- The scanner counts what the parser stores. For the lines of the first event of a stream that does
-- not begin with a byte order mark, sent with line feeds to a fresh scanner: the scan is refused if
-- and only if a line is longer than the limit and six bytes or the whole data buffer of the
-- event-stream format is longer than the limit; if it is accepted, the count is the length of the
-- data buffer. The limit and six must not be above the largest usize.
pub scan_counts_buffer :
    (bound : ℕ) (ls : List (List ℕ))
    → bound + 6 ≤ usize_max
    → All IsLine ls
    → begins_with_bom ls ≡ false
    → scan_chunk (new_source bound) (unlines ls) ≡ (
        if all (λ l. leb (length l) (bound + 6)) ls && leb (buffered (data_buffer ls)) bound
        then ok (between bound (data_buffer ls))
        else err data_too_large)
scan_counts_buffer bound ls fits p no_bom =
    rw (without_bom-same ls no_bom) (scan_lines_from bound none ls fits (omega arith) p)
