-- ===== src/Sse/Scanner.antt =====
-- src-tauri/src/ai/stream.rs: `BoundedSseSource`, which scans the bytes of a provider's answer
-- before the event parser stores them. Bytes are numbers below 256. A refused scan returns `err`
-- with no source, since the decoder never scans again after it.
use textbook_lens.Base.{
  ℕ, Bool, true, false, ◌&&◌, Option, none, some, List, [], ◌∷◌, ◌++◌, ltb, ◌==◌, if◌then◌else◌,
  length, Result, ok, err, ◌>>=◌, checked_add, saturating_add, usize_max,
}

pub record BoundedSseSource : Type 0 where
  pub line : List ℕ
  pub event_data_bytes : ℕ
  pub saw_data_field : Bool
  pub skip_lf_after_cr : Bool
  pub max_data_bytes : ℕ

-- `BoundedSourceError::DataTooLarge`
pub data ScanError : Type 0 where
  data_too_large : ScanError

-- `BoundedSseSource::new`
abbrev pub new_source : ℕ → BoundedSseSource
new_source bound = record {
  line = [];
  event_data_bytes = 0;
  saw_data_field = false;
  skip_lf_after_cr = false;
  max_data_bytes = bound;
}

-- `MAX_SSE_DATA_BYTES`
abbrev pub max_sse_data_bytes : ℕ
max_sse_data_bytes = 1048576

-- `b"data"`
abbrev pub data_name : List ℕ
data_name = 100 ∷ 97 ∷ 116 ∷ 97 ∷ []

-- `slice.strip_prefix(prefix)`
abbrev pub strip_prefix : List ℕ → List ℕ → Option (List ℕ)
strip_prefix [] xs = some xs
strip_prefix (p ∷ ps) [] = none
strip_prefix (p ∷ ps) (x ∷ xs) = if p == x then strip_prefix ps xs else none

-- `value.strip_prefix(b" ").unwrap_or(value)`
abbrev pub strip_space : List ℕ → List ℕ
strip_space [] = []
strip_space (x ∷ xs) = if x == b' ' then xs else x ∷ xs

-- Whether two byte strings are equal.
abbrev pub same_bytes : List ℕ → List ℕ → Bool
same_bytes [] [] = true
same_bytes [] (y ∷ ys) = false
same_bytes (x ∷ xs) [] = false
same_bytes (x ∷ xs) (y ∷ ys) = x == y && same_bytes xs ys

-- `value_bytes` of `finish_line`: how many bytes the line adds to its event, if it is a data field.
unfoldable pub value_bytes : List ℕ → Option ℕ
value_bytes line =
    if same_bytes line data_name
    then some 0
    else elim (strip_prefix (data_name ++ b':' ∷ []) line) [
      | none ↦ none
      | some value ↦ some (length (strip_space value))
    ]

-- The two `checked_add` calls.
unfoldable pub grown : BoundedSseSource → ℕ → Option ℕ
grown s value =
    elim (checked_add usize_max s.event_data_bytes (if s.saw_data_field then 1 else 0)) [
      | none ↦ none
      | some len ↦ checked_add usize_max len value
    ]

unfoldable pub count_value : BoundedSseSource → Option ℕ → Result ScanError BoundedSseSource
count_value s none = ok (record s { line = [] })
count_value s (some value) = elim (grown s value) [
  | none ↦ err data_too_large
  | some total ↦
      if ltb s.max_data_bytes total
      then err data_too_large
      else ok (record s { line = []; event_data_bytes = total; saw_data_field = true })
]

unfoldable pub finish_line : BoundedSseSource → List ℕ → Result ScanError BoundedSseSource
finish_line s [] = ok (record s { event_data_bytes = 0; saw_data_field = false })
finish_line s (b ∷ bs) = count_value s (value_bytes (b ∷ bs))

-- `self.line.push(byte)` and the length test.
unfoldable pub push_byte : BoundedSseSource → ℕ → Result ScanError BoundedSseSource
push_byte s byte =
    let line' = s.line ++ byte ∷ [] in
    if ltb (saturating_add usize_max s.max_data_bytes 6) (length line')
    then err data_too_large
    else ok (record s { line = line' })

-- The `match byte` of `scan_chunk`.
unfoldable pub scan_plain : BoundedSseSource → ℕ → Result ScanError BoundedSseSource
scan_plain s byte =
    if byte == b'\r'
    then (do t ← finish_line s s.line; ok (record t { skip_lf_after_cr = true }))
    else if byte == b'\n'
    then finish_line s s.line
    else push_byte s byte

unfoldable pub scan_byte : BoundedSseSource → ℕ → Result ScanError BoundedSseSource
scan_byte s byte =
    if s.skip_lf_after_cr && byte == b'\n'
    then ok (record s { skip_lf_after_cr = false })
    else scan_plain (record s { skip_lf_after_cr = false }) byte

unfoldable pub scan_chunk : BoundedSseSource → List ℕ → Result ScanError BoundedSseSource
scan_chunk s [] = ok s
scan_chunk s (byte ∷ chunk) = scan_byte s byte >>= λ t. scan_chunk t chunk
