-- ===== src/Sse/Format.antt =====
-- The event-stream format, as far as src-tauri/src/ai/stream.rs relies on it: what a conforming parser
-- stores of the lines of the first event of a stream. Written from the format alone, without the
-- scanner.
use textbook_lens.Base.{
  ℕ, ◌≡◌, Bool, false, ◌&&◌, Option, none, some, List, [], ◌∷◌, ◌++◌, arith, ◌==◌, drop,
  if◌then◌else◌,
}

-- One space in front of a value does not belong to it.
abbrev pub without_space : List ℕ → List ℕ
without_space [] = []
without_space (b ∷ l) = if b == 0x20 then l else b ∷ l

-- A line is split at its first colon into a field name and a value; without a colon it is a name.
abbrev pub split_field : List ℕ → List ℕ × List ℕ
split_field [] = ([], [])
split_field (b ∷ l) =
    let rest = split_field l in if b == 0x3a then ([], without_space l) else (b ∷ rest.0, rest.1)

-- The name `data`
abbrev pub names_data : List ℕ → Bool
names_data (a ∷ b ∷ c ∷ d ∷ []) = a == 0x64 && b == 0x61 && c == 0x74 && d == 0x61
names_data _ = false

-- The value of a line that is a data field.
abbrev pub field_value : List ℕ → Option (List ℕ)
field_value l = let (name, value) = split_field l in if names_data name then some value else none

-- The data buffer takes each value on a line of its own.
abbrev pub append_value : Option (List ℕ) → Option (List ℕ) → Option (List ℕ)
append_value buffer none = buffer
append_value none (some v) = some v
append_value (some b) (some v) = some (b ++ 0x0a ∷ v)

abbrev pub data_buffer_from : Option (List ℕ) → List (List ℕ) → Option (List ℕ)
data_buffer_from buffer [] = buffer
data_buffer_from buffer (l ∷ ls) = data_buffer_from (append_value buffer (field_value l)) ls

-- A byte order mark at the front of the stream is dropped.
abbrev pub has_bom : List ℕ → Bool
has_bom (a ∷ b ∷ c ∷ l) = a == 0xef && b == 0xbb && c == 0xbf
has_bom _ = false

abbrev pub without_bom : List (List ℕ) → List (List ℕ)
without_bom [] = []
without_bom (l ∷ ls) = (if has_bom l then drop 3 l else l) ∷ ls

-- The data buffer after the lines of the first event.
abbrev pub data_buffer : List (List ℕ) → Option (List ℕ)
data_buffer ls = data_buffer_from none (without_bom ls)

-- The stream begins with a byte order mark.
abbrev pub begins_with_bom : List (List ℕ) → Bool
begins_with_bom [] = false
begins_with_bom (l ∷ ls) = has_bom l

pub without_bom-same : (ls : List (List ℕ)) → begins_with_bom ls ≡ false → without_bom ls ≡ ls
without_bom-same [] h = ground arith
without_bom-same (l ∷ ls) h = rw h
