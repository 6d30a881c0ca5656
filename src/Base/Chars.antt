-- ===== src/Base/Chars.antt =====
-- Code points as numbers, with what Rust's `trim`, `is_control` and `len` say of them, written out from
-- the Unicode tables.
use Prim.Native.Nat.{ℕ, ◌+◌}
use mathlib.Core.Bool.{Bool, ◌&&◌, ◌||◌}
use mathlib.Core.List.{List, [], ◌∷◌}
use textbook_lens.Base.Tests.{ltb, leb, ◌==◌, if◌then◌else◌}

abbrev within : ℕ → ℕ → ℕ → Bool
within lo hi c = leb lo c && leb c hi

-- The property White_Space.
abbrev pub is_white_space : ℕ → Bool
is_white_space c =
    within 9 13 c
    || c == 32
    || c == 133
    || c == 160
    || c == 5760
    || within 8192 8202 c
    || c == 8232
    || c == 8233
    || c == 8239
    || c == 8287
    || c == 12288

-- The category Cc.
abbrev pub is_control : ℕ → Bool
is_control c = leb c 31 || within 127 159 c

-- The bytes of a code point in UTF-8.
abbrev pub len_utf8 : ℕ → ℕ
len_utf8 c = if ltb c 128 then 1 else if ltb c 2048 then 2 else if ltb c 65536 then 3 else 4

abbrev pub byte_length : List ℕ → ℕ
byte_length [] = 0
byte_length (c ∷ cs) = len_utf8 c + byte_length cs
