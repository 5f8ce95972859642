-- ===== src/Base/Text.antt =====
-- What the program uses of Python's `str`.
use Prim.Native.Nat.{ℕ}
use Prim.Native.String.{String, [], ◌∷◌}
use Prim.Native.Char.{Char, code}
use mathlib.Core.Bool.{Bool, true, false, ◌&&◌, ◌||◌}
use paper_rag.Base.Tests.{leb, nat_beq, if◌then◌else◌}

-- `c.isspace()`
abbrev pub is_space : ℕ → Bool
is_space n =
    (leb 9 n && leb n 13)
    || (leb 28 n && leb n 32)
    || nat_beq n 133
    || nat_beq n 160
    || nat_beq n 5760
    || (leb 8192 n && leb n 8202)
    || nat_beq n 8232
    || nat_beq n 8233
    || nat_beq n 8239
    || nat_beq n 8287
    || nat_beq n 12288

unfoldable pub lstrip : String → String
lstrip [] = []
lstrip (c ∷ s) = if is_space (code c) then lstrip s else c ∷ s

-- A space stays when something stays behind it.
abbrev pub keep_before : Char → String → String
keep_before c [] = if is_space (code c) then [] else c ∷ []
keep_before c (d ∷ s) = c ∷ d ∷ s

unfoldable pub rstrip : String → String
rstrip [] = []
rstrip (c ∷ s) = keep_before c (rstrip s)

unfoldable pub strip : String → String
unfolding lstrip rstrip
strip s = rstrip (lstrip s)

abbrev pub is_empty : String → Bool
is_empty [] = true
is_empty (c ∷ s) = false
