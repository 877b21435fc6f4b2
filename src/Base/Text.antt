-- ===== src/Base/Text.antt =====
-- Text as the list of its bytes.
use Prim.Native.Char.{code}
use Prim.Native.String.{String}
use Prim.Native.Nat.{ℕ}
use mathlib.Core.Path.{◌≡◌, refl}
use mathlib.Core.Bool.{Bool, true, false, not, ◌&&◌, ◌||◌}
use mathlib.Core.Option.{Option, none, some}
use mathlib.Core.List.{List, [], ◌∷◌}
use native.Mathlib.Omega.{arith}
use asense.Base.Tests.{◌==◌, within, if◌then◌else◌}

abbrev pub Bytes : Type 0
Bytes = List ℕ

-- The code points of a literal, which are its bytes where the text is ASCII.
abbrev pub codes : String → Bytes
codes String.[] = []
codes (String.◌∷◌ c s) = code c ∷ codes s

abbrev pub text_eq : Bytes → Bytes → Bool
text_eq [] [] = true
text_eq [] (b ∷ t) = false
text_eq (a ∷ s) [] = false
text_eq (a ∷ s) (b ∷ t) = (a == b) && text_eq s t

pub text_eq_sound : (s t : Bytes) → text_eq s t ≡ true → s ≡ t
text_eq_sound [] [] h = ground arith
text_eq_sound [] (b ∷ t) h = ground arith
text_eq_sound (a ∷ s) [] h = ground arith
text_eq_sound (a ∷ s) (b ∷ t) h = ground (arith, text_eq_sound s t)

pub text_eq_refl : (s : Bytes) → text_eq s s ≡ true
text_eq_refl [] = ground arith
text_eq_refl (a ∷ s) = ground (arith, text_eq_refl s)

-- The ASCII part of `char::is_whitespace`: tab to carriage return, and the space.
abbrev pub is_whitespace : ℕ → Bool
is_whitespace c = within 9 13 c || c == 32

-- `u8::is_ascii_whitespace`, which leaves out the vertical tab
abbrev pub is_ascii_whitespace : ℕ → Bool
is_ascii_whitespace c = is_whitespace c && not (c == 11)

unfoldable pub trim_start : Bytes → Bytes
trim_start [] = []
trim_start (c ∷ s) = if is_whitespace c then trim_start s else c ∷ s

unfoldable pub trim_end : Bytes → Bytes
trim_end [] = []
trim_end (c ∷ s) = elim (trim_end s) [
  | [] ↦ if is_whitespace c then [] else c ∷ []
  | d ∷ t ↦ c ∷ d ∷ t
]

-- `str::trim`, on ASCII text
unfoldable pub trim : Bytes → Bytes
unfolding trim_start trim_end
trim s = trim_end (trim_start s)

-- `str::strip_prefix`
unfoldable pub strip_prefix : Bytes → Bytes → Option Bytes
strip_prefix [] s = some s
strip_prefix (p ∷ ps) [] = none
strip_prefix (p ∷ ps) (c ∷ s) = if p == c then strip_prefix ps s else none

-- puts a byte before the first piece
abbrev pub extend : ℕ → List Bytes → List Bytes
extend c [] = (c ∷ []) ∷ []
extend c (piece ∷ rest) = (c ∷ piece) ∷ rest

abbrev pub longer : ℕ → Option (Bytes × Bytes) → Option (Bytes × Bytes)
longer c none = none
longer c (some (before, after)) = some (c ∷ before, after)

-- a byte of a field goes before the next field only if no separator follows it
abbrev pub join_field : ℕ → Bytes → List Bytes → List Bytes
join_field c [] rest = (c ∷ []) ∷ rest
join_field c (b ∷ s) rest = if is_ascii_whitespace b then (c ∷ []) ∷ rest else extend c rest

-- `str::split` by one byte: one piece more than there are separators
unfoldable pub split : ℕ → Bytes → List Bytes
split sep [] = [] ∷ []
split sep (c ∷ s) = let rest = split sep s in if c == sep then [] ∷ rest else extend c rest

-- `str::split_once` by one byte
unfoldable pub split_once : ℕ → Bytes → Option (Bytes × Bytes)
split_once sep [] = none
split_once sep (c ∷ s) =
    let rest = split_once sep s in if c == sep then some ([], s) else longer c rest

-- a line without the carriage return before its end
abbrev pub strip_return : Bytes → Bytes
strip_return [] = []
strip_return (c ∷ []) = if c == 13 then [] else c ∷ []
strip_return (c ∷ d ∷ s) = c ∷ strip_return (d ∷ s)

-- the pieces between line feeds, the last one only if it is not empty
abbrev pub ended_lines : List Bytes → List Bytes
ended_lines [] = []
ended_lines ([] ∷ []) = []
ended_lines ((c ∷ s) ∷ []) = (c ∷ s) ∷ []
ended_lines (line ∷ next ∷ rest) = strip_return line ∷ ended_lines (next ∷ rest)

-- `str::lines`
unfoldable pub lines : Bytes → List Bytes
unfolding split
lines s = ended_lines (split 10 s)

-- `str::split_ascii_whitespace`: the runs of other bytes
unfoldable pub fields : Bytes → List Bytes
fields [] = []
fields (c ∷ s) = if is_ascii_whitespace c then fields s else join_field c s (fields s)

trims : trim (codes " \t a b\n") ≡ codes "a b"
unfolding trim
trims = refl

splits : split 44 (codes "a,,b") ≡ codes "a" ∷ [] ∷ codes "b" ∷ []
unfolding split
splits = refl

fields_split : fields (codes "  ab c\td ") ≡ codes "ab" ∷ codes "c" ∷ codes "d" ∷ []
unfolding fields
fields_split = refl

lines_split : lines (codes "a\n\nb\n") ≡ codes "a" ∷ [] ∷ codes "b" ∷ []
unfolding lines
lines_split = refl
