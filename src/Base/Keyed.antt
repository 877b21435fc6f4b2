-- ===== src/Base/Keyed.antt =====
-- Texts of `name=value` fields with spaces between them.
use asense.Base.Lists.{All}
use asense.Base.Text.{Bytes, fields}
use asense.Base.Split.{joined, Solid, decimal-Solid}
use asense.Base.Decimal.{decimal, StartsWithDigit, decimal-StartsWithDigit}
use Prim.Native.Nat.{ℕ}
use asense.Base.Fields.{
  Word, Word-Solid, is_word, is_word_sound, free_of, Word-append, fields-joined,
}
use mathlib.Core.Path.{◌≡◌, refl}
use mathlib.Core.Bool.{true, ◌&&◌}
use mathlib.Core.List.{List, [], ◌∷◌, ◌++◌}
use native.Mathlib.Omega.{arith}

-- `name=value` for each name
unfoldable pub tokens : List Bytes → List Bytes → List Bytes
tokens (name ∷ names) (value ∷ values) = (name ++ 61 ∷ value) ∷ tokens names values
tokens _ _ = []

abbrev pub spaced : List Bytes → Bytes
spaced [] = []
spaced (token ∷ more) = joined 32 token more

-- the names are words without an equals sign, the values are words, and they are as many
abbrev pub Pairs : List Bytes → List Bytes → Type 0
Pairs [] [] = Unit
Pairs (name ∷ names) (value ∷ values) =
    (is_word name && free_of 61 name ≡ true) × Word value × Pairs names values
Pairs _ _ = ⊥

field-Word : (name value : Bytes) → Word name → Word value → Word (name ++ 61 ∷ value)
field-Word name value h k = Word-append name (61 ∷ value) h (refl, Word-Solid value k)

pub tokens-Word : (names values : List Bytes) → Pairs names values → All Word (tokens names values)
unfolding tokens
tokens-Word [] [] h = tt
tokens-Word [] (value ∷ values) h = absurd h
tokens-Word (name ∷ names) [] h = absurd h
tokens-Word (name ∷ names) (value ∷ values) (n, v, rest) = (
  field-Word name value (is_word_sound name (ground (arith, n))) v,
  tokens-Word names values rest,
)

pub fields-spaced : (pieces : List Bytes) → All Word pieces → fields (spaced pieces) ≡ pieces
unfolding fields
fields-spaced [] h = refl
fields-spaced (piece ∷ more) (h, hs) = fields-joined piece more h hs

pub decimal-Word : (n : ℕ) → Word (decimal n)
decimal-Word n = starts (decimal n) (decimal-StartsWithDigit n) (decimal-Solid n)
  where
    starts : (s : Bytes) → StartsWithDigit s → Solid s → Word s
    starts [] h k = absurd h
    starts (c ∷ s) h k = k
