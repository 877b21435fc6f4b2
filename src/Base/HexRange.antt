-- ===== src/Base/HexRange.antt =====
-- The values that hexadecimal digits parse as.
use asense.Base.Text.{Bytes}
use asense.Base.Hex.{Color, IsByteColor, hex_value, hex_pair, place, channels, parse_color}
use Prim.Native.Nat.{ℕ, ◌≤◌}
use mathlib.Core.Path.{◌≡◌, refl, subst}
use mathlib.Core.Option.{Option, none, some}
use mathlib.Core.List.{[], ◌∷◌}
use native.Mathlib.Omega.{arith}

hex_value-bounded : (c d : ℕ) → hex_value c ≡ some d → d ≤ 15
unfolding hex_value
hex_value-bounded c d h = ground (arith, h)

place-bounded :
    (high low : Option ℕ) (n : ℕ)
    → ((d : ℕ) → high ≡ some d → d ≤ 15)
    → ((d : ℕ) → low ≡ some d → d ≤ 15)
    → place high low ≡ some n
    → n ≤ 255
place-bounded none low n h k e = ground (arith, e)
place-bounded (some high) none n h k e = ground (arith, e)
place-bounded (some high) (some low) n h k e =
    let above : high ≤ 15 = h high refl in
    let below : low ≤ 15 = k low refl in ground (arith, e, above, below)

hex_pair-bounded : (a b n : ℕ) → hex_pair a b ≡ some n → n ≤ 255
unfolding hex_pair
hex_pair-bounded a b n h =
    place-bounded (hex_value a) (hex_value b) n (hex_value-bounded a) (hex_value-bounded b) h

channels-IsByteColor :
    (red green blue : Option ℕ) (c : Color)
    → ((n : ℕ) → red ≡ some n → n ≤ 255)
    → ((n : ℕ) → green ≡ some n → n ≤ 255)
    → ((n : ℕ) → blue ≡ some n → n ≤ 255)
    → channels red green blue ≡ some c
    → IsByteColor c
channels-IsByteColor none green blue c r g b e = ground (arith, e)
channels-IsByteColor (some red) none blue c r g b e = ground (arith, e)
channels-IsByteColor (some red) (some green) none c r g b e = ground (arith, e)
channels-IsByteColor (some red) (some green) (some blue) c r g b e =
    let same : (red, green, blue) ≡ c = cc in
    subst IsByteColor same (r red refl, g green refl, b blue refl)

-- a colour that parses has bytes as its channels
pub parse_color-IsByteColor : (s : Bytes) (c : Color) → parse_color s ≡ some c → IsByteColor c
unfolding parse_color
parse_color-IsByteColor [] c h = ground (arith, h)
parse_color-IsByteColor (x1 ∷ []) c h = ground (arith, h)
parse_color-IsByteColor (x1 ∷ x2 ∷ []) c h = ground (arith, h)
parse_color-IsByteColor (x1 ∷ x2 ∷ x3 ∷ []) c h = ground (arith, h)
parse_color-IsByteColor (x1 ∷ x2 ∷ x3 ∷ x4 ∷ []) c h = ground (arith, h)
parse_color-IsByteColor (x1 ∷ x2 ∷ x3 ∷ x4 ∷ x5 ∷ []) c h = ground (arith, h)
parse_color-IsByteColor (x1 ∷ x2 ∷ x3 ∷ x4 ∷ x5 ∷ x6 ∷ []) c h =
    channels-IsByteColor (hex_pair x1 x2) (hex_pair x3 x4) (hex_pair x5 x6) c
      (hex_pair-bounded x1 x2) (hex_pair-bounded x3 x4) (hex_pair-bounded x5 x6) h
parse_color-IsByteColor (x1 ∷ x2 ∷ x3 ∷ x4 ∷ x5 ∷ x6 ∷ x7 ∷ s) c h = ground (arith, h)
