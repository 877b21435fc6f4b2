-- ===== src/Base/Hex.antt =====
-- Hexadecimal digits: `{:02x}`, `{:x}` and `from_str_radix` with radix 16.
use asense.Base.Tests.{ltb, leb, ◌==◌, if◌then◌else◌, within, Bool-cases, Option-cases}
use asense.Base.Text.{Bytes, is_whitespace}
use asense.Base.Split.{Lacks, Solid}
use asense.Base.Lists.{All, All-append}
use Prim.Native.Nat.{ℕ, zero, suc, ◌+◌, ◌-◌, ◌*◌, ◌/◌, ◌%◌, ◌≤◌, ◌<◌}
use mathlib.Core.Path.{◌≡◌, ap, refl, ◌∙◌}
use mathlib.Core.Logic.{◌⊎◌, inl, inr}
use mathlib.Core.Bool.{true, false}
use mathlib.Core.Option.{Option, none, some}
use mathlib.Core.List.{[], ◌∷◌, ◌++◌}
use native.Mathlib.Omega.{arith}

-- the digits of `{:02x}`
abbrev pub hex_digit : ℕ → ℕ
hex_digit d = if ltb d 10 then 48 + d else 87 + d

abbrev pub hex_byte : ℕ → Bytes
hex_byte n = hex_digit (n / 16) ∷ hex_digit (n % 16) ∷ []

-- the value of a digit that passes `is_ascii_hexdigit`
unfoldable pub hex_value : ℕ → Option ℕ
hex_value c =
    if within 48 57 c
    then some (c - 48)
    else if within 97 102 c
    then some (c - 87)
    else if within 65 70 c
    then some (c - 55)
    else none

abbrev pub place : Option ℕ → Option ℕ → Option ℕ
place (some high) (some low) = some (high * 16 + low)
place _ _ = none

-- `u8::from_str_radix` of two hexadecimal digits
unfoldable pub hex_pair : ℕ → ℕ → Option ℕ
hex_pair a b = place (hex_value a) (hex_value b)

-- the three channels of a colour
abbrev pub Color : Type 0
Color = ℕ × ℕ × ℕ

abbrev pub hex_color : Color → Bytes
hex_color (r, g, b) = hex_byte r ++ hex_byte g ++ hex_byte b

abbrev pub channels : Option ℕ → Option ℕ → Option ℕ → Option Color
channels (some red) (some green) (some blue) = some (red, green, blue)
channels _ _ _ = none

-- a text of exactly six hexadecimal digits
unfoldable pub parse_color : Bytes → Option Color
parse_color (a ∷ b ∷ c ∷ d ∷ e ∷ f ∷ []) = channels (hex_pair a b) (hex_pair c d) (hex_pair e f)
parse_color _ = none

-- Each round is `checked_mul` by sixteen and `checked_add` of a digit.
scan_hex : ℕ → Bytes → ℕ → Option ℕ
scan_hex max [] n = some n
scan_hex max (c ∷ s) n = elim (hex_value c) [
  | none ↦ none
  | some d ↦
      let next = n * 16 + d in let rest = scan_hex max s next in if leb next max then rest else none
]

scan_hex_some : ℕ → Bytes → Option ℕ
unfolding scan_hex
scan_hex_some max [] = none
scan_hex_some max (c ∷ s) = scan_hex max (c ∷ s) 0

-- `from_str_radix(_, 16)` into an unsigned type with the greatest value `max`
unfoldable pub parse_hex : ℕ → Bytes → Option ℕ
unfolding scan_hex_some
parse_hex max [] = none
parse_hex max (c ∷ s) = if c == 43 then scan_hex_some max s else scan_hex_some max (c ∷ s)

hex_value-hex_digit : (d : ℕ) → d < 16 → hex_value (hex_digit d) ≡ some d
unfolding hex_value
hex_value-hex_digit d h = ground (arith, h)

hex_digit-lacks : (d : ℕ) → d < 16 → (hex_digit d == 44) ≡ false
hex_digit-lacks d h = ground (arith, h)

hex_pair-hex_byte : (n : ℕ) → n ≤ 255 → hex_pair (hex_digit (n / 16)) (hex_digit (n % 16)) ≡ some n
unfolding hex_pair
hex_pair-hex_byte n h =
    let high = hex_value-hex_digit (n / 16) (omega arith) in
    let low = hex_value-hex_digit (n % 16) (omega arith) in rw (high, low) (ap some (omega arith))

hex_byte-Lacks : (n : ℕ) → n ≤ 255 → Lacks 44 (hex_byte n)
hex_byte-Lacks n h =
    (hex_digit-lacks (n / 16) (omega arith), (hex_digit-lacks (n % 16) (omega arith), tt))

-- whether each channel fits a byte
abbrev pub IsByteColor : Color → Type 0
IsByteColor (r, g, b) = (r ≤ 255) × (g ≤ 255) × (b ≤ 255)

pub parse_color-hex_color : (c : Color) → IsByteColor c → parse_color (hex_color c) ≡ some c
unfolding parse_color
parse_color-hex_color (r, g, b) (hr, hg, hb) =
    let red = hex_pair-hex_byte r hr in
    let green = hex_pair-hex_byte g hg in
    let blue = hex_pair-hex_byte b hb in rw (red, green, blue) refl

pub hex_color-Lacks : (c : Color) → IsByteColor c → Lacks 44 (hex_color c)
hex_color-Lacks (r, g, b) (hr, hg, hb) =
    All-append (λ c. (c == 44) ≡ false) (hex_byte r) (hex_byte g ++ hex_byte b)
      (hex_byte-Lacks r hr)
      (All-append (λ c. (c == 44) ≡ false) (hex_byte g) (hex_byte b) (hex_byte-Lacks g hg)
        (hex_byte-Lacks b hb))

-- The digits of `n` before `out`; a number has fewer digits than `n + 1`.
hex_digits : ℕ → ℕ → Bytes → Bytes
hex_digits zero n out = out
hex_digits (suc fuel) n out =
    let more = hex_digits fuel (n / 16) (hex_digit (n % 16) ∷ out) in
    if ltb n 16 then hex_digit n ∷ out else more

-- `{:x}`
unfoldable pub hexadecimal : ℕ → Bytes
unfolding hex_digits
hexadecimal n = hex_digits (suc n) n []

scan_hex-digit :
    (max n d : ℕ) (out : Bytes)
    → d < 16
    → n * 16 + d ≤ max
    → scan_hex max (hex_digit d ∷ out) n ≡ scan_hex max out (n * 16 + d)
unfolding scan_hex
scan_hex-digit max n d out h k =
    let fits : leb (n * 16 + d) max ≡ true = ground arith in
    rw (hex_value-hex_digit d h, scan_hex) (rw fits refl)

scan_hex-digits :
    (max fuel n : ℕ) (out : Bytes)
    → n < fuel
    → n ≤ max
    → scan_hex max (hex_digits fuel n out) 0 ≡ scan_hex max out n
unfolding hex_digits
scan_hex-digits max zero n out h k = elim h [ ]
scan_hex-digits max (suc fuel) n out h k = elim (Bool-cases (ltb n 16)) [
  | inl small ↦ rw small (
      scan_hex-digit max 0 n out (ground arith) (omega arith) ∙ ap (scan_hex max out) (omega arith))
  | inr large ↦ rw large (
      scan_hex-digits max fuel (n / 16) (hex_digit (n % 16) ∷ out) (ground arith) (omega arith)
      ∙ scan_hex-digit max (n / 16) (n % 16) out (omega arith) (omega arith)
      ∙ ap (scan_hex max out) (omega arith))
]

-- a digit in lower case
abbrev pub IsHexDigit : ℕ → Type 0
IsHexDigit c = ((48 ≤ c) × (c ≤ 57)) ⊎ ((97 ≤ c) × (c ≤ 102))

hex_digit-IsHexDigit : (d : ℕ) → d < 16 → IsHexDigit (hex_digit d)
hex_digit-IsHexDigit d h = elim (Bool-cases (ltb d 10)) [
  | inl e ↦ rw e (inl (ground arith, ground arith))
  | inr e ↦ rw e (inr (ground arith, ground arith))
]

hex_digits-IsHexDigit :
    (fuel n : ℕ) (out : Bytes) → All IsHexDigit out → All IsHexDigit (hex_digits fuel n out)
unfolding hex_digits
hex_digits-IsHexDigit zero n out h = h
hex_digits-IsHexDigit (suc fuel) n out h = elim (Bool-cases (ltb n 16)) [
  | inl small ↦ rw small (hex_digit-IsHexDigit n (ground arith), h)
  | inr large ↦ rw large (
      hex_digits-IsHexDigit fuel (n / 16) (hex_digit (n % 16) ∷ out)
        (hex_digit-IsHexDigit (n % 16) (omega arith), h))
]

pub hexadecimal-IsHexDigit : (n : ℕ) → All IsHexDigit (hexadecimal n)
unfolding hexadecimal
hexadecimal-IsHexDigit n = hex_digits-IsHexDigit (suc n) n [] tt

parse_hex-unsigned :
    (max : ℕ) (s : Bytes) → All IsHexDigit s → ¬ (s ≡ []) → parse_hex max s ≡ scan_hex max s 0
unfolding parse_hex scan_hex_some
parse_hex-unsigned max [] h some_digit = absurd (some_digit refl)
parse_hex-unsigned max (c ∷ s) (h, hs) some_digit =
    let unsigned : c == 43 ≡ false = ground (arith, h) in rw unsigned refl

hex_digits-out : (fuel n : ℕ) (out : Bytes) → n < fuel → ¬ (hex_digits fuel n out ≡ [])
unfolding hex_digits
hex_digits-out zero n out h = elim h [ ]
hex_digits-out (suc fuel) n out h = elim (Bool-cases (ltb n 16)) [
  | inl small ↦ rw small (λ e. cc)
  | inr large ↦ rw large (hex_digits-out fuel (n / 16) (hex_digit (n % 16) ∷ out) (ground arith))
]

-- Every number within the type's range is read back from its hexadecimal digits.
pub parse_hex-hexadecimal : (max n : ℕ) → n ≤ max → parse_hex max (hexadecimal n) ≡ some n
unfolding hexadecimal scan_hex
parse_hex-hexadecimal max n h =
    parse_hex-unsigned max (hexadecimal n) (hexadecimal-IsHexDigit n)
      (hex_digits-out (suc n) n [] (omega arith))
    ∙ scan_hex-digits max (suc n) n [] (omega arith) h

scan_hex-bounded : (max : ℕ) (s : Bytes) (n m : ℕ) → n ≤ max → scan_hex max s n ≡ some m → m ≤ max
unfolding scan_hex
scan_hex-bounded max [] n m k h = ground (arith, h, k)
scan_hex-bounded max (c ∷ s) n m k h = elim (Option-cases (hex_value c)) [
  | inl e ↦ ground (arith, h, e)
  | inr (d, e) ↦ elim (Bool-cases (leb (n * 16 + d) max)) [
    | inl f ↦ scan_hex-bounded max s (n * 16 + d) m (ground (arith, f)) (kept d e f)
    | inr f ↦ ground (arith, h, e, f)
  ]
]
  where
    kept :
        (d : ℕ)
        → hex_value c ≡ some d
        → leb (n * 16 + d) max ≡ true
        → scan_hex max s (n * 16 + d) ≡ some m
    kept d e f = ground (arith, h, e, f)

scan_hex_some-bounded : (max : ℕ) (s : Bytes) (n : ℕ) → scan_hex_some max s ≡ some n → n ≤ max
unfolding scan_hex_some
scan_hex_some-bounded max [] n h = ground (arith, h)
scan_hex_some-bounded max (c ∷ s) n h = scan_hex-bounded max (c ∷ s) 0 n (omega arith) h

-- A number that is read is within the type's range.
pub parse_hex-bounded : (max : ℕ) (s : Bytes) (n : ℕ) → parse_hex max s ≡ some n → n ≤ max
unfolding parse_hex
parse_hex-bounded max [] n h = ground (arith, h)
parse_hex-bounded max (c ∷ s) n h = elim (Bool-cases (c == 43)) [
  | inl e ↦ scan_hex_some-bounded max s n (rw e at h)
  | inr e ↦ scan_hex_some-bounded max (c ∷ s) n (rw e at h)
]

hex_digit-solid : (d : ℕ) → d < 16 → is_whitespace (hex_digit d) ≡ false
hex_digit-solid d h = ground (arith, h)

hex_byte-Solid : (n : ℕ) → n ≤ 255 → Solid (hex_byte n)
hex_byte-Solid n h =
    (hex_digit-solid (n / 16) (omega arith), (hex_digit-solid (n % 16) (omega arith), tt))

pub hex_color-Solid : (c : Color) → IsByteColor c → Solid (hex_color c)
hex_color-Solid (r, g, b) (hr, hg, hb) =
    All-append (λ c. is_whitespace c ≡ false) (hex_byte r) (hex_byte g ++ hex_byte b)
      (hex_byte-Solid r hr)
      (All-append (λ c. is_whitespace c ≡ false) (hex_byte g) (hex_byte b) (hex_byte-Solid g hg)
        (hex_byte-Solid b hb))
