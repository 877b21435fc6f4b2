-- ===== src/Base/Decimal.antt =====
-- Decimal numbers: `to_string` and `from_str` of Rust's unsigned integers.
use Prim.Native.Nat.{ℕ, zero, suc, ◌+◌, ◌-◌, ◌*◌, ◌/◌, ◌%◌, ◌≤◌, ◌<◌}
use mathlib.Core.Path.{◌≡◌, refl, ◌∙◌, ap}
use mathlib.Core.Logic.{inl, inr}
use mathlib.Core.Bool.{◌&&◌}
use mathlib.Core.Option.{Option, none, some}
use mathlib.Core.List.{[], ◌∷◌}
use native.Mathlib.Omega.{arith}
use asense.Base.Tests.{ltb, leb, ◌==◌, within, if◌then◌else◌, Bool-cases}
use asense.Base.Lists.{All}
use asense.Base.Text.{Bytes, codes}

-- The digits of `n` before `out`; a number has fewer digits than `n + 1`.
digits : ℕ → ℕ → Bytes → Bytes
digits zero n out = out
digits (suc fuel) n out =
    let more = digits fuel (n / 10) ((48 + n % 10) ∷ out) in
    if ltb n 10 then (48 + n) ∷ out else more

unfoldable pub decimal : ℕ → Bytes
unfolding digits
decimal n = digits (suc n) n []

-- Each round is `checked_mul` by ten and `checked_add` of a digit.
scan : ℕ → Bytes → ℕ → Option ℕ
scan max [] n = some n
scan max (c ∷ s) n =
    let next = n * 10 + (c - 48) in if within 48 57 c && leb next max then scan max s next else none

scan_some : ℕ → Bytes → Option ℕ
unfolding scan
scan_some max [] = none
scan_some max (c ∷ s) = scan max (c ∷ s) 0

-- `str::parse` into an unsigned type with the greatest value `max`: a leading `+` is allowed
unfoldable pub parse_uint : ℕ → Bytes → Option ℕ
unfolding scan_some
parse_uint max [] = none
parse_uint max (c ∷ s) = if c == 43 then scan_some max s else scan_some max (c ∷ s)

scan-digit :
    (max n d : ℕ) (out : Bytes)
    → d < 10
    → n * 10 + d ≤ max
    → scan max ((48 + d) ∷ out) n ≡ scan max out (n * 10 + d)
unfolding scan
scan-digit max n d out h k = let e : 48 + d - 48 ≡ d = omega arith in rw e (ground arith)

scan-digits :
    (max fuel n : ℕ) (out : Bytes)
    → n < fuel
    → n ≤ max
    → scan max (digits fuel n out) 0 ≡ scan max out n
unfolding digits
scan-digits max zero n out h k = elim h [ ]
scan-digits max (suc fuel) n out h k = elim (Bool-cases (ltb n 10)) [
  | inl small ↦ rw small (ground (arith, scan-digit max 0 n out))
  | inr large ↦ rw large (
      scan-digits max fuel (n / 10) ((48 + n % 10) ∷ out) (ground arith) (omega arith)
      ∙ scan-digit max (n / 10) (n % 10) out (omega arith) (omega arith)
      ∙ ap (scan max out) (omega arith))
]

-- whether a number's digits begin with a digit: they are never empty and never a sign
abbrev pub StartsWithDigit : Bytes → Type 0
StartsWithDigit [] = ⊥
StartsWithDigit (c ∷ s) = (48 ≤ c) × (c ≤ 57)

digits-StartsWithDigit : (fuel n : ℕ) (out : Bytes) → n < fuel → StartsWithDigit (digits fuel n out)
unfolding digits
digits-StartsWithDigit zero n out h = elim h [ ]
digits-StartsWithDigit (suc fuel) n out h = elim (Bool-cases (ltb n 10)) [
  | inl small ↦ rw small (ground arith)
  | inr large ↦ rw large (digits-StartsWithDigit fuel (n / 10) ((48 + n % 10) ∷ out) (ground arith))
]

pub decimal-StartsWithDigit : (n : ℕ) → StartsWithDigit (decimal n)
unfolding decimal
decimal-StartsWithDigit n = digits-StartsWithDigit (suc n) n [] (omega arith)

parse_uint-unsigned : (max : ℕ) (s : Bytes) → StartsWithDigit s → parse_uint max s ≡ scan max s 0
unfolding parse_uint
parse_uint-unsigned max [] h = absurd h
parse_uint-unsigned max (c ∷ s) h = ground arith

-- Every number within the type's range is read back from its digits.
pub parse_uint-decimal : (max n : ℕ) → n ≤ max → parse_uint max (decimal n) ≡ some n
unfolding decimal scan
parse_uint-decimal max n h =
    parse_uint-unsigned max (decimal n) (decimal-StartsWithDigit n)
    ∙ scan-digits max (suc n) n [] (omega arith) h

-- Every digit is a digit.
abbrev pub IsDigit : ℕ → Type 0
IsDigit c = (48 ≤ c) × (c ≤ 57)

digits-IsDigit : (fuel n : ℕ) (out : Bytes) → All IsDigit out → All IsDigit (digits fuel n out)
unfolding digits
digits-IsDigit zero n out h = h
digits-IsDigit (suc fuel) n out h = elim (Bool-cases (ltb n 10)) [
  | inl small ↦ rw small (ground arith, h)
  | inr large ↦
      rw large (digits-IsDigit fuel (n / 10) ((48 + n % 10) ∷ out) ((omega arith, omega arith), h))
]

pub decimal-IsDigit : (n : ℕ) → All IsDigit (decimal n)
unfolding decimal
decimal-IsDigit n = digits-IsDigit (suc n) n [] tt

parses :
    (parse_uint 255 (codes "255") ≡ some 255)
    × (parse_uint 255 (codes "256") ≡ none)
    × (parse_uint 255 (codes "+7") ≡ some 7)
    × (parse_uint 255 (codes "+") ≡ none)
    × (decimal 65535 ≡ codes "65535")
unfolding parse_uint decimal
parses = (refl, refl, refl, refl, refl)

scan-bounded : (max : ℕ) (s : Bytes) (n m : ℕ) → n ≤ max → scan max s n ≡ some m → m ≤ max
unfolding scan
scan-bounded max [] n m k h = ground (arith, h, k)
scan-bounded max (c ∷ s) n m k h =
    elim (Bool-cases (within 48 57 c && leb (n * 10 + (c - 48)) max)) [
      | inl e ↦ scan-bounded max s (n * 10 + (c - 48)) m (ground (arith, e)) (rw e at h)
      | inr e ↦ ground (arith, h, e)
    ]

scan_some-bounded : (max : ℕ) (s : Bytes) (n : ℕ) → scan_some max s ≡ some n → n ≤ max
unfolding scan_some
scan_some-bounded max [] n h = ground (arith, h)
scan_some-bounded max (c ∷ s) n h = scan-bounded max (c ∷ s) 0 n (omega arith) h

-- A number that is read is within the type's range.
pub parse_uint-bounded : (max : ℕ) (s : Bytes) (n : ℕ) → parse_uint max s ≡ some n → n ≤ max
unfolding parse_uint
parse_uint-bounded max [] n h = ground (arith, h)
parse_uint-bounded max (c ∷ s) n h = elim (Bool-cases (c == 43)) [
  | inl e ↦ scan_some-bounded max s n (rw e at h)
  | inr e ↦ scan_some-bounded max (c ∷ s) n (rw e at h)
]
