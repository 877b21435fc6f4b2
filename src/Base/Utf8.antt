-- ===== src/Base/Utf8.antt =====
-- `String::from_utf8`.
use asense.Base.Tests.{ltb, ◌==◌, if◌then◌else◌, within}
use asense.Base.Lists.{All}
use asense.Base.Text.{Bytes, codes, is_whitespace}
use Prim.Native.Nat.{ℕ, ◌-◌, ◌<◌}
use mathlib.Core.Path.{◌≡◌, refl, ap, sym, ◌∙◌}
use mathlib.Core.Bool.{Bool, true, false, ◌&&◌, ◌||◌}
use mathlib.Core.Option.{Option, none, some}
use mathlib.Core.List.{[], ◌∷◌, ◌++◌, append_assoc, reverse, reverse-append, reverse-reverse}
use native.Mathlib.Omega.{arith}

-- how many continuation bytes are missing, and the range of the next one
abbrev utf8_start : ℕ → Option (ℕ × ℕ × ℕ)
utf8_start c =
    if ltb c 128
    then some (0, 128, 191)
    else if within 194 223 c
    then some (1, 128, 191)
    else if c == 224
    then some (2, 160, 191)
    else if c == 237
    then some (2, 128, 159)
    else if within 225 239 c
    then some (2, 128, 191)
    else if c == 240
    then some (3, 144, 191)
    else if within 241 243 c
    then some (3, 128, 191)
    else if c == 244
    then some (3, 128, 143)
    else none

abbrev utf8_step : ℕ → ℕ → ℕ → ℕ → Option (ℕ × ℕ × ℕ)
utf8_step missing low high c =
    if missing == 0
    then utf8_start c
    else if within low high c
    then some (missing - 1, 128, 191)
    else none

unfoldable pub utf8_from : ℕ → ℕ → ℕ → Bytes → Bool
utf8_from missing low high [] = missing == 0
utf8_from missing low high (c ∷ s) = elim (utf8_step missing low high c) [
  | none ↦ false
  | some (m, l, h) ↦ utf8_from m l h s
]

unfoldable pub is_utf8 : Bytes → Bool
unfolding utf8_from
is_utf8 s = utf8_from 0 128 191 s

utf8_from-ascii : (low high : ℕ) (s : Bytes) → All (λ c. c < 128) s → utf8_from 0 low high s ≡ true
unfolding utf8_from
utf8_from-ascii low high [] h = refl
utf8_from-ascii low high (c ∷ s) (h, hs) =
    let plain : ltb c 128 ≡ true = ground (arith, h) in
    rw (plain, utf8_from) (utf8_from-ascii 128 191 s hs)

-- ASCII is UTF-8
pub is_utf8-ascii : (s : Bytes) → All (λ c. c < 128) s → is_utf8 s ≡ true
unfolding is_utf8
is_utf8-ascii s h = utf8_from-ascii 128 191 s h

-- the white space of `char::is_whitespace` beyond ASCII, which takes two or three bytes
abbrev white_pair : ℕ → ℕ → Bool
white_pair c d = c == 194 && (d == 133 || d == 160)

abbrev white_triple : ℕ → ℕ → ℕ → Bool
white_triple c d e =
    (c == 225 && d == 154 && e == 128)
    || (c == 226 && d == 128 && (within 128 138 e || e == 168 || e == 169 || e == 175))
    || (c == 226 && d == 129 && e == 159)
    || (c == 227 && d == 128 && e == 128)

-- a text without the white space that it begins with, given what white space is
strip_white : (ℕ → ℕ → Bool) → (ℕ → ℕ → ℕ → Bool) → Bytes → Bytes
strip_white pair triple [] = []
strip_white pair triple (c ∷ []) = if is_whitespace c then [] else c ∷ []
strip_white pair triple (c ∷ d ∷ []) =
    let one = strip_white pair triple (d ∷ []) in
    if is_whitespace c then one else if pair c d then [] else c ∷ d ∷ []
strip_white pair triple (c ∷ d ∷ e ∷ s) =
    let one = strip_white pair triple (d ∷ e ∷ s) in
    let two = strip_white pair triple (e ∷ s) in
    let three = strip_white pair triple s in
    if is_whitespace c
    then one
    else if pair c d
    then two
    else if triple c d e
    then three
    else c ∷ d ∷ e ∷ s

-- `str::trim` on any text that is UTF-8, from both ends
unfoldable pub trim_utf8 : Bytes → Bytes
unfolding strip_white
trim_utf8 s =
    let started = strip_white white_pair white_triple s in
    reverse (strip_white (λ d c. white_pair c d) (λ e d c. white_triple c d e) (reverse started))

trimmed :
    (trim_utf8 (194 ∷ 160 ∷ 32 ∷ 72 ∷ 73 ∷ 226 ∷ 128 ∷ 168 ∷ 13 ∷ []) ≡ codes "HI")
    × (trim_utf8 (72 ∷ 195 ∷ 160 ∷ []) ≡ 72 ∷ 195 ∷ 160 ∷ [])
    × (trim_utf8 (codes " a b ") ≡ codes "a b")
unfolding trim_utf8
trimmed = (refl, refl, refl)

-- a byte that is ASCII and no white space
abbrev pub Edge : ℕ → Type 0
Edge c = (is_whitespace c ≡ false) × (c < 128)

strip_white-same :
    (pair : ℕ → ℕ → Bool) (triple : ℕ → ℕ → ℕ → Bool) (c : ℕ) (s : Bytes)
    → is_whitespace c ≡ false
    → ((d : ℕ) → pair c d ≡ false)
    → ((d e : ℕ) → triple c d e ≡ false)
    → strip_white pair triple (c ∷ s) ≡ c ∷ s
unfolding strip_white
strip_white-same pair triple c [] h two three = rw h refl
strip_white-same pair triple c (d ∷ []) h two three = rw (h, two d) refl
strip_white-same pair triple c (d ∷ e ∷ s) h two three = rw (h, two d, three d e) refl

strip_start : (c : ℕ) (s : Bytes) → Edge c → strip_white white_pair white_triple (c ∷ s) ≡ c ∷ s
strip_start c s (solid, plain) =
    strip_white-same white_pair white_triple c s solid (λ d. ground (arith, plain))
      (λ d e. ground (arith, plain))

strip_back :
    (c : ℕ) (s : Bytes)
    → Edge c
    → strip_white (λ d c. white_pair c d) (λ e d c. white_triple c d e) (c ∷ s) ≡ c ∷ s
strip_back c s (solid, plain) =
    strip_white-same (λ d c. white_pair c d) (λ e d c. white_triple c d e) c s solid
      (λ d. ground (arith, plain)) (λ d e. ground (arith, plain))

-- a text that ends in such a byte
abbrev pub Ends : Bytes → Type 0
Ends s = (start : Bytes) × (last : ℕ) × (s ≡ start ++ last ∷ []) × Edge last

pub Ends-append : (s t : Bytes) → Ends t → Ends (s ++ t)
Ends-append s t (start, last, e, edge) =
    (s ++ start, last, ap (λ u. s ++ u) e ∙ sym (append_assoc s start (last ∷ [])), edge)

-- a text that begins and ends in such a byte is left as it is
pub trim_utf8-same : (c : ℕ) (s : Bytes) → Edge c → Ends (c ∷ s) → trim_utf8 (c ∷ s) ≡ c ∷ s
unfolding trim_utf8
trim_utf8-same c s first (start, last, e, edge) =
    let back = strip_white (λ d c. white_pair c d) (λ e d c. white_triple c d e) in
    let turned : reverse (c ∷ s) ≡ last ∷ reverse start =
      ap reverse e ∙ reverse-append start (last ∷ []) in
    ap (λ t. reverse (back (reverse t))) (strip_start c s first)
    ∙ ap (λ t. reverse (back t)) turned
    ∙ ap reverse (strip_back last (reverse start) edge)
    ∙ ap reverse (sym turned)
    ∙ reverse-reverse (c ∷ s)
