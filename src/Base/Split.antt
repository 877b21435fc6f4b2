-- ===== src/Base/Split.antt =====
-- Splitting a text whose pieces lack the separator, and the pieces joined again.
use asense.Base.Tests.{◌==◌, ==_iff}
use asense.Base.Lists.{All, All-mono, All-append}
use asense.Base.Text.{Bytes, split, is_whitespace, trim, trim_start, trim_end}
use asense.Base.Decimal.{decimal, IsDigit, decimal-IsDigit}
use Prim.Native.Nat.{ℕ}
use mathlib.Core.Path.{◌≡◌, ap, ◌∙◌, refl}
use mathlib.Core.Bool.{true, false}
use mathlib.Core.List.{List, [], ◌∷◌, ◌++◌}
use native.Mathlib.Omega.{arith}

-- texts joined by one byte
abbrev pub joined : ℕ → Bytes → List Bytes → Bytes
joined sep first [] = first
joined sep first (next ∷ rest) = first ++ sep ∷ joined sep next rest

-- a text without the byte
abbrev pub Lacks : ℕ → Bytes → Type 0
Lacks sep s = All (λ c. (c == sep) ≡ false) s

pub split-whole : (sep : ℕ) (s : Bytes) → Lacks sep s → split sep s ≡ s ∷ []
unfolding split
split-whole sep [] h = refl
split-whole sep (c ∷ s) (h, k) = rw (h, split-whole sep s k) refl

pub split-piece : (sep : ℕ) (s t : Bytes) → Lacks sep s → split sep (s ++ sep ∷ t) ≡ s ∷ split sep t
unfolding split
split-piece sep [] t h = let own : sep == sep ≡ true = (==_iff sep sep).1 refl in rw own refl
split-piece sep (c ∷ s) t (h, k) = rw (h, split-piece sep s t k) refl

pub decimal-Lacks : (n : ℕ) → Lacks 44 (decimal n)
decimal-Lacks n =
    All-mono IsDigit (λ c. (c == 44) ≡ false) (decimal n) (λ c h. ground (arith, h))
      (decimal-IsDigit n)

pub split-joined :
    (sep : ℕ) (first : Bytes) (rest : List Bytes)
    → Lacks sep first
    → All (Lacks sep) rest
    → split sep (joined sep first rest) ≡ first ∷ rest
split-joined sep first [] h hs = split-whole sep first h
split-joined sep first (next ∷ rest) h (k, ks) =
    split-piece sep first (joined sep next rest) h
    ∙ ap (λ pieces. first ∷ pieces) (split-joined sep next rest k ks)

-- a text without white space
abbrev pub Solid : Bytes → Type 0
Solid s = All (λ c. is_whitespace c ≡ false) s

pub digits-Solid : (s : Bytes) → All IsDigit s → Solid s
digits-Solid s h = All-mono IsDigit (λ c. is_whitespace c ≡ false) s (λ c k. ground (arith, k)) h

pub decimal-Solid : (n : ℕ) → Solid (decimal n)
decimal-Solid n = digits-Solid (decimal n) (decimal-IsDigit n)

pub joined-Solid :
    (sep : ℕ) (first : Bytes) (rest : List Bytes)
    → is_whitespace sep ≡ false
    → Solid first
    → All Solid rest
    → Solid (joined sep first rest)
joined-Solid sep first [] e h hs = h
joined-Solid sep first (next ∷ rest) e h (k, ks) =
    All-append (λ c. is_whitespace c ≡ false) first (sep ∷ joined sep next rest) h
      (e, joined-Solid sep next rest e k ks)

trim_end-line : (s : Bytes) → Solid s → trim_end (s ++ 10 ∷ []) ≡ s
unfolding trim_end
trim_end-line [] h = refl
trim_end-line (c ∷ []) (h, hs) = rw h refl
trim_end-line (c ∷ d ∷ s) (h, hs) = rw (trim_end-line (d ∷ s) hs) refl

-- what a line of the kernel is without its end
pub trim-line : (s : Bytes) → Solid s → trim (s ++ 10 ∷ []) ≡ s
unfolding trim trim_start
trim-line [] h = refl
trim-line (c ∷ s) (h, hs) = rw h (trim_end-line (c ∷ s) (h, hs))
