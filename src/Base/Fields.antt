-- ===== src/Base/Fields.antt =====
-- Fields between white space, keys and values, and trimming.
use asense.Base.Tests.{◌==◌, ==_iff, Bool-cases, if◌then◌else◌}
use asense.Base.Lists.{all, All, All-append}
use asense.Base.Text.{
  Bytes, is_whitespace, is_ascii_whitespace, trim_start, trim_end, trim, strip_prefix, split_once,
  fields, extend, join_field,
}
use asense.Base.Split.{joined, Lacks, Solid}
use Prim.Native.Nat.{ℕ}
use mathlib.Core.Path.{◌≡◌, refl, ap, sym, ◌∙◌}
use mathlib.Core.Logic.{◌⊎◌, inl, inr}
use mathlib.Core.Bool.{Bool, not, true, false}
use mathlib.Core.Option.{some}
use mathlib.Core.List.{List, [], ◌∷◌, ◌++◌}
use native.Mathlib.Omega.{arith}

-- a text with a byte and without white space
abbrev pub Word : Bytes → Type 0
Word [] = ⊥
Word (c ∷ s) = Solid (c ∷ s)

pub Word-Solid : (s : Bytes) → Word s → Solid s
Word-Solid [] h = absurd h
Word-Solid (c ∷ s) h = h

-- for literals
abbrev pub is_word : Bytes → Bool
is_word [] = false
is_word (c ∷ s) = all (λ d. not (is_whitespace d)) (c ∷ s)

all_sound :
    (test : ℕ → Bool) (s : Bytes) → all (λ c. not (test c)) s ≡ true → All (λ c. test c ≡ false) s
all_sound test [] h = tt
all_sound test (c ∷ s) h = (ground (arith, h), all_sound test s (ground (arith, h)))

pub is_word_sound : (s : Bytes) → is_word s ≡ true → Word s
is_word_sound [] h = ground (arith, h)
is_word_sound (c ∷ s) h = all_sound is_whitespace (c ∷ s) h

abbrev pub free_of : ℕ → Bytes → Bool
free_of sep s = all (λ c. not (c == sep)) s

pub free_of_sound : (sep : ℕ) (s : Bytes) → free_of sep s ≡ true → Lacks sep s
free_of_sound sep s h = all_sound (λ c. c == sep) s h

pub Word-append : (s t : Bytes) → Word s → Solid t → Word (s ++ t)
Word-append [] t h k = absurd h
Word-append (c ∷ s) t (h, hs) k = (h, All-append (λ c. is_whitespace c ≡ false) s t hs k)

not_ascii : (c : ℕ) → is_whitespace c ≡ false → is_ascii_whitespace c ≡ false
not_ascii c h = ground (arith, h)

fields-step :
    (c : ℕ) (s : Bytes) → is_whitespace c ≡ false → fields (c ∷ s) ≡ join_field c s (fields s)
unfolding fields
fields-step c s h = rw (not_ascii c h) refl

join_field-inner :
    (c d : ℕ) (s : Bytes) (rest : List Bytes)
    → is_whitespace d ≡ false
    → join_field c (d ∷ s) rest ≡ extend c rest
join_field-inner c d s rest h = rw (not_ascii d h) refl

fields-whole : (s : Bytes) → Word s → fields s ≡ s ∷ []
unfolding fields
fields-whole [] h = absurd h
fields-whole (c ∷ []) (h, _) = fields-step c [] h
fields-whole (c ∷ d ∷ s) (h, (k, hs)) =
    fields-step c (d ∷ s) h
    ∙ join_field-inner c d s (fields (d ∷ s)) k
    ∙ ap (extend c) (fields-whole (d ∷ s) (k, hs))

fields-Word : (s t : Bytes) → Word s → fields (s ++ 32 ∷ t) ≡ s ∷ fields t
unfolding fields
fields-Word [] t h = absurd h
fields-Word (c ∷ []) t (h, _) = fields-step c (32 ∷ t) h
fields-Word (c ∷ d ∷ s) t (h, (k, hs)) =
    fields-step c (d ∷ s ++ 32 ∷ t) h
    ∙ join_field-inner c d (s ++ 32 ∷ t) (fields (d ∷ s ++ 32 ∷ t)) k
    ∙ ap (extend c) (fields-Word (d ∷ s) t (k, hs))

pub fields-joined :
    (first : Bytes) (rest : List Bytes)
    → Word first
    → All Word rest
    → fields (joined 32 first rest) ≡ first ∷ rest
fields-joined first [] h hs = fields-whole first h
fields-joined first (next ∷ rest) h (k, ks) =
    fields-Word first (joined 32 next rest) h
    ∙ ap (λ pieces. first ∷ pieces) (fields-joined next rest k ks)

pub split_once-piece :
    (sep : ℕ) (s t : Bytes) → Lacks sep s → split_once sep (s ++ sep ∷ t) ≡ some (s, t)
unfolding split_once
split_once-piece sep [] t h = let own : sep == sep ≡ true = (==_iff sep sep).1 refl in rw own refl
split_once-piece sep (c ∷ s) t (h, k) = rw (h, split_once-piece sep s t k) refl

pub strip_prefix-append : (p s : Bytes) → strip_prefix p (p ++ s) ≡ some s
unfolding strip_prefix
strip_prefix-append [] s = refl
strip_prefix-append (c ∷ p) s =
    let own : c == c ≡ true = (==_iff c c).1 refl in rw own (strip_prefix-append p s)

trim_end-empty : trim_end [] ≡ []
unfolding trim_end
trim_end-empty = refl

-- a text after trimming its end: nothing, or a byte first
trim_end-cases : (s : Bytes) → (trim_end s ≡ []) ⊎ ((c : ℕ) × (t : Bytes) × (trim_end s ≡ c ∷ t))
trim_end-cases s = cases (trim_end s) refl
  where
    cases :
        (v : Bytes)
        → trim_end s ≡ v
        → (trim_end s ≡ []) ⊎ ((c : ℕ) × (t : Bytes) × (trim_end s ≡ c ∷ t))
    cases [] e = inl e
    cases (c ∷ t) e = inr (c, t, e)

pub trim_end-trim_end : (s : Bytes) → trim_end (trim_end s) ≡ trim_end s
unfolding trim_end
trim_end-trim_end [] = refl
trim_end-trim_end (c ∷ s) = elim (trim_end-cases s) [
  | inl e ↦ elim (Bool-cases (is_whitespace c)) [
    | inl w ↦ rw (e, w) refl
    | inr w ↦ rw (e, w) (rw w refl)
  ]
  | inr (d, t, e) ↦
      let again : trim_end (d ∷ t) ≡ d ∷ t = ap trim_end (sym e) ∙ trim_end-trim_end s ∙ e in
      rw (e, again) refl
]

trim-skip : (c : ℕ) (s : Bytes) → is_whitespace c ≡ true → trim (c ∷ s) ≡ trim s
unfolding trim trim_start
trim-skip c s w = rw w refl

trim-keep : (c : ℕ) (s : Bytes) → is_whitespace c ≡ false → trim (c ∷ s) ≡ trim_end (c ∷ s)
unfolding trim trim_start
trim-keep c s w = rw w refl

trim_end-alone :
    (c : ℕ) (s : Bytes)
    → trim_end s ≡ []
    → trim_end (c ∷ s) ≡ (if is_whitespace c then [] else c ∷ [])
unfolding trim_end
trim_end-alone c s e = rw e refl

trim_end-more : (c d : ℕ) (s t : Bytes) → trim_end s ≡ d ∷ t → trim_end (c ∷ s) ≡ c ∷ d ∷ t
unfolding trim_end
trim_end-more c d s t e = rw e refl

-- a byte that trimming keeps at the start stays first
pub trim_end-keep :
    (c : ℕ) (s : Bytes) → is_whitespace c ≡ false → trim_end (c ∷ s) ≡ c ∷ trim_end s
trim_end-keep c s w = elim (trim_end-cases s) [
  | inl e ↦ trim_end-alone c s e ∙ rw (w, e) refl
  | inr (d, t, e) ↦ trim_end-more c d s t e ∙ ap (λ u. c ∷ u) (sym e)
]

pub trim-trim_end : (s : Bytes) → trim (trim_end s) ≡ trim s
trim-trim_end [] = ap trim trim_end-empty
trim-trim_end (c ∷ s) = elim (Bool-cases (is_whitespace c)) [
  | inl w ↦ elim (trim_end-cases s) [
    | inl e ↦
        let empty : trim_end (c ∷ s) ≡ [] = trim_end-alone c s e ∙ rw w refl in
        ap trim (empty ∙ sym e) ∙ trim-trim_end s ∙ sym (trim-skip c s w)
    | inr (d, t, e) ↦
        ap trim (trim_end-more c d s t e)
        ∙ trim-skip c (d ∷ t) w
        ∙ ap trim (sym e)
        ∙ trim-trim_end s
        ∙ sym (trim-skip c s w)
  ]
  | inr w ↦
      ap trim (trim_end-keep c s w)
      ∙ trim-keep c (trim_end s) w
      ∙ trim_end-keep c (trim_end s) w
      ∙ ap (λ u. c ∷ u) (trim_end-trim_end s)
      ∙ sym (trim_end-keep c s w)
      ∙ sym (trim-keep c s w)
]

trim_end-Solid : (w u : Bytes) → Solid w → trim_end (w ++ u) ≡ w ++ trim_end u
trim_end-Solid [] u h = refl
trim_end-Solid (c ∷ w) u (h, hs) =
    trim_end-keep c (w ++ u) h ∙ ap (λ v. c ∷ v) (trim_end-Solid w u hs)

pub trim-Word : (w u : Bytes) → Word w → trim (w ++ u) ≡ w ++ trim_end u
trim-Word [] u h = absurd h
trim-Word (c ∷ w) u (h, hs) = trim-keep c (w ++ u) h ∙ trim_end-Solid (c ∷ w) u (h, hs)

pub trim-empty : trim [] ≡ []
unfolding trim trim_start trim_end
trim-empty = refl

-- a space and a text: nothing if the text is blank
pub trim_end-space :
    (s : Bytes)
    → ((trim_end (32 ∷ s) ≡ []) × (trim s ≡ []))
      ⊎ ((c : ℕ) × (t : Bytes) × (trim_end (32 ∷ s) ≡ 32 ∷ c ∷ t) × (trim (c ∷ t) ≡ trim s))
trim_end-space s = elim (trim_end-cases s) [
  | inl e ↦ inl (trim_end-alone 32 s e, sym (trim-trim_end s) ∙ ap trim e ∙ trim-empty)
  | inr (c, t, e) ↦ inr (c, t, trim_end-more 32 c s t e, ap trim (sym e) ∙ trim-trim_end s)
]

trim_end-own : (s : Bytes) → Solid s → trim_end s ≡ s
trim_end-own [] h = trim_end-empty
trim_end-own (c ∷ s) (h, hs) = trim_end-keep c s h ∙ ap (λ u. c ∷ u) (trim_end-own s hs)

-- two words with a space between them are trimmed already
pub trim-words : (w v : Bytes) → Word w → Word v → trim (w ++ 32 ∷ v) ≡ w ++ 32 ∷ v
trim-words w [] h k = absurd k
trim-words w (c ∷ v) h k =
    trim-Word w (32 ∷ c ∷ v) h
    ∙ ap (λ u. w ++ u) (trim_end-more 32 c (c ∷ v) v (trim_end-own (c ∷ v) k))
