-- ===== src/Daemon/Protocol/Sanitize.antt =====
-- src/daemon.rs: what `sanitize_response_payload` leaves of ASCII text.
use asense.Base.{
  zero, suc, sym, take, map, ◌==◌, ◌||◌, if◌then◌else◌, ltb, Bool-cases, length, all, All, ℕ, ◌+◌,
  ◌≤◌, ◌<◌, ◌≡◌, refl, ap, inl, inr, true, false, not, List, [], ◌∷◌, arith,
}
use asense.Daemon.Protocol.{
  max_response_payload_bytes, len_utf8, is_control, utf8_length, sanitize_character, sanitize_from,
  sanitize_response_payload,
}

abbrev pub IsAscii : ℕ → Type 0
IsAscii c = c < 128

sanitize_from-IsAscii : (used : ℕ) (s : List ℕ) → All IsAscii s → All IsAscii (sanitize_from used s)
unfolding sanitize_from sanitize_character
sanitize_from-IsAscii used [] h = tt
sanitize_from-IsAscii used (c ∷ s) (h, hs) =
    let character = sanitize_character c in
    let rest = sanitize_from-IsAscii (used + len_utf8 character) s hs in
    elim (Bool-cases (ltb max_response_payload_bytes (used + len_utf8 character))) [
      | inl e ↦ rw e tt
      | inr e ↦ rw e (ground (arith, h), rest)
    ]

pub sanitize_response_payload-IsAscii :
    (s : List ℕ) → All IsAscii s → All IsAscii (sanitize_response_payload s)
unfolding sanitize_response_payload
sanitize_response_payload-IsAscii s h = sanitize_from-IsAscii 0 s h

pub length-utf8_length : (s : List ℕ) → length s ≤ utf8_length s
length-utf8_length [] = omega arith
length-utf8_length (c ∷ s) = ground (arith, length-utf8_length s)

sanitize_from-same :
    (used : ℕ) (s : List ℕ)
    → All IsAscii s
    → all (λ c. not (is_control c)) s ≡ true
    → used + length s ≤ max_response_payload_bytes
    → sanitize_from used s ≡ s
unfolding sanitize_from sanitize_character
sanitize_from-same used [] h clean short = refl
sanitize_from-same used (c ∷ s) (h, hs) clean short =
    let kept : sanitize_character c ≡ c = ground (arith, clean) in
    let one : len_utf8 c ≡ 1 = ground (arith, h) in
    let fits : ltb max_response_payload_bytes (used + 1) ≡ false = ground (arith, short) in
    rw (kept, one, fits)
      (ap (λ t. c ∷ t)
        (sanitize_from-same (used + 1) s hs (ground (arith, clean)) (omega (arith, short))))

-- a short text of ASCII without control characters goes out as it is
pub sanitize_response_payload-same :
    (s : List ℕ)
    → All IsAscii s
    → all (λ c. not (is_control c)) s ≡ true
    → length s ≤ max_response_payload_bytes
    → sanitize_response_payload s ≡ s
unfolding sanitize_response_payload
sanitize_response_payload-same s h clean short =
    sanitize_from-same 0 s h clean (omega (arith, short))

-- a character of ASCII as it goes out: a space for an end of a line, a question mark for any other
-- control character
abbrev pub shown : ℕ → ℕ
shown c = if c == 10 || c == 13 then 32 else if ltb c 32 || c == 127 then 63 else c

sanitize_character-shown : (c : ℕ) → c < 128 → sanitize_character c ≡ shown c
unfolding sanitize_character
sanitize_character-shown c h = ground (arith, h)

shown_ascii : (c : ℕ) → c < 128 → shown c < 128
shown_ascii c h = ground (arith, h)

take-empty : (n : ℕ) → ◌≡◌ {A = List ℕ} (take n []) []
take-empty zero = refl
take-empty (suc n) = refl

sanitize_from-take :
    (n used : ℕ) (s : List ℕ)
    → n + used ≡ max_response_payload_bytes
    → All IsAscii s
    → sanitize_from used s ≡ take n (map shown s)
unfolding sanitize_from
sanitize_from-take n used [] room h = sym (take-empty n)
sanitize_from-take zero used (c ∷ s) room (h, hs) =
    let out = sanitize_character-shown c h in
    let one : len_utf8 (shown c) ≡ 1 = ground (arith, shown_ascii c h) in
    let full : ltb max_response_payload_bytes (used + 1) ≡ true = ground (arith, room) in
    rw (out, one, full) refl
sanitize_from-take (suc n) used (c ∷ s) room (h, hs) =
    let out = sanitize_character-shown c h in
    let one : len_utf8 (shown c) ≡ 1 = ground (arith, shown_ascii c h) in
    let fits : ltb max_response_payload_bytes (used + 1) ≡ false = ground (arith, room) in
    rw (out, one, fits)
      (ap (λ t. shown c ∷ t) (sanitize_from-take n (used + 1) s (omega (arith, room)) hs))

-- of ASCII the first 32764 characters go out, each as it is shown
pub sanitize_response_payload-take :
    (s : List ℕ) → All IsAscii s → sanitize_response_payload s ≡ take 32764 (map shown s)
unfolding sanitize_response_payload
sanitize_response_payload-take s h = sanitize_from-take 32764 0 s refl h
