-- ===== src/Lighting/RoundTrip.antt =====
-- src/lighting.rs: the payloads that the setters write against the parser of the getters.
use asense.Result.{ok}
use asense.Base.{
  ltb, ◌==◌, within, ==_iff, length, All, All-append, ℕ, ◌+◌, ◌≤◌, ◌≡◌, refl, ap, ◌∙◌, true, false,
  some, List, [], ◌∷◌, ◌++◌, map, arith, take, sym, not, All-take, length-take, length-map,
}
use asense.Base.Text.{Bytes, is_whitespace, split, trim}
use asense.Base.Split.{
  Lacks, split-piece, decimal-Lacks, split-joined, Solid, decimal-Solid, joined-Solid, trim-line,
  joined,
}
use asense.Base.Hex.{
  Color, hex_color, IsByteColor, parse_color-hex_color, hex_color-Lacks, hex_color-Solid,
}
use asense.Base.Decimal.{decimal, parse_uint-decimal}
use asense.Lighting.{
  copy_zones, zone_list, LightingState, EffectRequest, ZonesRequest, validate_mode, validate_effect,
}
use asense.Lighting.Text.{
  zone_texts, parse_zone_colors, zone_brightness, black, parse_zones, parse_decimals,
  parse_decimal_list, effect_payload, zones_payload, as_u8, effect_state, parse_state_with_zones,
}

split-zone_texts :
    (colors : List Color) (last : Bytes)
    → All IsByteColor colors
    → Lacks 44 last
    → 1 ≤ length colors
    → split 44 (zone_texts colors last) ≡ map hex_color colors ++ last ∷ []
split-zone_texts [] last hs k e = ground (arith, e)
split-zone_texts (c ∷ []) last (h, hs) k e =
    split-joined 44 (hex_color c) (last ∷ []) (hex_color-Lacks c h) (k, tt)
split-zone_texts (c ∷ d ∷ more) last (h, hs) k e =
    split-piece 44 (hex_color c) (zone_texts (d ∷ more) last) (hex_color-Lacks c h)
    ∙ ap (λ pieces. hex_color c ∷ pieces) (split-zone_texts (d ∷ more) last hs k (omega arith))

zone_texts-Solid :
    (colors : List Color) (last : Bytes)
    → All IsByteColor colors
    → Solid last
    → Solid (zone_texts colors last)
zone_texts-Solid [] last hs k = (refl, k)
zone_texts-Solid (c ∷ []) last (h, hs) k =
    joined-Solid 44 (hex_color c) (last ∷ []) refl (hex_color-Solid c h) (k, tt)
zone_texts-Solid (c ∷ d ∷ more) last (h, hs) k =
    All-append (λ c. is_whitespace c ≡ false) (hex_color c) (44 ∷ zone_texts (d ∷ more) last)
      (hex_color-Solid c h) (refl, zone_texts-Solid (d ∷ more) last hs k)

parse_zone_colors-hex_color :
    (colors : List Color) (rest : List Bytes)
    → All IsByteColor colors
    → parse_zone_colors (length colors) (map hex_color colors ++ rest) ≡ some (colors, rest)
unfolding parse_zone_colors
parse_zone_colors-hex_color [] rest hs = refl
parse_zone_colors-hex_color (c ∷ colors) rest (h, hs) =
    rw (parse_color-hex_color c h, parse_zone_colors-hex_color colors rest hs, parse_zone_colors)
      refl

length-pieces :
    (colors : List Color) (last : Bytes)
    → length (map hex_color colors ++ last ∷ []) ≡ length colors + 1
length-pieces [] last = refl
length-pieces (c ∷ colors) last = omega (arith, length-pieces colors last)

parse_zones-zone_texts :
    (colors : List Color) (level : ℕ)
    → 1 ≤ length colors
    → length colors ≤ 4
    → All IsByteColor colors
    → level ≤ 100
    → parse_zones (zone_texts colors (decimal level) ++ 10 ∷ []) (length colors)
      ≡ ok (copy_zones colors (black, black, black, black), level)
unfolding parse_zones zone_brightness
parse_zones-zone_texts colors level some_zones few bytes bright =
    let pieces =
      ap (split 44) (
        trim-line (zone_texts colors (decimal level))
          (zone_texts-Solid colors (decimal level) bytes (decimal-Solid level)))
      ∙ split-zone_texts colors (decimal level) bytes (decimal-Lacks level) some_zones in
    let count : length (map hex_color colors ++ decimal level ∷ []) == length colors + 1 ≡ true =
      (==_iff _ _).1 (length-pieces colors (decimal level)) in
    let fits : within 1 4 (length colors) ≡ true = ground arith in
    let parsed = parse_uint-decimal 255 level (omega arith) in
    let dim : ltb 100 level ≡ false = ground arith in
    rw (pieces, fits, count, parse_zone_colors-hex_color colors (decimal level ∷ []) bytes)
      (rw (zone_brightness, parsed, dim) refl)

parse_decimals-decimal :
    (numbers : List ℕ)
    → All (λ n. n ≤ 65535) numbers
    → parse_decimals (map decimal numbers) ≡ some numbers
unfolding parse_decimals
parse_decimals-decimal [] hs = refl
parse_decimals-decimal (n ∷ numbers) (h, hs) =
    rw (parse_uint-decimal 65535 n h, parse_decimals-decimal numbers hs, parse_decimals) refl

abbrev Plain : Bytes → Type 0
Plain s = Lacks 44 s × Solid s

decimals-Lacks : (numbers : List ℕ) → All (Lacks 44) (map decimal numbers)
decimals-Lacks [] = tt
decimals-Lacks (n ∷ numbers) = (decimal-Lacks n, decimals-Lacks numbers)

decimals-Solid : (numbers : List ℕ) → All Solid (map decimal numbers)
decimals-Solid [] = tt
decimals-Solid (n ∷ numbers) = (decimal-Solid n, decimals-Solid numbers)

-- a line of numbers
parse_decimal_list-joined :
    (n : ℕ) (numbers : List ℕ)
    → All (λ m. m ≤ 65535) (n ∷ numbers)
    → parse_decimal_list
        (length (n ∷ numbers))
        (joined 44 (decimal n) (map decimal numbers) ++ 10 ∷ [])
      ≡ ok (n ∷ numbers)
unfolding parse_decimal_list
parse_decimal_list-joined n numbers hs =
    let pieces : split 44 (trim (joined 44 (decimal n) (map decimal numbers) ++ 10 ∷ []))
        ≡ map decimal (n ∷ numbers) =
      ap (split 44) (
        trim-line (joined 44 (decimal n) (map decimal numbers)) (
          joined-Solid 44 (decimal n) (map decimal numbers) refl (decimal-Solid n)
            (decimals-Solid numbers)))
      ∙ split-joined 44 (decimal n) (map decimal numbers) (decimal-Lacks n)
          (decimals-Lacks numbers) in
    let count : length (map decimal (n ∷ numbers)) == length (n ∷ numbers) ≡ true =
      (==_iff _ _).1 (length-map decimal (n ∷ numbers)) in
    rw (pieces, count, parse_decimals-decimal (n ∷ numbers) hs) refl

-- A request that passes the check has small numbers.
pub validate_effect-bounds :
    (request : EffectRequest)
    → validate_effect request ≡ ok tt
    → (request.mode ≤ 7)
      × (request.speed ≤ 9)
      × (request.brightness ≤ 100)
      × (request.direction ≤ 2)
unfolding validate_effect validate_mode
validate_effect-bounds request h = ground (arith, h)

-- the state that a request describes, with the zones beyond the active ones black
unfoldable pub described : ℕ → EffectRequest → ZonesRequest → LightingState
unfolding copy_zones
described zone_count effect zones = record {
  powered = not (effect.brightness == 0);
  mode = effect.mode;
  speed = effect.speed;
  brightness = effect.brightness;
  direction = effect.direction;
  color = effect.color;
  zones = copy_zones (take zone_count (zone_list zones.zones)) (black, black, black, black);
}

parse_zones-zones_payload :
    (n : ℕ) (zones : ZonesRequest)
    → 1 ≤ n
    → n ≤ 4
    → All IsByteColor (zone_list zones.zones)
    → zones.brightness ≤ 100
    → parse_zones (zones_payload n zones) n
      ≡ ok (
        copy_zones (take n (zone_list zones.zones)) (black, black, black, black),
        zones.brightness,
      )
unfolding zones_payload
parse_zones-zones_payload n zones some_zones few bytes dim =
    let active = take n (zone_list zones.zones) in
    let count = length-take n (zone_list zones.zones) few in
    ap (parse_zones (zone_texts active (decimal zones.brightness) ++ 10 ∷ [])) (sym count)
    ∙ parse_zones-zone_texts active zones.brightness (omega (arith, count)) (omega (arith, count))
        (All-take IsByteColor n (zone_list zones.zones) bytes) dim

as_u8-byte : (n : ℕ) → n ≤ 255 → as_u8 n ≡ ok n
unfolding as_u8
as_u8-byte n h = ground (arith, h)

-- The payloads that `set_effect` and `set_zones` write are read back as the state that they describe,
-- for one to four zones, an effect that passes the check, channels and a direction that are bytes, and
-- the same brightness in both.
pub parse_state_with_zones-payloads :
    (n : ℕ) (effect : EffectRequest) (zones : ZonesRequest)
    → 1 ≤ n
    → n ≤ 4
    → validate_effect effect ≡ ok tt
    → IsByteColor effect.color
    → All IsByteColor (zone_list zones.zones)
    → zones.brightness ≡ effect.brightness
    → parse_state_with_zones (effect_payload effect) (zones_payload n zones) n
      ≡ ok (described n effect zones)
unfolding parse_state_with_zones effect_payload effect_state described
parse_state_with_zones-payloads n effect zones some_zones few valid (hr, hg, hb) bytes same =
    let (m, s, b, d) = validate_effect-bounds effect valid in
    let (r, g, l) = effect.color in
    let numbers =
      parse_decimal_list-joined effect.mode
        (effect.speed ∷ effect.brightness ∷ effect.direction ∷ r ∷ g ∷ l ∷ [])
        (
          omega arith,
          (
            omega arith,
            (omega arith, (omega arith, (omega arith, (omega arith, (omega arith, tt))))),
          ),
        ) in
    let colors = parse_zones-zones_payload n zones some_zones few bytes (omega arith) in
    let agree : effect.brightness == zones.brightness ≡ true = (==_iff _ _).1 (sym same) in
    let em = as_u8-byte effect.mode (omega arith) in
    let es = as_u8-byte effect.speed (omega arith) in
    let eb = as_u8-byte effect.brightness (omega arith) in
    let ed = as_u8-byte effect.direction (omega arith) in
    let er = as_u8-byte r hr in
    let eg = as_u8-byte g hg in
    let el = as_u8-byte l hb in
    rw (numbers, colors) (rw (em, es, eb, ed, er, eg, el, effect_state, agree) refl)
