-- ===== src/Lighting/Text.antt =====
-- src/lighting.rs: the texts of the effect, the zones and the zone mask, and of the reported state.
use asense.Result.{Result, ok, err, ◌>>=◌}
use asense.Base.{
  ltb, ◌==◌, if◌then◌else◌, within, length, take, ℕ, zero, suc, ◌+◌, Bool, not, Option, none, some,
  List, [], ◌∷◌, ◌++◌,
}
use asense.Base.Text.{Bytes, codes, trim, strip_prefix, split}
use asense.Base.Split.{joined}
use asense.Base.Hex.{Color, hex_color, parse_color, parse_hex}
use asense.Base.Decimal.{decimal, parse_uint}
use asense.Lighting.{
  Zones, zone_list, copy_zones, LightingState, EffectRequest, ZonesRequest, LightingError,
  brightness_range, invalid_mask, invalid_text, getters_disagree,
}

-- the payload of `set_effect`
unfoldable pub effect_payload : EffectRequest → Bytes
effect_payload request =
    let (red, green, blue) = request.color in
    joined 44 (decimal request.mode) (
      decimal request.speed
      ∷ decimal request.brightness
      ∷ decimal request.direction
      ∷ decimal red
      ∷ decimal green
      ∷ decimal blue
      ∷ [])
    ++ 10 ∷ []

-- the loop of `set_zones` over the active zones, each with its separator before it
abbrev pub zone_texts : List Color → Bytes → Bytes
zone_texts [] last = 44 ∷ last
zone_texts (c ∷ []) last = hex_color c ++ 44 ∷ last
zone_texts (c ∷ d ∷ more) last = hex_color c ++ 44 ∷ zone_texts (d ∷ more) last

-- the payload of `set_zones`
unfoldable pub zones_payload : ℕ → ZonesRequest → Bytes
zones_payload zone_count request =
    zone_texts (take zone_count (zone_list request.zones)) (decimal request.brightness) ++ 10 ∷ []

-- `as_u8` of a number below 65536
unfoldable pub as_u8 : ℕ → Result LightingError ℕ
as_u8 value = if ltb 255 value then err invalid_text else ok value

-- the values of `parse_decimal_list`, one for each piece
unfoldable pub parse_decimals : List Bytes → Option (List ℕ)
parse_decimals [] = some []
parse_decimals (piece ∷ pieces) = elim (parse_uint 65535 piece) [
  | none ↦ none
  | some n ↦ elim (parse_decimals pieces) [ none ↦ none | some ns ↦ some (n ∷ ns) ]
]

unfoldable pub parse_decimal_list : ℕ → Bytes → Result LightingError (List ℕ)
unfolding parse_decimals
parse_decimal_list count input =
    let values = split 44 (trim input) in
    if not (length values == count)
    then err invalid_text
    else elim (parse_decimals values) [ none ↦ err invalid_text | some ns ↦ ok ns ]

-- the colours before the brightness
unfoldable pub parse_zone_colors : ℕ → List Bytes → Option (List Color × List Bytes)
parse_zone_colors zero pieces = some ([], pieces)
parse_zone_colors (suc n) [] = none
parse_zone_colors (suc n) (piece ∷ pieces) = elim (parse_color piece) [
  | none ↦ none
  | some c ↦ elim (parse_zone_colors n pieces) [
    | none ↦ none
    | some (cs, rest) ↦ some (c ∷ cs, rest)
  ]
]

unfoldable pub zone_brightness : List Bytes → Result LightingError ℕ
zone_brightness [] = err invalid_text
zone_brightness (piece ∷ pieces) = elim (parse_uint 255 piece) [
  | none ↦ err invalid_text
  | some n ↦ if ltb 100 n then err brightness_range else ok n
]

abbrev pub black : Color
black = (0, 0, 0)

unfoldable pub parse_zones : Bytes → ℕ → Result LightingError (Zones × ℕ)
unfolding parse_zone_colors zone_brightness copy_zones
parse_zones input zone_count =
    let fields = split 44 (trim input) in
    if not (within 1 4 zone_count)
    then err invalid_text
    else if not (length fields == zone_count + 1)
    then err invalid_text
    else elim (parse_zone_colors zone_count fields) [
      | none ↦ err invalid_text
      | some (colors, rest) ↦ zone_brightness rest >>= λ level.
          ok (copy_zones colors (black, black, black, black), level)
    ]

-- the state of the seven numbers of the effect
unfoldable pub effect_state : List ℕ → Zones → Result LightingError LightingState
unfolding as_u8
effect_state (m ∷ s ∷ b ∷ d ∷ r ∷ g ∷ l ∷ []) zones = as_u8 m >>= λ mode. as_u8 s >>= λ speed.
    as_u8 b >>= λ level. as_u8 d >>= λ direction. as_u8 r >>= λ red. as_u8 g >>= λ green.
    as_u8 l >>= λ blue. ok (record {
      powered = not (b == 0);
      mode = mode;
      speed = speed;
      brightness = level;
      direction = direction;
      color = (red, green, blue);
      zones = zones;
    })
effect_state _ zones = err invalid_text

unfoldable pub parse_state_with_zones : Bytes → Bytes → ℕ → Result LightingError LightingState
unfolding parse_decimal_list parse_zones effect_state
parse_state_with_zones effect zones zone_count = parse_decimal_list 7 effect >>= λ numbers.
    parse_zones zones zone_count >>= λ (values, level). effect_state numbers values >>= λ state.
    if state.brightness == level then ok state else err getters_disagree

-- the mask without its prefix
abbrev pub without_prefix : Bytes → Bytes
without_prefix value = elim (strip_prefix (codes "0x") value) [ none ↦ value | some rest ↦ rest ]

-- the match of `zone_count_from_mask`
unfoldable pub mask_count : ℕ → Result LightingError ℕ
mask_count mask =
    if mask == 1
    then ok 1
    else if mask == 3
    then ok 2
    else if mask == 7
    then ok 3
    else if mask == 15
    then ok 4
    else err invalid_mask

unfoldable pub zone_count_from_mask : Bytes → Result LightingError ℕ
unfolding mask_count
zone_count_from_mask value = elim (parse_hex 255 (without_prefix value)) [
  | none ↦ err invalid_mask
  | some mask ↦ mask_count mask
]

abbrev pub encode_power : Bool → Bytes
encode_power powered = if powered then codes "on" else codes "off"

unfoldable pub encode_state : LightingState → Bytes
encode_state state =
    let (first, second, third, fourth) = state.zones in
    codes "power="
    ++ encode_power state.powered
    ++ codes " mode="
    ++ decimal state.mode
    ++ codes " speed="
    ++ decimal state.speed
    ++ codes " brightness="
    ++ decimal state.brightness
    ++ codes " direction="
    ++ decimal state.direction
    ++ codes " color="
    ++ hex_color state.color
    ++ codes " zones="
    ++ joined 44 (hex_color first) (hex_color second ∷ hex_color third ∷ hex_color fourth ∷ [])
