-- ===== src/Lighting/Enek.antt =====
-- src/lighting/enek5130.rs: the reports of the ENEK5130 controller, without the device.
pub mod Device
pub mod Discovery
pub mod Painting
pub mod Canonical
pub mod Applied
use asense.Result.{Result, ok, err}
use asense.Base.{
  ltb, leb, ◌==◌, if◌then◌else◌, within, length, take, ℕ, suc, ◌+◌, ◌-◌, ◌*◌, ◌/◌, ◌%◌, ◌^◌, Bool,
  true, false, not, ◌&&◌, ◌||◌, Option, none, some, List, [], ◌∷◌, ◌++◌,
}
use asense.Base.Text.{codes}
use asense.Base.Hex.{hex_byte, Color}
use asense.Lighting.{
  LightingTarget, LightingMode, target_eq, LightingModes, LightingDevice, LightingRequest,
  LightingError, enek5130, keyboard, cover_logo, off, static, breathing, neon, unsupported_mode,
  wrong_color_count, speed_range, brightness_range, invalid_report,
}

abbrev pub report_target_list : ℕ
report_target_list = 161

abbrev pub report_target_select : ℕ
report_target_select = 162

abbrev pub report_target_capabilities : ℕ
report_target_capabilities = 163

abbrev pub report_lighting : ℕ
report_lighting = 164

abbrev pub target_keyboard : ℕ
target_keyboard = 33

abbrev pub target_cover_logo : ℕ
target_cover_logo = 131

abbrev pub mode_static : ℕ
mode_static = 2

abbrev pub mode_breathing : ℕ
mode_breathing = 4

abbrev pub mode_neon : ℕ
mode_neon = 5

-- a report is the list of its bytes
abbrev pub Report : Type 0
Report = List ℕ

pub record TargetCapabilities : Type 0 where
  pub target_id : ℕ
  pub zone_count : ℕ
  pub mode_mask : ℕ

-- whether a mask has the bit
abbrev pub has_bit : ℕ → ℕ → Bool
has_bit mask k = mask / 2 ^ k % 2 == 1

unfoldable pub known_target : ℕ → Option LightingTarget
known_target id =
    if id == target_keyboard
    then some keyboard
    else if id == target_cover_logo
    then some cover_logo
    else none

abbrev pub is_target : Option LightingTarget → LightingTarget → Bool
is_target none target = false
is_target (some found) target = target_eq found target

unfoldable pub wire_mode : LightingMode → ℕ
wire_mode off = mode_static
wire_mode static = mode_static
wire_mode breathing = mode_breathing
wire_mode neon = mode_neon

-- `match self.zone_count` of `all_zones`
unfoldable pub zone_mask : ℕ → ℕ
zone_mask count = if count == 0 then 0 else if leb count 15 then 2 ^ count - 1 else 65535

module _ (caps : TargetCapabilities) where
  open caps use {zone_count, mode_mask}

  unfoldable pub supports_wire_mode : ℕ → Bool
  supports_wire_mode mode = within 1 32 mode && has_bit mode_mask (mode - 1)

  unfoldable pub supports : LightingMode → Bool
  unfolding supports_wire_mode wire_mode
  supports mode = supports_wire_mode (wire_mode mode)

  unfoldable pub all_zones : ℕ
  unfolding zone_mask
  all_zones = zone_mask zone_count

  unfoldable pub modes : LightingModes
  unfolding supports
  modes = record {
    static_color = supports static;
    brightness = true;
    breathing_effect = supports breathing;
    neon_effect = supports neon;
  }

  -- `device_from_caps`; the source panics on a target that it does not know
  unfoldable pub device_from_caps : Option LightingDevice
  unfolding known_target modes
  device_from_caps = elim (known_target caps.target_id) [
    | none ↦ none
    | some target ↦ some (record {
      id = codes "enek5130-" ++ hex_byte caps.target_id;
      backend = enek5130;
      target = target;
      zones = zone_count;
      modes = modes;
      state_readable = false;
    })
  ]

  unfoldable pub encode_lighting_report : ℕ → ℕ → ℕ → Color → ℕ → Report
  encode_lighting_report mode brightness speed (red, green, blue) zones =
      let flag =
        if mode == mode_static then (if caps.target_id == target_cover_logo then 1 else 0) else 2 in
      report_lighting
      ∷ caps.target_id
      ∷ mode
      ∷ brightness
      ∷ speed
      ∷ flag
      ∷ red
      ∷ green
      ∷ blue
      ∷ zones % 256
      ∷ zones / 256
      ∷ []

  -- one report for each colour, from the zone `index` on
  unfoldable pub zone_reports : ℕ → ℕ → List Color → List Report
  unfolding encode_lighting_report
  zone_reports brightness index [] = []
  zone_reports brightness index (color ∷ more) =
      encode_lighting_report mode_static brightness 0 color (2 ^ index)
      ∷ zone_reports brightness (suc index) more

  unfoldable pub static_reports : ℕ → Color → List Color → Result LightingError (List Report)
  unfolding zone_reports all_zones
  static_reports brightness color [] =
      ok (encode_lighting_report mode_static brightness 0 color all_zones ∷ [])
  static_reports brightness color (one ∷ []) =
      ok (encode_lighting_report mode_static brightness 0 one all_zones ∷ [])
  static_reports brightness color (one ∷ two ∷ more) =
      if length (one ∷ two ∷ more) == zone_count
      then ok (zone_reports brightness 0 (one ∷ two ∷ more))
      else err wrong_color_count

  unfoldable pub mode_reports : LightingMode → LightingRequest → Result LightingError (List Report)
  unfolding static_reports
  mode_reports off request = ok (encode_lighting_report mode_static 0 0 (0, 0, 0) all_zones ∷ [])
  mode_reports static request = static_reports request.brightness request.color request.zone_colors
  mode_reports breathing request = ok (
      encode_lighting_report mode_breathing request.brightness request.speed request.color all_zones
      ∷ [])
  mode_reports neon request = ok (
      encode_lighting_report mode_neon request.brightness request.speed request.color all_zones
      ∷ [])

  unfoldable pub lighting_reports : LightingRequest → Result LightingError (List Report)
  unfolding mode_reports supports known_target
  lighting_reports request =
      if not (is_target (known_target caps.target_id) request.target)
      then err invalid_report
      else if not (supports request.mode)
      then err unsupported_mode
      else mode_reports request.mode request

unfoldable pub parse_target_list : Report → Result LightingError (List ℕ)
parse_target_list (id ∷ count ∷ rest) =
    if not (id == report_target_list)
    then err invalid_report
    else if leb (2 + count) (length (id ∷ count ∷ rest))
    then ok (take count rest)
    else err invalid_report
parse_target_list _ = err invalid_report

-- `u32::from_le_bytes` of at most four bytes, the others zero
abbrev pub from_le_bytes : List ℕ → ℕ
from_le_bytes [] = 0
from_le_bytes (byte ∷ more) = byte + 256 * from_le_bytes more

unfoldable pub parse_target_capabilities : ℕ → Report → Result LightingError TargetCapabilities
parse_target_capabilities expected (id ∷ target ∷ two ∷ zones ∷ four ∷ byte ∷ more) =
    let mask = from_le_bytes (take 4 (byte ∷ more)) in
    if not (id == report_target_capabilities) || not (target == expected)
    then err invalid_report
    else if not (within 1 16 zones)
    then err invalid_report
    else if not (has_bit mask 1 || has_bit mask 3 || has_bit mask 4)
    then err unsupported_mode
    else ok (record { target_id = target; zone_count = zones; mode_mask = mask })
parse_target_capabilities expected _ = err invalid_report

unfoldable pub validate_request : LightingRequest → Result LightingError Unit
validate_request request =
    if ltb 100 request.brightness
    then err brightness_range
    else if ltb 9 request.speed
    then err speed_range
    else if ltb 16 (length request.zone_colors)
    then err wrong_color_count
    else ok tt

unfoldable pub target_id : LightingTarget → Option ℕ
target_id keyboard = some target_keyboard
target_id cover_logo = some target_cover_logo
target_id _ = none

unfoldable pub canonical_mode : LightingMode → LightingRequest → LightingRequest
canonical_mode off request = record {
  target = request.target;
  mode = off;
  brightness = 0;
  speed = 0;
  color = (0, 0, 0);
  zone_colors = [];
}
canonical_mode static request = record {
  target = request.target;
  mode = static;
  brightness = request.brightness;
  speed = 0;
  color = request.color;
  zone_colors = request.zone_colors;
}
canonical_mode effect request = record {
  target = request.target;
  mode = effect;
  brightness = request.brightness;
  speed = request.speed;
  color = request.color;
  zone_colors = [];
}

unfoldable pub canonical_request : LightingRequest → LightingRequest
unfolding canonical_mode
canonical_request request = canonical_mode request.mode request

-- The fields do not overlap, since the length has at most 14 bits and the operation is a byte, so
-- that `|` is a sum: direction 3, the length, `H` and the operation.
unfoldable pub feature_ioctl : ℕ → ℕ → Result LightingError ℕ
feature_ioctl operation len =
    if len == 0 || ltb 16383 len
    then err invalid_report
    else ok (3 * 1073741824 + len * 65536 + 72 * 256 + operation)
