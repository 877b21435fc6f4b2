-- ===== src/Lighting/Examples.antt =====
-- A keyboard of four zones and an ENEK5130 controller at concrete values.
use asense.Base.{
  ◌==◌, if◌then◌else◌, length, replicate, ℕ, ◌-◌, ◌/◌, ◌%◌, ◌^◌, ◌≤◌, ◌<◌, ◌≡◌, refl, ◌↔◌, Bool,
  true, false, Option, none, some, List, [], ◌∷◌, arith,
}
use asense.Base.Text.{Bytes, codes, text_eq, trim, strip_prefix, split, lines}
use asense.Base.Hex.{Color, parse_hex, hex_value}
use asense.Base.Decimal.{decimal}
use asense.Result.{ok, err}
use asense.Exec.{pure, ◌>>=◌}
use asense.Exec.Outcome.{Ensures}
use asense.Hardware.Memory.{memory_files, memory_readable}
use asense.Lighting.{
  LightingRequest, LightingState, firmware, last_applied, EffectRequest, ZonesRequest,
  KeyboardLighting, LightingError, validate_mode, validate_effect, keyboard, static, invalid_mask,
}
use asense.Lighting.Text.{
  effect_payload, zones_payload, parse_state_with_zones, without_prefix, mask_count,
  zone_count_from_mask,
}
use asense.Lighting.Wmi.{apply_zoned_wmi}
use asense.Lighting.RoundTrip.{described, parse_state_with_zones-payloads}
use asense.Lighting.Outcome.{Carries, Reports, apply_zoned_wmi-Reports}
use asense.Lighting.Refusal.{
  write_and_compare, Asks, Compares, servable, apply_zoned_wmi-servable, zone_count_from_mask_iff,
}
use asense.Lighting.Enek.{
  report_target_list, Report, TargetCapabilities, known_target, wire_mode, supports_wire_mode,
  supports, encode_lighting_report, zone_reports, static_reports, mode_reports, lighting_reports,
  parse_target_list, parse_target_capabilities, validate_request, target_id, canonical_request,
  feature_ioctl,
}
use asense.Lighting.Enek.Device.{
  Hidraw, written, received, open_controller, set_feature, get_feature, read_target_list,
  read_target_capabilities, send_reports, exchange, apply,
}
use asense.Lighting.Enek.Painting.{Painted, paint, asked, lighting_reports-paint}
use asense.Lighting.Enek.Canonical.{canonical_request-equivalent, feature_ioctl-fields}
use asense.Lighting.Enek.Discovery.{is_identity, scan_identity, matches_uevent}

abbrev red : Color
red = (255, 0, 0)

abbrev teal : Color
teal = (0, 170, 255)

abbrev wave : EffectRequest
wave = record { mode = 3; speed = 4; brightness = 60; direction = 1; color = teal }

abbrev two_tone : ZonesRequest
two_tone = record { zones = (red, teal, red, teal); brightness = 60 }

payload_texts :
    (effect_payload wave ≡ codes "3,4,60,1,0,170,255\n")
    × (zones_payload 2 two_tone ≡ codes "ff0000,00aaff,60\n")
unfolding effect_payload zones_payload decimal
payload_texts = (refl, refl)

parse_state_with_zones-payloads_example :
    parse_state_with_zones (effect_payload wave) (zones_payload 2 two_tone) 2
    ≡ ok (described 2 wave two_tone)
unfolding validate_effect validate_mode
parse_state_with_zones-payloads_example =
    parse_state_with_zones-payloads 2 wave two_tone (omega arith) (omega arith) refl
      (omega arith, omega arith, omega arith)
      (
        (omega arith, omega arith, omega arith),
        (
          (omega arith, omega arith, omega arith),
          ((omega arith, omega arith, omega arith), ((omega arith, omega arith, omega arith), tt)),
        ),
      )
      refl

abbrev zoned : KeyboardLighting
zoned = record {
  power = codes "power";
  effect = codes "effect";
  zones = codes "zones";
  zone_count = 2;
}

abbrev dim_files : Bytes → Bytes
dim_files path =
    if text_eq path (codes "zones") then codes "000000,000000,60\n" else codes "0,0,60,0,0,0,0\n"

abbrev pair_request : LightingRequest
pair_request = record {
  target = keyboard;
  mode = static;
  brightness = 60;
  speed = 0;
  color = red;
  zone_colors = red ∷ teal ∷ [];
}

apply_zoned_wmi-Reports_example :
    Ensures
      (λ status w'.
        (pair_request.target ≡ keyboard)
        × (pair_request.brightness ≤ 100)
        × (pair_request.speed ≤ 9)
        × ((st : LightingState) × (status ≡ firmware st)
            × Reports memory_files memory_readable zoned st w'
            × Carries 2 pair_request static st))
      (λ e w'. Unit {0})
      (apply_zoned_wmi memory_files zoned pair_request)
      dim_files
apply_zoned_wmi-Reports_example =
    apply_zoned_wmi-Reports memory_files memory_readable zoned pair_request dim_files (omega arith)

apply_zoned_wmi-servable_example :
    (servable 2 pair_request ≡ false
      → (e : LightingError) × (apply_zoned_wmi memory_files zoned pair_request dim_files
          ≡ (err e, dim_files)))
    × (servable 2 pair_request ≡ true
        → (payload : Bytes) × (agrees : LightingState → Bool) × Asks 2 pair_request
            pair_request.mode payload
          × Compares 2 pair_request pair_request.mode agrees
          × (apply_zoned_wmi memory_files zoned pair_request dim_files
              ≡ (write_and_compare memory_files zoned (codes "zones") payload agrees >>= λ state.
                    pure (firmware state))
                  dim_files))
apply_zoned_wmi-servable_example =
    apply_zoned_wmi-servable memory_files zoned pair_request dim_files (omega arith)

zone_count_from_mask_iff_example :
    (zone_count_from_mask (codes "0x0f") ≡ ok 4)
    ↔ ((1 ≤ 4) × (4 ≤ 4) × (parse_hex 255 (without_prefix (codes "0x0f")) ≡ some (2 ^ 4 - 1)))
zone_count_from_mask_iff_example = zone_count_from_mask_iff (codes "0x0f") 4

masks :
    (zone_count_from_mask (codes "0x0F") ≡ ok 4)
    × (zone_count_from_mask (codes "3") ≡ ok 2)
    × (zone_count_from_mask (codes "5") ≡ err invalid_mask)
    × (zone_count_from_mask (codes "0x") ≡ err invalid_mask)
unfolding zone_count_from_mask mask_count parse_hex strip_prefix hex_value
masks = (refl, refl, refl, refl)

abbrev two_zones : TargetCapabilities
two_zones = record { target_id = 33; zone_count = 2; mode_mask = 26 }

abbrev pair_reports : List Report
pair_reports =
    (164 ∷ 33 ∷ 2 ∷ 60 ∷ 0 ∷ 0 ∷ 255 ∷ 0 ∷ 0 ∷ 1 ∷ 0 ∷ [])
    ∷ (164 ∷ 33 ∷ 2 ∷ 60 ∷ 0 ∷ 0 ∷ 0 ∷ 170 ∷ 255 ∷ 2 ∷ 0 ∷ [])
    ∷ []

abbrev blank : ℕ → Painted
blank k = record { mode = 0; brightness = 0; speed = 0; color = (0, 0, 0) }

lighting_reports-paint_example : paint 33 pair_reports blank 1 ≡ asked pair_request static 1
unfolding lighting_reports mode_reports static_reports zone_reports encode_lighting_report supports
    supports_wire_mode wire_mode known_target
lighting_reports-paint_example =
    lighting_reports-paint two_zones pair_request pair_reports blank 1 (omega arith) (omega arith)
      refl

canonical_request-equivalent_example :
    (lighting_reports two_zones (canonical_request pair_request)
      ≡ lighting_reports two_zones pair_request)
    × (canonical_request (canonical_request pair_request) ≡ canonical_request pair_request)
canonical_request-equivalent_example = canonical_request-equivalent two_zones pair_request

feature_ioctl-fields_example :
    (3222882310 < 2 ^ 32)
    × (3222882310 / 2 ^ 30 ≡ 3)
    × (3222882310 / 2 ^ 16 % 2 ^ 14 ≡ 25)
    × (3222882310 / 2 ^ 8 % 2 ^ 8 ≡ 72)
    × (3222882310 % 2 ^ 8 ≡ 6)
unfolding feature_ioctl
feature_ioctl-fields_example = feature_ioctl-fields 6 25 3222882310 (omega arith) refl

-- a controller that answers, and keeps what it is sent
abbrev answer : ℕ → Report → Option ℕ × Report
answer operation (id ∷ more) =
    if operation == 6
    then (some (length (id ∷ more)), id ∷ more)
    else if id == report_target_list
    then (some 11, 161 ∷ 2 ∷ 33 ∷ 131 ∷ replicate 7 0)
    else (some 9, 163 ∷ 33 ∷ 0 ∷ 2 ∷ 0 ∷ 26 ∷ 0 ∷ 0 ∷ 0 ∷ [])
answer operation [] = (none, [])

abbrev controller : Hidraw
controller = record {
  World = List Report;
  open_node = λ node w. (true, w);
  ioctl = λ node request buffer w.
      let (result, left) = answer (request % 256) buffer in (result, left, buffer ∷ w);
}

pair_applied :
    (apply controller (codes "hidraw0") pair_request []).0
    ≡ ok (last_applied (canonical_request pair_request))
unfolding apply validate_request target_id exchange open_controller read_target_list get_feature
    set_feature feature_ioctl received written parse_target_list read_target_capabilities
    parse_target_capabilities lighting_reports mode_reports static_reports zone_reports
    encode_lighting_report supports supports_wire_mode wire_mode known_target send_reports
pair_applied = refl

identities :
    (matches_uevent (codes "DRIVER=x\nHID_ID=0018:00000CF2:00005130\n") ≡ true)
    × (matches_uevent (codes "HID_ID=0003:00000CF2:00005130\n") ≡ false)
    × (matches_uevent (codes "HID_ID=0018:0CF2:5130\nHID_ID=0018:0CF2:5130\n") ≡ false)
unfolding matches_uevent scan_identity is_identity parse_hex lines strip_prefix split trim hex_value
identities = (refl, refl, refl)
