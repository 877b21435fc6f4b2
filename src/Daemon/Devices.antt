-- ===== src/Daemon/Devices.antt =====
-- src/daemon.rs: the commands of `execute_command` that set the lighting and the platform. The file
-- system, the hidraw device and the listing of directories are parameters over one world.
pub mod Board
pub mod Perform
use asense.Base.{
  ltb, if◌then◌else◌, within, length, ℕ, ◌-◌, Bool, true, false, ◌&&◌, ◌||◌, Option, none, some,
  List, [], ◌∷◌,
}
use asense.Base.Text.{Bytes, codes, text_eq, split}
use asense.Base.Hex.{Color, parse_color}
use asense.Base.Decimal.{parse_uint}
use asense.Result.{Result, ok, err, ◌>>=◌}
use asense.Platform.{PlatformError}
use asense.Lighting.{
  LightingTarget, LightingMode, LightingRequest, LightingError, off, static, breathing, neon,
}
use asense.Lighting.Enek.Device.{Hidraw, apply}

pub data DeviceError : Type 0 where
  lighting_failed : LightingError → DeviceError
  platform_failed : PlatformError → DeviceError
  bad_argument device_unavailable unsupported not_acer not_locked : DeviceError

-- the patterns of the commands, with their arguments as they stand
pub data DeviceCommand : Type 0 where
  rgb_get platform_get no_device_command : DeviceCommand
  apply_lighting_to : (id mode brightness speed color zones : Bytes) → DeviceCommand
  power_lighting_to : (id value : Bytes) → DeviceCommand
  battery_limit_to battery_calibration_to usb_charging_to : Bytes → DeviceCommand
  keyboard_timeout_to boot_sound_to lcd_override_to : Bytes → DeviceCommand
  rear_logo_to : (color brightness value : Bytes) → DeviceCommand

unfoldable pub recognise_platform : Bytes → Bytes → DeviceCommand
recognise_platform name value =
    if text_eq name (codes "BATTERY_LIMIT")
    then battery_limit_to value
    else if text_eq name (codes "BATTERY_CALIBRATION")
    then battery_calibration_to value
    else if text_eq name (codes "USB_CHARGING")
    then usb_charging_to value
    else if text_eq name (codes "KEYBOARD_TIMEOUT")
    then keyboard_timeout_to value
    else if text_eq name (codes "BOOT_SOUND")
    then boot_sound_to value
    else if text_eq name (codes "LCD_OVERRIDE")
    then lcd_override_to value
    else no_device_command

unfoldable pub recognise_device : List Bytes → DeviceCommand
unfolding recognise_platform
recognise_device (a ∷ b ∷ []) =
    if text_eq a (codes "RGB") && text_eq b (codes "GET")
    then rgb_get
    else if text_eq a (codes "PLATFORM") && text_eq b (codes "GET")
    then platform_get
    else no_device_command
recognise_device (a ∷ b ∷ value ∷ []) =
    if text_eq a (codes "PLATFORM") then recognise_platform b value else no_device_command
recognise_device (a ∷ b ∷ id ∷ value ∷ []) =
    if text_eq a (codes "LIGHTING") && text_eq b (codes "POWER")
    then power_lighting_to id value
    else no_device_command
recognise_device (a ∷ b ∷ color ∷ brightness ∷ value ∷ []) =
    if text_eq a (codes "PLATFORM") && text_eq b (codes "REAR_LOGO")
    then rear_logo_to color brightness value
    else no_device_command
recognise_device (a ∷ b ∷ id ∷ mode ∷ brightness ∷ speed ∷ color ∷ zones ∷ []) =
    if text_eq a (codes "LIGHTING") && text_eq b (codes "APPLY")
    then apply_lighting_to id mode brightness speed color zones
    else no_device_command
recognise_device _ = no_device_command

unfoldable pub parse_lighting_mode : Bytes → Result DeviceError LightingMode
parse_lighting_mode value =
    if text_eq value (codes "OFF")
    then ok off
    else if text_eq value (codes "STATIC")
    then ok static
    else if text_eq value (codes "BREATHING")
    then ok breathing
    else if text_eq value (codes "NEON")
    then ok neon
    else err bad_argument

-- `on` where a value is given, in the words of the argument
unfoldable pub parse_switch : Bytes → Bytes → Bytes → Result DeviceError Bool
parse_switch on_word off_word value =
    if text_eq value on_word
    then ok true
    else if text_eq value off_word
    then ok false
    else err bad_argument

unfoldable pub parse_on_off : Bytes → Result DeviceError Bool
unfolding parse_switch
parse_on_off value = parse_switch (codes "ON") (codes "OFF") value

abbrev pub argument : {A : Type 0} → Option A → Result DeviceError A
argument none = err bad_argument
argument (some a) = ok a

unfoldable pub parse_u8 : Bytes → Result DeviceError ℕ
parse_u8 value = argument (parse_uint 255 value)

unfoldable pub parse_colors : List Bytes → Option (List Color)
parse_colors [] = some []
parse_colors (piece ∷ pieces) = elim (parse_color piece) [
  | none ↦ none
  | some c ↦ elim (parse_colors pieces) [ none ↦ none | some cs ↦ some (c ∷ cs) ]
]

-- the colours of one to sixteen pieces
unfoldable pub parse_pieces : List Bytes → Result DeviceError (List Color)
unfolding parse_colors
parse_pieces pieces =
    if within 1 16 (length pieces) then argument (parse_colors pieces) else err bad_argument

unfoldable pub parse_zone_colors : Bytes → Result DeviceError (List Color)
unfolding parse_pieces
parse_zone_colors value = if text_eq value (codes "-") then ok [] else parse_pieces (split 44 value)

-- what a lighting command asks, before its device is known
pub record LightingCommand : Type 0 where
  pub mode : LightingMode
  pub brightness : ℕ
  pub speed : ℕ
  pub color : Color
  pub zone_colors : List Color

abbrev pub request_for : LightingTarget → LightingCommand → LightingRequest
request_for target command = record {
  target = target;
  mode = command.mode;
  brightness = command.brightness;
  speed = command.speed;
  color = command.color;
  zone_colors = command.zone_colors;
}

unfoldable pub parse_lighting :
    Bytes → Bytes → Bytes → Bytes → Bytes → Result DeviceError LightingCommand
unfolding parse_lighting_mode parse_zone_colors parse_u8
parse_lighting mode brightness speed color zones = parse_lighting_mode mode >>= λ m.
    argument (parse_color color) >>= λ c. parse_zone_colors zones >>= λ cs.
    parse_u8 brightness >>= λ b. parse_u8 speed >>= λ s.
    if ltb 100 b || ltb 9 s
    then err bad_argument
    else ok (record { mode = m; brightness = b; speed = s; color = c; zone_colors = cs })
