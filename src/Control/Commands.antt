-- ===== src/Control/Commands.antt =====
-- src/control.rs: the commands of `ControlClient` that the daemon carries out on the lighting and the
-- platform: the local checks and the text that is sent.
use asense.Result.{Result, ok, err}
use asense.Base.{leb, if◌then◌else◌, length, ℕ, Bool, true, ◌&&◌, List, [], ◌∷◌, map}
use asense.Base.Text.{Bytes, codes}
use asense.Base.Split.{joined}
use asense.Base.Hex.{Color, hex_color}
use asense.Base.Decimal.{decimal}
use asense.Platform.{UsbCharging, threshold, RearLogoState}
use asense.Lighting.{LightingMode, off, static, breathing, neon}
use asense.Base.Keyed.{spaced}
use asense.Control.{
  ControlError, max_control_command_bytes, valid_lighting_device_id, invalid_request,
}

pub data ClientCommand : Type 0 where
  ask_keyboard_state ask_platform_state : ClientCommand
  ask_lighting :
      (device_id : Bytes) (mode : LightingMode) (brightness speed : ℕ) (color : Color)
      (zone_colors : List Color)
      → ClientCommand
  ask_lighting_power : (device_id : Bytes) (enabled : Bool) → ClientCommand
  ask_battery_limit ask_battery_calibration ask_keyboard_timeout : Bool → ClientCommand
  ask_boot_sound ask_lcd_override : Bool → ClientCommand
  ask_usb_charging : UsbCharging → ClientCommand
  ask_rear_logo : RearLogoState → ClientCommand

unfoldable pub mode_word : LightingMode → Bytes
mode_word off = codes "OFF"
mode_word static = codes "STATIC"
mode_word breathing = codes "BREATHING"
mode_word neon = codes "NEON"

abbrev pub switch_word : Bool → Bytes
switch_word enabled = if enabled then codes "ON" else codes "OFF"

unfoldable pub zones_word : List Color → Bytes
zones_word [] = codes "-"
zones_word (c ∷ more) = joined 44 (hex_color c) (map hex_color more)

-- the words of a platform switch, `set_platform_toggle`
abbrev pub toggle_words : Bytes → Bool → List Bytes
toggle_words name enabled = codes "PLATFORM" ∷ name ∷ switch_word enabled ∷ []

-- the words of the command
unfoldable pub command_words : ClientCommand → List Bytes
unfolding mode_word zones_word
command_words ask_keyboard_state = codes "RGB" ∷ codes "GET" ∷ []
command_words ask_platform_state = codes "PLATFORM" ∷ codes "GET" ∷ []
command_words (ask_lighting device_id mode brightness speed color zone_colors) =
    codes "LIGHTING"
    ∷ codes "APPLY"
    ∷ device_id
    ∷ mode_word mode
    ∷ decimal brightness
    ∷ decimal speed
    ∷ hex_color color
    ∷ zones_word zone_colors
    ∷ []
command_words (ask_lighting_power device_id enabled) =
    codes "LIGHTING" ∷ codes "POWER" ∷ device_id ∷ switch_word enabled ∷ []
command_words (ask_battery_limit enabled) = toggle_words (codes "BATTERY_LIMIT") enabled
command_words (ask_battery_calibration enabled) =
    codes "PLATFORM"
    ∷ codes "BATTERY_CALIBRATION"
    ∷ (if enabled then codes "START" else codes "STOP")
    ∷ []
command_words (ask_keyboard_timeout enabled) = toggle_words (codes "KEYBOARD_TIMEOUT") enabled
command_words (ask_boot_sound enabled) = toggle_words (codes "BOOT_SOUND") enabled
command_words (ask_lcd_override enabled) = toggle_words (codes "LCD_OVERRIDE") enabled
command_words (ask_usb_charging mode) =
    codes "PLATFORM" ∷ codes "USB_CHARGING" ∷ decimal (threshold mode) ∷ []
command_words (ask_rear_logo state) =
    codes "PLATFORM"
    ∷ codes "REAR_LOGO"
    ∷ hex_color (state.red, state.green, state.blue)
    ∷ decimal state.brightness
    ∷ switch_word state.enabled
    ∷ []

-- the text that `request` sends before its newline
unfoldable pub command_text : ClientCommand → Bytes
unfolding command_words
command_text command = spaced (command_words command)

-- the checks that come before anything is sent
unfoldable pub locally_valid : ClientCommand → Bool
unfolding valid_lighting_device_id command_text
locally_valid (ask_lighting device_id mode brightness speed color zone_colors) =
    valid_lighting_device_id device_id
    && leb brightness 100
    && leb speed 9
    && leb (length zone_colors) 16
    && leb (length (command_text (ask_lighting device_id mode brightness speed color zone_colors)))
        max_control_command_bytes
locally_valid (ask_lighting_power device_id enabled) = valid_lighting_device_id device_id
locally_valid (ask_rear_logo state) = leb state.brightness 100
locally_valid _ = true

-- what is sent, or the refusal before anything is
unfoldable pub prepare : ClientCommand → Result ControlError Bytes
unfolding locally_valid command_text
prepare command = if locally_valid command then ok (command_text command) else err invalid_request
