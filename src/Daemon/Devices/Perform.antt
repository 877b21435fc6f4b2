-- ===== src/Daemon/Devices/Perform.antt =====
-- src/daemon.rs: the arms of `execute_command` for the lighting and the platform.
use asense.Base.{if◌then◌else◌, not, ◌&&◌, true, false, Bool, none, some, List}
use asense.Base.Text.{Bytes, codes}
use asense.Base.Hex.{parse_color}
use asense.Result.{Result, ok, err}
use asense.Exec.{Exec, pure, raise, lift, ◌>>=◌}
use asense.Platform.{PlatformError, UsbCharging, from_threshold, RearLogoState}
use asense.Platform.Controls.{
  PlatformControls, PlatformState, read_state, set_battery_limit, set_battery_calibration,
  set_keyboard_timeout, set_boot_sound, set_lcd_override, set_usb_charging, set_rear_logo,
}
use asense.Lighting.Wmi.{read}
use asense.Daemon.{command_is_mutation}
use asense.Daemon.Devices.{
  not_acer, not_locked, DeviceError, lighting_failed, DeviceCommand, apply_lighting_to,
  power_lighting_to, rear_logo_to, recognise_device, parse_switch, parse_on_off, parse_u8,
  parse_lighting, bad_argument, unsupported, rgb_get, platform_get, no_device_command,
  battery_limit_to, battery_calibration_to, usb_charging_to, keyboard_timeout_to, boot_sound_to,
  lcd_override_to,
}
use asense.Daemon.Devices.Board.{
  Board, DeviceAnswer, keyboard_answer, failing, World, discover_platform, discover_zoned,
  discover_all, apply_lighting, power_lighting, on_platform,
}

abbrev pub usb_mode : Bytes → Result DeviceError UsbCharging
usb_mode value = elim (parse_u8 value) [
  | err e ↦ err e
  | ok threshold_value ↦ elim (from_threshold threshold_value) [
    | err e ↦ err bad_argument
    | ok mode ↦ ok mode
  ]
]

abbrev pub parse_rear_logo : Bytes → Bytes → Bytes → Result DeviceError RearLogoState
parse_rear_logo color brightness value = elim (parse_on_off value) [
  | err e ↦ err e
  | ok on ↦ elim (parse_u8 brightness) [
    | err e ↦ err e
    | ok level ↦ elim (parse_color color) [
      | none ↦ err bad_argument
      | some (r, g, b) ↦
          ok (record { enabled = on; brightness = level; red = r; green = g; blue = b })
    ]
  ]
]

module _ (board : Board) where
  open board use {sys, is_acer, acquire}

  -- a switch of the platform: discovery, the argument, the setter
  abbrev pub set_switch :
      Bytes
      → (Bool → PlatformControls → Exec (World board) PlatformError PlatformState)
      → Exec (World board) DeviceError DeviceAnswer
  set_switch value set = discover_platform board >>= λ controls.
      lift (parse_on_off value) >>= λ on. on_platform board (set on controls)

  unfoldable pub perform_device : DeviceCommand → Exec (World board) DeviceError DeviceAnswer
  unfolding discover_platform discover_all parse_lighting parse_on_off apply_lighting power_lighting
      read set_battery_limit set_battery_calibration set_usb_charging set_keyboard_timeout
      set_boot_sound set_lcd_override set_rear_logo read_state parse_u8 from_threshold
  perform_device rgb_get =
      failing lighting_failed (discover_zoned board >>= λ found. read sys found) >>= λ st.
      pure (keyboard_answer st)
  perform_device (apply_lighting_to id mode brightness speed color zones) =
      lift (parse_lighting mode brightness speed color zones) >>= λ command.
      discover_all board >>= λ controllers. apply_lighting board id command controllers
  perform_device (power_lighting_to id value) = lift (parse_on_off value) >>= λ enabled.
      discover_all board >>= λ controllers. power_lighting board id enabled controllers
  perform_device platform_get =
      discover_platform board >>= λ controls. on_platform board (read_state sys controls)
  perform_device (battery_limit_to value) =
      set_switch value (λ on controls. set_battery_limit sys controls on)
  perform_device (battery_calibration_to value) =
      lift (parse_switch (codes "START") (codes "STOP") value) >>= λ on.
      discover_platform board >>= λ controls.
      on_platform board (set_battery_calibration sys controls on)
  perform_device (usb_charging_to value) = lift (usb_mode value) >>= λ mode.
      discover_platform board >>= λ controls. on_platform board (set_usb_charging sys controls mode)
  perform_device (keyboard_timeout_to value) =
      set_switch value (λ on controls. set_keyboard_timeout sys controls on)
  perform_device (boot_sound_to value) =
      set_switch value (λ on controls. set_boot_sound sys controls on)
  perform_device (lcd_override_to value) =
      set_switch value (λ on controls. set_lcd_override sys controls on)
  perform_device (rear_logo_to color brightness value) =
      lift (parse_rear_logo color brightness value) >>= λ request.
      discover_platform board >>= λ controls. on_platform board (set_rear_logo sys controls request)
  perform_device no_device_command = raise unsupported

  abbrev pub locked : Bool × World board → Result DeviceError Unit × World board
  locked (true, w) = (ok tt, w)
  locked (false, w) = (err not_locked, w)

  -- the lock of a command that changes something
  unfoldable pub take_lock : Bool → Exec (World board) DeviceError Unit
  take_lock mutation w = if mutation then locked (acquire w) else (ok tt, w)

  -- `execute_command` on the fields of a command: its refusal, its lock, its arms
  unfoldable pub execute_device : List Bytes → Exec (World board) DeviceError DeviceAnswer
  unfolding perform_device recognise_device command_is_mutation take_lock
  execute_device words w =
      if command_is_mutation words && not (is_acer w)
      then (err not_acer, w)
      else (take_lock (command_is_mutation words) >>= λ u. perform_device (recognise_device words))
          w
