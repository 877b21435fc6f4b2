-- ===== src/Platform/Examples.antt =====
-- A rear logo at concrete values.
use asense.Base.{◌≡◌, refl, true, arith, ◌≤◌, Bool, false, none, some}
use asense.Base.Text.{codes, Bytes, trim, split}
use asense.Base.Decimal.{decimal, parse_uint}
use asense.Result.{Result, ok, err}
use asense.Platform.{RearLogoState, parse_bool, encode_logo, parse_logo, stop_at_20, from_threshold}
use asense.Exec.Outcome.{Ensures}
use asense.Hardware.Memory.{memory_files, memory_readable}
use asense.Platform.Controls.{
  PlatformControls, bool_readback, usb_readback, preferred, attribute_path, require_attribute,
  read_text, read_optional, read_optional_bool, read_optional_usb, read_optional_logo, read_state,
  write_text, set_verified, set_bool, set_battery_limit, set_battery_calibration,
  set_keyboard_timeout, set_boot_sound, set_lcd_override, set_usb_charging, set_rear_logo,
}
use asense.Platform.Readback.{
  Reads, set_switches-Reads, set_usb_charging-Reads, set_rear_logo-Reads,
}
use asense.Platform.Logo.{parse_logo-encode_logo}

abbrev teal : RearLogoState
teal = record { enabled = true; brightness = 75; red = 0; green = 170; blue = 255 }

teal_text : encode_logo (codes "on") teal ≡ codes "00aaff,75,on"
unfolding encode_logo decimal
teal_text = refl

parse_logo-encode_logo_example : parse_logo (encode_logo (codes "on") teal) ≡ ok teal
unfolding parse_bool
parse_logo-encode_logo_example =
    parse_logo-encode_logo teal (codes "on") (omega arith) (omega arith) (omega arith) (omega arith)
      (refl, (refl, tt)) refl

abbrev wmi : PlatformControls
wmi = record { gaming = some (codes "g"); battery = some (codes "b"); apge = none }

abbrev unset : Bytes → Bytes
unset path = codes "0"

abbrev succeeds {ℓ} : {E A : Type ℓ} → Result E A → Bool
succeeds (ok a) = true
succeeds (err e) = false

-- the limit is written to the battery's directory and read back
limit_set :
    (succeeds (set_battery_limit memory_files wmi true unset).0 ≡ true)
    × ((set_battery_limit memory_files wmi true unset).1 (codes "b/battery_limit") ≡ codes "1\n")
unfolding set_battery_limit set_bool set_verified require_attribute attribute_path preferred
    write_text read_optional read_text bool_readback parse_bool trim read_state read_optional_bool
    read_optional_usb read_optional_logo parse_logo split usb_readback parse_uint from_threshold
limit_set = (refl, refl)

set_switches-Reads_example :
    Ensures
      (λ st w'.
        Reads memory_files wmi memory_readable bool_readback (codes "battery_limit") true w')
      (λ e w'. Unit {0})
      (set_battery_limit memory_files wmi true)
      unset
    × Ensures
        (λ st w'.
          Reads memory_files wmi memory_readable bool_readback
            (codes "battery_calibration")
            true
            w')
        (λ e w'. Unit {0})
        (set_battery_calibration memory_files wmi true)
        unset
    × Ensures
        (λ st w'.
          Reads memory_files wmi memory_readable bool_readback (codes "keyboard_timeout") true w')
        (λ e w'. Unit {0})
        (set_keyboard_timeout memory_files wmi true)
        unset
    × Ensures
        (λ st w'. Reads memory_files wmi memory_readable bool_readback (codes "boot_sound") true w')
        (λ e w'. Unit {0})
        (set_boot_sound memory_files wmi true)
        unset
    × Ensures
        (λ st w'.
          Reads memory_files wmi memory_readable bool_readback (codes "lcd_override") true w')
        (λ e w'. Unit {0})
        (set_lcd_override memory_files wmi true)
        unset
set_switches-Reads_example = set_switches-Reads memory_files wmi memory_readable true unset

set_usb_charging-Reads_example :
    Ensures
      (λ st w'.
        Reads memory_files wmi memory_readable usb_readback (codes "usb_charging") stop_at_20 w')
      (λ e w'. Unit {0})
      (set_usb_charging memory_files wmi stop_at_20)
      unset
set_usb_charging-Reads_example =
    set_usb_charging-Reads memory_files wmi memory_readable stop_at_20 unset

set_rear_logo-Reads_example :
    Ensures
      (λ st w'.
        (teal.brightness ≤ 100)
        × Reads memory_files wmi memory_readable parse_logo (codes "rear_logo") teal w')
      (λ e w'. Unit {0})
      (set_rear_logo memory_files wmi teal)
      unset
set_rear_logo-Reads_example = set_rear_logo-Reads memory_files wmi memory_readable teal unset
