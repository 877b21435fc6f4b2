-- ===== src/Platform/State/Examples.antt =====
-- The text of a platform's state at concrete values.
use asense.Base.{◌≡◌, refl, true, false, some, none, arith}
use asense.Base.Text.{Bytes, codes}
use asense.Base.Decimal.{decimal}
use asense.Result.{ok}
use asense.Hardware.Memory.{memory_files}
use asense.Platform.{encode_logo, stop_at_20}
use asense.Platform.Controls.{PlatformControls, PlatformState, read_state}
use asense.Platform.State.{encode_state, parse_state}
use asense.Platform.State.RoundTrip.{parse_state-encode_state}
use asense.Platform.State.Readable.{parse_state-read_state}

abbrev shown : PlatformState
shown = record {
  battery_limit = some true;
  battery_calibration = some false;
  usb_charging = some stop_at_20;
  keyboard_timeout = none;
  boot_sound = none;
  lcd_override = none;
  rear_logo = some (record { enabled = true; brightness = 75; red = 0; green = 170; blue = 255 });
  read_error_mask = 8;
}

shown_text :
    encode_state shown
    ≡ codes
        "battery_limit=on battery_calibration=off usb_charging=20 keyboard_timeout=unsupported boot_sound=unsupported lcd_override=unsupported rear_logo=00aaff,75,on read_error_mask=8"
unfolding encode_state encode_logo decimal
shown_text = refl

parse_state-encode_state_example : parse_state (encode_state shown) ≡ ok shown
parse_state-encode_state_example =
    parse_state-encode_state shown ((omega arith, omega arith, omega arith), omega arith)
      (omega arith)

abbrev wmi : PlatformControls
wmi = record { gaming = some (codes "g"); battery = some (codes "b"); apge = none }

abbrev files : Bytes → Bytes
files path = codes "0"

parse_state-read_state_example :
    (state : PlatformState) × ((read_state memory_files wmi files).0 ≡ ok state)
    × (parse_state (encode_state state) ≡ ok state)
parse_state-read_state_example = parse_state-read_state memory_files wmi files
