-- ===== src/Platform/State.antt =====
-- src/platform.rs: the text of the platform's state that the daemon sends, and the client's parser.
pub mod RoundTrip
pub mod Readable
mod Examples
use asense.Result.{Result, ok, err, ◌>>=◌}
use asense.Base.{ltb, ◌==◌, if◌then◌else◌, length, ℕ, Bool, Option, none, some, List, [], ◌∷◌}
use asense.Base.Text.{Bytes, codes, text_eq, split_once, fields}
use asense.Base.Keyed.{tokens, spaced}
use asense.Base.Decimal.{decimal, parse_uint}
use asense.Platform.{
  PlatformError, UsbCharging, threshold, from_threshold, RearLogoState, parse_bool, encode_bool,
  encode_logo, parse_logo, invalid_field, unknown_field, duplicate_field, missing_field,
  invalid_threshold,
}
use asense.Platform.Controls.{PlatformState}

abbrev pub unsupported_text : Bytes
unsupported_text = codes "unsupported"

unfoldable pub encode_optional_bool : Option Bool → Bytes
encode_optional_bool none = unsupported_text
encode_optional_bool (some b) = encode_bool b

unfoldable pub encode_optional_usb : Option UsbCharging → Bytes
encode_optional_usb none = unsupported_text
encode_optional_usb (some mode) = decimal (threshold mode)

unfoldable pub encode_optional_logo : Option RearLogoState → Bytes
encode_optional_logo none = unsupported_text
encode_optional_logo (some logo) = encode_logo (encode_bool logo.enabled) logo

abbrev pub state_names : List Bytes
state_names =
    codes "battery_limit"
    ∷ codes "battery_calibration"
    ∷ codes "usb_charging"
    ∷ codes "keyboard_timeout"
    ∷ codes "boot_sound"
    ∷ codes "lcd_override"
    ∷ codes "rear_logo"
    ∷ codes "read_error_mask"
    ∷ []

unfoldable pub state_values : PlatformState → List Bytes
unfolding encode_optional_bool encode_optional_usb encode_optional_logo
state_values state =
    encode_optional_bool state.battery_limit
    ∷ encode_optional_bool state.battery_calibration
    ∷ encode_optional_usb state.usb_charging
    ∷ encode_optional_bool state.keyboard_timeout
    ∷ encode_optional_bool state.boot_sound
    ∷ encode_optional_bool state.lcd_override
    ∷ encode_optional_logo state.rear_logo
    ∷ decimal state.read_error_mask
    ∷ []

unfoldable pub encode_state : PlatformState → Bytes
unfolding state_values tokens
encode_state state = spaced (tokens state_names (state_values state))

-- a field with its value
pub data Field : Type 0 where
  limit_field calibration_field timeout_field : Option Bool → Field
  sound_field lcd_field : Option Bool → Field
  usb_field : Option UsbCharging → Field
  logo_field : Option RearLogoState → Field
  mask_field : ℕ → Field

-- the variables of the loop, in the order of the names
abbrev pub Slots : Type 0
Slots =
    Option (Option Bool)
    × Option (Option Bool)
    × Option (Option UsbCharging)
    × Option (Option Bool)
    × Option (Option Bool)
    × Option (Option Bool)
    × Option (Option RearLogoState)
    × Option ℕ

abbrev pub supported :
    {T : Type 0} → (Bytes → Result PlatformError T) → Bytes → Result PlatformError (Option T)
supported parse value =
    if text_eq value unsupported_text then ok none else (parse value >>= λ v. ok (some v))

unfoldable pub parse_optional_bool : Bytes → Result PlatformError (Option Bool)
unfolding parse_bool
parse_optional_bool value = supported parse_bool value

abbrev pub number_or : ℕ → PlatformError → Bytes → Result PlatformError ℕ
number_or max e value = elim (parse_uint max value) [ none ↦ err e | some n ↦ ok n ]

unfoldable pub parse_optional_usb : Bytes → Result PlatformError (Option UsbCharging)
unfolding from_threshold
parse_optional_usb value =
    supported (λ text. number_or 255 invalid_threshold text >>= from_threshold) value

-- the bits above the seventh are unknown
unfoldable pub parse_read_error_mask : Bytes → Result PlatformError ℕ
parse_read_error_mask value = number_or 255 invalid_field value >>= λ mask.
    if ltb 127 mask then err invalid_field else ok mask

unfoldable pub parse_field : Bytes → Bytes → Result PlatformError Field
unfolding parse_optional_bool parse_optional_usb parse_read_error_mask parse_logo
parse_field key value =
    if text_eq key (codes "battery_limit")
    then (parse_optional_bool value >>= λ v. ok (limit_field v))
    else if text_eq key (codes "battery_calibration")
    then (parse_optional_bool value >>= λ v. ok (calibration_field v))
    else if text_eq key (codes "usb_charging")
    then (parse_optional_usb value >>= λ v. ok (usb_field v))
    else if text_eq key (codes "keyboard_timeout")
    then (parse_optional_bool value >>= λ v. ok (timeout_field v))
    else if text_eq key (codes "boot_sound")
    then (parse_optional_bool value >>= λ v. ok (sound_field v))
    else if text_eq key (codes "lcd_override")
    then (parse_optional_bool value >>= λ v. ok (lcd_field v))
    else if text_eq key (codes "rear_logo")
    then (supported parse_logo value >>= λ v. ok (logo_field v))
    else if text_eq key (codes "read_error_mask")
    then (parse_read_error_mask value >>= λ v. ok (mask_field v))
    else err unknown_field

-- `set_once`: a second value for a name is refused
abbrev pub set_once : {T : Type 0} → Option T → Slots → Result PlatformError Slots
set_once none slots = ok slots
set_once (some earlier) slots = err duplicate_field

unfoldable pub store_field : Field → Slots → Result PlatformError Slots
store_field (limit_field v) (a, b, c, d, e, f, g, h) = set_once a (some v, b, c, d, e, f, g, h)
store_field (calibration_field v) (a, b, c, d, e, f, g, h) =
    set_once b (a, some v, c, d, e, f, g, h)
store_field (usb_field v) (a, b, c, d, e, f, g, h) = set_once c (a, b, some v, d, e, f, g, h)
store_field (timeout_field v) (a, b, c, d, e, f, g, h) = set_once d (a, b, c, some v, e, f, g, h)
store_field (sound_field v) (a, b, c, d, e, f, g, h) = set_once e (a, b, c, d, some v, f, g, h)
store_field (lcd_field v) (a, b, c, d, e, f, g, h) = set_once f (a, b, c, d, e, some v, g, h)
store_field (logo_field v) (a, b, c, d, e, f, g, h) = set_once g (a, b, c, d, e, f, some v, h)
store_field (mask_field v) (a, b, c, d, e, f, g, h) = set_once h (a, b, c, d, e, f, g, some v)

-- one round of the loop
unfoldable pub read_field : Bytes → Slots → Result PlatformError Slots
unfolding parse_field store_field
read_field field slots = elim (split_once 61 field) [
  | none ↦ err invalid_field
  | some (key, value) ↦ parse_field key value >>= λ parsed. store_field parsed slots
]

unfoldable pub read_fields : List Bytes → Slots → Result PlatformError Slots
unfolding read_field
read_fields [] slots = ok slots
read_fields (field ∷ more) slots = read_field field slots >>= read_fields more

-- every name has its value
unfoldable pub complete : Slots → Result PlatformError PlatformState
complete (some a, some b, some c, some d, some e, some f, some g, some h) = ok (record {
  battery_limit = a;
  battery_calibration = b;
  usb_charging = c;
  keyboard_timeout = d;
  boot_sound = e;
  lcd_override = f;
  rear_logo = g;
  read_error_mask = h;
})
complete _ = err missing_field

abbrev pub no_slots : Slots
no_slots = (none, none, none, none, none, none, none, none)

unfoldable pub parse_state : Bytes → Result PlatformError PlatformState
unfolding read_fields complete
parse_state value =
    if length (fields value) == 8
    then (read_fields (fields value) no_slots >>= complete)
    else err invalid_field
