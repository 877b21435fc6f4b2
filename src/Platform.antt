-- ===== src/Platform.antt =====
-- src/platform.rs: the attributes of battery, USB charging, keyboard timeout, boot sound, LCD override
-- and rear logo. The file system is a parameter, as for the fans. An error keeps its kind and not its
-- text.
pub mod Logo
pub mod Controls
pub mod Readback
pub mod State
mod Examples
use asense.Base.{
  ltb, ◌==◌, if◌then◌else◌, within, ℕ, ◌+◌, ◌-◌, ◌*◌, ◌/◌, ◌%◌, Bool, true, false, ◌||◌, Option,
  none, some, List, [], ◌∷◌, ◌++◌,
}
use asense.Base.Text.{Bytes, codes, text_eq, split}
use asense.Base.Decimal.{decimal, parse_uint}
use asense.Result.{Result, ok, err}
use asense.Base.Hex.{hex_color, parse_color}

pub data PlatformError : Type 0 where
  not_supported rejected unreadable invalid_readback readback_differs : PlatformError
  invalid_field unknown_field duplicate_field missing_field : PlatformError
  invalid_boolean invalid_threshold invalid_logo out_of_range : PlatformError

pub data UsbCharging : Type 0 where
  disabled stop_at_10 stop_at_20 stop_at_30 : UsbCharging

abbrev pub threshold : UsbCharging → ℕ
threshold disabled = 0
threshold stop_at_10 = 10
threshold stop_at_20 = 20
threshold stop_at_30 = 30

unfoldable pub from_threshold : ℕ → Result PlatformError UsbCharging
from_threshold value =
    if value == 0
    then ok disabled
    else if value == 10
    then ok stop_at_10
    else if value == 20
    then ok stop_at_20
    else if value == 30
    then ok stop_at_30
    else err invalid_threshold

pub record RearLogoState : Type 0 where
  pub enabled : Bool
  pub brightness : ℕ
  pub red : ℕ
  pub green : ℕ
  pub blue : ℕ

unfoldable pub parse_bool : Bytes → Result PlatformError Bool
parse_bool value =
    if text_eq value (codes "0") || text_eq value (codes "off")
    then ok false
    else if text_eq value (codes "1") || text_eq value (codes "on")
    then ok true
    else err invalid_boolean

abbrev pub encode_bool : Bool → Bytes
encode_bool b = if b then codes "on" else codes "off"

abbrev pub encode_color : RearLogoState → Bytes
encode_color logo = hex_color (logo.red, logo.green, logo.blue)

-- the text of `encode_state` and of `set_rear_logo`, which differ in the spelling of the switch
unfoldable pub encode_logo : Bytes → RearLogoState → Bytes
encode_logo switch logo = encode_color logo ++ 44 ∷ decimal logo.brightness ++ 44 ∷ switch

unfoldable pub logo_fields : List Bytes → Result PlatformError RearLogoState
logo_fields (color ∷ brightness ∷ enabled ∷ []) = elim (parse_color color) [
  | none ↦ err invalid_logo
  | some (r, g, b) ↦ elim (parse_uint 255 brightness) [
    | none ↦ err invalid_logo
    | some level ↦ if ltb 100 level then err out_of_range else elim (parse_bool enabled) [
      | err e ↦ err e
      | ok on ↦ ok (record { enabled = on; brightness = level; red = r; green = g; blue = b })
    ]
  ]
]
logo_fields _ = err invalid_logo

unfoldable pub parse_logo : Bytes → Result PlatformError RearLogoState
unfolding logo_fields
parse_logo value = logo_fields (split 44 value)
