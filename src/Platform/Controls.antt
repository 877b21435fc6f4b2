-- ===== src/Platform/Controls.antt =====
-- src/platform.rs: `PlatformControls`: where an attribute lies, its getters and its setters.
use asense.Base.{
  ltb, ◌==◌, if◌then◌else◌, ℕ, ◌+◌, ◌/◌, ◌%◌, Bool, true, false, not, ◌&&◌, ◌||◌, Option, none,
  some, [], ◌∷◌, ◌++◌,
}
use asense.Base.Text.{Bytes, codes, text_eq, trim}
use asense.Base.Decimal.{decimal, parse_uint}
use asense.Result.{Result, ok, err}
use asense.Exec.{Exec, pure, raise, lift, ◌>>=◌, ◌>>◌, handle}
use asense.Hardware.Sysfs.{Sysfs, join}
use asense.Platform.{
  PlatformError, UsbCharging, threshold, from_threshold, RearLogoState, parse_bool, encode_logo,
  parse_logo, not_supported, rejected, unreadable, invalid_readback, readback_differs, out_of_range,
}

-- the directories that discovery found
pub record PlatformControls : Type 0 where
  pub gaming : Option Bytes
  pub battery : Option Bytes
  pub apge : Option Bytes

pub record PlatformState : Type 0 where
  pub battery_limit : Option Bool
  pub battery_calibration : Option Bool
  pub usb_charging : Option UsbCharging
  pub keyboard_timeout : Option Bool
  pub boot_sound : Option Bool
  pub lcd_override : Option Bool
  pub rear_logo : Option RearLogoState
  pub read_error_mask : ℕ

-- `mask |= bit` for one bit
abbrev pub set_bit : ℕ → ℕ → ℕ
set_bit mask bit = if mask / bit % 2 == 1 then mask else mask + bit

-- a getter that failed sets its bit and gives nothing
abbrev pub isolate_getter_failure :
    {T : Type 0} → Result PlatformError (Option T) → ℕ → ℕ → Option T × ℕ
isolate_getter_failure (ok value) bit mask = (value, mask)
isolate_getter_failure (err e) bit mask = (none, set_bit mask bit)

abbrev pub is_some_bool : Option Bool → Bool → Bool
is_some_bool none b = false
is_some_bool (some true) b = b
is_some_bool (some false) b = not b

abbrev pub is_some_usb : Option UsbCharging → UsbCharging → Bool
is_some_usb none mode = false
is_some_usb (some u) mode = threshold u == threshold mode

abbrev same_bool : Bool → Bool → Bool
same_bool true b = b
same_bool false b = not b

abbrev pub is_some_logo : Option RearLogoState → RearLogoState → Bool
is_some_logo none l = false
is_some_logo (some k) l =
    same_bool k.enabled l.enabled
    && k.brightness == l.brightness
    && k.red == l.red
    && k.green == l.green
    && k.blue == l.blue

unfoldable pub bool_readback : Bytes → Result PlatformError Bool
bool_readback text = elim (parse_bool text) [ err e ↦ err invalid_readback | ok b ↦ ok b ]

unfoldable pub usb_readback : Bytes → Result PlatformError UsbCharging
usb_readback text = elim (parse_uint 255 text) [
  | none ↦ err invalid_readback
  | some n ↦ from_threshold n
]

module _ (sys : Sysfs) (controls : PlatformControls) where
  open sys use {World, read_file, write_file, is_file}
  open controls use {gaming, battery, apge}

  -- the attribute below a directory, if it is there
  abbrev pub existing : Option Bytes → Bytes → World → Option Bytes
  existing none name w = none
  existing (some base) name w = if is_file (join base name) w then some (join base name) else none

  abbrev pub or_else : Option Bytes → Option Bytes → Option Bytes
  or_else none other_path = other_path
  or_else (some path) other_path = some path

  unfoldable pub preferred : Bytes → Option Bytes
  preferred name =
      if text_eq name (codes "battery_limit") || text_eq name (codes "battery_calibration")
      then battery
      else if text_eq name (codes "usb_charging") || text_eq name (codes "keyboard_timeout")
      then apge
      else gaming

  unfoldable pub attribute_path : Bytes → World → Option Bytes
  attribute_path name w = or_else (existing (preferred name) name w) (existing gaming name w)

  unfoldable pub require_attribute : Bytes → Exec World PlatformError Bytes
  require_attribute name w = elim (attribute_path name w) [
    | none ↦ (err not_supported, w)
    | some path ↦ (ok path, w)
  ]

  unfoldable pub read_text : Bytes → Exec World PlatformError Bytes
  read_text path = handle (read_file path) (λ text. pure (trim text)) (λ e. raise unreadable)

  -- a getter: nothing without the attribute, else its text through the parser
  unfoldable pub read_optional :
      {T : Type 0} → (Bytes → Result PlatformError T) → Bytes → Exec World PlatformError (Option T)
  unfolding read_text
  read_optional parse name w = elim (attribute_path name w) [
    | none ↦ (ok none, w)
    | some path ↦ (read_text path >>= λ text. lift (parse text) >>= λ value. pure (some value)) w
  ]

  unfoldable pub read_optional_bool : Bytes → Exec World PlatformError (Option Bool)
  read_optional_bool name = read_optional bool_readback name

  unfoldable pub read_optional_usb : Exec World PlatformError (Option UsbCharging)
  read_optional_usb = read_optional usb_readback (codes "usb_charging")

  unfoldable pub read_optional_logo : Exec World PlatformError (Option RearLogoState)
  read_optional_logo = read_optional parse_logo (codes "rear_logo")

  -- every attribute is read, and a failure of one leaves the others
  unfoldable pub read_state : Exec World PlatformError PlatformState
  unfolding read_optional_bool read_optional_usb read_optional_logo
  read_state w =
      let (r0, w0) = read_optional_bool (codes "battery_limit") w in
      let (limit, m0) = isolate_getter_failure r0 1 0 in
      let (r1, w1) = read_optional_bool (codes "battery_calibration") w0 in
      let (calibration, m1) = isolate_getter_failure r1 2 m0 in
      let (r2, w2) = read_optional_usb w1 in
      let (usb, m2) = isolate_getter_failure r2 4 m1 in
      let (r3, w3) = read_optional_bool (codes "keyboard_timeout") w2 in
      let (timeout, m3) = isolate_getter_failure r3 8 m2 in
      let (r4, w4) = read_optional_bool (codes "boot_sound") w3 in
      let (sound, m4) = isolate_getter_failure r4 16 m3 in
      let (r5, w5) = read_optional_bool (codes "lcd_override") w4 in
      let (lcd, m5) = isolate_getter_failure r5 32 m4 in
      let (r6, w6) = read_optional_logo w5 in
      let (logo, m6) = isolate_getter_failure r6 64 m5 in
      (
        ok (record {
          battery_limit = limit;
          battery_calibration = calibration;
          usb_charging = usb;
          keyboard_timeout = timeout;
          boot_sound = sound;
          lcd_override = lcd;
          rear_logo = logo;
          read_error_mask = m6;
        }),
        w6,
      )

  unfoldable pub write_text : Bytes → Bytes → Exec World PlatformError Unit
  write_text path text = handle (write_file path text) (λ u. pure tt) (λ e. raise rejected)

  -- a setter: the attribute is written and read back
  unfoldable pub set_verified :
      {T : Type 0}
      → (Bytes → Result PlatformError T)
      → (Option T → Bool)
      → Bytes
      → Bytes
      → Exec World PlatformError Unit
  unfolding write_text read_optional require_attribute
  set_verified parse agrees name text = do
    path ← require_attribute name
    write_text path (text ++ 10 ∷ [])
    value ← read_optional parse name
    if agrees value then pure tt else raise readback_differs

  unfoldable pub set_bool : Bytes → Bool → Exec World PlatformError Unit
  unfolding set_verified
  set_bool name enabled =
      set_verified bool_readback (λ value. is_some_bool value enabled) name
        (if enabled then codes "1" else codes "0")

  unfoldable pub set_battery_limit : Bool → Exec World PlatformError PlatformState
  unfolding set_bool read_state
  set_battery_limit enabled = set_bool (codes "battery_limit") enabled >> read_state

  unfoldable pub set_battery_calibration : Bool → Exec World PlatformError PlatformState
  unfolding set_bool read_state
  set_battery_calibration enabled = set_bool (codes "battery_calibration") enabled >> read_state

  unfoldable pub set_keyboard_timeout : Bool → Exec World PlatformError PlatformState
  unfolding set_bool read_state
  set_keyboard_timeout enabled = set_bool (codes "keyboard_timeout") enabled >> read_state

  unfoldable pub set_boot_sound : Bool → Exec World PlatformError PlatformState
  unfolding set_bool read_state
  set_boot_sound enabled = set_bool (codes "boot_sound") enabled >> read_state

  unfoldable pub set_lcd_override : Bool → Exec World PlatformError PlatformState
  unfolding set_bool read_state
  set_lcd_override enabled = set_bool (codes "lcd_override") enabled >> read_state

  unfoldable pub set_usb_charging : UsbCharging → Exec World PlatformError PlatformState
  unfolding set_verified read_state
  set_usb_charging mode = do
    set_verified usb_readback (λ value. is_some_usb value mode) (codes "usb_charging")
        (decimal (threshold mode))
    read_state

  unfoldable pub set_rear_logo : RearLogoState → Exec World PlatformError PlatformState
  unfolding set_verified read_state
  set_rear_logo request = if ltb 100 request.brightness then raise out_of_range else (do
    set_verified parse_logo (λ value. is_some_logo value request) (codes "rear_logo")
        (encode_logo (if request.enabled then codes "1" else codes "0") request)
    read_state)
