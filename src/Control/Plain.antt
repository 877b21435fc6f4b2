-- ===== src/Control/Plain.antt =====
-- src/control.rs: the commands of the client are ASCII.
use asense.Base.{
  All, All-append, All-mono, all, ltb, ℕ, ◌<◌, ◌/◌, ◌%◌, ◌≡◌, refl, Bool, true, false, ◌||◌, List,
  [], ◌∷◌, map, arith,
}
use asense.Base.Text.{Bytes, codes}
use asense.Base.Split.{joined}
use asense.Base.Keyed.{spaced}
use asense.Base.Hex.{Color, IsByteColor, hex_digit, hex_color}
use asense.Base.Decimal.{decimal, IsDigit, decimal-IsDigit}
use asense.Platform.{threshold}
use asense.Lighting.{LightingMode, off, static, breathing, neon}
use asense.Control.{is_lower, is_upper, is_digit, is_dash, valid_lighting_device_id}
use asense.Control.Commands.{
  ClientCommand, ask_lighting, ask_lighting_power, ask_usb_charging, ask_rear_logo, command_words,
  command_text, locally_valid, ask_keyboard_state, ask_platform_state, ask_battery_limit,
  ask_battery_calibration, ask_keyboard_timeout, ask_boot_sound, ask_lcd_override, switch_word,
  mode_word, zones_word, toggle_words,
}
use asense.Control.Words.{IsCommand}

abbrev pub Ascii : Bytes → Type 0
Ascii s = All (λ c. c < 128) s

-- for literals
literal-Ascii : (s : Bytes) → all (λ c. ltb c 128) s ≡ true → Ascii s
literal-Ascii [] h = tt
literal-Ascii (c ∷ s) h = (ground (arith, h), literal-Ascii s (ground (arith, h)))

decimal-Ascii : (n : ℕ) → Ascii (decimal n)
decimal-Ascii n =
    All-mono IsDigit (λ c. c < 128) (decimal n) (λ c h. ground (arith, h)) (decimal-IsDigit n)

valid_lighting_device_id-Ascii : (s : Bytes) → valid_lighting_device_id s ≡ true → Ascii s
unfolding valid_lighting_device_id
valid_lighting_device_id-Ascii s h = letters s (ground (arith, h))
  where
    letters :
        (s : Bytes)
        → all (λ c. is_lower c || is_upper c || is_digit c || is_dash c) s ≡ true
        → All (λ c. c < 128) s
    letters [] h = tt
    letters (c ∷ s) h = (ground (arith, h), letters s (ground (arith, h)))

hex_digit-below : (d : ℕ) → d < 16 → hex_digit d < 128
hex_digit-below d h = ground (arith, h)

hex_color-Ascii : (c : Color) → IsByteColor c → Ascii (hex_color c)
hex_color-Ascii (r, g, b) (hr, hg, hb) = (
  hex_digit-below (r / 16) (omega (arith, hr)),
  (
    hex_digit-below (r % 16) (omega arith),
    (
      hex_digit-below (g / 16) (omega (arith, hg)),
      (
        hex_digit-below (g % 16) (omega arith),
        (
          hex_digit-below (b / 16) (omega (arith, hb)),
          (hex_digit-below (b % 16) (omega arith), tt),
        ),
      ),
    ),
  ),
)

joined-Ascii :
    (sep : ℕ) (first : Bytes) (rest : List Bytes)
    → sep < 128
    → Ascii first
    → All Ascii rest
    → Ascii (joined sep first rest)
joined-Ascii sep first [] plain h hs = h
joined-Ascii sep first (next ∷ rest) plain h (k, ks) =
    All-append (λ c. c < 128) first (sep ∷ joined sep next rest) h
      (plain, joined-Ascii sep next rest plain k ks)

spaced-Ascii : (pieces : List Bytes) → All Ascii pieces → Ascii (spaced pieces)
spaced-Ascii [] h = tt
spaced-Ascii (piece ∷ more) (h, hs) = joined-Ascii 32 piece more (omega arith) h hs

hex_colors-Ascii : (colors : List Color) → All IsByteColor colors → All Ascii (map hex_color colors)
hex_colors-Ascii [] h = tt
hex_colors-Ascii (c ∷ colors) (h, hs) = (hex_color-Ascii c h, hex_colors-Ascii colors hs)

zones_word-Ascii : (colors : List Color) → All IsByteColor colors → Ascii (zones_word colors)
unfolding zones_word
zones_word-Ascii [] h = literal-Ascii (codes "-") refl
zones_word-Ascii (c ∷ more) (h, hs) =
    joined-Ascii 44 (hex_color c) (map hex_color more) (omega arith) (hex_color-Ascii c h)
      (hex_colors-Ascii more hs)

mode_word-Ascii : (mode : LightingMode) → Ascii (mode_word mode)
unfolding mode_word
mode_word-Ascii off = literal-Ascii (codes "OFF") refl
mode_word-Ascii static = literal-Ascii (codes "STATIC") refl
mode_word-Ascii breathing = literal-Ascii (codes "BREATHING") refl
mode_word-Ascii neon = literal-Ascii (codes "NEON") refl

switch_word-Ascii : (enabled : Bool) → Ascii (switch_word enabled)
switch_word-Ascii true = literal-Ascii (codes "ON") refl
switch_word-Ascii false = literal-Ascii (codes "OFF") refl

toggle_words-Ascii :
    (name : Bytes) (enabled : Bool)
    → all (λ c. ltb c 128) name ≡ true
    → All Ascii (toggle_words name enabled)
toggle_words-Ascii name enabled h =
    (literal-Ascii (codes "PLATFORM") refl, (literal-Ascii name h, (switch_word-Ascii enabled, tt)))

pub command_words-Ascii :
    (command : ClientCommand)
    → locally_valid command ≡ true
    → IsCommand command
    → All Ascii (command_words command)
unfolding command_words locally_valid
command_words-Ascii ask_keyboard_state valid bytes =
    (literal-Ascii (codes "RGB") refl, (literal-Ascii (codes "GET") refl, tt))
command_words-Ascii ask_platform_state valid bytes =
    (literal-Ascii (codes "PLATFORM") refl, (literal-Ascii (codes "GET") refl, tt))
command_words-Ascii (ask_lighting device_id mode brightness speed color colors) valid (h, hs) = (
  literal-Ascii (codes "LIGHTING") refl,
  (
    literal-Ascii (codes "APPLY") refl,
    (
      valid_lighting_device_id-Ascii device_id (ground (arith, valid)),
      (
        mode_word-Ascii mode,
        (
          decimal-Ascii brightness,
          (decimal-Ascii speed, (hex_color-Ascii color h, (zones_word-Ascii colors hs, tt))),
        ),
      ),
    ),
  ),
)
command_words-Ascii (ask_lighting_power device_id enabled) valid bytes = (
  literal-Ascii (codes "LIGHTING") refl,
  (
    literal-Ascii (codes "POWER") refl,
    (valid_lighting_device_id-Ascii device_id valid, (switch_word-Ascii enabled, tt)),
  ),
)
command_words-Ascii (ask_battery_calibration true) valid bytes = (
  literal-Ascii (codes "PLATFORM") refl,
  (literal-Ascii (codes "BATTERY_CALIBRATION") refl, (literal-Ascii (codes "START") refl, tt)),
)
command_words-Ascii (ask_battery_calibration false) valid bytes = (
  literal-Ascii (codes "PLATFORM") refl,
  (literal-Ascii (codes "BATTERY_CALIBRATION") refl, (literal-Ascii (codes "STOP") refl, tt)),
)
command_words-Ascii (ask_battery_limit enabled) valid bytes =
    toggle_words-Ascii (codes "BATTERY_LIMIT") enabled refl
command_words-Ascii (ask_keyboard_timeout enabled) valid bytes =
    toggle_words-Ascii (codes "KEYBOARD_TIMEOUT") enabled refl
command_words-Ascii (ask_boot_sound enabled) valid bytes =
    toggle_words-Ascii (codes "BOOT_SOUND") enabled refl
command_words-Ascii (ask_lcd_override enabled) valid bytes =
    toggle_words-Ascii (codes "LCD_OVERRIDE") enabled refl
command_words-Ascii (ask_usb_charging mode) valid bytes = (
  literal-Ascii (codes "PLATFORM") refl,
  (literal-Ascii (codes "USB_CHARGING") refl, (decimal-Ascii (threshold mode), tt)),
)
command_words-Ascii (ask_rear_logo logo) valid bytes = (
  literal-Ascii (codes "PLATFORM") refl,
  (
    literal-Ascii (codes "REAR_LOGO") refl,
    (
      hex_color-Ascii (logo.red, logo.green, logo.blue) bytes,
      (decimal-Ascii logo.brightness, (switch_word-Ascii logo.enabled, tt)),
    ),
  ),
)

pub command_text-Ascii :
    (command : ClientCommand)
    → locally_valid command ≡ true
    → IsCommand command
    → Ascii (command_text command)
unfolding command_text
command_text-Ascii command valid bytes =
    spaced-Ascii (command_words command) (command_words-Ascii command valid bytes)
