-- ===== src/Control/Words.antt =====
-- src/control.rs: the words of the client's commands.
use asense.Base.{all, All, ◌≡◌, refl, Bool, true, false, ◌||◌, List, [], ◌∷◌, map, arith}
use asense.Base.Text.{Bytes, codes, fields}
use asense.Base.Split.{joined, Solid, joined-Solid}
use asense.Base.Fields.{Word, is_word_sound, Word-append, is_word}
use asense.Base.Hex.{Color, hex_color, IsByteColor, hex_color-Solid}
use asense.Platform.{threshold}
use asense.Lighting.{LightingMode, off, static, breathing, neon}
use asense.Lighting.Wmi.{state}
use asense.Base.Keyed.{fields-spaced, decimal-Word}
use asense.Control.{is_lower, is_upper, is_digit, is_dash, valid_lighting_device_id}
use asense.Control.Commands.{
  ClientCommand, ask_lighting, ask_lighting_power, ask_usb_charging, ask_rear_logo, mode_word,
  switch_word, zones_word, toggle_words, command_words, command_text, locally_valid,
  ask_keyboard_state, ask_platform_state, ask_battery_limit, ask_battery_calibration,
  ask_keyboard_timeout, ask_boot_sound, ask_lcd_override,
}

-- the bytes of a command's numbers
abbrev pub IsCommand : ClientCommand → Type 0
IsCommand (ask_lighting device_id mode brightness speed color zone_colors) =
    IsByteColor color × All IsByteColor zone_colors
IsCommand (ask_rear_logo state) = IsByteColor (state.red, state.green, state.blue)
IsCommand _ = Unit

id-Word : (s : Bytes) → valid_lighting_device_id s ≡ true → Word s
unfolding valid_lighting_device_id
id-Word [] h = ground (arith, h)
id-Word (c ∷ s) h = letters (c ∷ s) (ground (arith, h))
  where
    letters :
        (s : Bytes)
        → all (λ c. is_lower c || is_upper c || is_digit c || is_dash c) s ≡ true
        → Solid s
    letters [] h = tt
    letters (c ∷ s) h = (ground (arith, h), letters s (ground (arith, h)))

hex_color-Word : (c : Color) → IsByteColor c → Word (hex_color c)
hex_color-Word c h = hex_color-Solid c h

mode_word-Word : (mode : LightingMode) → Word (mode_word mode)
unfolding mode_word
mode_word-Word off = is_word_sound (codes "OFF") refl
mode_word-Word static = is_word_sound (codes "STATIC") refl
mode_word-Word breathing = is_word_sound (codes "BREATHING") refl
mode_word-Word neon = is_word_sound (codes "NEON") refl

switch_word-Word : (enabled : Bool) → Word (switch_word enabled)
switch_word-Word true = is_word_sound (codes "ON") refl
switch_word-Word false = is_word_sound (codes "OFF") refl

hex_colors-Solid : (colors : List Color) → All IsByteColor colors → All Solid (map hex_color colors)
hex_colors-Solid [] h = tt
hex_colors-Solid (c ∷ colors) (h, hs) = (hex_color-Solid c h, hex_colors-Solid colors hs)

joined-Word :
    (first : Bytes) (rest : List Bytes) → Word first → All Solid rest → Word (joined 44 first rest)
joined-Word first [] h hs = h
joined-Word first (next ∷ rest) h (k, ks) =
    Word-append first (44 ∷ joined 44 next rest) h (refl, joined-Solid 44 next rest refl k ks)

zones_word-Word : (colors : List Color) → All IsByteColor colors → Word (zones_word colors)
unfolding zones_word
zones_word-Word [] h = is_word_sound (codes "-") refl
zones_word-Word (c ∷ more) (h, hs) =
    joined-Word (hex_color c) (map hex_color more) (hex_color-Word c h) (hex_colors-Solid more hs)

pair-Word : (a b : Bytes) → is_word a ≡ true → is_word b ≡ true → All Word (a ∷ b ∷ [])
pair-Word a b h k = (is_word_sound a h, (is_word_sound b k, tt))

toggle_value-Word :
    (name value : Bytes)
    → is_word name ≡ true
    → is_word value ≡ true
    → All Word (codes "PLATFORM" ∷ name ∷ value ∷ [])
toggle_value-Word name value h k =
    (is_word_sound (codes "PLATFORM") refl, (is_word_sound name h, (is_word_sound value k, tt)))

toggle_words-Word :
    (name : Bytes) (enabled : Bool) → is_word name ≡ true → All Word (toggle_words name enabled)
toggle_words-Word name true h = toggle_value-Word name (codes "ON") h refl
toggle_words-Word name false h = toggle_value-Word name (codes "OFF") h refl

pub command_words-Word :
    (command : ClientCommand)
    → locally_valid command ≡ true
    → IsCommand command
    → All Word (command_words command)
unfolding command_words locally_valid
command_words-Word ask_keyboard_state valid bytes = pair-Word (codes "RGB") (codes "GET") refl refl
command_words-Word ask_platform_state valid bytes =
    pair-Word (codes "PLATFORM") (codes "GET") refl refl
command_words-Word (ask_lighting device_id mode brightness speed color colors) valid (h, hs) = (
  is_word_sound (codes "LIGHTING") refl,
  (
    is_word_sound (codes "APPLY") refl,
    (
      id-Word device_id (ground (arith, valid)),
      (
        mode_word-Word mode,
        (
          decimal-Word brightness,
          (decimal-Word speed, (hex_color-Word color h, (zones_word-Word colors hs, tt))),
        ),
      ),
    ),
  ),
)
command_words-Word (ask_lighting_power device_id enabled) valid bytes = (
  is_word_sound (codes "LIGHTING") refl,
  (is_word_sound (codes "POWER") refl, (id-Word device_id valid, (switch_word-Word enabled, tt))),
)
command_words-Word (ask_battery_limit enabled) valid bytes =
    toggle_words-Word (codes "BATTERY_LIMIT") enabled refl
command_words-Word (ask_battery_calibration true) valid bytes =
    toggle_value-Word (codes "BATTERY_CALIBRATION") (codes "START") refl refl
command_words-Word (ask_battery_calibration false) valid bytes =
    toggle_value-Word (codes "BATTERY_CALIBRATION") (codes "STOP") refl refl
command_words-Word (ask_keyboard_timeout enabled) valid bytes =
    toggle_words-Word (codes "KEYBOARD_TIMEOUT") enabled refl
command_words-Word (ask_boot_sound enabled) valid bytes =
    toggle_words-Word (codes "BOOT_SOUND") enabled refl
command_words-Word (ask_lcd_override enabled) valid bytes =
    toggle_words-Word (codes "LCD_OVERRIDE") enabled refl
command_words-Word (ask_usb_charging mode) valid bytes = (
  is_word_sound (codes "PLATFORM") refl,
  (is_word_sound (codes "USB_CHARGING") refl, (decimal-Word (threshold mode), tt)),
)
command_words-Word (ask_rear_logo logo) valid bytes = (
  is_word_sound (codes "PLATFORM") refl,
  (
    is_word_sound (codes "REAR_LOGO") refl,
    (
      hex_color-Word (logo.red, logo.green, logo.blue) bytes,
      (decimal-Word logo.brightness, (switch_word-Word logo.enabled, tt)),
    ),
  ),
)

pub fields-command_text :
    (command : ClientCommand)
    → locally_valid command ≡ true
    → IsCommand command
    → fields (command_text command) ≡ command_words command
unfolding command_text
fields-command_text command valid bytes =
    fields-spaced (command_words command) (command_words-Word command valid bytes)
