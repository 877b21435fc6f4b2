-- ===== src/Control/Carried.antt =====
-- src/control.rs and src/daemon.rs together: the daemon carries out what the client asks for.
use asense.Result.{Result, ok, err}
use asense.Exec.{Exec, pure, ◌>>=◌, lift, continue}
use asense.Base.{
  within, length, All, length-map, ◌≤◌, ◌≡◌, refl, Bool, true, false, ◌||◌, some, List, [], ◌∷◌,
  map, arith, ltb, if◌then◌else◌, ℕ, ap, ◌∙◌, sym, Bool-cases, inl, inr,
}
use asense.Base.Text.{Bytes, codes, text_eq, split, fields}
use asense.Base.Split.{Lacks, split-joined}
use asense.Base.Hex.{Color, hex_color, IsByteColor, parse_color-hex_color, hex_color-Lacks}
use asense.Base.Decimal.{decimal, parse_uint-decimal}
use asense.Platform.{
  threshold, PlatformError, UsbCharging, from_threshold, RearLogoState, disabled, stop_at_10,
  stop_at_20, stop_at_30,
}
use asense.Platform.Controls.{
  read_state, set_battery_limit, set_battery_calibration, set_keyboard_timeout, set_boot_sound,
  set_lcd_override, set_usb_charging, set_rear_logo, PlatformControls, PlatformState,
}
use asense.Lighting.{LightingMode, off, static, breathing, neon}
use asense.Lighting.Wmi.{read, state}
use asense.Control.Commands.{
  ClientCommand, ask_lighting, ask_lighting_power, ask_usb_charging, ask_rear_logo, mode_word,
  switch_word, zones_word, command_words, command_text, locally_valid, ask_keyboard_state,
  ask_platform_state, ask_battery_limit, ask_battery_calibration, ask_keyboard_timeout,
  ask_boot_sound, ask_lcd_override, prepare,
}
use asense.Control.Words.{IsCommand, fields-command_text}
use asense.Control.Trimmed.{trim_utf8-command_text}
use asense.Base.Utf8.{trim_utf8}
use asense.Daemon.{command_is_mutation}
use asense.Daemon.Devices.{
  not_acer, not_locked, DeviceError, lighting_failed, recognise_platform, recognise_device,
  parse_lighting_mode, parse_switch, parse_on_off, argument, parse_u8, parse_colors, parse_pieces,
  parse_zone_colors, parse_lighting, bad_argument,
}
use asense.Daemon.Devices.Board.{
  Board, DeviceAnswer, keyboard_answer, failing, World, discover_platform, discover_zoned,
  discover_all, apply_lighting, power_lighting, on_platform,
}
use asense.Daemon.Devices.Perform.{
  locked, take_lock, perform_device, execute_device, usb_mode, parse_rear_logo, set_switch,
}

hex_colors-Lacks :
    (colors : List Color) → All IsByteColor colors → All (Lacks 44) (map hex_color colors)
hex_colors-Lacks [] h = tt
hex_colors-Lacks (c ∷ colors) (h, hs) = (hex_color-Lacks c h, hex_colors-Lacks colors hs)

parse_colors-hex_color :
    (colors : List Color)
    → All IsByteColor colors
    → parse_colors (map hex_color colors) ≡ some colors
unfolding parse_colors
parse_colors-hex_color [] h = refl
parse_colors-hex_color (c ∷ colors) (h, hs) =
    rw (parse_color-hex_color c h, parse_colors-hex_color colors hs, parse_colors) refl

zones_word-dash :
    (c : Color) (more : List Color) → text_eq (zones_word (c ∷ more)) (codes "-") ≡ false
unfolding zones_word
zones_word-dash c [] = ground arith
zones_word-dash c (d ∷ more) = ground arith

no_zones : zones_word [] ≡ codes "-"
unfolding zones_word
no_zones = refl

zones_pieces :
    (c : Color) (more : List Color)
    → IsByteColor c
    → All IsByteColor more
    → split 44 (zones_word (c ∷ more)) ≡ map hex_color (c ∷ more)
unfolding zones_word
zones_pieces c more h hs =
    split-joined 44 (hex_color c) (map hex_color more) (hex_color-Lacks c h)
      (hex_colors-Lacks more hs)

-- the zones that the client writes are the ones that the daemon reads
parse_zone_colors-zones_word :
    (colors : List Color)
    → All IsByteColor colors
    → length colors ≤ 16
    → parse_zone_colors (zones_word colors) ≡ ok colors
unfolding parse_zone_colors parse_pieces
parse_zone_colors-zones_word [] h few =
    ap (λ word. if text_eq word (codes "-") then ok [] else parse_pieces (split 44 word)) no_zones
parse_zone_colors-zones_word (c ∷ more) (h, hs) few =
    let count : within 1 16 (length (map hex_color (c ∷ more))) ≡ true =
      ground (arith, length-map hex_color (c ∷ more), few) in
    ap (λ dash. if dash then ok [] else parse_pieces (split 44 (zones_word (c ∷ more))))
      (zones_word-dash c more)
    ∙ ap parse_pieces (zones_pieces c more h hs)
    ∙ rw (count, parse_colors-hex_color (c ∷ more) (h, hs)) refl

parse_lighting_mode-mode_word :
    (mode : LightingMode) → parse_lighting_mode (mode_word mode) ≡ ok mode
unfolding parse_lighting_mode mode_word
parse_lighting_mode-mode_word off = refl
parse_lighting_mode-mode_word static = refl
parse_lighting_mode-mode_word breathing = refl
parse_lighting_mode-mode_word neon = refl

parse_on_off-switch_word : (enabled : Bool) → parse_on_off (switch_word enabled) ≡ ok enabled
unfolding parse_on_off parse_switch
parse_on_off-switch_word true = refl
parse_on_off-switch_word false = refl

parse_u8-decimal : (n : ℕ) → n ≤ 255 → parse_u8 (decimal n) ≡ ok n
unfolding parse_u8
parse_u8-decimal n h = ap argument (parse_uint-decimal 255 n h)

parse_lighting-words :
    (mode : LightingMode) (brightness speed : ℕ) (color : Color) (colors : List Color)
    → brightness ≤ 100
    → speed ≤ 9
    → length colors ≤ 16
    → IsByteColor color
    → All IsByteColor colors
    → parse_lighting
        (mode_word mode)
        (decimal brightness)
        (decimal speed)
        (hex_color color)
        (zones_word colors)
      ≡ ok (record {
        mode = mode;
        brightness = brightness;
        speed = speed;
        color = color;
        zone_colors = colors;
      })
unfolding parse_lighting
parse_lighting-words mode brightness speed color colors dim slow few h hs =
    let in_range : (ltb 100 brightness || ltb 9 speed) ≡ false = ground (arith, dim, slow) in
    rw
      (
        parse_lighting_mode-mode_word mode,
        parse_color-hex_color color h,
        parse_zone_colors-zones_word colors hs few,
        parse_u8-decimal brightness (omega arith),
        parse_u8-decimal speed (omega arith),
      )
      (rw in_range refl)

usb_mode-decimal : (mode : UsbCharging) → usb_mode (decimal (threshold mode)) ≡ ok mode
unfolding from_threshold
usb_mode-decimal mode = rw (usb_mode, parse_u8-decimal (threshold mode) (small mode)) (found mode)
  where
    small : (mode : UsbCharging) → threshold mode ≤ 255
    small mode = ground arith

    found :
        (mode : UsbCharging)
        → (elim (from_threshold (threshold mode)) as (λ r. Result DeviceError UsbCharging) [
          | err e ↦ err bad_argument
          | ok m ↦ ok m
        ])
          ≡ ok mode
    found disabled = refl
    found stop_at_10 = refl
    found stop_at_20 = refl
    found stop_at_30 = refl

parse_rear_logo-words :
    (logo : RearLogoState)
    → logo.brightness ≤ 100
    → IsByteColor (logo.red, logo.green, logo.blue)
    → parse_rear_logo
        (hex_color (logo.red, logo.green, logo.blue))
        (decimal logo.brightness)
        (switch_word logo.enabled)
      ≡ ok logo
parse_rear_logo-words logo dim h =
    rw
      (
        parse_rear_logo,
        parse_on_off-switch_word logo.enabled,
        parse_u8-decimal logo.brightness (omega arith),
        parse_color-hex_color (logo.red, logo.green, logo.blue) h,
      )
      refl

-- whether a command changes something
unfoldable pub changes : ClientCommand → Bool
changes ask_keyboard_state = false
changes ask_platform_state = false
changes _ = true

module _ (board : Board) where
  open board use {sys, is_acer, acquire}

  -- what the client asks for, as operations on what the daemon discovers
  unfoldable pub meant : ClientCommand → Exec (World board) DeviceError DeviceAnswer
  meant ask_keyboard_state =
      failing lighting_failed (discover_zoned board >>= λ found. read sys found) >>= λ st.
      pure (keyboard_answer st)
  meant ask_platform_state =
      discover_platform board >>= λ controls. on_platform board (read_state sys controls)
  meant (ask_lighting device_id mode brightness speed color zone_colors) =
      discover_all board >>= λ controllers.
      apply_lighting board device_id
        (record {
          mode = mode;
          brightness = brightness;
          speed = speed;
          color = color;
          zone_colors = zone_colors;
        })
        controllers
  meant (ask_lighting_power device_id enabled) =
      discover_all board >>= λ controllers. power_lighting board device_id enabled controllers
  meant (ask_battery_limit enabled) = discover_platform board >>= λ controls.
      on_platform board (set_battery_limit sys controls enabled)
  meant (ask_battery_calibration enabled) = discover_platform board >>= λ controls.
      on_platform board (set_battery_calibration sys controls enabled)
  meant (ask_keyboard_timeout enabled) = discover_platform board >>= λ controls.
      on_platform board (set_keyboard_timeout sys controls enabled)
  meant (ask_boot_sound enabled) = discover_platform board >>= λ controls.
      on_platform board (set_boot_sound sys controls enabled)
  meant (ask_lcd_override enabled) = discover_platform board >>= λ controls.
      on_platform board (set_lcd_override sys controls enabled)
  meant (ask_usb_charging mode) =
      discover_platform board >>= λ controls. on_platform board (set_usb_charging sys controls mode)
  meant (ask_rear_logo state) =
      discover_platform board >>= λ controls. on_platform board (set_rear_logo sys controls state)

  set_switch-word :
      (enabled : Bool)
      (set : Bool → PlatformControls → Exec (World board) PlatformError PlatformState)
      (w : World board)
      → set_switch board (switch_word enabled) set w
        ≡ (discover_platform board >>= λ controls. on_platform board (set enabled controls)) w
  set_switch-word enabled set w =
      ap
        (λ r.
          (discover_platform board >>= λ controls.
          lift r >>= λ on. on_platform board (set on controls))
            w)
        (parse_on_off-switch_word enabled)

  perform_device-words :
      (command : ClientCommand) (w : World board)
      → locally_valid command ≡ true
      → IsCommand command
      → perform_device board (recognise_device (command_words command)) w ≡ meant command w
  unfolding perform_device recognise_device command_words meant locally_valid recognise_platform
  perform_device-words ask_keyboard_state w valid bytes = refl
  perform_device-words ask_platform_state w valid bytes = refl
  perform_device-words (ask_lighting device_id mode brightness speed color colors) w valid (h, hs) =
      rw
        (parse_lighting-words mode brightness speed color colors (ground (arith, valid))
          (ground (arith, valid)) (ground (arith, valid)) h hs)
        refl
  perform_device-words (ask_lighting_power device_id enabled) w valid bytes =
      rw (parse_on_off-switch_word enabled) refl
  perform_device-words (ask_battery_limit enabled) w valid bytes =
      set_switch-word enabled (λ on controls. set_battery_limit sys controls on) w
  perform_device-words (ask_battery_calibration true) w valid bytes = refl
  perform_device-words (ask_battery_calibration false) w valid bytes = refl
  perform_device-words (ask_keyboard_timeout enabled) w valid bytes =
      set_switch-word enabled (λ on controls. set_keyboard_timeout sys controls on) w
  perform_device-words (ask_boot_sound enabled) w valid bytes =
      set_switch-word enabled (λ on controls. set_boot_sound sys controls on) w
  perform_device-words (ask_lcd_override enabled) w valid bytes =
      set_switch-word enabled (λ on controls. set_lcd_override sys controls on) w
  perform_device-words (ask_usb_charging mode) w valid bytes =
      ap
        (λ r.
          (lift r >>= λ m. discover_platform board >>= λ controls.
          on_platform board (set_usb_charging sys controls m))
            w)
        (usb_mode-decimal mode)
  perform_device-words (ask_rear_logo state) w valid bytes =
      ap
        (λ r.
          (lift r >>= λ m.
          discover_platform board >>= λ controls. on_platform board (set_rear_logo sys controls m))
            w)
        (parse_rear_logo-words state (ground (arith, valid)) bytes)

  -- a run behind the lock, if there is one
  abbrev pub behind_lock :
      Bool × World board
      → Exec (World board) DeviceError DeviceAnswer
      → Result DeviceError DeviceAnswer × World board
  behind_lock (true, w) m = m w
  behind_lock (false, w) m = (err not_locked, w)

  -- What is made of the client's command: one that changes something is refused on a machine that is
  -- not an Acer, and waits for the lock, without which it is refused; the others run as they are.
  unfoldable pub carried : ClientCommand → Exec (World board) DeviceError DeviceAnswer
  carried command w =
      if changes command
      then if is_acer w then behind_lock (acquire w) (meant command) else (err not_acer, w)
      else meant command w

  command_is_mutation-command_words :
      (command : ClientCommand) → command_is_mutation (command_words command) ≡ changes command
  unfolding command_is_mutation command_words changes
  command_is_mutation-command_words ask_keyboard_state = refl
  command_is_mutation-command_words ask_platform_state = refl
  command_is_mutation-command_words
        (ask_lighting device_id mode brightness speed color zone_colors) =
      refl
  command_is_mutation-command_words (ask_lighting_power device_id enabled) = refl
  command_is_mutation-command_words (ask_battery_limit enabled) = refl
  command_is_mutation-command_words (ask_battery_calibration enabled) = refl
  command_is_mutation-command_words (ask_keyboard_timeout enabled) = refl
  command_is_mutation-command_words (ask_boot_sound enabled) = refl
  command_is_mutation-command_words (ask_lcd_override enabled) = refl
  command_is_mutation-command_words (ask_usb_charging mode) = refl
  command_is_mutation-command_words (ask_rear_logo logo) = refl

  take_lock-behind_lock :
      (p : Bool × World board) (m n : Exec (World board) DeviceError DeviceAnswer)
      → ((w : World board) → m w ≡ n w)
      → continue (locked board p).0 (λ u. m) (locked board p).1 ≡ behind_lock p n
  take_lock-behind_lock (true, w) m n same = same w
  take_lock-behind_lock (false, w) m n same = refl

  execute_device-words :
      (command : ClientCommand) (w : World board)
      → locally_valid command ≡ true
      → IsCommand command
      → execute_device board (command_words command) w ≡ carried command w
  unfolding execute_device carried take_lock
  execute_device-words command w valid bytes =
      let same : (v : World board)
          → perform_device board (recognise_device (command_words command)) v ≡ meant command v =
        λ v. perform_device-words command v valid bytes in
      elim (Bool-cases (changes command)) [
        | inr e ↦
            let quiet : command_is_mutation (command_words command) ≡ false =
              command_is_mutation-command_words command ∙ e in
            rw (quiet, e) (same w)
        | inl e ↦
            let loud : command_is_mutation (command_words command) ≡ true =
              command_is_mutation-command_words command ∙ e in
            elim (Bool-cases (is_acer w)) [
              | inl f ↦
                  rw (loud, e, f)
                    (take_lock-behind_lock (acquire w)
                      (perform_device board (recognise_device (command_words command)))
                      (meant command) same)
              | inr f ↦ rw (loud, e, f) refl
            ]
      ]

  -- For any file system, hidraw device and lock: a command that the client sends after its checks, with
  -- channels that are bytes, is what the daemon carries out: its line is trimmed, its fields are
  -- recognised and their
  -- arguments read back, and the run is that of the operation that was meant, with its values, except
  -- that one that changes something is refused on a machine that is not an Acer, with nothing done, and
  -- when the lock is not obtained.
  pub execute_device-prepare :
      (command : ClientCommand) (text : Bytes) (w : World board)
      → IsCommand command
      → prepare command ≡ ok text
      → execute_device board (fields (trim_utf8 text)) w ≡ carried command w
  unfolding prepare
  execute_device-prepare command text w bytes h =
      let valid : locally_valid command ≡ true = ground (arith, h) in
      let sent : command_text command ≡ text = ground (arith, h) in
      ap (λ t. execute_device board (fields (trim_utf8 t)) w) (sym sent)
      ∙ ap (λ t. execute_device board (fields t) w) (trim_utf8-command_text command valid bytes)
      ∙ ap (λ words. execute_device board words w) (fields-command_text command valid bytes)
      ∙ execute_device-words command w valid bytes
