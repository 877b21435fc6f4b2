-- ===== src/Control/Delivered.antt =====
-- src/control.rs, src/daemon.rs: the command that the client sends is the line that the daemon reads.
use asense.Base.{
  All, All-append, All-mono, all_below_sound, leb, ltb, length, length-append, ◌==◌, ℕ, ◌≤◌, ◌≡◌,
  refl, ap, subst, ◌∙◌, Bool, true, false, none, some, List, [], ◌∷◌, ◌++◌, arith,
}
use asense.Base.Utf8.{is_utf8, is_utf8-ascii}
use asense.Base.Text.{Bytes, is_whitespace, split_once}
use asense.Base.Split.{Lacks, Solid, joined}
use asense.Base.Fields.{Word, Word-Solid, split_once-piece}
use asense.Base.Keyed.{spaced}
use asense.Base.Decimal.{decimal}
use asense.Result.{ok}
use asense.Platform.{UsbCharging, threshold, disabled, stop_at_10, stop_at_20, stop_at_30}
use asense.Control.{valid_lighting_device_id}
use asense.Control.Commands.{
  ClientCommand, ask_lighting, ask_lighting_power, ask_usb_charging, ask_rear_logo, command_words,
  command_text, locally_valid, ask_keyboard_state, ask_platform_state, ask_battery_limit,
  ask_battery_calibration, ask_keyboard_timeout, ask_boot_sound, ask_lcd_override, switch_word,
  prepare,
}
use asense.Control.Plain.{Ascii, command_text-Ascii}
use asense.Control.Words.{IsCommand, command_words-Word}
use asense.Daemon.Decoder.{
  judge, Filled, command_line, bytes_of, IsStream, first_frame, read_command,
  read_command-first_frame,
}

Solid-Lacks : (s : Bytes) → Solid s → Lacks 10 s
Solid-Lacks s h =
    All-mono (λ c. is_whitespace c ≡ false) (λ c. (c == 10) ≡ false) s (λ c k. ground (arith, k)) h

joined-Lacks :
    (first : Bytes) (rest : List Bytes)
    → Word first
    → All Word rest
    → Lacks 10 (joined 32 first rest)
joined-Lacks first [] h hs = Solid-Lacks first (Word-Solid first h)
joined-Lacks first (next ∷ rest) h (k, ks) =
    All-append (λ c. (c == 10) ≡ false) first (32 ∷ joined 32 next rest)
      (Solid-Lacks first (Word-Solid first h)) (refl, joined-Lacks next rest k ks)

spaced-Lacks : (pieces : List Bytes) → All Word pieces → Lacks 10 (spaced pieces)
spaced-Lacks [] h = tt
spaced-Lacks (piece ∷ more) (h, hs) = joined-Lacks piece more h hs

level_digits : (n : ℕ) → n ≤ 100 → length (decimal n) ≤ 3
unfolding decimal
level_digits n h =
    let table = all_below_sound 101 (λ k. leb (length (decimal k)) 3) n refl (omega arith) in
    ground (arith, table)

switch_length : (enabled : Bool) → length (switch_word enabled) ≤ 3
switch_length true = omega arith
switch_length false = omega arith

threshold_small : (mode : UsbCharging) → threshold mode ≤ 100
threshold_small disabled = omega arith
threshold_small stop_at_10 = omega arith
threshold_small stop_at_20 = omega arith
threshold_small stop_at_30 = omega arith

command_text-bounded :
    (command : ClientCommand) → locally_valid command ≡ true → length (command_text command) ≤ 192
unfolding locally_valid command_text command_words valid_lighting_device_id
command_text-bounded ask_keyboard_state h = omega arith
command_text-bounded ask_platform_state h = omega arith
command_text-bounded (ask_lighting device_id mode brightness speed color zone_colors) h =
    ground (arith, h)
command_text-bounded (ask_lighting_power device_id enabled) h =
    let short : length device_id ≤ 48 = ground (arith, h) in
    omega (arith, length-append device_id (32 ∷ switch_word enabled), switch_length enabled, short)
command_text-bounded (ask_battery_limit true) h = omega arith
command_text-bounded (ask_battery_limit false) h = omega arith
command_text-bounded (ask_battery_calibration true) h = omega arith
command_text-bounded (ask_battery_calibration false) h = omega arith
command_text-bounded (ask_keyboard_timeout true) h = omega arith
command_text-bounded (ask_keyboard_timeout false) h = omega arith
command_text-bounded (ask_boot_sound true) h = omega arith
command_text-bounded (ask_boot_sound false) h = omega arith
command_text-bounded (ask_lcd_override true) h = omega arith
command_text-bounded (ask_lcd_override false) h = omega arith
command_text-bounded (ask_usb_charging mode) h =
    omega (arith, level_digits (threshold mode) (threshold_small mode))
command_text-bounded (ask_rear_logo state) h =
    let level : state.brightness ≤ 100 = ground (arith, h) in
    omega (
      arith,
      length-append (decimal state.brightness) (32 ∷ switch_word state.enabled),
      level_digits state.brightness level,
      switch_length state.enabled,
    )

split_once-empty : split_once 10 [] ≡ none
unfolding split_once
split_once-empty = refl

first_frame-line :
    (line rest : Bytes)
    → split_once 10 (line ++ 10 ∷ rest) ≡ some (line, rest)
    → length line ≤ 192
    → is_utf8 line ≡ true
    → first_frame (line ++ 10 ∷ rest) ≡ ok (command_line line)
unfolding first_frame judge
first_frame-line line rest found fits text =
    let within_limit : ltb 192 (length line) ≡ false = ground (arith, fits) in
    ap (λ o. judge o (line ++ 10 ∷ rest)) found ∙ rw (within_limit, text) refl

-- A command that the client sends after its checks, with channels that are bytes, is the line that
-- the daemon reads, however the stream that begins with it is cut into buffers.
pub read_command-prepare :
    (command : ClientCommand) (text rest : Bytes) (stream : List Filled)
    → IsCommand command
    → prepare command ≡ ok text
    → IsStream stream
    → bytes_of stream ≡ text ++ 10 ∷ rest
    → (read_command [] stream).0 ≡ ok (command_line text)
unfolding prepare command_text
read_command-prepare command text rest stream bytes h whole starts =
    let valid : locally_valid command ≡ true = ground (arith, h) in
    let sent : command_text command ≡ text = ground (arith, h) in
    let lacks : Lacks 10 text =
      subst (Lacks 10) sent
        (spaced-Lacks (command_words command) (command_words-Word command valid bytes)) in
    let utf8 : is_utf8 text ≡ true =
      is_utf8-ascii text (subst Ascii sent (command_text-Ascii command valid bytes)) in
    let found : split_once 10 (text ++ 10 ∷ rest) ≡ some (text, rest) =
      split_once-piece 10 text rest lacks in
    let fits : length text ≤ 192 =
      subst (λ t. length t ≤ 192) sent (command_text-bounded command valid) in
    read_command-first_frame [] stream split_once-empty (omega arith) whole
    ∙ ap first_frame starts
    ∙ first_frame-line text rest found fits utf8
