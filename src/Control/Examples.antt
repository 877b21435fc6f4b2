-- ===== src/Control/Examples.antt =====
-- Responses and receipts at concrete values.
use asense.Base.{
  ltb, if◌then◌else◌, length, ◌≡◌, refl, true, false, none, some, List, [], ◌∷◌, arith,
}
use asense.Base.Utf8.{is_utf8, trim_utf8}
use asense.Base.Text.{Bytes, codes, fields}
use asense.Base.Fields.{is_word_sound, free_of_sound}
use asense.Base.Decimal.{decimal}
use asense.Base.Hex.{hexadecimal}
use asense.Result.{Result, ok, err}
use asense.Tuning.{is_oem_turbo}
use asense.Daemon.Protocol.{
  max_response_line_bytes, accept, sanitize_character, sanitize_response_payload, response_text,
  response_line, handshake_accepted,
}
use asense.Hardware.Memory.{memory_files}
use asense.Lighting.{static}
use asense.Daemon.Devices.Board.{Board}
use asense.Daemon.Devices.Perform.{execute_device}
use asense.Control.Commands.{
  ClientCommand, ask_lighting, mode_word, zones_word, command_words, command_text, locally_valid,
  prepare, ask_battery_limit,
}
use asense.Control.Carried.{carried, execute_device-prepare}
use asense.Base.Keyed.{tokens}
use asense.Control.{ControlError, profile_token, protocol_error, valid_lighting_device_id}
use asense.Control.Response.{
  ReadEvent, available, would_block, read_response_line, receive, interrupted,
}
use asense.Control.Lines.{Delivers, read_response_line-Delivers}
use asense.Control.Answers.{taken_for, understood, receive-response_line}
use asense.Control.Receipt.{
  ProfileApplyReceipt, offsets_text, capability_text, power_values, parse_profile_apply_receipt,
  receipt_values, encode_profile_apply_receipt,
}
use asense.Control.RoundTrip.{IsReceipt, parse_profile_apply_receipt-encode_profile_apply_receipt}
use asense.Control.Coherent.{parse_profile_apply_receipt-IsReceipt}
use asense.Control.Delivered.{read_command-prepare}
use asense.Daemon.Decoder.{Filled, buffer, command_line, read_command}
use asense.Control.Handshake.{HandshakeReceipt, negotiate, hello, negotiate-accept}

-- a line in two pieces, with a receive that ran out of time between them
abbrev pieces : List ReadEvent
pieces =
    available (codes "OK rea")
    ∷ would_block true
    ∷ interrupted
    ∷ available (codes "dy\nERR busy\n")
    ∷ []

read_response_line-Delivers_example :
    Delivers
      (read_response_line pieces)
      (if ltb max_response_line_bytes (length (codes "OK ready"))
        then err protocol_error
        else if is_utf8 (codes "OK ready")
        then ok (codes "OK ready")
        else err protocol_error)
      (codes "ERR busy\n")
read_response_line-Delivers_example =
    read_response_line-Delivers pieces (codes "OK ready") (codes "ERR busy\n")
      (tt, (refl, (tt, (tt, tt)))) (free_of_sound 10 (codes "OK ready") refl) refl

receive-response_line_example :
    Delivers (receive pieces) (taken_for (ok (codes "ready"))) (codes "ERR busy\n")
unfolding response_line response_text sanitize_response_payload sanitize_character
receive-response_line_example =
    receive-response_line (ok (codes "ready")) pieces (codes "ERR busy\n")
      (omega arith, (omega arith, (omega arith, (omega arith, (omega arith, tt)))))
      (tt, (refl, (tt, (tt, tt)))) refl

abbrev turbo_receipt : ProfileApplyReceipt
turbo_receipt = record {
  firmware_profile = codes "performance";
  gpu_offsets = is_oem_turbo;
  gpu_pstate_count = 5;
  gpu_capability_available = true;
  power =
      some (record {
        enforced_limit_mw = 140000;
        maximum_limit_mw = 175000;
        clock_event_reasons = 260;
      });
}

receipt_in_text :
    encode_profile_apply_receipt turbo_receipt
    ≡ codes
        "profile=performance gpu=oem-turbo pstates=5 gpu_capability=available power_capability=available enforced_mw=140000 max_mw=175000 reasons=0x104"
unfolding encode_profile_apply_receipt tokens receipt_values offsets_text capability_text
    power_values decimal hexadecimal
receipt_in_text = refl

turbo_receipt-IsReceipt : IsReceipt turbo_receipt
unfolding profile_token
turbo_receipt-IsReceipt =
    (refl, omega arith, (omega arith, omega arith, omega arith), λ e. ground (arith, e))

parse_profile_apply_receipt-encode_profile_apply_receipt_example :
    parse_profile_apply_receipt (encode_profile_apply_receipt turbo_receipt) ≡ ok turbo_receipt
parse_profile_apply_receipt-encode_profile_apply_receipt_example =
    parse_profile_apply_receipt-encode_profile_apply_receipt turbo_receipt turbo_receipt-IsReceipt

parse_profile_apply_receipt-IsReceipt_example : IsReceipt turbo_receipt
parse_profile_apply_receipt-IsReceipt_example =
    parse_profile_apply_receipt-IsReceipt (encode_profile_apply_receipt turbo_receipt) turbo_receipt
      (parse_profile_apply_receipt-encode_profile_apply_receipt turbo_receipt
        turbo_receipt-IsReceipt)

negotiate-accept_example :
    (accept (codes "1.2") false hello ≡ (true, handshake_accepted (codes "protocol=2 daemon=1.2")))
    × (negotiate (understood (ok (codes "protocol=2 daemon=1.2")))
        ≡ ok (record { protocol = 2; daemon_version = codes "1.2" }))
    × ((response : Result ControlError Bytes) (receipt : HandshakeReceipt)
        → negotiate response ≡ ok receipt
        → receipt.protocol ≡ 2)
negotiate-accept_example = negotiate-accept (codes "1.2") (
  is_word_sound (codes "1.2") refl,
  (omega arith, (omega arith, (omega arith, tt))),
  refl,
  omega arith,
)

-- files in memory below one directory, and no hidraw device
abbrev board : Board
board = record {
  sys = memory_files;
  open_node = λ node w. (false, w);
  ioctl = λ node request buffer w. (none, buffer, w);
  find_wmi_group = λ guid group w. some (codes "g");
  controller_candidates = λ w. [];
  save_cached_lighting = λ request w. w;
  is_acer = λ w. true;
  acquire = λ w. (true, w);
}

abbrev two_colors : ClientCommand
two_colors =
    ask_lighting (codes "zoned-wmi-keyboard") static 60 0 (255, 0, 0)
      ((255, 0, 0) ∷ (0, 170, 255) ∷ [])

two_colors_text :
    prepare two_colors
    ≡ ok (codes "LIGHTING APPLY zoned-wmi-keyboard STATIC 60 0 ff0000 ff0000,00aaff")
unfolding prepare locally_valid command_text command_words mode_word zones_word decimal
    valid_lighting_device_id
two_colors_text = refl

abbrev stored : Bytes → Bytes
stored path = codes "0"

execute_device-prepare_example :
    execute_device board
      (fields
        (trim_utf8 (codes "LIGHTING APPLY zoned-wmi-keyboard STATIC 60 0 ff0000 ff0000,00aaff")))
      stored
    ≡ carried board two_colors stored
execute_device-prepare_example =
    execute_device-prepare board two_colors
      (codes "LIGHTING APPLY zoned-wmi-keyboard STATIC 60 0 ff0000 ff0000,00aaff") stored
      (
        (omega arith, omega arith, omega arith),
        ((omega arith, omega arith, omega arith), ((omega arith, omega arith, omega arith), tt)),
      )
      two_colors_text

limit_asked :
    fields (command_text (ask_battery_limit true))
    ≡ codes "PLATFORM" ∷ codes "BATTERY_LIMIT" ∷ codes "ON" ∷ []
unfolding fields command_text command_words
limit_asked = refl

-- the command in two buffers, with the beginning of the next one behind it
abbrev cut_command : List Filled
cut_command =
    buffer (codes "LIGHTING APPLY zoned-wmi-key")
    ∷ buffer (codes "board STATIC 60 0 ff0000 ff0000,00aaff\nRGB")
    ∷ []

read_command-prepare_example :
    (read_command [] cut_command).0
    ≡ ok (command_line (codes "LIGHTING APPLY zoned-wmi-keyboard STATIC 60 0 ff0000 ff0000,00aaff"))
read_command-prepare_example =
    read_command-prepare two_colors
      (codes "LIGHTING APPLY zoned-wmi-keyboard STATIC 60 0 ff0000 ff0000,00aaff") (codes "RGB")
      cut_command
      (
        (omega arith, omega arith, omega arith),
        ((omega arith, omega arith, omega arith), ((omega arith, omega arith, omega arith), tt)),
      )
      two_colors_text tt refl
