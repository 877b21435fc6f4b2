-- ===== src/Daemon/Examples.antt =====
-- A machine in memory with one temperature for both sensors: the contract can hold, and the theorems
-- at concrete runs.
use asense.Base.{
  length, all, ℕ, ◌≤◌, ◌≡◌, refl, ◌⊎◌, true, false, not, none, some, List, [], ◌∷◌, ◌++◌, arith,
}
use asense.Base.Text.{Bytes, codes, split_once, fields}
use asense.Base.Decimal.{parse_uint}
use asense.Base.Int.{pos}
use asense.Result.{ok, err}
use asense.Exec.{pure}
use asense.Exec.Outcome.{Ensures}
use asense.Hardware.{
  FanMode, mode_eq, FanSetting, set_manual_percent, is_manual, manual, automatic, set_automatic,
  set_maximum,
}
use asense.Hardware.Fans.{expected_mode}
use asense.Daemon.{
  FanControl, recognise, changes_fans, safety_override, begins_mutation, command_is_mutation,
  refreshes_hardware, parse_manual_percent, automatic_session, manual_session, emergency_maximum,
  profile_command,
}
use asense.Daemon.Session.{run_command, locked_command, execute_command, enforce_thermal_watchdog}
use asense.Daemon.Serve.{
  claim_fan_command, Shared, run_claimed, serve_command, deliver, commanded, delivered, at_rest,
  then_turn,
}
use asense.Daemon.Leases.{Lawful}
use asense.Daemon.Interleaving.{IsLeased, Turns-IsLeased}
use asense.Daemon.Watchdog.{both_read, is_hot, enforce_thermal_watchdog-escalates}
use asense.Daemon.Permits.{
  observed_count, acquire_round, Permits, after_round, tried, no_step, then_step, IsCounted,
  PermitRun-IsCounted,
}
use asense.Daemon.Decoder.{
  Frame, not_utf8, decode_line, max_command_bytes, Filled, buffer, interrupted, command_line, push,
  finish_line, read_command, first_frame, bytes_of, read_command-bounded, read_command-first_frame,
}
use asense.Base.Utf8.{is_utf8, trim_utf8}
use asense.Daemon.Protocol.{
  max_response_line_bytes, protocol_handshake, accept, dispatched, IsNegotiated, is_control,
  utf8_length, response_text, dispatched-IsNegotiated, response_text-bounded,
}

-- the mode of the fans and the temperature in millidegrees
abbrev Machine : Type 0
Machine = FanMode × ℕ

abbrev machine_control : FanControl
machine_control = record {
  World = Machine;
  is_acer = λ w. true;
  acquire = pure tt;
  refreshed = pure tt;
  apply_fan_setting = λ s (m, t). (ok tt, (expected_mode s, t));
  read_modes = λ (m, t). (ok (some m, some m), (m, t));
  read_temperature = λ c (m, t). (ok (pos t), (m, t));
  is_gaming_wmi = λ w. false;
  apply_profile = λ name w. (ok name, w);
  perform = λ fs w. (ok (codes "ready"), w);
}

mode_after : (s : FanSetting) → mode_eq (expected_mode s) manual ≡ is_manual s
mode_after set_automatic = refl
mode_after set_maximum = refl
mode_after (set_manual_percent cpu gpu) = refl

abbrev machine_lawful : Lawful machine_control
machine_lawful = record {
  under_manual = λ (m, t). mode_eq m manual;
  applied = λ s w h. mode_after s;
  acquire_keeps = λ w. refl;
  refreshed_keeps = λ w. refl;
  modes_keep = λ w. refl;
  temperature_keeps = λ c w. refl;
  profile_keeps = λ name w. refl;
  perform_keeps = λ fs w. refl;
}

abbrev booted : Shared Machine
booted = record { fan_owner = none; sessions = λ c. automatic_session; world = (automatic, 45000) }

abbrev manual_fields : List Bytes
manual_fields = codes "FAN" ∷ codes "MANUAL" ∷ codes "50" ∷ codes "60" ∷ []

abbrev after_manual : Shared Machine
after_manual = (serve_command machine_control 1 manual_fields booted).1

-- a second client is refused the profile while the first one holds the fans
refused :
    (after_manual.fan_owner ≡ some 1)
    × (after_manual.world ≡ (manual, 45000))
    × (claim_fan_command 2 (profile_command (codes "quiet")) (some 1)
        ≡ err (
            codes "another client owns manual fan control; Auto or Maximum can safely override it"))
unfolding serve_command run_claimed execute_command locked_command run_command claim_fan_command
    recognise changes_fans safety_override begins_mutation command_is_mutation refreshes_hardware
    parse_manual_percent parse_uint
refused = (refl, refl, refl)

Turns-IsLeased_example :
    IsLeased machine_control machine_lawful (deliver machine_control 1 true after_manual)
Turns-IsLeased_example =
    Turns-IsLeased machine_control machine_lawful booted
      (deliver machine_control 1 true after_manual)
      (then_turn (then_turn (at_rest booted) (commanded 1 manual_fields booted))
        (delivered 1 true after_manual))
      refl

enforce_thermal_watchdog-escalates_example :
    Ensures
      (λ u (s', w').
        ((is_hot machine_control machine_lawful (manual, 93000) ≡ false)
          × (s' ≡ manual_session)
          × (w' ≡ both_read machine_control machine_lawful (manual, 93000)))
        ⊎ ((is_hot machine_control machine_lawful (manual, 93000) ≡ true)
            × (s' ≡ emergency_maximum)
            × (machine_lawful.under_manual w' ≡ false)))
      (λ e (s', w').
        (is_hot machine_control machine_lawful (manual, 93000) ≡ true) × (s' ≡ emergency_maximum))
      (enforce_thermal_watchdog machine_control)
      (manual_session, (manual, 93000))
enforce_thermal_watchdog-escalates_example =
    enforce_thermal_watchdog-escalates machine_control machine_lawful manual_session (manual, 93000)
      refl

abbrev two_buffers : List Filled
two_buffers = buffer (codes "PI") ∷ buffer (codes "NG\nX") ∷ []

ping_read : (read_command [] two_buffers).0 ≡ ok (command_line (codes "PING"))
unfolding read_command split_once push finish_line decode_line is_utf8
ping_read = refl

read_command-first_frame_example :
    (read_command [] two_buffers).0 ≡ first_frame ([] ++ bytes_of two_buffers)
unfolding split_once
read_command-first_frame_example = read_command-first_frame [] two_buffers refl (omega arith) tt

read_command-bounded_example :
    length (read_command (codes "PI") (buffer (codes "N") ∷ interrupted ∷ [])).1 ≤ max_command_bytes
read_command-bounded_example =
    read_command-bounded (codes "PI") (buffer (codes "N") ∷ interrupted ∷ []) (omega arith)

-- a line that is not UTF-8, then the handshake with space around it, and a command
abbrev greeting : List Frame
greeting = not_utf8 ∷ command_line (codes " HELLO 2\r") ∷ command_line (codes "PING") ∷ []

greeted : ¬ (dispatched (codes "1") false greeting ≡ [])
unfolding dispatched accept protocol_handshake fields parse_uint trim_utf8
greeted h = ground arith

dispatched-IsNegotiated_example : IsNegotiated greeting
dispatched-IsNegotiated_example = dispatched-IsNegotiated (codes "1") greeting greeted

response_text-bounded_example :
    (all (λ c. not (is_control c)) (response_text (ok (codes "a\nb"))) ≡ true)
    × (utf8_length (response_text (ok (codes "a\nb"))) ≤ max_response_line_bytes)
response_text-bounded_example = response_text-bounded (ok (codes "a\nb"))

abbrev no_clients : Permits
no_clients = record { active = 0; holding = 0 }

abbrev one_client : Permits
one_client = after_round (acquire_round 0 0 false) no_clients

-- a second client with the stale count observes the counter and holds nothing
stale_round : acquire_round 0 1 false ≡ (observed_count 1, 1)
unfolding acquire_round
stale_round = refl

PermitRun-IsCounted_example :
    IsCounted (after_round (acquire_round 0 one_client.active false) one_client)
PermitRun-IsCounted_example =
    PermitRun-IsCounted no_clients
      (after_round (acquire_round 0 one_client.active false) one_client)
      (then_step (then_step (no_step no_clients) (tried 0 false no_clients))
        (tried 0 false one_client))
      (refl, omega arith)
