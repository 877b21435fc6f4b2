-- ===== src/Daemon.antt =====
-- src/daemon.rs: the control daemon. What it uses of the hardware is a parameter: operations on one
-- world, each with the error text that the daemon passes on.
pub mod Session
pub mod Serve
pub mod Leases
pub mod Interleaving
pub mod Watchdog
pub mod Permits
pub mod Decoder
pub mod Protocol
pub mod Devices
pub mod Resume
pub mod Cache
mod Examples
use asense.Base.{
  if◌then◌else◌, within, ℕ, Bool, true, false, not, ◌&&◌, ◌||◌, Option, none, some, List, [], ◌∷◌,
}
use asense.Base.Text.{Bytes, codes, text_eq}
use asense.Base.Int.{ℤ}
use asense.Base.Decimal.{parse_uint}
use asense.Result.{Result, ok, err}
use asense.Exec.{Exec}
use asense.Hardware.{FanMode, FanSetting, manual}

pub record FanControl : Type 1 where
  pub World : Type 0
  pub is_acer : World → Bool
  -- `MutationGuard::acquire`: the lock file
  pub acquire : Exec World Bytes Unit
  -- `AcerHardware::refreshed`
  pub refreshed : Exec World Bytes Unit
  pub apply_fan_setting : FanSetting → Exec World Bytes Unit
  -- `read_fan_state`: the modes of the two fans
  pub read_modes : Exec World Bytes (Option FanMode × Option FanMode)
  -- `read_acer_temp_millidegrees`
  pub read_temperature : ℕ → Exec World Bytes ℤ
  -- whether the fans are driven through Gaming-WMI
  pub is_gaming_wmi : World → Bool
  -- the profile transaction and the text of its receipt
  pub apply_profile : Bytes → Exec World Bytes Bytes
  -- the commands that set neither a fan nor the profile
  pub perform : List Bytes → Exec World Bytes Bytes

pub data FanSessionState : Type 0 where
  automatic_session pending_mutation manual_session : FanSessionState
  maximum_awaiting_response persistent_maximum emergency_maximum : FanSessionState

-- `response_delivered`
abbrev pub response_delivered : FanSessionState → FanSessionState
response_delivered maximum_awaiting_response = persistent_maximum
response_delivered s = s

abbrev pub needs_thermal_watchdog : FanSessionState → Bool
needs_thermal_watchdog pending_mutation = true
needs_thermal_watchdog manual_session = true
needs_thermal_watchdog _ = false

abbrev pub requires_auto_on_disconnect : FanSessionState → Bool
requires_auto_on_disconnect pending_mutation = true
requires_auto_on_disconnect manual_session = true
requires_auto_on_disconnect maximum_awaiting_response = true
requires_auto_on_disconnect emergency_maximum = true
requires_auto_on_disconnect _ = false

-- the patterns that the daemon matches the fields of a command against
pub data FanCommand : Type 0 where
  fan_auto fan_maximum other_command : FanCommand
  fan_manual : (cpu gpu : Bytes) → FanCommand
  profile_command : (name : Bytes) → FanCommand

unfoldable pub recognise : List Bytes → FanCommand
recognise (a ∷ b ∷ []) =
    if text_eq a (codes "FAN") && text_eq b (codes "AUTO")
    then fan_auto
    else if text_eq a (codes "FAN") && text_eq b (codes "MAXIMUM")
    then fan_maximum
    else if text_eq a (codes "PROFILE")
    then profile_command b
    else other_command
recognise (a ∷ b ∷ cpu ∷ gpu ∷ []) =
    if text_eq a (codes "FAN") && text_eq b (codes "MANUAL")
    then fan_manual cpu gpu
    else other_command
recognise _ = other_command

unfoldable pub changes_fans : FanCommand → Bool
changes_fans other_command = false
changes_fans _ = true

unfoldable pub safety_override : FanCommand → Bool
safety_override fan_auto = true
safety_override fan_maximum = true
safety_override _ = false

-- the commands that a session begins a mutation for
unfoldable pub begins_mutation : FanCommand → Bool
begins_mutation fan_auto = true
begins_mutation fan_maximum = true
begins_mutation (fan_manual cpu gpu) = true
begins_mutation _ = false

unfoldable pub command_is_mutation : List Bytes → Bool
command_is_mutation [] = false
command_is_mutation (a ∷ []) = text_eq a (codes "FAN") || text_eq a (codes "PROFILE")
command_is_mutation (a ∷ b ∷ rest) =
    text_eq a (codes "FAN")
    || text_eq a (codes "PROFILE")
    || ((text_eq a (codes "RGB") || text_eq a (codes "PLATFORM")) && not (text_eq b (codes "GET")))
    || (text_eq a (codes "LIGHTING") && (text_eq b (codes "APPLY") || text_eq b (codes "POWER")))

-- whether the hardware is discovered again before the command
unfoldable pub refreshes_hardware : List Bytes → Bool
refreshes_hardware [] = false
refreshes_hardware (a ∷ rest) = text_eq a (codes "FAN") || text_eq a (codes "PROFILE")

unfoldable pub parse_manual_percent : Bytes → Result Bytes ℕ
parse_manual_percent value = elim (parse_uint 255 value) [
  | none ↦ err (codes "fan percentage must be an integer")
  | some n ↦
      if within 20 100 n then ok n else err (codes "manual fan percentage must be within 20..=100")
]
