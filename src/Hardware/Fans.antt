-- ===== src/Hardware/Fans.antt =====
-- src/hardware.rs: the fan transaction of `AcerHardware`, its readbacks and its recovery.
pub mod Honest
pub mod Verified
pub mod Channels
pub mod Transaction
pub mod Percent
mod Examples
use Prim.Native.String.{String}
use asense.Base.{
  ltb, ◌==◌, if◌then◌else◌, within, ℕ, ◌+◌, ◌*◌, ◌/◌, ◌%◌, Bool, true, false, not, ◌&&◌, Option,
  none, some, ◌++◌,
}
use asense.Base.Text.{Bytes, codes}
use asense.Base.Decimal.{decimal, parse_uint}
use asense.Result.{Result, ok, err, map_err}
use asense.Exec.{Exec, pure, raise, lift, continue, ◌>>=◌, ◌>>◌, handle}
use asense.Hardware.{
  HardwareError, io, invalid_value, readback_mismatch, mutation_rolled_back,
  mutation_failsafe_maximum, mutation_recovery_failed, FanMode, mode_as_sysfs, mode_from_sysfs,
  FanSetting, set_manual_percent, enxio, unsupported_platform, acer_hwmon_not_found,
  fan_control_unavailable, manual_fan_unavailable, missing_interface, maximum, manual, automatic,
  set_automatic, set_maximum, is_manual,
}
use asense.Hardware.Sysfs.{
  Sysfs, join, ensure_readback, read_trimmed, write_existing, parse_value,
  manual_watchdog_available,
}

pub data FanInterface : Type 0 where
  kernel_pwm acer_gaming_wmi : (base : Bytes) → (manual : Bool) → FanInterface

pub record FanChannelState : Type 0 where
  pub mode : Option FanMode
  pub pwm_raw : Option ℕ
  pub rpm : Option ℕ

pub record FanState : Type 0 where
  pub cpu : FanChannelState
  pub gpu : FanChannelState

-- the files of the platform profile
pub record ProfileInterface : Type 0 where
  pub profile_path : Bytes
  pub choices_path : Bytes

pub record AcerHardware : Type 0 where
  pub acer : Bool
  pub hwmon : Option Bytes
  pub profile : Option ProfileInterface
  pub fan_backend : Option FanInterface

unfoldable pub percent_to_pwm : ℕ → ℕ
percent_to_pwm percent = (percent * 255 + 99) / 100 % 256

unfoldable pub pwm_to_percent : ℕ → ℕ
pwm_to_percent pwm = (pwm * 100 + 127) / 255 % 256

unfoldable pub validate_percent : ℕ → Result HardwareError Unit
validate_percent value = if within 20 100 value then ok tt else err (invalid_value (decimal value))

unfoldable pub fan_role : ℕ → Result HardwareError Bytes
fan_role channel =
    if channel == 1
    then ok (codes "cpu")
    else if channel == 2
    then ok (codes "gpu")
    else err (invalid_value (decimal channel))

unfoldable pub optional_fan_mode :
    Result HardwareError Bytes → Result HardwareError (Option FanMode)
optional_fan_mode (ok value) = elim (mode_from_sysfs value) [ ok m ↦ ok (some m) | err e ↦ err e ]
optional_fan_mode (err (io enxio)) = ok none
optional_fan_mode (err e) = err e

abbrev pub expected_mode : FanSetting → FanMode
expected_mode set_automatic = automatic
expected_mode set_maximum = maximum
expected_mode (set_manual_percent cpu_percent gpu_percent) = manual

abbrev pub offers_manual : FanInterface → Bool
offers_manual (kernel_pwm base m) = m
offers_manual (acer_gaming_wmi base m) = m

-- the text that `read_verified_fan_state` compares
abbrev pub mode_text : Option FanMode → Bytes
mode_text none = codes "unavailable"
mode_text (some m) = mode_as_sysfs m

abbrev pub numbered : String → ℕ → String → Bytes
numbered before channel after = codes before ++ decimal channel ++ codes after

abbrev pub first_error :
    Result HardwareError Unit → Result HardwareError Unit → Result HardwareError Unit
first_error (err e) second = err e
first_error (ok u) second = second

unfoldable pub mode_path : Option FanInterface → ℕ → Result HardwareError Bytes
mode_path none channel = err missing_interface
mode_path (some (kernel_pwm base m)) channel = ok (join base (numbered "pwm" channel "_enable"))
mode_path (some (acer_gaming_wmi base m)) channel = elim (fan_role channel) [
  | err e ↦ err e
  | ok role ↦ ok (join base (role ++ codes "_mode"))
]

module _ (sys : Sysfs) (hw : AcerHardware) where
  open sys use {World}
  open hw use {acer, hwmon, fan_backend}

  pub write_mode : ℕ → FanMode → Exec World HardwareError Unit
  write_mode channel m = do
    path ← lift (mode_path fan_backend channel)
    write_existing sys path (mode_as_sysfs m)

  pub verify_mode : ℕ → FanMode → Exec World HardwareError Unit
  verify_mode channel expected = do
    path ← lift (mode_path fan_backend channel)
    actual ← read_trimmed sys path
    lift (ensure_readback (mode_as_sysfs expected) actual)

  -- the file of a speed setpoint
  speed_path : ℕ → Result HardwareError Bytes
  speed_path channel = elim fan_backend [
    | some (kernel_pwm base m) ↦ ok (join base (numbered "pwm" channel ""))
    | some (acer_gaming_wmi base true) ↦ elim (fan_role channel) [
      | err e ↦ err e
      | ok role ↦ ok (join base (role ++ codes "_speed"))
    ]
    | _ ↦ err missing_interface
  ]

  -- a percentage as the interface writes it, and a value of the interface as a percentage
  speed_value : ℕ → ℕ
  speed_value percent = elim fan_backend [
    | some (kernel_pwm base m) ↦ percent_to_pwm percent
    | _ ↦ percent
  ]

  speed_percent : ℕ → ℕ
  speed_percent raw = elim fan_backend [
    | none ↦ 0
    | some (kernel_pwm base m) ↦ pwm_to_percent raw
    | some (acer_gaming_wmi base m) ↦ raw
  ]

  pub write_speed_percent : ℕ → ℕ → Exec World HardwareError Unit
  unfolding speed_path speed_value
  write_speed_percent channel percent = do
    path ← lift (speed_path channel)
    write_existing sys path (decimal (speed_value percent))

  pub verify_pwm_percent : ℕ → ℕ → Exec World HardwareError Unit
  unfolding speed_path speed_percent
  verify_pwm_percent channel expected_percent = do
    path ← lift (speed_path channel)
    actual ← read_trimmed sys path
    elim (parse_uint 255 actual) [
      | none ↦ raise (invalid_value actual)
      | some raw ↦
          if speed_percent raw == expected_percent
          then pure tt
          else raise (readback_mismatch (decimal expected_percent) actual)
    ]

  pub set_both_modes : FanMode → Exec World HardwareError Unit
  set_both_modes m = do write_mode 1 m; write_mode 2 m; verify_mode 1 m; verify_mode 2 m

  pub set_manual : ℕ → ℕ → Exec World HardwareError Unit
  set_manual cpu_percent gpu_percent = do
    lift (validate_percent cpu_percent)
    lift (validate_percent gpu_percent)
    write_mode 1 maximum
    write_mode 2 maximum
    verify_mode 1 maximum
    verify_mode 2 maximum
    write_speed_percent 1 cpu_percent
    write_speed_percent 2 gpu_percent
    write_mode 1 manual
    write_mode 2 manual
    write_speed_percent 1 cpu_percent
    write_speed_percent 2 gpu_percent
    verify_pwm_percent 1 cpu_percent
    verify_pwm_percent 2 gpu_percent
    verify_mode 1 manual
    verify_mode 2 manual

  -- both writes are attempted, and the first error is reported
  pub force_mode_unchecked : FanMode → Exec World HardwareError Unit
  force_mode_unchecked m w =
      let (first, w1) = write_mode 1 m w in
      let (second, w2) = write_mode 2 m w1 in
      continue (first_error first second) (λ u. verify_mode 1 m >> verify_mode 2 m) w2

  pub read_rpm : ℕ → Exec World HardwareError ℕ
  read_rpm channel = elim hwmon [
    | none ↦ raise acer_hwmon_not_found
    | some base ↦
        parse_value sys (parse_uint 4294967295) (join base (numbered "fan" channel "_input"))
  ]

  -- an observation whose failure is dropped, as by `.ok()`
  pub observed : {A : Type 0} → Exec World HardwareError A → Exec World HardwareError (Option A)
  observed m = handle m (λ a. pure (some a)) (λ e. pure none)

  pub read_optional_fan_mode : Bytes → Exec World HardwareError (Option FanMode)
  read_optional_fan_mode path w =
      let (text, w') = read_trimmed sys path w in (optional_fan_mode text, w')

  -- the setpoint beside the mode, where manual control is offered
  read_gaming_speed : Bytes → Bool → FanMode → Exec World HardwareError (Option FanMode × Option ℕ)
  read_gaming_speed path false m = pure (some m, none)
  read_gaming_speed path true m = do
    value ← parse_value sys (parse_uint 255) path
    if ltb 100 value
        then raise (invalid_value (decimal value))
        else pure (some m, some (percent_to_pwm value))

  read_gaming_wmi : Bytes → Bool → ℕ → Exec World HardwareError (Option FanMode × Option ℕ)
  unfolding read_gaming_speed
  read_gaming_wmi base offered channel = do
    role ← lift (fan_role channel)
    text ← read_trimmed sys (join base (role ++ codes "_mode"))
    m ← lift (mode_from_sysfs text)
    read_gaming_speed (join base (role ++ codes "_speed")) offered m

  read_kernel_pwm : Bytes → ℕ → Exec World HardwareError (Option FanMode × Option ℕ)
  unfolding read_optional_fan_mode observed
  read_kernel_pwm base channel = do
    m ← read_optional_fan_mode (join base (numbered "pwm" channel "_enable"))
    raw ← observed (parse_value sys (parse_uint 255) (join base (numbered "pwm" channel "")))
    pure (m, raw)

  read_backend : Option FanInterface → ℕ → Exec World HardwareError (Option FanMode × Option ℕ)
  unfolding read_gaming_wmi read_kernel_pwm
  read_backend none channel = pure (none, none)
  read_backend (some (kernel_pwm base m)) channel = read_kernel_pwm base channel
  read_backend (some (acer_gaming_wmi base m)) channel = read_gaming_wmi base m channel

  pub read_fan_channel : ℕ → Exec World HardwareError FanChannelState
  unfolding read_rpm observed read_backend
  read_fan_channel channel = do
    rpm ← observed (read_rpm channel)
    (m, raw) ← read_backend fan_backend channel
    pure (record { mode = m; pwm_raw = raw; rpm = rpm })

  pub read_fan_state : Exec World HardwareError FanState
  read_fan_state = do
    cpu ← read_fan_channel 1
    gpu ← read_fan_channel 2
    pure (record { cpu = cpu; gpu = gpu })

  pub read_verified_fan_state : FanMode → Exec World HardwareError FanState
  read_verified_fan_state expected = do
    state ← read_fan_state
    lift (ensure_readback (mode_as_sysfs expected) (mode_text state.cpu.mode))
    lift (ensure_readback (mode_as_sysfs expected) (mode_text state.gpu.mode))
    pure state

  pub mutate : FanSetting → Exec World HardwareError Unit
  mutate set_automatic = set_both_modes automatic
  mutate set_maximum = set_both_modes maximum
  mutate (set_manual_percent cpu_percent gpu_percent) = set_manual cpu_percent gpu_percent

  -- first Automatic, then Maximum
  pub recover : HardwareError → Exec World HardwareError FanState
  recover cause =
      handle (force_mode_unchecked automatic) (λ u. raise (mutation_rolled_back cause))
        λ no_automatic.
          handle (force_mode_unchecked maximum)
            (λ u. raise (mutation_failsafe_maximum cause no_automatic))
            (λ no_maximum. raise (mutation_recovery_failed cause no_automatic no_maximum))

  -- the mutation, its readback and the recovery from either
  apply_checked : FanSetting → Exec World HardwareError FanState
  unfolding mutate read_verified_fan_state recover
  apply_checked setting =
      handle (mutate setting >> read_verified_fan_state (expected_mode setting)) pure recover

  watched : Exec World ⊥ Bool
  watched = elim hwmon [ none ↦ pure false | some base ↦ manual_watchdog_available sys base ]

  apply_watched : FanSetting → Exec World HardwareError FanState
  unfolding apply_checked watched
  apply_watched setting =
      handle watched
        (λ available. if available then apply_checked setting else raise manual_fan_unavailable)
        (λ e. elim e [ ])

  apply_through : FanInterface → FanSetting → Exec World HardwareError FanState
  unfolding apply_watched
  apply_through backend setting =
      if is_manual setting
      then if offers_manual backend then apply_watched setting else raise manual_fan_unavailable
      else apply_checked setting

  unfoldable pub apply_fan_setting : FanSetting → Exec World HardwareError FanState
  unfolding apply_through
  apply_fan_setting setting =
      if acer
      then elim fan_backend [
        | none ↦ raise fan_control_unavailable
        | some backend ↦ apply_through backend setting
      ]
      else raise unsupported_platform
