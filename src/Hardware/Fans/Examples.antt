-- ===== src/Hardware/Fans/Examples.antt =====
-- Fans whose attributes are files in memory: the contract can hold, and the theorems at concrete
-- settings.
use asense.Base.{◌≤◌, ◌≡◌, refl, ap, Bool, true, false, none, some, arith}
use asense.Base.Text.{Bytes, codes, trim_start, trim_end, trim, strip_prefix}
use asense.Base.Decimal.{decimal, parse_uint}
use asense.Result.{Result, ok, err}
use asense.Exec.Outcome.{Ensures}
use asense.Hardware.{set_manual_percent, mode_as_sysfs, mode_from_sysfs}
use asense.Hardware.Memory.{memory_files}
use asense.Hardware.Sysfs.{
  join, parse_i64, ensure_readback, read_trimmed, write_existing, parse_value, find_temperature,
  acer_temperature_path, read_watchdog_temperature, channel_watched, manual_watchdog_available,
}
use asense.Hardware.Fans.{
  AcerHardware, percent_to_pwm, pwm_to_percent, numbered, mode_path, apply_fan_setting, kernel_pwm,
  validate_percent, fan_role, optional_fan_mode, write_mode, verify_mode, speed_path, speed_value,
  speed_percent, write_speed_percent, verify_pwm_percent, set_both_modes, set_manual,
  force_mode_unchecked, read_rpm, observed, read_optional_fan_mode, read_gaming_speed,
  read_gaming_wmi, read_kernel_pwm, read_backend, read_fan_channel, read_fan_state,
  read_verified_fan_state, mutate, recover, apply_checked, watched, apply_watched, apply_through,
}
use asense.Hardware.Fans.Honest.{Honest}
use asense.Hardware.Fans.Transaction.{Left, Applied, apply_fan_setting-outcome}
use asense.Hardware.Fans.Percent.{pwm_to_percent-percent_to_pwm}

abbrev helios : AcerHardware
helios = record {
  acer = true;
  hwmon = some (codes "h");
  profile = none;
  fan_backend = some (kernel_pwm (codes "h") true);
}

-- every attribute reads 45000 at first
abbrev warm : Bytes → Bytes
warm path = codes "45000"

memory_honest : Honest memory_files helios
unfolding mode_path
memory_honest = record {
  mode_of = λ w c. w (join (codes "h") (numbered "pwm" c "_enable"));
  mode_shown = λ c path w h. ap w (ground arith);
  read_keeps = λ path w c. refl;
}

abbrev is_done {ℓ} : {E A : Type ℓ} → Result E A → Bool
is_done (ok a) = true
is_done (err e) = false

-- a manual setting ends with both setpoints written
manual_reached :
    (is_done (apply_fan_setting memory_files helios (set_manual_percent 50 60) warm).0 ≡ true)
    × ((apply_fan_setting memory_files helios (set_manual_percent 50 60) warm).1 (codes "h/pwm2")
        ≡ codes "153")
unfolding apply_fan_setting decimal trim_end trim_start apply_checked apply_through apply_watched
    fan_role force_mode_unchecked mutate observed optional_fan_mode percent_to_pwm pwm_to_percent
    read_backend read_fan_channel read_fan_state read_gaming_speed read_gaming_wmi read_kernel_pwm
    read_optional_fan_mode read_rpm read_verified_fan_state recover set_both_modes speed_path
    speed_percent speed_value verify_pwm_percent watched write_speed_percent parse_value
    read_trimmed mode_as_sysfs mode_from_sysfs manual_watchdog_available channel_watched
    acer_temperature_path find_temperature trim strip_prefix read_watchdog_temperature parse_i64
    parse_uint set_manual validate_percent write_mode mode_path write_existing verify_mode
    ensure_readback
manual_reached = (refl, refl)

apply_fan_setting-outcome_example :
    Ensures
      (Applied memory_files helios memory_honest (set_manual_percent 50 60))
      (Left memory_files helios memory_honest warm)
      (apply_fan_setting memory_files helios (set_manual_percent 50 60))
      warm
apply_fan_setting-outcome_example =
    apply_fan_setting-outcome memory_files helios memory_honest (set_manual_percent 50 60) warm

pwm_to_percent-percent_to_pwm_example :
    (pwm_to_percent (percent_to_pwm 57) ≡ 57) × (percent_to_pwm 57 ≤ 255)
pwm_to_percent-percent_to_pwm_example = pwm_to_percent-percent_to_pwm 57 (omega arith)
