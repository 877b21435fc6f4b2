-- ===== src/Daemon/Session.antt =====
-- src/daemon.rs: what one client's session does with the fans: its commands and its watchdog.
use asense.Base.{
  if◌then◌else◌, ℕ, Bool, true, false, not, ◌&&◌, ◌||◌, Option, none, some, List, ◌++◌,
}
use asense.Base.Text.{Bytes, codes, fields}
use asense.Base.Int.{ℤ, pos, leb_ℤ}
use asense.Base.Decimal.{decimal}
use asense.Result.{Result, ok, err}
use asense.Exec.{Exec, pure, lift, ◌>>=◌, ◌>>◌, handle}
use asense.Hardware.{FanMode, mode_eq, set_manual_percent, automatic, set_automatic, set_maximum}
use asense.Daemon.{
  FanControl, FanSessionState, needs_thermal_watchdog, FanCommand, fan_manual, recognise,
  begins_mutation, command_is_mutation, refreshes_hardware, parse_manual_percent, automatic_session,
  pending_mutation, manual_session, maximum_awaiting_response, emergency_maximum, fan_auto,
  fan_maximum, other_command, profile_command,
}

-- the temperatures at which the watchdog acts, in millidegrees
abbrev pub cpu_limit : ℕ
cpu_limit = 92000

abbrev pub gpu_limit : ℕ
gpu_limit = 84000

-- a temperature that is unknown or at its limit
abbrev pub is_unsafe : ℕ → Result Bytes ℤ → Bool
is_unsafe limit (ok value) = leb_ℤ (pos limit) value
is_unsafe limit (err e) = true

module _ (control : FanControl) where
  open control use {
    World, is_acer, acquire, refreshed, apply_fan_setting, read_modes, read_temperature,
    is_gaming_wmi, apply_profile, perform,
  }

  -- a session's state beside the hardware
  abbrev pub Local : Type 0
  Local = FanSessionState × World

  abbrev pub on_hardware : {A : Type 0} → Exec World Bytes A → Exec Local Bytes A
  on_hardware m (s, w) = let (r, w') = m w in (r, (s, w'))

  abbrev pub become : FanSessionState → Exec Local Bytes Unit
  become s (_, w) = (ok tt, (s, w))

  abbrev pub when : Bool → Exec Local Bytes Unit → Exec Local Bytes Unit
  when true m = m
  when false m = pure tt

  unfoldable pub is_automatic : Option FanMode → Bool
  is_automatic none = false
  is_automatic (some m) = mode_eq m automatic

  -- before a profile write Gaming-WMI fans are brought back to Automatic
  unfoldable pub reconcile_fans : Exec Local Bytes Unit
  unfolding is_automatic
  reconcile_fans (s, w) =
      when (is_gaming_wmi w)
        (do
          (cpu, gpu) ← on_hardware read_modes
          when (not (is_automatic cpu && is_automatic gpu)) (do
            become pending_mutation
            on_hardware (apply_fan_setting set_automatic)
            become automatic_session))
        (s, w)

  -- the state of the fans is read once more, and a failure of that is a warning
  unfoldable pub refresh_fans : Bytes → Exec World Bytes Bytes
  refresh_fans receipt w =
      if is_gaming_wmi w
      then handle read_modes (λ modes. pure receipt) (λ e. pure receipt) w
      else (ok receipt, w)

  unfoldable pub run_command : List Bytes → FanCommand → Exec Local Bytes Bytes
  unfolding reconcile_fans refresh_fans
  run_command fields fan_auto = do
    on_hardware (apply_fan_setting set_automatic)
    become automatic_session
    pure (codes "fan=auto")
  run_command fields fan_maximum = do
    on_hardware (apply_fan_setting set_maximum)
    become maximum_awaiting_response
    pure (codes "fan=maximum")
  run_command fields (fan_manual cpu gpu) = do
    cpu ← lift (parse_manual_percent cpu)
    gpu ← lift (parse_manual_percent gpu)
    on_hardware (apply_fan_setting (set_manual_percent cpu gpu))
    become manual_session
    pure (codes "fan=manual cpu=" ++ decimal cpu ++ codes " gpu=" ++ decimal gpu)
  run_command fields (profile_command name) = do
    reconcile_fans
    receipt ← on_hardware (apply_profile name)
    on_hardware (refresh_fans receipt)
  run_command fields other_command = on_hardware (perform fields)

  -- the command under the lock, on hardware that is discovered again
  unfoldable pub locked_command : List Bytes → Exec Local Bytes Bytes
  unfolding run_command
  locked_command fields = do
    when (command_is_mutation fields) (on_hardware acquire)
    when (refreshes_hardware fields) (on_hardware refreshed)
    run_command fields (recognise fields)

  unfoldable pub execute_command : List Bytes → Exec Local Bytes Bytes
  unfolding locked_command
  execute_command fields (s, w) =
      let begun = if begins_mutation (recognise fields) then pending_mutation else s in
      if command_is_mutation fields && not (is_acer w)
      then (err (codes "Acer firmware mutations are unavailable on this system"), (begun, w))
      else locked_command fields (begun, w)

  -- the state is set before the write, so that a failure is still cleaned up
  unfoldable pub escalate : Exec Local Bytes Unit
  escalate = do
    become emergency_maximum
    on_hardware acquire
    on_hardware (apply_fan_setting set_maximum)

  unfoldable pub enforce_thermal_watchdog : Exec Local Bytes Unit
  unfolding escalate
  enforce_thermal_watchdog (s, w) =
      let (cpu, w1) = read_temperature 1 w in
      let (gpu, w2) = read_temperature 2 w1 in
      if needs_thermal_watchdog s
      then if is_unsafe cpu_limit cpu || is_unsafe gpu_limit gpu
        then escalate (s, w2)
        else (ok tt, (s, w2))
      else (ok tt, (s, w))
