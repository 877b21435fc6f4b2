-- ===== src/Daemon/Leases.antt =====
-- Fans under manual control always have an owner whose session brings them back to Automatic.
use asense.Base.{
  ℕ, ◌≡◌, refl, inl, inr, Bool, true, not, ◌||◌, List, arith, Bool-cases, ◌&&◌, ap, ◌∙◌, false,
}
use asense.Base.Text.{Bytes, fields}
use asense.Result.{ok, Result-cases}
use asense.Exec.{◌>>=◌, ◌>>◌, Exec}
use asense.Hardware.{FanSetting, is_manual, set_automatic, set_maximum, set_manual_percent}
use asense.Daemon.{
  FanControl, FanSessionState, FanCommand, fan_manual, begins_mutation, fan_auto, fan_maximum,
  other_command, parse_manual_percent, automatic_session, pending_mutation, needs_thermal_watchdog,
  recognise, command_is_mutation, refreshes_hardware, manual_session, emergency_maximum,
  profile_command,
}
use asense.Daemon.Session.{
  Local, run_command, on_hardware, become, is_automatic, reconcile_fans, refresh_fans, cpu_limit,
  gpu_limit, is_unsafe, when, locked_command, execute_command, escalate, enforce_thermal_watchdog,
}

-- What the daemon takes of the hardware: whether the fans stand under manual control, that a setting
-- that was applied is in force, and that the other operations leave that alone. Of a setting that
-- failed nothing is said.
pub record Lawful (control : FanControl) : Type 1 where
  pub under_manual : control.World → Bool
  pub applied :
      (s : FanSetting) (w : control.World)
      → (control.apply_fan_setting s w).0 ≡ ok tt
      → under_manual (control.apply_fan_setting s w).1 ≡ is_manual s
  pub acquire_keeps : (w : control.World) → under_manual (control.acquire w).1 ≡ under_manual w
  pub refreshed_keeps : (w : control.World) → under_manual (control.refreshed w).1 ≡ under_manual w
  pub modes_keep : (w : control.World) → under_manual (control.read_modes w).1 ≡ under_manual w
  pub temperature_keeps :
      (c : ℕ) (w : control.World) → under_manual (control.read_temperature c w).1 ≡ under_manual w
  pub profile_keeps :
      (name : Bytes) (w : control.World)
      → under_manual (control.apply_profile name w).1 ≡ under_manual w
  pub perform_keeps :
      (fields : List Bytes) (w : control.World)
      → under_manual (control.perform fields w).1 ≡ under_manual w

-- the states that a session with fans under manual control can be in
abbrev pub is_bound : FanSessionState → Bool
is_bound pending_mutation = true
is_bound manual_session = true
is_bound emergency_maximum = true
is_bound _ = false

module _ (control : FanControl) (lawful : Lawful control) where
  open control use {
    World, is_acer, acquire, refreshed, apply_fan_setting, read_modes, read_temperature,
    is_gaming_wmi, apply_profile, perform,
  }
  open lawful use {
    under_manual, applied, acquire_keeps, refreshed_keeps, modes_keep, temperature_keeps,
    profile_keeps, perform_keeps,
  }

  -- fans under manual control are brought back when the session ends, and nothing lets go of them
  abbrev pub Held : FanSessionState → World → Type 0
  Held s w = (is_bound s || not (under_manual w)) ≡ true

  abbrev pub Holds : Local control → Type 0
  Holds (s, w) = Held s w

  reconcile_fans-Holds :
      (s : FanSessionState) (w : World) → Held s w → Holds (reconcile_fans control (s, w)).1
  unfolding reconcile_fans
  reconcile_fans-Holds s w h = elim (Bool-cases (is_gaming_wmi w)) [
    | inr e ↦ rw e h
    | inl e ↦ elim (Result-cases (read_modes w).0) [
      | inr (x, f) ↦ rw (e, f) (ground (arith, modes_keep w))
      | inl ((cpu, gpu), f) ↦
          elim (Bool-cases (is_automatic control cpu && is_automatic control gpu)) [
            | inl g ↦ rw (e, f, g) (ground (arith, modes_keep w))
            | inr g ↦ rw (e, f, g) (brought_back (read_modes w).1)
          ]
    ]
  ]
    where
      brought_back :
          (w : World)
          → Holds
              ((do
                become control pending_mutation
                on_hardware control (apply_fan_setting set_automatic)
                become control automatic_session)
                (s, w)).1
      brought_back w = elim (Result-cases (apply_fan_setting set_automatic w).0) [
        | inl (u, e) ↦ rw e (ground (arith, applied set_automatic w))
        | inr (x, e) ↦ rw e refl
      ]

  profile-Holds :
      (name : Bytes) (l : Local control)
      → Holds l
      → Holds
          ((on_hardware control (apply_profile name) >>= λ receipt.
              on_hardware control (refresh_fans control receipt))
            l).1
  unfolding refresh_fans
  profile-Holds name (s, w) h = elim (Result-cases (apply_profile name w).0) [
    | inr (x, e) ↦ rw e (ground (arith, profile_keeps name w))
    | inl (receipt, e) ↦
        rw e (ground (arith, profile_keeps name w, after receipt (apply_profile name w).1))
  ]
    where
      after :
          (receipt : Bytes) (w : World)
          → under_manual (refresh_fans control receipt w).1 ≡ under_manual w
      after receipt w = elim (Bool-cases (is_gaming_wmi w)) [
        | inr e ↦ rw e refl
        | inl e ↦ elim (Result-cases (read_modes w).0) [
          | inl (m, f) ↦ rw (e, f) (modes_keep w)
          | inr (x, f) ↦ rw (e, f) (modes_keep w)
        ]
      ]

  run_command-Holds :
      (fields : List Bytes) (command : FanCommand) (s : FanSessionState) (w : World)
      → Held s w
      → (begins_mutation command ≡ true → is_bound s ≡ true)
      → Holds (run_command control fields command (s, w)).1
  unfolding run_command begins_mutation
  run_command-Holds fields fan_auto s w h k =
      elim (Result-cases (apply_fan_setting set_automatic w).0) [
        | inl (u, e) ↦ rw e (ground (arith, applied set_automatic w))
        | inr (x, e) ↦ rw e (ground (arith, k refl))
      ]
  run_command-Holds fields fan_maximum s w h k =
      elim (Result-cases (apply_fan_setting set_maximum w).0) [
        | inl (u, e) ↦ rw e (ground (arith, applied set_maximum w))
        | inr (x, e) ↦ rw e (ground (arith, k refl))
      ]
  run_command-Holds fields (fan_manual cpu gpu) s w h k =
      elim (Result-cases (parse_manual_percent cpu)) [
        | inr (x, e) ↦ rw e h
        | inl (c, e) ↦ elim (Result-cases (parse_manual_percent gpu)) [
          | inr (x, f) ↦ rw (e, f) h
          | inl (g, f) ↦ elim (Result-cases (apply_fan_setting (set_manual_percent c g) w).0) [
            | inl (u, r) ↦ rw (e, f, r) refl
            | inr (x, r) ↦ rw (e, f, r) (ground (arith, k refl))
          ]
        ]
      ]
  run_command-Holds fields (profile_command name) s w h k =
      elim (Result-cases (reconcile_fans control (s, w)).0) [
        | inr (x, e) ↦ rw e (reconcile_fans-Holds s w h)
        | inl (u, e) ↦
            rw e (profile-Holds name (reconcile_fans control (s, w)).1 (reconcile_fans-Holds s w h))
      ]
  run_command-Holds fields other_command s w h k = ground (arith, perform_keeps fields w)

  -- a step of the hardware that leaves the control of the fans alone, taken or skipped
  when-Holds :
      (b : Bool) (m : Exec World Bytes Unit) (s : FanSessionState) (w : World)
      → ((w : World) → under_manual (m w).1 ≡ under_manual w)
      → Held s w
      → ((when control b (on_hardware control m) (s, w)).1.0 ≡ s)
        × Holds (when control b (on_hardware control m) (s, w)).1
  when-Holds true m s w keep h = (refl, ground (arith, keep w))
  when-Holds false m s w keep h = (refl, h)

  locked_command-Holds :
      (fields : List Bytes) (s : FanSessionState) (w : World)
      → Held s w
      → (begins_mutation (recognise fields) ≡ true → is_bound s ≡ true)
      → Holds (locked_command control fields (s, w)).1
  unfolding locked_command
  locked_command-Holds fields s w h k = elim (Result-cases (lock (s, w)).0) [
    | inr (x, e) ↦ rw e locked.1
    | inl (u, e) ↦ elim (Result-cases (fresh (lock (s, w)).1).0) [
      | inr (x, f) ↦ rw (e, f) renewed.1
      | inl (v, f) ↦
          rw (e, f)
            (run_command-Holds fields (recognise fields) (fresh (lock (s, w)).1).1.0
              (fresh (lock (s, w)).1).1.1 renewed.1 (λ b. ap is_bound (renewed.0 ∙ locked.0) ∙ k b))
    ]
  ]
    where
      lock : Exec (Local control) Bytes Unit
      lock = when control (command_is_mutation fields) (on_hardware control acquire)

      fresh : Exec (Local control) Bytes Unit
      fresh = when control (refreshes_hardware fields) (on_hardware control refreshed)

      locked : ((lock (s, w)).1.0 ≡ s) × Holds (lock (s, w)).1
      locked = when-Holds (command_is_mutation fields) acquire s w acquire_keeps h

      renewed : ((fresh (lock (s, w)).1).1.0 ≡ (lock (s, w)).1.0) × Holds (fresh (lock (s, w)).1).1
      renewed =
          when-Holds (refreshes_hardware fields) refreshed (lock (s, w)).1.0 (lock (s, w)).1.1
            refreshed_keeps locked.1

  pub execute_command-Holds :
      (fields : List Bytes) (s : FanSessionState) (w : World)
      → (begins_mutation (recognise fields) ≡ false → Held s w)
      → Holds (execute_command control fields (s, w)).1
  unfolding execute_command
  execute_command-Holds fields s w h = elim (Bool-cases (begins_mutation (recognise fields))) [
    | inl b ↦ elim (Bool-cases (command_is_mutation fields && not (is_acer w))) [
      | inl e ↦ rw (b, e) refl
      | inr e ↦ rw (b, e) (locked_command-Holds fields pending_mutation w refl (λ c. refl))
    ]
    | inr b ↦ elim (Bool-cases (command_is_mutation fields && not (is_acer w))) [
      | inl e ↦ rw (b, e) (h b)
      | inr e ↦ rw (b, e) (locked_command-Holds fields s w (h b) (λ c. ground (arith, b, c)))
    ]
  ]

  escalate-Holds : (s : FanSessionState) (w : World) → Holds (escalate control (s, w)).1
  unfolding escalate
  escalate-Holds s w = elim (Result-cases (acquire w).0) [
    | inr (x, e) ↦ rw e refl
    | inl (u, e) ↦ rw e refl
  ]

  pub enforce_thermal_watchdog-Holds :
      (s : FanSessionState) (w : World)
      → Held s w
      → Holds (enforce_thermal_watchdog control (s, w)).1
  unfolding enforce_thermal_watchdog
  enforce_thermal_watchdog-Holds s w h = elim (Bool-cases (needs_thermal_watchdog s)) [
    | inr n ↦ rw n h
    | inl n ↦
        let read : under_manual (read_temperature 2 (read_temperature 1 w).1).1 ≡ under_manual w =
          temperature_keeps 2 (read_temperature 1 w).1 ∙ temperature_keeps 1 w in
        elim (Bool-cases (
          is_unsafe cpu_limit (read_temperature 1 w).0
          || is_unsafe gpu_limit (read_temperature 2 (read_temperature 1 w).1).0)) [
            | inr e ↦ rw (n, e) (ground (arith, read))
            | inl e ↦ rw (n, e) (escalate-Holds s (read_temperature 2 (read_temperature 1 w).1).1)
          ]
  ]

  -- a command that sets neither a fan nor the profile leaves the session and the fans alone
  pub execute_command-other :
      (fields : List Bytes) (s : FanSessionState) (w : World)
      → recognise fields ≡ other_command
      → ((execute_command control fields (s, w)).1.0 ≡ s)
        × (under_manual (execute_command control fields (s, w)).1.1 ≡ under_manual w)
  unfolding execute_command locked_command run_command begins_mutation
  execute_command-other fields s w r =
      elim (Bool-cases (command_is_mutation fields && not (is_acer w))) [
        | inl e ↦ rw (r, e) (refl, refl)
        | inr e ↦ elim (Result-cases (lock (s, w)).0) [
          | inr (x, f) ↦ rw (r, e, f) locked
          | inl (u, f) ↦ elim (Result-cases (fresh (lock (s, w)).1).0) [
            | inr (x, g) ↦ rw (r, e, f, g) renewed
            | inl (v, g) ↦
                rw (r, e, f, g)
                  (renewed.0, perform_keeps fields (fresh (lock (s, w)).1).1.1 ∙ renewed.1)
          ]
        ]
      ]
    where
      lock : Exec (Local control) Bytes Unit
      lock = when control (command_is_mutation fields) (on_hardware control acquire)

      fresh : Exec (Local control) Bytes Unit
      fresh = when control (refreshes_hardware fields) (on_hardware control refreshed)

      AsBefore : Local control → Type 0
      AsBefore (t, v) = (t ≡ s) × (under_manual v ≡ under_manual w)

      taken :
          (b : Bool) (m : Exec World Bytes Unit) (l : Local control)
          → ((w : World) → under_manual (m w).1 ≡ under_manual w)
          → AsBefore l
          → AsBefore (when control b (on_hardware control m) l).1
      taken true m (t, v) keep h = (h.0, keep v ∙ h.1)
      taken false m (t, v) keep h = h

      locked : AsBefore (lock (s, w)).1
      locked = taken (command_is_mutation fields) acquire (s, w) acquire_keeps (refl, refl)

      renewed : AsBefore (fresh (lock (s, w)).1).1
      renewed = taken (refreshes_hardware fields) refreshed (lock (s, w)).1 refreshed_keeps locked
