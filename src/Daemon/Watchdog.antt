-- ===== src/Daemon/Watchdog.antt =====
-- The thermal watchdog, and how Maximum becomes persistent.
use asense.Base.{Bool-cases, ◌≡◌, refl, ◌⊎◌, inl, inr, Bool, true, false, ◌||◌}
use asense.Result.{Result-cases}
use asense.Exec.Outcome.{Ensures}
use asense.Hardware.{set_maximum}
use asense.Daemon.{FanControl, FanSessionState, needs_thermal_watchdog, emergency_maximum}
use asense.Daemon.Session.{cpu_limit, gpu_limit, is_unsafe, escalate, enforce_thermal_watchdog}
use asense.Daemon.Leases.{Lawful}

module _ (control : FanControl) (lawful : Lawful control) where
  open control use {World, acquire, apply_fan_setting, read_temperature}
  open lawful use {under_manual, applied}

  -- the two temperatures that the watchdog reads
  abbrev pub is_hot : World → Bool
  is_hot w =
      is_unsafe cpu_limit (read_temperature 1 w).0
      || is_unsafe gpu_limit (read_temperature 2 (read_temperature 1 w).1).0

  -- what is left behind by reading the two temperatures
  abbrev pub both_read : World → World
  both_read w = (read_temperature 2 (read_temperature 1 w).1).1

  -- For a session that the watchdog guards: with cool temperatures the session stays as it is and the
  -- hardware is as reading the two temperatures leaves it; with a temperature that is unknown or at its
  -- limit the session is in its emergency state afterwards, whatever fails, and without an error the
  -- fans have left manual control.
  pub enforce_thermal_watchdog-escalates :
      (s : FanSessionState) (w : World)
      → needs_thermal_watchdog s ≡ true
      → Ensures
          (λ u (s', w').
            ((is_hot w ≡ false) × (s' ≡ s) × (w' ≡ both_read w))
            ⊎ ((is_hot w ≡ true) × (s' ≡ emergency_maximum) × (under_manual w' ≡ false)))
          (λ e (s', w'). (is_hot w ≡ true) × (s' ≡ emergency_maximum))
          (enforce_thermal_watchdog control)
          (s, w)
  unfolding enforce_thermal_watchdog escalate
  enforce_thermal_watchdog-escalates s w n = elim (Bool-cases (is_hot w)) [
    | inr e ↦ rw (n, e) (inl (refl, refl, refl))
    | inl e ↦ elim (Result-cases (acquire (both_read w)).0) [
      | inr (x, f) ↦ rw (n, e, f) (refl, refl)
      | inl (u, f) ↦
          elim (Result-cases (apply_fan_setting set_maximum (acquire (both_read w)).1).0) [
            | inr (x, g) ↦ rw (n, e, f, g) (refl, refl)
            | inl (v, g) ↦
                rw (n, e, f, g) (inr (refl, refl, applied set_maximum (acquire (both_read w)).1 g))
          ]
    ]
  ]
