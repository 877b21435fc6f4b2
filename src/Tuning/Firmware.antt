-- ===== src/Tuning/Firmware.antt =====
-- A profile change on a machine with no NVIDIA capability.
use asense.Base.{◌≡◌, refl, sym, ◌∙◌, ◌⊎◌, inl, inr, List, [], ◌∷◌}
use asense.Result.{err, Result-cases}
use asense.Exec.Outcome.{
  Settles, Ensures, Ensures-cases, Ensures-mono, Ensures-if, Ensures-bind, Ensures-handle,
}
use asense.Nvidia.{NvidiaError}
use asense.Hardware.{PlatformProfile, profile_eq, profile_eq_sound}
use asense.Tuning.{
  TuningState, Cause, Failure, TuningError, hardware, ProfilePlanes, with_error, rollback_report,
  rollback_firmware, readback_profile, firmware_state, set_firmware_profile, unavailable,
  set_profile_failed, readback_hardware,
}
use asense.Tuning.Honest.{
  Honest, IsRollbackFailed, profile_failure-nil, Stands, current_profile-Stands,
}

module _ (planes : ProfilePlanes) (honest : Honest planes) where
  open planes use {World, current_profile, set_profile, snapshot_offsets, power_telemetry}
  open honest use {
    profile_of, offsets_of, profile_shown, offsets_shown, profile_read, offsets_read, power_read,
  }

  -- the same without an NVIDIA capability, where only the firmware profile is set
  abbrev pub FirmwareDone : PlatformProfile → TuningState → World → Type 0
  FirmwareDone target st w =
      (st.profile ≡ target) × (st.gpu_offsets ≡ unavailable) × (profile_of w ≡ target)

  abbrev pub FirmwareKept : PlatformProfile → TuningError → World → Type 0
  FirmwareKept p x w = IsRollbackFailed x ⊎ (profile_of w ≡ p)

  rollback_firmware-Kept :
      {A : Type 0} (P : A → World → Type 0) (p : PlatformProfile) (cause : Cause) (w : World)
      → Ensures P (FirmwareKept p) (rollback_firmware planes p cause) w
  unfolding rollback_firmware
  rollback_firmware-Kept {A} P p cause w = elim (Result-cases (set_profile p w).0) [
    | inr (x, e) ↦ rw e (inl tt)
    | inl (u, e) ↦ rw e (
        report _ λ clean.
          (profile_read w1).0
          ∙ profile_failure-nil planes honest p (profile_of w1) _ (profile_shown w1) clean)
  ]
    where
      w1 : World
      w1 = (set_profile p w).1

      report :
          (fs : List Failure)
          → (fs ≡ [] → profile_of (current_profile w1).1 ≡ p)
          → Settles {A = A} P
              (FirmwareKept p)
              (err (rollback_report planes cause fs))
              (current_profile w1).1
      report [] h = inr (h refl)
      report (f ∷ fs) h = inl tt

  readback_profile-Reached :
      (target : PlatformProfile) (w : World)
      → Ensures
          (λ q w'. (q ≡ target) × (profile_of w' ≡ target))
          (λ e w'. Unit {0})
          (readback_profile planes target)
          w
  unfolding readback_profile
  readback_profile-Reached target w =
      Ensures-bind
        (λ q w'. (q ≡ profile_of w) × Stands planes honest (profile_of w) (offsets_of w) w') _ _
        (with_error readback_hardware current_profile) _ w
        (Ensures-mono _ _ _ _ (with_error readback_hardware current_profile) w
          (current_profile-Stands planes honest (profile_of w) (offsets_of w) readback_hardware w
            (refl, refl))
          (λ a w' h. h) (λ e w' h. tt))
        λ q w1 (eq, st).
          Ensures-if _ _ (profile_eq q target) _ _ w1
            (λ e. let hit = profile_eq_sound q target e in (hit, st.0 ∙ sym eq ∙ hit)) (λ e. tt)

  -- Without an NVIDIA capability a profile change that succeeds has set the target profile, and one
  -- that fails with anything but a failed rollback has left the profile as it was.
  pub set_firmware_profile-atomic :
      (target : PlatformProfile) (error : NvidiaError) (w : World)
      → Ensures
          (FirmwareDone target)
          (FirmwareKept (profile_of w))
          (set_firmware_profile planes target error)
          w
  unfolding set_firmware_profile firmware_state
  set_firmware_profile-atomic target error w =
      Ensures-bind
        (λ q w'. (q ≡ profile_of w) × Stands planes honest (profile_of w) (offsets_of w) w') _ _
        (with_error hardware current_profile) _ w
        (Ensures-mono _ _ _ _ (with_error hardware current_profile) w
          (current_profile-Stands planes honest (profile_of w) (offsets_of w) hardware w
            (refl, refl))
          (λ a w' h. h) (λ e w' h. inr h.0))
        λ q w1 (eq, st). rw eq (
          Ensures-handle (λ u w'. Unit {0}) (λ e w'. Unit {0}) _ _ (set_profile target) _ _ w1
            (Ensures-cases _ _ (set_profile target) w1 (λ u e. tt) (λ x e. tt))
            (λ u w2 _.
              Ensures-handle _ (λ e w'. Unit {0}) _ _ (readback_profile planes target) _ _ w2
                (readback_profile-Reached target w2) (λ q2 w3 h. (h.0, refl, h.1))
                (λ cause w3 _. rollback_firmware-Kept _ (profile_of w) cause w3))
            (λ x w2 _. rollback_firmware-Kept _ (profile_of w) (set_profile_failed x) w2))
