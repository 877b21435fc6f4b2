-- ===== src/Tuning/Atomic.antt =====
-- A profile change against the state of the two controllers.
use asense.Base.{append-eq-nil, ◌≡◌, refl, sym, ap, ◌∙◌, ◌⊎◌, inl, inr, ◌&&◌, List, [], ◌∷◌, arith}
use asense.Result.{err, Result-cases}
use asense.Exec.Outcome.{
  Settles, Ensures, Ensures-cases, Ensures-mono, Ensures-if, Ensures-bind, Ensures-handle,
}
use asense.Nvidia.{OffsetSnapshot}
use asense.Hardware.{PlatformProfile, profile_eq, profile_eq_sound}
use asense.Tuning.{
  GpuOffsetState, offset_state_eq, TuningState, Cause, Failure, TuningError, hardware, nvidia,
  ProfilePlanes, classify_offsets, with_error, expected_offsets, optional_power,
  required_nvidia_state, restore_both, confirm_both, rollback_report, confirm_if_clean, rollback,
  mutation, readback, report_state, transact, set_profile_with_nvidia, custom_or_partial,
  readback_hardware, readback_nvidia,
}
use asense.Tuning.Honest.{
  Honest, offset_state_eq_sound, IsRollbackFailed, profile_failure-nil, offsets_failure-nil, Stands,
  current_profile-Stands, snapshot_offsets-Stands,
}

module _ (planes : ProfilePlanes) (honest : Honest planes) where
  open planes use {World, current_profile, set_profile, snapshot_offsets, power_telemetry}
  open honest use {
    profile_of, offsets_of, profile_shown, offsets_shown, profile_read, offsets_read, power_read,
  }

  confirm_both-restored :
      (p : PlatformProfile) (o : OffsetSnapshot) (w : World)
      → (confirm_both planes p o w).0 ≡ []
      → Stands planes honest p o (confirm_both planes p o w).1
  unfolding confirm_both
  confirm_both-restored p o w h =
      let w1 = (current_profile w).1 in
      let clean = append-eq-nil _ _ h in
      let at_profile =
        profile_failure-nil planes honest p (profile_of w) (current_profile w).0 (profile_shown w)
          clean.0 in
      let at_offsets =
        offsets_failure-nil planes honest o (offsets_of w1) (snapshot_offsets w1).0
          (offsets_shown w1) clean.1 in
      ((offsets_read w1).0 ∙ (profile_read w).0 ∙ at_profile, (offsets_read w1).1 ∙ at_offsets)

  -- an error other than a failed rollback leaves the two controllers as they were
  abbrev pub Kept : PlatformProfile → OffsetSnapshot → TuningError → World → Type 0
  Kept p o x w = IsRollbackFailed x ⊎ Stands planes honest p o w

  rollback-Kept :
      {A : Type 0} (P : A → World → Type 0) (target p : PlatformProfile) (o : OffsetSnapshot)
      (cause : Cause) (w : World)
      → Ensures P (Kept p o) (rollback planes target p o cause) w
  unfolding rollback
  rollback-Kept {A} P target p o cause w =
      confirmed (restore_both planes target p o w).0 (restore_both planes target p o w).1
    where
      report :
          (fs : List Failure) (w' : World)
          → (fs ≡ [] → Stands planes honest p o w')
          → Settles {A = A} P (Kept p o) (err (rollback_report planes cause fs)) w'
      report [] w' h = inr (h refl)
      report (f ∷ fs) w' h = inl tt

      confirmed :
          (fs : List Failure) (w1 : World)
          → Settles {A = A} P
              (Kept p o)
              (err (rollback_report planes cause (confirm_if_clean planes p o fs w1).0))
              (confirm_if_clean planes p o fs w1).1
      confirmed [] w1 = report _ _ (confirm_both-restored p o w1)
      confirmed (f ∷ fs) w1 = inl tt

  -- the target profile is set and the offsets are those that belong to it
  abbrev pub Reached : PlatformProfile → World → Type 0
  Reached target w =
      (profile_of w ≡ target) × (classify_offsets (offsets_of w) ≡ expected_offsets target)

  required-shown :
      (w : World)
      → Ensures
          (λ (q, g) w'. (profile_of w' ≡ q) × (classify_offsets (offsets_of w') ≡ g))
          (λ e w'. Unit)
          (required_nvidia_state planes)
          w
  unfolding required_nvidia_state
  required-shown w =
      Ensures-bind (λ q w'. (q ≡ p) × Stands planes honest p o w') _ _
        (with_error readback_hardware current_profile) _ w
        (Ensures-mono _ _ _ _ (with_error readback_hardware current_profile) w
          (current_profile-Stands planes honest p o readback_hardware w (refl, refl)) (λ a w' h. h)
          (λ e w' h. tt))
        λ q w1 (eq, st).
          Ensures-bind (λ s w'. (s ≡ o) × Stands planes honest p o w') _ _
            (with_error readback_nvidia snapshot_offsets) _ w1
            (Ensures-mono _ _ _ _ (with_error readback_nvidia snapshot_offsets) w1
              (snapshot_offsets-Stands planes honest p o readback_nvidia w1 st) (λ a w' h. h)
              (λ e w' h. tt))
            λ s w2 (es, st2). (st2.0 ∙ sym eq, ap classify_offsets (st2.1 ∙ sym es))
    where
      p : PlatformProfile
      p = profile_of w

      o : OffsetSnapshot
      o = offsets_of w

  readback-Reached :
      (target : PlatformProfile) (w : World)
      → Ensures
          (λ (q, g) w'. (q ≡ target) × (g ≡ expected_offsets target) × Reached target w')
          (λ e w'. Unit)
          (readback planes target)
          w
  unfolding readback
  readback-Reached target w =
      Ensures-bind (λ (q, g) w'. (profile_of w' ≡ q) × (classify_offsets (offsets_of w') ≡ g)) _ _
        (required_nvidia_state planes) _ w (required-shown w)
        λ (q, g) w' h.
          Ensures-if _ _ (profile_eq q target && offset_state_eq g (expected_offsets target)) _ _ w'
            (λ e.
              let at_profile = profile_eq_sound q target (ground arith) in
              let at_offsets = offset_state_eq_sound g (expected_offsets target) (ground arith) in
              (at_profile, at_offsets, (h.0 ∙ at_profile, h.1 ∙ at_offsets)))
            (λ e. tt)

  report_state-Reached :
      (target q : PlatformProfile) (g : GpuOffsetState) (Q : TuningError → World → Type 0)
      (w : World)
      → q ≡ target
      → g ≡ expected_offsets target
      → Reached target w
      → Ensures
          (λ st w'.
            (st.profile ≡ target) × (st.gpu_offsets ≡ expected_offsets target) × Reached target w')
          Q
          (report_state planes (q, g))
          w
  unfolding report_state optional_power
  report_state-Reached target q g Q w hq hg h = elim (Result-cases (power_telemetry w).0) [
    | inl (power, e) ↦ rw e (hq, hg, after)
    | inr (x, e) ↦ rw e (hq, hg, after)
  ]
    where
      after : Reached target (power_telemetry w).1
      after = ((power_read w).0 ∙ h.0, ap classify_offsets (power_read w).1 ∙ h.1)

  abbrev pub Accomplished : PlatformProfile → TuningState → World → Type 0
  Accomplished target st w =
      (st.profile ≡ target) × (st.gpu_offsets ≡ expected_offsets target) × Reached target w

  transact-atomic :
      (target p : PlatformProfile) (o : OffsetSnapshot) (w : World)
      → Ensures (Accomplished target) (Kept p o) (transact planes target p o) w
  unfolding transact
  transact-atomic target p o w =
      Ensures-handle (λ u w'. Unit {0}) (λ e w'. Unit {0}) _ _ (mutation planes target) _ _ w
        (Ensures-cases _ _ (mutation planes target) w (λ u e. tt) (λ x e. tt))
        (λ u w1 _.
          Ensures-handle _ (λ e w'. Unit {0}) _ _ (readback planes target) _ _ w1
            (readback-Reached target w1)
            (λ (q, g) w2 h. report_state-Reached target q g (Kept p o) w2 h.0 h.1 h.2)
            (λ cause w2 _. rollback-Kept (Accomplished target) target p o cause w2))
        (λ cause w1 _. rollback-Kept (Accomplished target) target p o cause w1)

  -- For controllers whose readings are honest, whatever their setters do: a profile change that
  -- succeeds has set the target profile and the offsets that belong to it, and its report says so;
  -- a change that fails with anything but a failed rollback has left the profile and the offsets
  -- as they were.
  pub set_profile_with_nvidia-atomic :
      (target : PlatformProfile) (w : World)
      → Ensures
          (Accomplished target)
          (Kept (profile_of w) (offsets_of w))
          (set_profile_with_nvidia planes target)
          w
  unfolding set_profile_with_nvidia
  set_profile_with_nvidia-atomic target w =
      Ensures-bind (λ q w'. (q ≡ p) × Stands planes honest p o w') _ _
        (with_error hardware current_profile) _ w
        (Ensures-mono _ _ _ _ (with_error hardware current_profile) w
          (current_profile-Stands planes honest p o hardware w (refl, refl)) (λ a w' h. h)
          (λ e w' h. inr h))
        λ q w1 (eq, st).
          Ensures-bind (λ s w'. (s ≡ o) × Stands planes honest p o w') _ _
            (with_error nvidia snapshot_offsets) _ w1
            (Ensures-mono _ _ _ _ (with_error nvidia snapshot_offsets) w1
              (snapshot_offsets-Stands planes honest p o nvidia w1 st) (λ a w' h. h)
              (λ e w' h. inr h))
            λ s w2 (es, st2).
              Ensures-if _ _ (offset_state_eq (classify_offsets s) custom_or_partial) _ _ w2
                (λ _. inr st2) (λ _. rw (eq, es) (transact-atomic target p o w2))
    where
      p : PlatformProfile
      p = profile_of w

      o : OffsetSnapshot
      o = offsets_of w
