-- ===== src/Tuning/Honest.antt =====
-- The contract of the two controllers: what a reading says, and nothing of what a setter does.
use asense.Base.{◌≡◌, refl, ◌∙◌, inl, inr, true, [], ◌∷◌, arith}
use asense.Base.Int.{eqb_ℤ_iff}
use asense.Result.{Result, ok, err, Result-cases}
use asense.Exec.Outcome.{Ensures}
use asense.Nvidia.{OffsetReading, OffsetSnapshot, NvidiaError, state_eq_sound}
use asense.Hardware.{PlatformProfile, HardwareError, profile_eq_sound}
use asense.Tuning.{
  GpuOffsetState, offset_state_eq, TuningError, rollback_failed, ProfilePlanes, reading_eq,
  snapshot_eq, with_error, profile_failure, offsets_failure,
}

abbrev pub Shows : {E A : Type 0} → Result E A → A → Type 0
Shows (ok a) b = a ≡ b
Shows (err e) b = Unit

-- Reading reports the state of its controller and changes neither. What a setter does is left open.
pub record Honest (planes : ProfilePlanes) : Type 0 where
  pub profile_of : planes.World → PlatformProfile
  pub offsets_of : planes.World → OffsetSnapshot
  pub profile_shown : (w : planes.World) → Shows (planes.current_profile w).0 (profile_of w)
  pub offsets_shown : (w : planes.World) → Shows (planes.snapshot_offsets w).0 (offsets_of w)
  pub profile_read :
      (w : planes.World)
      → (profile_of (planes.current_profile w).1 ≡ profile_of w)
        × (offsets_of (planes.current_profile w).1 ≡ offsets_of w)
  pub offsets_read :
      (w : planes.World)
      → (profile_of (planes.snapshot_offsets w).1 ≡ profile_of w)
        × (offsets_of (planes.snapshot_offsets w).1 ≡ offsets_of w)
  pub power_read :
      (w : planes.World)
      → (profile_of (planes.power_telemetry w).1 ≡ profile_of w)
        × (offsets_of (planes.power_telemetry w).1 ≡ offsets_of w)

reading_eq_sound : (r s : OffsetReading) → reading_eq r s ≡ true → r ≡ s
reading_eq_sound r s h = ground (
  arith,
  eqb_ℤ_iff r.current_mhz s.current_mhz,
  eqb_ℤ_iff r.minimum_mhz s.minimum_mhz,
  eqb_ℤ_iff r.maximum_mhz s.maximum_mhz,
)

pub snapshot_eq_sound : (s t : OffsetSnapshot) → snapshot_eq s t ≡ true → s ≡ t
snapshot_eq_sound [] [] h = refl
snapshot_eq_sound [] (p ∷ ps) h = cc
snapshot_eq_sound (o ∷ os) [] h = cc
snapshot_eq_sound (o ∷ os) (p ∷ ps) h =
    let states = state_eq_sound o.state p.state (ground arith) in
    let cores = reading_eq_sound o.core_reading p.core_reading (ground arith) in
    let memories = reading_eq_sound o.memory_reading p.memory_reading (ground arith) in
    let rests = snapshot_eq_sound os ps (ground arith) in
    λ i. record { state = states i; core_reading = cores i; memory_reading = memories i } ∷ rests i

pub offset_state_eq_sound : (g h : GpuOffsetState) → offset_state_eq g h ≡ true → g ≡ h
offset_state_eq_sound g h e = ground arith

abbrev pub IsRollbackFailed : TuningError → Type 0
IsRollbackFailed (rollback_failed cause failures) = Unit
IsRollbackFailed _ = ⊥

module _ (planes : ProfilePlanes) (honest : Honest planes) where
  open planes use {World, current_profile, set_profile, snapshot_offsets, power_telemetry}
  open honest use {
    profile_of, offsets_of, profile_shown, offsets_shown, profile_read, offsets_read, power_read,
  }

  pub profile_failure-nil :
      (previous actual : PlatformProfile) (r : Result HardwareError PlatformProfile)
      → Shows r actual
      → profile_failure planes previous r ≡ []
      → actual ≡ previous
  unfolding profile_failure
  profile_failure-nil previous actual (ok p) h e = ground (arith, profile_eq_sound p previous)
  profile_failure-nil previous actual (err x) h e = cc

  pub offsets_failure-nil :
      (previous actual : OffsetSnapshot) (r : Result NvidiaError OffsetSnapshot)
      → Shows r actual
      → offsets_failure planes previous r ≡ []
      → actual ≡ previous
  unfolding offsets_failure
  offsets_failure-nil previous actual (ok s) h e = ground (arith, snapshot_eq_sound s previous)
  offsets_failure-nil previous actual (err x) h e = cc

  -- the state of the two controllers
  abbrev pub Stands : PlatformProfile → OffsetSnapshot → World → Type 0
  Stands p o w = (profile_of w ≡ p) × (offsets_of w ≡ o)

  pub current_profile-Stands :
      {F : Type 0} (p : PlatformProfile) (o : OffsetSnapshot) (f : HardwareError → F) (w : World)
      → Stands p o w
      → Ensures
          (λ q w'. (q ≡ p) × Stands p o w')
          (λ e w'. Stands p o w')
          (with_error f current_profile)
          w
  current_profile-Stands p o f w (hp, ho) = elim (Result-cases (current_profile w).0) [
    | inl (q, e) ↦
        rw e (rw e at (profile_shown w) ∙ hp, ((profile_read w).0 ∙ hp, (profile_read w).1 ∙ ho))
    | inr (x, e) ↦ rw e ((profile_read w).0 ∙ hp, (profile_read w).1 ∙ ho)
  ]

  pub snapshot_offsets-Stands :
      {F : Type 0} (p : PlatformProfile) (o : OffsetSnapshot) (f : NvidiaError → F) (w : World)
      → Stands p o w
      → Ensures
          (λ q w'. (q ≡ o) × Stands p o w')
          (λ e w'. Stands p o w')
          (with_error f snapshot_offsets)
          w
  snapshot_offsets-Stands p o f w (hp, ho) = elim (Result-cases (snapshot_offsets w).0) [
    | inl (q, e) ↦
        rw e (rw e at (offsets_shown w) ∙ ho, ((offsets_read w).0 ∙ hp, (offsets_read w).1 ∙ ho))
    | inr (x, e) ↦ rw e ((offsets_read w).0 ∙ hp, (offsets_read w).1 ∙ ho)
  ]
