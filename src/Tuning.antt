-- ===== src/Tuning.antt =====
-- src/tuning.rs: one profile change over two controllers, the Acer firmware and the NVIDIA offsets.
-- The traits `FirmwareProfileControl` and `NvidiaProfileControl` are a parameter: operations on one
-- world. The text of a cause is kept as the step that failed and its error.
pub mod Honest
pub mod Atomic
pub mod Firmware
mod Examples
use asense.Base.{
  if◌then◌else◌, all, ℕ, Bool, true, false, ◌&&◌, Option, none, some, List, [], ◌∷◌, ◌++◌,
}
use asense.Base.Int.{eqb_ℤ}
use asense.Result.{Result, ok, err, map_err}
use asense.Exec.{Exec, pure, handle, raise, ◌>>=◌, ◌>>◌}
use asense.Nvidia.{
  state_eq, ClockOffsets, oem_turbo, reset, OffsetReading, StateOffsets, OffsetSnapshot,
  NvidiaError,
}
use asense.Hardware.{PlatformProfile, profile_eq, HardwareError, turbo}

pub data GpuOffsetState : Type 0 where
  unavailable is_reset is_oem_turbo custom_or_partial : GpuOffsetState

abbrev pub offset_state_eq : GpuOffsetState → GpuOffsetState → Bool
offset_state_eq unavailable unavailable = true
offset_state_eq is_reset is_reset = true
offset_state_eq is_oem_turbo is_oem_turbo = true
offset_state_eq custom_or_partial custom_or_partial = true
offset_state_eq _ _ = false

pub record PowerTelemetry : Type 0 where
  pub draw_mw : Option ℕ
  pub enforced_limit_mw : ℕ
  pub default_limit_mw : ℕ
  pub minimum_limit_mw : ℕ
  pub maximum_limit_mw : ℕ
  pub clock_event_reasons : ℕ

pub record TuningState : Type 0 where
  pub profile : PlatformProfile
  pub gpu_offsets : GpuOffsetState
  pub gpu_pstate_count : ℕ
  pub gpu_capability_error : Option NvidiaError
  pub power : Option PowerTelemetry
  pub power_error : Option NvidiaError

pub data Cause : Type 0 where
  set_turbo_failed set_profile_failed readback_hardware : HardwareError → Cause
  apply_offsets_failed reset_offsets_failed readback_nvidia : NvidiaError → Cause
  unexpected_state :
      (target : PlatformProfile) (expected : GpuOffsetState) (profile : PlatformProfile)
      (actual : GpuOffsetState)
      → Cause
  unexpected_profile : (target actual : PlatformProfile) → Cause

pub data Failure : Type 0 where
  restore_offsets_failed nvidia_readback_failed : NvidiaError → Failure
  restore_profile_failed acer_readback_failed : HardwareError → Failure
  acer_readback_mismatch : (expected actual : PlatformProfile) → Failure
  nvidia_readback_mismatch : Failure

pub data TuningError : Type 0 where
  hardware : HardwareError → TuningError
  nvidia : NvidiaError → TuningError
  rolled_back : Cause → TuningError
  rollback_failed : Cause → List Failure → TuningError
  external_offsets : GpuOffsetState → TuningError

pub record ProfilePlanes : Type 1 where
  pub World : Type 0
  pub current_profile : Exec World HardwareError PlatformProfile
  pub set_profile : PlatformProfile → Exec World HardwareError (Unit {0})
  pub supported_state_count : ℕ
  pub snapshot_offsets : Exec World NvidiaError OffsetSnapshot
  pub apply_oem_turbo : Exec World NvidiaError (Unit {0})
  pub reset_oem_offsets : Exec World NvidiaError (Unit {0})
  pub restore_offsets : OffsetSnapshot → Exec World NvidiaError (Unit {0})
  pub power_telemetry : Exec World NvidiaError PowerTelemetry

abbrev pub has_offsets : ClockOffsets → StateOffsets → Bool
has_offsets o s =
    eqb_ℤ s.core_reading.current_mhz o.core_mhz && eqb_ℤ s.memory_reading.current_mhz o.memory_mhz

unfoldable pub classify_offsets : OffsetSnapshot → GpuOffsetState
classify_offsets snapshot =
    if all (has_offsets reset) snapshot
    then is_reset
    else if all (has_offsets oem_turbo) snapshot
    then is_oem_turbo
    else custom_or_partial

-- the derived `PartialEq` of a snapshot
abbrev pub reading_eq : OffsetReading → OffsetReading → Bool
reading_eq r s =
    eqb_ℤ r.current_mhz s.current_mhz
    && eqb_ℤ r.minimum_mhz s.minimum_mhz
    && eqb_ℤ r.maximum_mhz s.maximum_mhz

abbrev pub snapshot_eq : OffsetSnapshot → OffsetSnapshot → Bool
snapshot_eq [] [] = true
snapshot_eq [] (o ∷ os) = false
snapshot_eq (o ∷ os) [] = false
snapshot_eq (o ∷ os) (p ∷ ps) =
    state_eq o.state p.state
    && reading_eq o.core_reading p.core_reading
    && reading_eq o.memory_reading p.memory_reading
    && snapshot_eq os ps

abbrev pub with_error {ℓ} : {W E F A : Type ℓ} → (E → F) → Exec W E A → Exec W F A
with_error f m w = let (r, w') = m w in (map_err f r, w')

-- the offsets that a verified transaction ends with
abbrev pub expected_offsets : PlatformProfile → GpuOffsetState
expected_offsets target = if profile_eq target turbo then is_oem_turbo else is_reset

module _ (planes : ProfilePlanes) where
  open planes use {
    World, current_profile, set_profile, supported_state_count, snapshot_offsets, apply_oem_turbo,
    reset_oem_offsets, restore_offsets, power_telemetry,
  }

  -- `optional_power`: its failure is part of the report
  optional_power : Exec World TuningError (Option PowerTelemetry × Option NvidiaError)
  optional_power =
      handle power_telemetry (λ power. pure (some power, none)) (λ error. pure (none, some error))

  required_nvidia_state : Exec World Cause (PlatformProfile × GpuOffsetState)
  required_nvidia_state = do
    profile ← with_error readback_hardware current_profile
    offsets ← with_error readback_nvidia snapshot_offsets
    pure (profile, classify_offsets offsets)

  -- the failure, if any, of one attempted restore
  attempt_failure {ℓ} : {E A : Type ℓ} → (E → Failure) → Result E A → List Failure
  attempt_failure f (ok a) = []
  attempt_failure f (err e) = f e ∷ []

  pub profile_failure : PlatformProfile → Result HardwareError PlatformProfile → List Failure
  profile_failure previous (ok profile) =
      if profile_eq profile previous then [] else acer_readback_mismatch previous profile ∷ []
  profile_failure previous (err e) = acer_readback_failed e ∷ []

  pub offsets_failure : OffsetSnapshot → Result NvidiaError OffsetSnapshot → List Failure
  offsets_failure previous (ok offsets) =
      if snapshot_eq offsets previous then [] else nvidia_readback_mismatch ∷ []
  offsets_failure previous (err e) = nvidia_readback_failed e ∷ []

  -- both restores are attempted, in the reverse of the forward order
  restore_both : PlatformProfile → PlatformProfile → OffsetSnapshot → World → List Failure × World
  unfolding attempt_failure
  restore_both forward_target previous_profile previous_offsets w =
      if profile_eq forward_target turbo
      then (let (r1, w1) = restore_offsets previous_offsets w in
          let (r2, w2) = set_profile previous_profile w1 in
          (
            attempt_failure restore_offsets_failed r1 ++ attempt_failure restore_profile_failed r2,
            w2,
          ))
      else (let (r1, w1) = set_profile previous_profile w in
          let (r2, w2) = restore_offsets previous_offsets w1 in
          (
            attempt_failure restore_profile_failed r1 ++ attempt_failure restore_offsets_failed r2,
            w2,
          ))

  -- the combined state after two accepted restores is read back
  confirm_both : PlatformProfile → OffsetSnapshot → World → List Failure × World
  unfolding profile_failure offsets_failure
  confirm_both previous_profile previous_offsets w =
      let (r1, w1) = current_profile w in
      let (r2, w2) = snapshot_offsets w1 in
      (profile_failure previous_profile r1 ++ offsets_failure previous_offsets r2, w2)

  rollback_report : Cause → List Failure → TuningError
  rollback_report cause [] = rolled_back cause
  rollback_report cause (f ∷ fs) = rollback_failed cause (f ∷ fs)

  confirm_if_clean : PlatformProfile → OffsetSnapshot → List Failure → World → List Failure × World
  confirm_if_clean previous_profile previous_offsets [] w =
      confirm_both previous_profile previous_offsets w
  confirm_if_clean previous_profile previous_offsets (f ∷ fs) w = (f ∷ fs, w)

  -- `Err(self.rollback(…))`
  pub rollback :
      {A : Type 0}
      → PlatformProfile
      → PlatformProfile
      → OffsetSnapshot
      → Cause
      → Exec World TuningError A
  unfolding restore_both confirm_both rollback_report confirm_if_clean
  rollback forward_target previous_profile previous_offsets cause w =
      let (failures, w1) = restore_both forward_target previous_profile previous_offsets w in
      let (all_failures, w2) = confirm_if_clean previous_profile previous_offsets failures w1 in
      (err (rollback_report cause all_failures), w2)

  -- the forward order: firmware first on the way up to Turbo, offsets first on the way down
  pub mutation : PlatformProfile → Exec World Cause (Unit {0})
  mutation target =
      if profile_eq target turbo
      then (with_error set_turbo_failed (set_profile target)
          >> with_error apply_offsets_failed apply_oem_turbo)
      else (with_error reset_offsets_failed reset_oem_offsets
          >> with_error set_profile_failed (set_profile target))

  -- the readback that has to show the target
  pub readback : PlatformProfile → Exec World Cause (PlatformProfile × GpuOffsetState)
  unfolding required_nvidia_state
  readback target = do
    (profile, gpu_offsets) ← required_nvidia_state
    if profile_eq profile target && offset_state_eq gpu_offsets (expected_offsets target)
        then pure (profile, gpu_offsets)
        else raise (unexpected_state target (expected_offsets target) profile gpu_offsets)

  report_state : PlatformProfile × GpuOffsetState → Exec World TuningError TuningState
  unfolding optional_power
  report_state (profile, gpu_offsets) = do
    (power, power_error) ← optional_power
    pure (record {
      profile = profile;
      gpu_offsets = gpu_offsets;
      gpu_pstate_count = supported_state_count;
      gpu_capability_error = none;
      power = power;
      power_error = power_error;
    })

  -- the part after the guards: mutate, read back, report
  pub transact :
      PlatformProfile → PlatformProfile → OffsetSnapshot → Exec World TuningError TuningState
  unfolding mutation rollback readback report_state
  transact target previous_profile previous_offsets =
      handle (mutation target)
        (λ _.
          handle (readback target) report_state (rollback target previous_profile previous_offsets))
        (rollback target previous_profile previous_offsets)

  unfoldable pub set_profile_with_nvidia : PlatformProfile → Exec World TuningError TuningState
  unfolding transact
  set_profile_with_nvidia target = do
    previous_profile ← with_error hardware current_profile
    previous_offsets ← with_error nvidia snapshot_offsets
    let previous_offset_state = classify_offsets previous_offsets
    if offset_state_eq previous_offset_state custom_or_partial
        then raise (external_offsets previous_offset_state)
        else transact target previous_profile previous_offsets

  pub rollback_firmware : {A : Type 0} → PlatformProfile → Cause → Exec World TuningError A
  unfolding attempt_failure profile_failure rollback_report
  rollback_firmware previous_profile cause =
      handle (set_profile previous_profile)
        (λ _ w.
          let (r, w') = current_profile w in
          (err (rollback_report cause (profile_failure previous_profile r)), w'))
        (λ e w. (err (rollback_report cause (restore_profile_failed e ∷ [])), w))

  pub readback_profile : PlatformProfile → Exec World Cause PlatformProfile
  readback_profile target = do
    profile ← with_error readback_hardware current_profile
    if profile_eq profile target then pure profile else raise (unexpected_profile target profile)

  firmware_state : NvidiaError → PlatformProfile → TuningState
  firmware_state capability_error profile = record {
    profile = profile;
    gpu_offsets = unavailable;
    gpu_pstate_count = 0;
    gpu_capability_error = some capability_error;
    power = none;
    power_error = none;
  }

  unfoldable pub set_firmware_profile :
      PlatformProfile → NvidiaError → Exec World TuningError TuningState
  unfolding rollback_firmware readback_profile firmware_state
  set_firmware_profile target capability_error = do
    previous_profile ← with_error hardware current_profile
    handle (set_profile target)
        (λ _.
          handle (readback_profile target)
            (λ profile. pure (firmware_state capability_error profile))
            (rollback_firmware previous_profile))
        (λ e. rollback_firmware previous_profile (set_profile_failed e))

  -- `ProfileController::set_profile`; `capability` is the error of the NVIDIA discovery, if any
  unfoldable pub controller_set_profile :
      Option NvidiaError → PlatformProfile → Exec World TuningError TuningState
  unfolding set_profile_with_nvidia set_firmware_profile
  controller_set_profile none target = set_profile_with_nvidia target
  controller_set_profile (some error) target = set_firmware_profile target error

  -- `ProfileController::state`
  pub controller_state : Option NvidiaError → Exec World TuningError TuningState
  unfolding report_state firmware_state
  controller_state none = do
    profile ← with_error hardware current_profile
    offsets ← with_error nvidia snapshot_offsets
    report_state (profile, classify_offsets offsets)
  controller_state (some error) = do
    profile ← with_error hardware current_profile
    pure (firmware_state error profile)
