-- ===== src/Tuning/Examples.antt =====
-- Two controllers in memory, and profile changes on them.
use asense.Base.{◌≡◌, refl, [], ◌∷◌}
use asense.Base.Int.{pos}
use asense.Result.{ok, err}
use asense.Exec.Outcome.{Ensures}
use asense.Nvidia.{ClockOffsets, oem_turbo, reset, OffsetSnapshot, p0, missing_symbol}
use asense.Hardware.{PlatformProfile, eco, quiet, turbo}
use asense.Tuning.{ProfilePlanes, classify_offsets, set_profile_with_nvidia, set_firmware_profile}
use asense.Tuning.Honest.{Honest}
use asense.Tuning.Atomic.{Kept, Accomplished, set_profile_with_nvidia-atomic}
use asense.Tuning.Firmware.{FirmwareDone, FirmwareKept, set_firmware_profile-atomic}

abbrev uniform : ClockOffsets → OffsetSnapshot
uniform o =
    record {
      state = p0;
      core_reading = record {
        current_mhz = o.core_mhz;
        minimum_mhz = pos 0;
        maximum_mhz = pos 300;
      };
      memory_reading = record {
        current_mhz = o.memory_mhz;
        minimum_mhz = pos 0;
        maximum_mhz = pos 300;
      };
    }
    ∷ []

abbrev memory_planes : ProfilePlanes
memory_planes = record {
  World = PlatformProfile × OffsetSnapshot;
  current_profile = λ (p, o). (ok p, (p, o));
  set_profile = λ q (p, o). (ok tt, (q, o));
  supported_state_count = 1;
  snapshot_offsets = λ (p, o). (ok o, (p, o));
  apply_oem_turbo = λ (p, o). (ok tt, (p, uniform oem_turbo));
  reset_oem_offsets = λ (p, o). (ok tt, (p, uniform reset));
  restore_offsets = λ s (p, o). (ok tt, (p, s));
  power_telemetry = λ w. (err missing_symbol, w);
}

abbrev memory_honest : Honest memory_planes
memory_honest = record {
  profile_of = λ w. w.0;
  offsets_of = λ w. w.1;
  profile_shown = λ w. refl;
  offsets_shown = λ w. refl;
  profile_read = λ w. (refl, refl);
  offsets_read = λ w. (refl, refl);
  power_read = λ w. (refl, refl);
}

abbrev quiet_start : PlatformProfile × OffsetSnapshot
quiet_start = (quiet, uniform reset)

set_profile_with_nvidia-atomic_example :
    Ensures
      (Accomplished memory_planes memory_honest turbo)
      (Kept memory_planes memory_honest quiet (uniform reset))
      (set_profile_with_nvidia memory_planes turbo)
      quiet_start
set_profile_with_nvidia-atomic_example =
    set_profile_with_nvidia-atomic memory_planes memory_honest turbo quiet_start

set_firmware_profile-atomic_example :
    Ensures
      (FirmwareDone memory_planes memory_honest eco)
      (FirmwareKept memory_planes memory_honest quiet)
      (set_firmware_profile memory_planes eco missing_symbol)
      quiet_start
set_firmware_profile-atomic_example =
    set_firmware_profile-atomic memory_planes memory_honest eco missing_symbol quiet_start

turbo_reached :
    (set_profile_with_nvidia memory_planes turbo quiet_start).1 ≡ (turbo, uniform oem_turbo)
unfolding set_profile_with_nvidia classify_offsets
turbo_reached = refl
