-- ===== src/Nvidia/Offsets/Examples.antt =====
-- A driver that is a memory of registers, and the offset transaction on it.
use asense.Base.{if◌then◌else◌, ◌≡◌, refl, false, [], ◌∷◌}
use asense.Base.Int.{ℤ, pos, negsuc}
use asense.Result.{ok}
use asense.Nvidia.{
  PerformanceState, ClockDomain, oem_turbo, for_domain, accepts, reading, find_state, p0, p8,
  memory,
}
use asense.Nvidia.Offsets.{
  OffsetDevice, Targets, snapshot_device, apply_offset_targets, verify_targets,
}
use asense.Nvidia.Offsets.Registers.{same, Registers}
use asense.Nvidia.Offsets.Safe.{Safe}
use asense.Nvidia.Offsets.Atomic.{Applied, apply_offset_targets-atomic}

abbrev memory_device : OffsetDevice
memory_device = record {
  World = PerformanceState → ClockDomain → ℤ;
  states = p0 ∷ p8 ∷ [];
  read_offset = λ s d w.
      (ok (record { current_mhz = w s d; minimum_mhz = negsuc 999; maximum_mhz = pos 1000 }), w);
  write_offset = λ s d v w. (ok tt, λ t e. if same s d t e then v else w t e);
}

memory_frame :
    (s : PerformanceState) (d : ClockDomain) (v : ℤ) (w : memory_device.World)
    → (t : PerformanceState) (e : ClockDomain) → same s d t e ≡ false
    → (memory_device.write_offset s d v w).1 t e ≡ w t e
memory_frame s d v w t e h = rw h

abbrev memory_registers : Registers memory_device
memory_registers = record {
  value = λ w. w;
  read_keeps = λ s d w t e. refl;
  read_current = λ s d w. refl;
  write_frame = memory_frame;
  write_refused = λ s d v w t e. tt;
}

abbrev zeros : PerformanceState → ClockDomain → ℤ
zeros s d = pos 0

abbrev one_target : Targets
one_target = (p8, oem_turbo) ∷ []

apply_offset_targets-atomic_example :
    Safe memory_device memory_registers zeros
      (λ t w'. Applied memory_device memory_registers zeros one_target w')
      (apply_offset_targets memory_device one_target)
      zeros
apply_offset_targets-atomic_example =
    apply_offset_targets-atomic memory_device memory_registers one_target zeros

-- the run behind the example succeeds
raised : (apply_offset_targets memory_device one_target zeros).1 p8 memory ≡ pos 200
unfolding apply_offset_targets snapshot_device accepts reading for_domain find_state verify_targets
raised = refl
