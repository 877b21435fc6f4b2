-- ===== src/Daemon/Resume/Examples.antt =====
-- A deferred reconciliation at concrete values.
use asense.Base.{◌≡◌, refl, Bool, true, false, some, arith}
use asense.Result.{ok}
use asense.Hardware.{balanced}
use asense.Daemon.Resume.{removed, ResumeBoard, RuntimeMaintenance, poll_with}
use asense.Daemon.Resume.Intent.{KeepsMarker, Polled, poll_with-Polled}

-- the world is whether the marker exists, and the driver rejects the offsets
abbrev rejecting : ResumeBoard
rejecting = record {
  World = Bool;
  exists = λ w. w;
  remove_file = λ w. (removed, false);
  acquire = λ w. (ok tt, w);
  discover_nvidia_pci_device =
      λ w. (some (record { is_exact_oem_target = true; permits_live_nvml = true }), w);
  is_reference_model = true;
  current_profile = λ w. (ok balanced, w);
  set_profile = λ profile w. (ok (record { gpu_capability_error = true }), w);
}

rejecting_keeps : KeepsMarker rejecting
rejecting_keeps = record {
  removal = λ w failed. ground (arith, failed);
  lock = λ w. tt;
  device = λ w. refl;
  reading = λ w. refl;
  transaction = λ profile w. refl;
}

abbrev active_since : RuntimeMaintenance
active_since = record { active = true; next_nvidia_reconciliation = 5000 }

retried :
    poll_with rejecting 6000 6200 active_since true
    ≡ (record { active = true; next_nvidia_reconciliation = 36200 }, true)
unfolding poll_with
retried = refl

poll_with-Polled_example :
    Polled rejecting rejecting_keeps 6000 6200 active_since true
      (poll_with rejecting 6000 6200 active_since true)
poll_with-Polled_example =
    poll_with-Polled rejecting rejecting_keeps 6000 6200 active_since true refl
