-- ===== src/Daemon/Resume.antt =====
-- src/daemon.rs: the deferred reconciliation of the NVIDIA offsets after a resume, whose intent is a
-- marker file, and the poll that retries it.
pub mod Intent
mod Examples
use asense.Base.{ltb, if◌then◌else◌, ℕ, ◌+◌, Bool, true, false, not, ◌&&◌, ◌||◌, Option, none, some}
use asense.Result.{Result, ok, err}
use asense.Exec.{Exec, pure, raise, ◌>>=◌, ◌>>◌}
use asense.Hardware.{PlatformProfile}

-- milliseconds
abbrev pub nvidia_reconcile_retry : ℕ
nvidia_reconcile_retry = 30000

abbrev pub nvidia_reconcile_poll : ℕ
nvidia_reconcile_poll = 1000

pub data ResumeError : Type 0 where
  cannot_clear cannot_lock no_profile profile_failed still_pending : ResumeError

pub data Removal : Type 0 where
  removed missing removal_failed : Removal

-- what is read of the device that `discover_nvidia_pci_device` finds
pub record GpuDevice : Type 0 where
  pub is_exact_oem_target : Bool
  pub permits_live_nvml : Bool

-- what the reconciliation reads of a `TuningState`
pub record Reconciliation : Type 0 where
  pub gpu_capability_error : Bool

-- The marker file, the lock, the device, and the firmware profile with its transaction. While the
-- lock is awaited others may run.
pub record ResumeBoard : Type 1 where
  pub World : Type 0
  pub exists : World → Bool
  pub remove_file : World → Removal × World
  pub acquire : Exec World ResumeError Unit
  pub discover_nvidia_pci_device : World → Option GpuDevice × World
  pub is_reference_model : Bool
  pub current_profile : Exec World ResumeError PlatformProfile
  pub set_profile : PlatformProfile → Exec World ResumeError Reconciliation

pub record RuntimeMaintenance : Type 0 where
  pub active : Bool
  pub next_nvidia_reconciliation : ℕ

module _ (board : ResumeBoard) where
  open board use {
    World, exists, remove_file, acquire, discover_nvidia_pci_device, is_reference_model,
    current_profile, set_profile,
  }

  abbrev pub settle_removal : Removal × World → Result ResumeError Unit × World
  settle_removal (removed, w) = (ok tt, w)
  settle_removal (missing, w) = (ok tt, w)
  settle_removal (removal_failed, w) = (err cannot_clear, w)

  unfoldable pub remove_pending_nvidia_reconciliation : Exec World ResumeError Unit
  remove_pending_nvidia_reconciliation w = settle_removal (remove_file w)

  unfoldable pub require_reconciled_nvidia : Reconciliation → Exec World ResumeError Unit
  require_reconciled_nvidia state =
      if state.gpu_capability_error then raise still_pending else pure tt

  unfoldable pub reconcile_reference_profile : Exec World ResumeError Unit
  unfolding require_reconciled_nvidia
  reconcile_reference_profile = do
    profile ← current_profile
    state ← set_profile profile
    require_reconciled_nvidia state

  -- `finish_pending_nvidia_reconciliation` of the reconciliation
  unfoldable pub finish_pending : Exec World ResumeError Unit
  unfolding reconcile_reference_profile remove_pending_nvidia_reconciliation
  finish_pending = reconcile_reference_profile >>= λ u. remove_pending_nvidia_reconciliation

  -- the exact device, awake, or nothing to do
  abbrev pub on_ready :
      Exec World ResumeError Unit → Option GpuDevice × World → Result ResumeError Unit × World
  on_ready next (none, w) = (ok tt, w)
  on_ready next (some device, w) =
      if not device.is_exact_oem_target || not device.permits_live_nvml then (ok tt, w) else next w

  -- the second half, which holds the lock
  unfoldable pub reconcile_locked : Exec World ResumeError Unit
  unfolding finish_pending
  reconcile_locked w =
      if not (exists w) then (ok tt, w) else on_ready finish_pending (discover_nvidia_pci_device w)

  unfoldable pub reconcile_pending_nvidia : Exec World ResumeError Unit
  unfolding remove_pending_nvidia_reconciliation reconcile_locked
  reconcile_pending_nvidia w =
      if not (exists w)
      then (ok tt, w)
      else if not is_reference_model
      then remove_pending_nvidia_reconciliation w
      else on_ready (acquire >>= λ u. reconcile_locked) (discover_nvidia_pci_device w)

  abbrev pub record_reconciliation :
      ℕ → Result ResumeError Unit → RuntimeMaintenance → RuntimeMaintenance
  record_reconciliation now (ok u) maintenance = record {
    active = maintenance.active;
    next_nvidia_reconciliation = now + nvidia_reconcile_poll;
  }
  record_reconciliation now (err e) maintenance = record {
    active = maintenance.active;
    next_nvidia_reconciliation = now + nvidia_reconcile_retry;
  }

  -- `poll_with`, with the time of the test and the time after the reconciliation
  unfoldable pub poll_with : ℕ → ℕ → RuntimeMaintenance → World → RuntimeMaintenance × World
  unfolding reconcile_pending_nvidia
  poll_with now later maintenance w =
      if not maintenance.active || not (exists w) || ltb now maintenance.next_nvidia_reconciliation
      then (maintenance, w)
      else (let (result, w') = reconcile_pending_nvidia w in
          (record_reconciliation later result maintenance, w'))
