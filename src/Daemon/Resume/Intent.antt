-- ===== src/Daemon/Resume/Intent.antt =====
-- src/daemon.rs: a reconciliation that fails keeps the marker, and is tried again.
use asense.Base.{
  ltb, if◌then◌else◌, ℕ, ◌+◌, ◌<◌, ◌≡◌, refl, ◌∙◌, ◌⊎◌, inl, inr, Bool, true, false, not, ◌||◌,
  Option, none, some, arith, ◌≤◌,
}
use asense.Result.{Result, ok, err}
use asense.Exec.{Exec, pure, raise, ◌>>=◌}
use asense.Exec.Outcome.{Settles, Ensures, Ensures-bind, Ensures-if}
use asense.Hardware.{PlatformProfile}
use asense.Daemon.Resume.{
  ResumeError, still_pending, Removal, removed, missing, removal_failed, GpuDevice, Reconciliation,
  ResumeBoard, RuntimeMaintenance, settle_removal, remove_pending_nvidia_reconciliation,
  require_reconciled_nvidia, reconcile_reference_profile, finish_pending, on_ready,
  reconcile_locked, reconcile_pending_nvidia, record_reconciliation, poll_with,
}

-- What is taken of the parts: a removal or a lock that fails, looking for the device, reading the
-- profile and setting it leave the marker as it is. Nothing is said of a lock that is obtained.
pub record KeepsMarker (board : ResumeBoard) : Type 0 where
  pub removal :
      (w : board.World)
      → (board.remove_file w).0 ≡ removal_failed
      → board.exists (board.remove_file w).1 ≡ board.exists w
  pub lock :
      (w : board.World)
      → Settles
          (λ u w'. Unit {0})
          (λ e w'. board.exists w' ≡ board.exists w)
          (board.acquire w).0
          (board.acquire w).1
  pub device :
      (w : board.World) → board.exists (board.discover_nvidia_pci_device w).1 ≡ board.exists w
  pub reading : (w : board.World) → board.exists (board.current_profile w).1 ≡ board.exists w
  pub transaction :
      (profile : PlatformProfile) (w : board.World)
      → board.exists (board.set_profile profile w).1 ≡ board.exists w

skips :
    (active there : Bool) (now due : ℕ)
    → there ≡ true
    → not active || not there || ltb now due ≡ true
    → (active ≡ false) ⊎ (now < due)
skips false there now due h e = inl refl
skips true there now due h e = inr (ground (arith, h, e))

module _ (board : ResumeBoard) (keeps : KeepsMarker board) where
  open board use {
    World, exists, remove_file, acquire, discover_nvidia_pci_device, is_reference_model,
    current_profile, set_profile,
  }

  -- the marker is there
  abbrev Pending : {T : Type 0} → T → World → Type 0
  Pending x w = exists w ≡ true

  abbrev Anything : {T : Type 0} → T → World → Type 0
  Anything x w = Unit

  always :
      {T : Type 0} (r : Result ResumeError T) (w : World)
      → exists w ≡ true
      → Settles Pending Pending r w
  always (ok a) w h = h
  always (err e) w h = h

  weaken :
      {T : Type 0} (m : Exec World ResumeError T) (w : World)
      → exists (m w).1 ≡ exists w
      → exists w ≡ true
      → Ensures Pending Pending m w
  weaken m w kept h = always (m w).0 (m w).1 (kept ∙ h)

  require_reconciled_nvidia-Pending :
      (state : Reconciliation) (w : World)
      → exists w ≡ true
      → Ensures Pending Pending (require_reconciled_nvidia board state) w
  unfolding require_reconciled_nvidia
  require_reconciled_nvidia-Pending state w h =
      Ensures-if Pending Pending state.gpu_capability_error (raise still_pending) (pure tt) w
        (λ e. h) (λ e. h)

  reconcile_reference_profile-Pending :
      (w : World) → exists w ≡ true → Ensures Pending Pending (reconcile_reference_profile board) w
  unfolding reconcile_reference_profile
  reconcile_reference_profile-Pending w h =
      Ensures-bind Pending Pending Pending current_profile
        (λ profile. set_profile profile >>= λ state. require_reconciled_nvidia board state) w
        (weaken current_profile w (keeps.reading w) h)
        (λ profile v k.
          Ensures-bind Pending Pending Pending (set_profile profile)
            (λ state. require_reconciled_nvidia board state) v
            (weaken (set_profile profile) v (keeps.transaction profile v) k)
            (λ state u there. require_reconciled_nvidia-Pending state u there))

  settle_removal-Pending :
      (p : Removal × World)
      → (p.0 ≡ removal_failed → exists p.1 ≡ true)
      → Settles Anything Pending (settle_removal board p).0 (settle_removal board p).1
  settle_removal-Pending (removed, w) h = tt
  settle_removal-Pending (missing, w) h = tt
  settle_removal-Pending (removal_failed, w) h = h refl

  remove_pending_nvidia_reconciliation-Pending :
      (w : World)
      → exists w ≡ true
      → Ensures Anything Pending (remove_pending_nvidia_reconciliation board) w
  unfolding remove_pending_nvidia_reconciliation
  remove_pending_nvidia_reconciliation-Pending w h =
      settle_removal-Pending (remove_file w) (λ failed. keeps.removal w failed ∙ h)

  finish_pending-Pending :
      (w : World) → exists w ≡ true → Ensures Anything Pending (finish_pending board) w
  unfolding finish_pending
  finish_pending-Pending w h =
      Ensures-bind Pending Pending Anything (reconcile_reference_profile board)
        (λ u. remove_pending_nvidia_reconciliation board) w
        (reconcile_reference_profile-Pending w h)
        (λ u v k. remove_pending_nvidia_reconciliation-Pending v k)

  Meets : Result ResumeError Unit × World → Type 0
  Meets p = Settles Anything Pending p.0 p.1

  branches :
      (b : Bool) (p q : Result ResumeError Unit × World)
      → (b ≡ true → Meets p)
      → (b ≡ false → Meets q)
      → Meets (if b then p else q)
  branches true p q h k = h refl
  branches false p q h k = k refl

  on_ready-Pending :
      (next : Exec World ResumeError Unit) (p : Option GpuDevice × World)
      → exists p.1 ≡ true
      → ((w : World) → exists w ≡ true → Ensures Anything Pending next w)
      → Settles Anything Pending (on_ready board next p).0 (on_ready board next p).1
  unfolding Meets
  on_ready-Pending next (none, w) h k = tt
  on_ready-Pending next (some device, w) h k =
      branches (not device.is_exact_oem_target || not device.permits_live_nvml) (ok tt, w) (next w)
        (λ e. tt) (λ e. k w h)

  reconcile_locked-Pending : (w : World) → Ensures Anything Pending (reconcile_locked board) w
  unfolding reconcile_locked Meets
  reconcile_locked-Pending w =
      branches (not (exists w)) (ok tt, w)
        (on_ready board (finish_pending board) (discover_nvidia_pci_device w)) (λ e. tt)
        (λ e.
          on_ready-Pending (finish_pending board) (discover_nvidia_pci_device w)
            (keeps.device w ∙ ground (arith, e)) finish_pending-Pending)

  acquire-Pending :
      (w : World)
      → exists w ≡ true
      → Ensures Anything Pending (acquire >>= λ u. reconcile_locked board) w
  acquire-Pending w h =
      Ensures-bind Anything Pending Anything acquire (λ u. reconcile_locked board) w
        (failed (acquire w).0 (acquire w).1 (keeps.lock w)) (λ u v k. reconcile_locked-Pending v)
    where
      failed :
          (r : Result ResumeError Unit) (w' : World)
          → Settles (λ u v. Unit {0}) (λ e v. exists v ≡ exists w) r w'
          → Settles Anything Pending r w'
      failed (ok u) w' k = tt
      failed (err e) w' k = k ∙ h

  reconcile_pending_nvidia-Pending :
      (w : World) → exists w ≡ true → Ensures Anything Pending (reconcile_pending_nvidia board) w
  unfolding reconcile_pending_nvidia Meets
  reconcile_pending_nvidia-Pending w h =
      let locked =
        on_ready board (acquire >>= λ u. reconcile_locked board) (discover_nvidia_pci_device w) in
      branches (not (exists w)) (ok tt, w)
        (if not is_reference_model then remove_pending_nvidia_reconciliation board w else locked)
        (λ e. tt)
        (λ e.
          branches (not is_reference_model) (remove_pending_nvidia_reconciliation board w) locked
            (λ f. remove_pending_nvidia_reconciliation-Pending w h)
            (λ f.
              on_ready-Pending (acquire >>= λ u. reconcile_locked board)
                (discover_nvidia_pci_device w) (keeps.device w ∙ h) acquire-Pending))

  -- a try is due and the runtime is active
  abbrev pub Due : ℕ → RuntimeMaintenance → Type 0
  Due now maintenance = (maintenance.active ≡ true) × (maintenance.next_nvidia_reconciliation ≤ now)

  -- what a poll leaves: all as it was, or a try that succeeded, or one that failed with the marker kept
  abbrev pub Polled : ℕ → ℕ → RuntimeMaintenance → World → RuntimeMaintenance × World → Type 0
  Polled now later maintenance w after =
      ((after.0 ≡ maintenance)
        × (after.1 ≡ w)
        × ((maintenance.active ≡ false) ⊎ (now < maintenance.next_nvidia_reconciliation)))
      ⊎ (Due now maintenance
          × (after.0.next_nvidia_reconciliation ≡ later + 1000)
          × (reconcile_pending_nvidia board w ≡ (ok tt, after.1)))
      ⊎ (Due now maintenance
          × (after.0.next_nvidia_reconciliation ≡ later + 30000)
          × (exists after.1 ≡ true))

  recorded-Polled :
      (now later : ℕ) (maintenance : RuntimeMaintenance) (w : World)
      (p : Result ResumeError Unit × World)
      → reconcile_pending_nvidia board w ≡ p
      → Due now maintenance
      → Meets p
      → Polled now later maintenance w (record_reconciliation board later p.0 maintenance, p.1)
  unfolding Meets
  recorded-Polled now later maintenance w (ok u, w') same due h = inr (inl (due, refl, same))
  recorded-Polled now later maintenance w (err e, w') same due h = inr (inr (due, refl, h))

  choose :
      (P : RuntimeMaintenance × World → Type 0) (b : Bool) (p q : RuntimeMaintenance × World)
      → (b ≡ true → P p)
      → (b ≡ false → P q)
      → P (if b then p else q)
  choose P true p q h k = h refl
  choose P false p q h k = k refl

  -- With the marker in its place, a poll changes nothing when the runtime is not active or the next try
  -- is not due, and otherwise its reconciliation succeeds and the next try is due a second later, or it
  -- fails, the marker is still there, and the next try is due half a minute later.
  pub poll_with-Polled :
      (now later : ℕ) (maintenance : RuntimeMaintenance) (w : World)
      → exists w ≡ true
      → Polled now later maintenance w (poll_with board now later maintenance w)
  unfolding poll_with Meets
  poll_with-Polled now later maintenance w h =
      choose (Polled now later maintenance w)
        (not maintenance.active || not (exists w) || ltb now maintenance.next_nvidia_reconciliation)
        (maintenance, w)
        (let (result, w') = reconcile_pending_nvidia board w in
          (record_reconciliation board later result maintenance, w'))
        (λ e. inl (
          refl,
          refl,
          skips maintenance.active (exists w) now maintenance.next_nvidia_reconciliation h e,
        ))
        (λ e.
          recorded-Polled now later maintenance w (reconcile_pending_nvidia board w) refl
            (ground (arith, e), ground (arith, e)) (reconcile_pending_nvidia-Pending w h))
