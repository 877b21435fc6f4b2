-- ===== src/Nvidia/Offsets/Registers.antt =====
-- The contract of the driver behind `OffsetDevice`, and what the rollback does under it.
use mathlib.Core.Path.{ap₂}
use asense.Base.{
  All, ◌≡◌, Bool, true, false, ◌&&◌, List, [], arith, ◌||◌, ◌∷◌, refl, inl, inr, append-eq-nil,
  Bool-cases, ◌∙◌,
}
use asense.Base.Int.{ℤ}
use asense.Result.{ok, err, Result}
use asense.Nvidia.{
  PerformanceState, state_eq, ClockDomain, domain_eq, OffsetReading, NvidiaError, state_eq_sound,
  domain_eq_sound,
}
use asense.Nvidia.Offsets.{OffsetDevice, Mutation, rollback_one, rollback_loop}

abbrev pub same : PerformanceState → ClockDomain → PerformanceState → ClockDomain → Bool
same s d t e = state_eq s t && domain_eq d e

pub same_sound :
    (s : PerformanceState) (d : ClockDomain) (t : PerformanceState) (e : ClockDomain)
    → same s d t e ≡ true
    → (s ≡ t) × (d ≡ e)
same_sound s d t e h = (state_eq_sound s t (ground arith), domain_eq_sound d e (ground arith))

abbrev pub Reports : Result NvidiaError OffsetReading → ℤ → Type 0
Reports (ok r) v = r.current_mhz ≡ v
Reports (err x) v = Unit

abbrev pub IfRefused : Result NvidiaError (Unit {0}) → Type 0 → Type 0
IfRefused (ok u) P = Unit
IfRefused (err x) P = P

-- Each state and domain has a register. Reading changes none and reports the addressed one; a write
-- touches no other register, and one that is refused touches none. What an accepted write stores
-- is left open.
pub record Registers (dev : OffsetDevice) : Type 0 where
  pub value : dev.World → PerformanceState → ClockDomain → ℤ
  pub read_keeps :
      (s : PerformanceState) (d : ClockDomain) (w : dev.World)
      → (t : PerformanceState) (e : ClockDomain) → value (dev.read_offset s d w).1 t e ≡ value w t e
  pub read_current :
      (s : PerformanceState) (d : ClockDomain) (w : dev.World)
      → Reports (dev.read_offset s d w).0 (value w s d)
  pub write_frame :
      (s : PerformanceState) (d : ClockDomain) (v : ℤ) (w : dev.World)
      → (t : PerformanceState) (e : ClockDomain) → same s d t e ≡ false
      → value (dev.write_offset s d v w).1 t e ≡ value w t e
  pub write_refused :
      (s : PerformanceState) (d : ClockDomain) (v : ℤ) (w : dev.World)
      → (t : PerformanceState) (e : ClockDomain)
      → IfRefused
          (dev.write_offset s d v w).0
          (value (dev.write_offset s d v w).1 t e ≡ value w t e)

-- whether a list of mutations holds one of this register
abbrev pub listed : PerformanceState → ClockDomain → List Mutation → Bool
listed t e [] = false
listed t e ((s, d, v) ∷ rest) = same s d t e || listed t e rest

module _ (dev : OffsetDevice) (regs : Registers dev) where
  open dev use {World, read_offset, write_offset}
  open regs use {value, read_keeps, read_current, write_frame, write_refused}

  -- `mutations` can put back each register of `w` that is not as in `init`
  pub record Restorable (init : PerformanceState → ClockDomain → ℤ) (mutations : List Mutation)
      (w : World) : Type 0 where
    pub priors : All (λ (s, d, prior). prior ≡ init s d) mutations
    pub others :
        (t : PerformanceState) (e : ClockDomain)
        → listed t e mutations ≡ false
        → value w t e ≡ init t e

  rollback_one-restores :
      (s : PerformanceState) (d : ClockDomain) (prior : ℤ) (w : World)
      → (rollback_one dev (s, d, prior) w).0 ≡ []
      → (value (rollback_one dev (s, d, prior) w).1 s d ≡ prior)
        × ((t : PerformanceState) (e : ClockDomain)
            → same s d t e ≡ false
            → value (rollback_one dev (s, d, prior) w).1 t e ≡ value w t e)
  unfolding rollback_one
  rollback_one-restores s d prior w clean =
      let w1 = (write_offset s d prior w).1 in
      (
        ground (arith, read_keeps s d w1 s d, read_current s d w1),
        λ t e other. ground (arith, read_keeps s d w1 t e, write_frame s d prior w t e other),
      )

  -- A rollback that reports no failure leaves every register as it was at first.
  pub rollback_loop-restores :
      (init : PerformanceState → ClockDomain → ℤ) (mutations : List Mutation) (w : World)
      → Restorable init mutations w
      → (rollback_loop dev mutations w).0 ≡ []
      → (t : PerformanceState) (e : ClockDomain)
      → value (rollback_loop dev mutations w).1 t e ≡ init t e
  unfolding rollback_loop
  rollback_loop-restores init [] w h clean t e = h.others t e refl
  rollback_loop-restores init ((s, d, prior) ∷ rest) w h clean t e =
      rollback_loop-restores init rest w1 (record { priors = h.priors.1; others = others })
        (append-eq-nil _ _ clean).1 t e
    where
      w1 : World
      w1 = (rollback_one dev (s, d, prior) w).1

      step :
          (value w1 s d ≡ prior)
          × ((t : PerformanceState) (e : ClockDomain)
              → same s d t e ≡ false
              → value w1 t e ≡ value w t e)
      step = rollback_one-restores s d prior w (append-eq-nil _ _ clean).0

      others :
          (t : PerformanceState) (e : ClockDomain)
          → listed t e rest ≡ false
          → value w1 t e ≡ init t e
      others t e out = elim (Bool-cases (same s d t e)) [
        | inl hit ↦
            let at = same_sound s d t e hit in
            cc (ap₂ (value w1) at.0 at.1, ap₂ init at.0 at.1, step.0, h.priors.0)
        | inr miss ↦ step.1 t e miss ∙ h.others t e (ground arith)
      ]
