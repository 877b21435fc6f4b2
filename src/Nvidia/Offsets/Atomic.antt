-- ===== src/Nvidia/Offsets/Atomic.antt =====
-- The offset transaction against the driver's registers: it succeeds with the targets in place, or
-- it says that it was rolled back and every register is as before.
use asense.Base.{
  Option-cases, All, ◌≡◌, inl, inr, Bool, false, ◌||◌, [], ◌∷◌, arith, refl, ◌∙◌, List, sym, ◌⊎◌,
  true,
}
use asense.Base.Int.{ℤ, eqb_ℤ_iff}
use asense.Result.{ok, err, Result-cases}
use asense.Exec.{pure, lift, ◌>>=◌, ◌>>◌, branch}
use asense.Nvidia.{
  PerformanceState, state_eq, ClockDomain, for_domain, reading, OffsetSnapshot, find_state, core,
  memory, OffsetTransition, NvidiaError, state_eq_refl,
}
use asense.Nvidia.Offsets.{
  OffsetDevice, Targets, required, verify_targets, apply_offset_targets, Mutation, check_targets,
  snapshot_states, snapshot_device, finish, mutate_targets, rollback_after_failure,
}
use asense.Nvidia.Offsets.Registers.{Registers, same, Restorable}
use asense.Nvidia.Offsets.Safe.{
  Honest, find_state-Honest, Safe, Present, snapshot_states-keeps, snapshot_states-Honest,
  Unchanged, Safe-bind, Tracked, rollback-Safe, Safe-handle, mutate_targets-Safe, OkHonest,
}

abbrev pub targeted_by : Targets → PerformanceState → Bool
targeted_by [] t = false
targeted_by ((s, target) ∷ rest) t = state_eq s t || targeted_by rest t

module _ (dev : OffsetDevice) (regs : Registers dev) where
  open dev use {World}
  open regs use {value}

  -- the targets stand in the registers, and the states that are no target have kept theirs
  pub record Applied (init : PerformanceState → ClockDomain → ℤ) (targets : Targets) (w : World)
      : Type 0 where
    pub reached : All (λ (s, target). (d : ClockDomain) → value w s d ≡ for_domain target d) targets
    pub others :
        (t : PerformanceState) (e : ClockDomain)
        → targeted_by targets t ≡ false
        → value w t e ≡ init t e

  verify_targets-reached :
      (current : OffsetSnapshot) (targets : Targets) (w : World) (u : Unit {0})
      → Honest dev regs (value w) current
      → verify_targets current targets ≡ ok u
      → All (λ (s, target). (d : ClockDomain) → value w s d ≡ for_domain target d) targets
  unfolding verify_targets
  verify_targets-reached current [] w u h e = tt
  verify_targets-reached current ((s, target) ∷ rest) w u h e =
      elim (Option-cases (find_state s current)) [
        | inl missing ↦ cc (rw (missing, required) at e)
        | inr (o, found) ↦ (
          (elim [
            | core ↦ ground (
              arith,
              found,
              e,
              eqb_ℤ_iff (reading o core).current_mhz (for_domain target core),
              find_state-Honest dev regs (value w) current s core o h found,
            )
            | memory ↦ ground (
              arith,
              found,
              e,
              eqb_ℤ_iff (reading o memory).current_mhz (for_domain target memory),
              find_state-Honest dev regs (value w) current s memory o h found,
            )
          ]),
          verify_targets-reached current rest w u h (ground (arith, found, e)),
        )
      ]

  snapshot-Safe :
      (init : PerformanceState → ClockDomain → ℤ) (w : World)
      → Unchanged dev regs init w
      → Safe dev regs init
          (λ snapshot w'. Honest dev regs init snapshot × Unchanged dev regs init w')
          (snapshot_device dev)
          w
  unfolding snapshot_device
  snapshot-Safe init w h = elim (Result-cases (snapshot_states dev dev.states w).0) [
    | inl (snapshot, e) ↦
        rw e (rw e at (snapshot_states-Honest dev regs init dev.states w h), after)
    | inr (x, e) ↦ rw e (inr after)
  ]
    where
      after : Unchanged dev regs init (snapshot_states dev dev.states w).1
      after t e = snapshot_states-keeps dev regs dev.states w t e ∙ h t e

  check_targets-Present :
      (previous : OffsetSnapshot) (targets : Targets) (u : Unit {0})
      → check_targets previous targets ≡ ok u
      → Present previous targets
  unfolding check_targets
  check_targets-Present previous [] u e = tt
  check_targets-Present previous ((s, target) ∷ rest) u e =
      elim (Option-cases (find_state s previous)) [
        | inl missing ↦ cc (rw (missing, required) at e)
        | inr (o, found) ↦
            ((o, found), check_targets-Present previous rest u (ground (arith, found, e)))
      ]

  Restorable-Unchanged :
      (init : PerformanceState → ClockDomain → ℤ) (mutations : List Mutation) (w w' : World)
      → Unchanged dev regs (value w) w'
      → Restorable dev regs init mutations w
      → Restorable dev regs init mutations w'
  Restorable-Unchanged init mutations w w' same h = record {
    priors = h.priors;
    others = λ t e out. same t e ∙ h.others t e out;
  }

  targeted_by-All :
      (targets : Targets) (targeted : PerformanceState → Bool)
      → ((t : PerformanceState) → targeted_by targets t ≡ true → targeted t ≡ true)
      → All (λ (s, target). targeted s ≡ true) targets
  targeted_by-All [] targeted h = tt
  targeted_by-All ((s, target) ∷ rest) targeted h =
      (h s (rw state_eq_refl refl), targeted_by-All rest targeted (λ t e. h t (ground (arith, e))))

  finish-Safe :
      (init : PerformanceState → ClockDomain → ℤ) (previous : OffsetSnapshot) (targets : Targets)
      (mutations : List Mutation) (w : World)
      → Tracked dev regs init (targeted_by targets) mutations w
      → Safe dev regs init
          (λ t w'. Applied init targets w')
          (finish dev previous targets mutations)
          w
  unfolding finish
  finish-Safe init previous targets mutations w h =
      Safe-handle dev regs init Done (snapshot_device dev) _ _ w
        (λ current e. verified current e (Result-cases (verify_targets current targets)))
        (λ x e. rollback-Safe dev regs init Done mutations x w1 kept)
    where
      Done : OffsetTransition → World → Type 0
      Done t w' = Applied init targets w'

      w1 : World
      w1 = (snapshot_device dev w).1

      same : Unchanged dev regs (value w) w1
      same t e = unfold snapshot_device in snapshot_states-keeps dev regs dev.states w t e

      kept : Restorable dev regs init mutations w1
      kept = Restorable-Unchanged init mutations w w1 same h.0

      honest : OkHonest dev regs (value w1) (snapshot_device dev w).0
      honest =
          unfold snapshot_device in
          snapshot_states-Honest dev regs (value w1) dev.states w (λ t d. sym (same t d))

      verified :
          (current : OffsetSnapshot)
          → (snapshot_device dev w).0 ≡ ok current
          → ((u : Unit {0}) × (verify_targets current targets ≡ ok u))
            ⊎ ((x : NvidiaError) × (verify_targets current targets ≡ err x))
          → Safe dev regs init Done
              (branch
                (verify_targets current targets)
                (λ _. pure (record { previous = previous; current = current }))
                (rollback_after_failure dev mutations))
              w1
      verified current e (inr (x, v)) = rw v (rollback-Safe dev regs init Done mutations x w1 kept)
      verified current e (inl (u, v)) = rw v (record {
        reached = verify_targets-reached current targets w1 u (rw e at honest) v;
        others = λ t d out. kept.others t d (h.1 t d out);
      })

  -- What `apply_offset_targets` leaves behind, for every driver under the register contract: with
  -- `Ok` the targets are in place and no other state has changed; with any error but the one that
  -- reports a failed rollback, every register is as before.
  pub apply_offset_targets-atomic :
      (targets : Targets) (w : World)
      → Safe dev regs
          (value w)
          (λ t w'. Applied (value w) targets w')
          (apply_offset_targets dev targets)
          w
  unfolding apply_offset_targets
  apply_offset_targets-atomic targets w =
      Safe-bind dev regs (value w) _ _ (snapshot_device dev) _ w
        (snapshot-Safe (value w) w (λ t e. refl))
        λ previous w1 (honest, same).
          checked previous w1 honest same (Result-cases (check_targets previous targets))
    where
      checked :
          (previous : OffsetSnapshot) (w1 : World)
          → Honest dev regs (value w) previous
          → Unchanged dev regs (value w) w1
          → ((u : Unit {0}) × (check_targets previous targets ≡ ok u))
            ⊎ ((x : NvidiaError) × (check_targets previous targets ≡ err x))
          → Safe dev regs
              (value w)
              (λ t w'. Applied (value w) targets w')
              (lift (check_targets previous targets)
                >> (mutate_targets dev previous targets [] >>= finish dev previous targets))
              w1
      checked previous w1 honest same (inr (x, e)) = rw e (inr same)
      checked previous w1 honest same (inl (u, e)) = rw e (
          Safe-bind dev regs (value w) (Tracked dev regs (value w) (targeted_by targets)) _
            (mutate_targets dev previous targets []) _ w1
            (mutate_targets-Safe dev regs (value w) (targeted_by targets) previous targets [] w1
              honest (check_targets-Present previous targets u e)
              (targeted_by-All targets (targeted_by targets) (λ t h. h))
              (record { priors = tt; others = λ t d out. same t d }, λ t d out. refl))
            (finish-Safe (value w) previous targets))
