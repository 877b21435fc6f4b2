-- ===== src/Nvidia/Offsets/Safe.antt =====
-- Invariants of the offset transaction's runs against the driver's registers.
use asense.Base.{
  All, ◌≡◌, refl, List, [], ◌∷◌, arith, ◌∙◌, Bool-cases, inl, inr, ap, Bool, true, false, some, ◌⊎◌,
}
use asense.Base.Int.{ℤ, eqb_ℤ}
use asense.Result.{Result, ok, err, Result-cases}
use asense.Exec.{Exec, continue, ◌>>=◌, handle}
use asense.Nvidia.{
  PerformanceState, ClockDomain, OffsetSnapshot, NvidiaError, core, memory, ClockOffsets,
  for_domain, StateOffsets, reading, RollbackFailure, state_eq, find_state, state_eq_sound,
  transaction_rollback_failed,
}
use asense.Nvidia.Offsets.{
  OffsetDevice, snapshot_states, Mutation, rollback_after_failure, rollback_report, mutate_domain,
  Targets, mutate_targets, required,
}
use asense.Nvidia.Offsets.Registers.{Registers, rollback_loop-restores, Restorable, listed}

abbrev pub IsRollbackFailed : NvidiaError → Type 0
IsRollbackFailed (transaction_rollback_failed c fs) = Unit
IsRollbackFailed _ = ⊥

-- each target has its state in the snapshot
abbrev pub Present : OffsetSnapshot → Targets → Type 0
Present snapshot = All λ (s, target). (o : StateOffsets) × (find_state s snapshot ≡ some o)

module _ (dev : OffsetDevice) (regs : Registers dev) where
  open dev use {World, read_offset, write_offset}
  open regs use {value, read_keeps, read_current, write_frame, write_refused}

  -- a snapshot that shows the registers
  abbrev pub Honest : (PerformanceState → ClockDomain → ℤ) → OffsetSnapshot → Type 0
  Honest init = All λ o.
      (o.core_reading.current_mhz ≡ init o.state core)
      × (o.memory_reading.current_mhz ≡ init o.state memory)

  abbrev pub OkHonest :
      (PerformanceState → ClockDomain → ℤ) → Result NvidiaError OffsetSnapshot → Type 0
  OkHonest init (ok snapshot) = Honest init snapshot
  OkHonest init (err x) = Unit

  pub snapshot_states-keeps :
      (states : List PerformanceState) (w : World) (t : PerformanceState) (e : ClockDomain)
      → value (snapshot_states dev states w).1 t e ≡ value w t e
  unfolding snapshot_states
  snapshot_states-keeps [] w t e = refl
  snapshot_states-keeps (s ∷ rest) w t e =
      let w1 = (read_offset s core w).1 in
      let w2 = (read_offset s memory w1).1 in
      ground (
        arith,
        read_keeps s core w t e,
        read_keeps s memory w1 t e,
        snapshot_states-keeps rest w2 t e,
      )

  pub snapshot_states-Honest :
      (init : PerformanceState → ClockDomain → ℤ) (states : List PerformanceState) (w : World)
      → ((t : PerformanceState) (e : ClockDomain) → value w t e ≡ init t e)
      → OkHonest init (snapshot_states dev states w).0
  unfolding snapshot_states
  snapshot_states-Honest init [] w h = tt
  snapshot_states-Honest init (s ∷ rest) w h =
      let w1 = (read_offset s core w).1 in
      let w2 = (read_offset s memory w1).1 in
      ground (
        arith,
        read_current s core w,
        read_current s memory w1,
        read_keeps s core w s memory,
        h s core,
        h s memory,
        snapshot_states-Honest init rest w2
            (λ t e. read_keeps s memory w1 t e ∙ read_keeps s core w t e ∙ h t e),
      )

  abbrev pub Unchanged : (PerformanceState → ClockDomain → ℤ) → World → Type 0
  Unchanged init w = (t : PerformanceState) (e : ClockDomain) → value w t e ≡ init t e

  abbrev pub Settled :
      {A : Type 0}
      → (PerformanceState → ClockDomain → ℤ)
      → (A → World → Type 0)
      → Result NvidiaError A
      → World
      → Type 0
  Settled init P (ok a) w = P a w
  Settled init P (err x) w = IsRollbackFailed x ⊎ Unchanged init w

  -- a run that ends well with `P`, or reports a failed rollback, or leaves the registers of `init`
  abbrev pub Safe :
      {A : Type 0}
      → (PerformanceState → ClockDomain → ℤ)
      → (A → World → Type 0)
      → Exec World NvidiaError A
      → World
      → Type 0
  Safe init P m w = Settled init P (m w).0 (m w).1

  pub Safe-bind :
      {A B : Type 0} (init : PerformanceState → ClockDomain → ℤ) (P : A → World → Type 0)
      (Q : B → World → Type 0) (m : Exec World NvidiaError A) (f : A → Exec World NvidiaError B)
      (w : World)
      → Safe init P m w
      → ((a : A) (w' : World) → P a w' → Safe init Q (f a) w')
      → Safe init Q (m >>= f) w
  Safe-bind {A} {B} init P Q m f w h k = settle (m w).0 (m w).1 h
    where
      settle :
          (r : Result NvidiaError A) (w' : World)
          → Settled init P r w'
          → Settled init Q (continue r f w').0 (continue r f w').1
      settle (ok a) w' h = k a w' h
      settle (err x) w' h = h

  pub rollback-Safe :
      {A : Type 0} (init : PerformanceState → ClockDomain → ℤ) (P : A → World → Type 0)
      (mutations : List Mutation) (cause : NvidiaError) (w : World)
      → Restorable dev regs init mutations w
      → Safe init P (rollback_after_failure dev mutations cause) w
  unfolding rollback_after_failure
  rollback-Safe {A} init P mutations cause w h =
      report _ _ (rollback_loop-restores dev regs init mutations w h)
    where
      report :
          (fs : List RollbackFailure) (w' : World)
          → (fs ≡ [] → Unchanged init w')
          → Settled {A = A} init P (err (rollback_report dev cause fs)) w'
      report [] w' clean = inr (clean refl)
      report (f ∷ fs) w' clean = inl tt

  pub Safe-handle :
      {A B : Type 0} (init : PerformanceState → ClockDomain → ℤ) (Q : B → World → Type 0)
      (m : Exec World NvidiaError A) (f : A → Exec World NvidiaError B)
      (g : NvidiaError → Exec World NvidiaError B) (w : World)
      → ((a : A) → (m w).0 ≡ ok a → Safe init Q (f a) (m w).1)
      → ((x : NvidiaError) → (m w).0 ≡ err x → Safe init Q (g x) (m w).1)
      → Safe init Q (handle m f g) w
  Safe-handle init Q m f g w good bad = elim (Result-cases (m w).0) [
    | inl (a, e) ↦ rw e (good a e)
    | inr (x, e) ↦ rw e (bad x e)
  ]

  -- one write more, recorded with its prior value
  Restorable-write :
      (init : PerformanceState → ClockDomain → ℤ) (s : PerformanceState) (d : ClockDomain)
      (prior v : ℤ) (mutations : List Mutation) (w : World)
      → prior ≡ init s d
      → Restorable dev regs init mutations w
      → Restorable dev regs init
          ((s, d, prior) ∷ mutations)
          (read_offset s d (write_offset s d v w).1).1
  Restorable-write init s d prior v mutations w p h = record {
    priors = (p, h.priors);
    others = λ t e out.
        read_keeps s d _ t e ∙ write_frame s d v w t e (ground arith) ∙ h.others t e (ground arith);
  }

  Restorable-refused :
      (init : PerformanceState → ClockDomain → ℤ) (s : PerformanceState) (d : ClockDomain) (v : ℤ)
      (mutations : List Mutation) (w : World) (x : NvidiaError)
      → (write_offset s d v w).0 ≡ err x
      → Restorable dev regs init mutations w
      → Restorable dev regs init mutations (write_offset s d v w).1
  Restorable-refused init s d v mutations w x e h = record {
    priors = h.priors;
    others = λ t e' out. ground (arith, e, write_refused s d v w t e', h.others t e' out);
  }

  -- every recorded register is one of a targeted state
  abbrev pub Scoped : (PerformanceState → Bool) → List Mutation → Type 0
  Scoped targeted mutations =
      (t : PerformanceState) (e : ClockDomain) → targeted t ≡ false → listed t e mutations ≡ false

  Scoped-cons :
      (targeted : PerformanceState → Bool) (s : PerformanceState) (d : ClockDomain) (prior : ℤ)
      (mutations : List Mutation)
      → targeted s ≡ true
      → Scoped targeted mutations
      → Scoped targeted ((s, d, prior) ∷ mutations)
  Scoped-cons targeted s d prior mutations inside h t e out = elim (Bool-cases (state_eq s t)) [
    | inl hit ↦ cc (ap targeted (state_eq_sound s t hit))
    | inr miss ↦ rw (miss, h t e out)
  ]

  abbrev pub Tracked :
      (PerformanceState → ClockDomain → ℤ)
      → (PerformanceState → Bool)
      → List Mutation
      → World
      → Type 0
  Tracked init targeted mutations w =
      Restorable dev regs init mutations w × Scoped targeted mutations

  mutate_domain-Safe :
      (init : PerformanceState → ClockDomain → ℤ) (targeted : PerformanceState → Bool)
      (before : StateOffsets) (s : PerformanceState) (target : ClockOffsets) (d : ClockDomain)
      (mutations : List Mutation) (w : World)
      → (reading before d).current_mhz ≡ init s d
      → targeted s ≡ true
      → Tracked init targeted mutations w
      → Safe init (Tracked init targeted) (mutate_domain dev before s target d mutations) w
  unfolding mutate_domain
  mutate_domain-Safe init targeted before s target d mutations w prior inside h =
      elim (Bool-cases (eqb_ℤ (reading before d).current_mhz (for_domain target d))) [
        | inl already ↦ rw already h
        | inr differs ↦ rw differs (
            Safe-handle init Kept (write_offset s d requested) _ _ w
              (λ u _.
                Safe-handle init Kept (read_offset s d) _ _ _
                  (λ r _. elim (Bool-cases (eqb_ℤ r.current_mhz requested)) [
                    | inl stored ↦ rw stored recorded
                    | inr lost ↦ rw lost (rollback-Safe init Kept _ _ _ recorded.0)
                  ])
                  (λ x _. rollback-Safe init Kept _ x _ recorded.0))
              (λ x e.
                rollback-Safe init Kept mutations x _
                  (Restorable-refused init s d requested mutations w x e h.0)))
      ]
    where
      requested : ℤ
      requested = for_domain target d

      Kept : List Mutation → World → Type 0
      Kept = Tracked init targeted

      recorded :
          Kept
            ((s, d, (reading before d).current_mhz) ∷ mutations)
            (read_offset s d (write_offset s d requested w).1).1
      recorded = (
        Restorable-write init s d _ requested mutations w prior h.0,
        Scoped-cons targeted s d (reading before d).current_mhz mutations inside h.1,
      )

  pub find_state-Honest :
      (init : PerformanceState → ClockDomain → ℤ) (snapshot : OffsetSnapshot) (s : PerformanceState)
      (d : ClockDomain) (o : StateOffsets)
      → Honest init snapshot
      → find_state s snapshot ≡ some o
      → (reading o d).current_mhz ≡ init s d
  unfolding find_state reading
  find_state-Honest init [] s d o h e = cc
  find_state-Honest init (x ∷ rest) s core o h e =
      ground (arith, state_eq_sound x.state s, find_state-Honest init rest s core o h.1)
  find_state-Honest init (x ∷ rest) s memory o h e =
      ground (arith, state_eq_sound x.state s, find_state-Honest init rest s memory o h.1)

  pub mutate_targets-Safe :
      (init : PerformanceState → ClockDomain → ℤ) (targeted : PerformanceState → Bool)
      (previous : OffsetSnapshot) (targets : Targets) (mutations : List Mutation) (w : World)
      → Honest init previous
      → Present previous targets
      → All (λ (s, target). targeted s ≡ true) targets
      → Tracked init targeted mutations w
      → Safe init (Tracked init targeted) (mutate_targets dev previous targets mutations) w
  unfolding mutate_targets
  mutate_targets-Safe init targeted previous [] mutations w honest present inside h = h
  mutate_targets-Safe init targeted previous ((s, target) ∷ rest) mutations w honest present inside
        h =
      rw (found, required)
        (Safe-bind init Kept Kept (mutate_domain dev o s target core mutations) _ w
          (mutate_domain-Safe init targeted o s target core mutations w
            (find_state-Honest init previous s core o honest found) inside.0 h)
          λ ms1 w1 h1.
            Safe-bind init Kept Kept (mutate_domain dev o s target memory ms1) _ w1
              (mutate_domain-Safe init targeted o s target memory ms1 w1
                (find_state-Honest init previous s memory o honest found) inside.0 h1)
              λ ms2 w2 h2.
                mutate_targets-Safe init targeted previous rest ms2 w2 honest present.1 inside.1 h2)
    where
      Kept : List Mutation → World → Type 0
      Kept = Tracked init targeted

      o : StateOffsets
      o = present.0.0

      found : find_state s previous ≡ some o
      found = present.0.1
